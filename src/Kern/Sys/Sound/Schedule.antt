-- ===== src/Kern/Sys/Sound/Schedule.antt =====
-- `schedule` and the lists of the kernel.
use omb.Base.{
  ℕ, ◌≡◌, refl, ap, ◌∙◌, subst, Bool, true, false, not, Option, none, some, List, [], ◌∷◌, ◌++◌,
  arith, has, Bool-cases, Option-cases, inl, inr, ◌==◌,
}
use omb.Kern.State.{ProcState, is_dead, is_send, is_ready, Label, Kernel}
use omb.Kern.Proc.{ready_in, park, dispatch, schedule}
use omb.Kern.Proc.Choice.{first_ready}
use omb.Kern.Proc.Schedule.{Alive, chosen_by, next_proc-park, next_proc-park_idle}
use omb.Kern.Sys.Sound.{Steady, Calm, Steady-Calm, Kept, started, MayRun}

park-Calm : (l : Label) (k : Kernel) → started l ≡ true → Calm k (park l k)
unfolding park
park-Calm l k go = record {
  waiting = λ i. ground arith;
  waiting_on = λ i. ground arith;
  sends = λ i. ground arith;
  deads = λ i. ground arith;
  begun = λ i h. ground (arith, h, go);
  list_next = ground arith;
  list_proc = ground arith;
  alive = ground arith;
  nextpid = ground arith;
}

park-Steady :
    (l : Label) (k : Kernel) {xs : List ℕ} {ns q : ℕ → List ℕ}
    → started l ≡ true
    → Steady k xs ns q
    → Steady (park l k) xs ns q
unfolding park
park-Steady l k {xs} {ns} {q} go s =
    Steady-Calm k (park l k) xs ns q (park-Calm l k go) (λ u e. ground (arith, s.present u)) s

dispatch-Sound :
    (n : Option ℕ) (k : Kernel) (xs : List ℕ) (ns q : ℕ → List ℕ)
    → ((v : ℕ) → n ≡ some v → MayRun k v)
    → Steady k xs ns q
    → Kept (dispatch n k) xs ns q
unfolding dispatch
dispatch-Sound none k xs ns q may s = (
  record {
    steady =
        Steady-Calm k _ xs ns q
          (record {
            waiting = λ i. refl;
            waiting_on = λ i. refl;
            sends = λ i. refl;
            deads = λ i. refl;
            begun = λ i h. h;
            list_next = refl;
            list_proc = refl;
            alive = refl;
            nextpid = refl;
          })
          (λ u e. cc) s;
    busy = λ u e. cc;
  },
  cc,
)
dispatch-Sound (some v) k xs ns q may s =
    let ok = may v refl in
    (
      record {
        steady =
            Steady-Calm k _ xs ns q
              (record {
                begun = λ i h. ground (arith, h);
                waiting = λ i. ground arith;
                waiting_on = λ i. ground arith;
                sends = λ i. ground (arith, ok.0);
                deads = λ i. ground (arith, ok.1);
                list_next = refl;
                list_proc = refl;
                alive = refl;
                nextpid = refl;
              })
              (λ u e. ground arith) s;
        busy = λ u e. ground arith;
      },
      cc,
    )

first_ready-ready :
    (rdy : ℕ → Bool) (xs : List ℕ) (v : ℕ) → first_ready rdy xs ≡ some v → rdy v ≡ true
unfolding first_ready
first_ready-ready rdy [] v h = cc
first_ready-ready rdy (x ∷ xs) v h = ground (arith, first_ready-ready rdy xs v, ap rdy)

-- A list that has an element is split there.
pub split_at :
    (u : ℕ) (xs : List ℕ)
    → has u xs ≡ true
    → (front : List ℕ) × (back : List ℕ) × (xs ≡ front ++ u ∷ back)
split_at u [] h = cc
split_at u (x ∷ xs) h = elim (Bool-cases (x == u)) [
  | inl e ↦ ([], xs, ap (λ (t : ℕ). t ∷ xs) (ground arith))
  | inr e ↦
      let (front, back, s) = split_at u xs (ground arith) in
      (x ∷ front, back, ap (λ (t : List ℕ). x ∷ t) s)
]

may_run : (s : ProcState) → is_ready s ≡ true → (is_send s ≡ false) × (is_dead s ≡ false)
may_run s h = ground arith

chosen-MayRun :
    (k : Kernel) (order : List ℕ) (v : ℕ) → first_ready (ready_in k) order ≡ some v → MayRun k v
chosen-MayRun k order v e = may_run (k.procs v).state (first_ready-ready (ready_in k) order v e)

MayRun-park : (l : Label) (k : Kernel) (v : ℕ) → MayRun k v → MayRun (park l k) v
unfolding park
MayRun-park l k v m = (ground (arith, m.0), ground (arith, m.1))

-- `schedule` keeps the lists, and marks the new `up` as running.
pub schedule-Sound :
    (l : Label) (n : Option ℕ) (k : Kernel) (xs : List ℕ) (ns q : ℕ → List ℕ)
    → started l ≡ true
    → ((v : ℕ) → n ≡ some v → MayRun k v)
    → Steady k xs ns q
    → Kept (schedule l n k) xs ns q
unfolding schedule
schedule-Sound l (some v) k xs ns q go may s =
    dispatch-Sound (some v) (park l k) xs ns q (λ w e. MayRun-park l k w (may w e))
      (park-Steady l k go s)
schedule-Sound l none k xs ns q go may s = elim (Option-cases k.up) [
  | inl e ↦ rw (next_proc-park_idle l k xs e s.alive) (
      dispatch-Sound (chosen_by l k xs) (park l k) xs ns q (λ v c. chosen-MayRun (park l k) xs v c)
        (park-Steady l k go s))
  | inr (u, e) ↦
      let (front, back, at) = split_at u xs (s.live u ∙ ap not (s.present u e)) in
      let order = back ++ front ++ u ∷ [] in
      rw (next_proc-park l k u front back e (subst (λ t. Alive k t) at s.alive)) (
        dispatch-Sound (chosen_by l k order) (park l k) xs ns q
          (λ v c. chosen-MayRun (park l k) order v c) (park-Steady l k go s))
]
