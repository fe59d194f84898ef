-- ===== src/Kern/Sys/Fair.antt =====
-- Rounds of the system tick, while programs only compute: who comes to run.
mod Turn
use omb.Base.{
  ℕ, zero, suc, ◌+◌, ◌<◌, ◌≤◌, ◌≡◌, ◌≢◌, refl, ◌∙◌, sym, ap, subst, ◌⊎◌, inl, inr, Bool, true,
  false, Option, none, some, List, [], ◌∷◌, ◌++◌, append_assoc, arith, has, Bool-cases, length,
  length-append, get_or, drop, ap₂, if◌then◌else◌, ◌==◌, ==_iff, ◌||◌,
}
use omb.Board.Timer.{clear_irq}
use omb.Kern.Links.Seg.{Holds, has-append}
use omb.Kern.Sys.Sound.Schedule.{split_at}
use omb.Kern.State.{
  Label, cleared, at_proc_start, at_proc0_start, in_ksend, in_krecv, in_kreply, in_start_reply,
  in_kreply_recv, in_systick, oncpu, is_ready, Kernel,
}
use omb.Kern.Proc.{ready_in, park, dispatch, dispatch_found, schedule}
use omb.Kern.Proc.Choice.{first_ready}
use omb.Kern.Proc.Schedule.{Alive, chosen_by, next_proc-park, park-alive}
use omb.Kern.Sys.Fair.Turn.{turn_on, first_among}
use omb.Kern.Sys.{Proc0, resume_at, resume, systick_handler}

-- A system tick and what follows it.
abbrev pub round : Proc0 → Kernel → Kernel
round z k = (resume z (systick_handler k).0).0

abbrev pub rounds : Proc0 → ℕ → Kernel → Kernel
rounds z zero k = k
rounds z (suc n) k = rounds z n (round z k)

-- Where a process goes back to its program at once.
abbrev pub is_computing : Label → Bool
is_computing cleared = false
is_computing at_proc_start = false
is_computing at_proc0_start = true
is_computing in_ksend = true
is_computing (in_krecv c pid) = false
is_computing in_kreply = true
is_computing (in_start_reply pc sp) = true
is_computing (in_kreply_recv pid) = false
is_computing in_systick = true

-- `u` runs, and the ready processes compute.
pub record Computes (k : Kernel) (xs : List ℕ) (u : ℕ) : Type 0 where
  pub alive : Alive k xs
  pub up : k.up ≡ some u
  pub running : (k.procs u).state ≡ oncpu
  pub computing :
      (i : ℕ) → is_ready (k.procs i).state ≡ true → is_computing (k.procs i).label ≡ true

resume_at-computing :
    (z : Proc0) (l : Label) (u : ℕ) (k : Kernel) → is_computing l ≡ true → (resume_at z l u k).0 ≡ k
unfolding resume_at
resume_at-computing z cleared u k c = cc
resume_at-computing z at_proc_start u k c = cc
resume_at-computing z at_proc0_start u k c = refl
resume_at-computing z in_ksend u k c = refl
resume_at-computing z (in_krecv d pid) u k c = cc
resume_at-computing z in_kreply u k c = refl
resume_at-computing z (in_start_reply pc sp) u k c = refl
resume_at-computing z (in_kreply_recv pid) u k c = cc
resume_at-computing z in_systick u k c = refl

-- A round that brings `w` to the processor.
record Turned (k k' : Kernel) (xs : List ℕ) (w : ℕ) : Type 0 where
  pub computes : Computes k' xs w
  pub still :
      (i : ℕ) → is_ready (k.procs i).state ≡ true → w ≢ i → is_ready (k'.procs i).state ≡ true

module _ (z : Proc0) (k : Kernel) (front back : List ℕ) (u : ℕ)
    (s : Computes k (front ++ u ∷ back) u) where
  abbrev ticked : Kernel
  ticked = record k { timer = clear_irq k.timer }

  abbrev parked : Kernel
  parked = park in_systick ticked

  ticked-Alive : Alive ticked (front ++ u ∷ back)
  ticked-Alive = record { holds = s.alive.holds; below = s.alive.below }

  parked-Alive : Alive parked (front ++ u ∷ back)
  parked-Alive = record {
    holds =
        subst (λ t. Holds t (front ++ u ∷ back)) (sym (park-alive in_systick ticked)) s.alive.holds;
    below = s.alive.below;
  }

  still_ready : (i : ℕ) → is_ready (k.procs i).state ≡ true → ready_in parked i ≡ true
  unfolding park
  still_ready i h = ground (arith, s.up)

  parked-computing : (i : ℕ) → ready_in parked i ≡ true → is_computing (parked.procs i).label ≡ true
  unfolding park
  parked-computing i h = ground (arith, s.up, s.computing i)

  module _ (w : ℕ) (ready : ready_in parked w ≡ true)
      (first : first_ready (ready_in parked) ((back ++ front) ++ u ∷ []) ≡ some w) where
    abbrev switched_to : Kernel
    switched_to = (dispatch (some w) parked).0

    ticks_to : (systick_handler k).0 ≡ switched_to
    unfolding systick_handler schedule
    ticks_to =
        let found = next_proc-park in_systick ticked u front back s.up ticked-Alive in
        ap (λ n. (dispatch_found n parked).0) (found ∙ ap some first)

    goes_on : (resume z switched_to).0 ≡ switched_to
    unfolding resume dispatch
    goes_on =
        resume_at-computing z (switched_to.procs w).label w switched_to
          (ground (arith, parked-computing w ready))

    switched-Turned : Turned k switched_to (front ++ u ∷ back) w
    unfolding dispatch
    switched-Turned = record {
      computes = record {
        alive = record { holds = parked-Alive.holds; below = parked-Alive.below };
        up = refl;
        running = ground arith;
        computing = λ i h. ground (arith, parked-computing i);
      };
      still = λ i h ne. ground (arith, still_ready i h);
    }

    round-Turned : Turned k (round z k) (front ++ u ∷ back) w
    round-Turned =
        subst (λ (k' : Kernel). Turned k k' (front ++ u ∷ back) w)
          (sym (ap (λ (k' : Kernel). (resume z k').0) ticks_to ∙ goes_on)) switched-Turned

-- What stands before `v` in the order of choice gets shorter with each round.
reaches :
    (n : ℕ) (z : Proc0) (k : Kernel) (front back : List ℕ) (u : ℕ) (pre : List ℕ) (v : ℕ)
    (post : List ℕ)
    → Computes k (front ++ u ∷ back) u
    → (back ++ front) ++ u ∷ [] ≡ pre ++ v ∷ post
    → is_ready (k.procs v).state ≡ true
    → length pre < n
    → (m : ℕ) × (m ≤ suc (length pre)) × ((rounds z m k).up ≡ some v)
reaches zero z k front back u pre v post s o ready lt = absurd (omega arith)
reaches (suc n) z k front back u pre v post s o ready lt =
    let rdy = ready_in (parked z k front back u s) in
    elim (first_among rdy pre v post (still_ready z k front back u s v ready)) [
      | inl h ↦
          let t =
            round-Turned z k front back u s v (still_ready z k front back u s v ready)
              (ap (first_ready rdy) o ∙ h) in
          (1, omega arith, t.computes.up)
      | inr (a, w, b, p, q, h) ↦
          let t = round-Turned z k front back u s w q (ap (first_ready rdy) o ∙ h) in
          elim (Bool-cases (w == v)) [
            | inl e ↦ (1, omega arith, t.computes.up ∙ ap some ((==_iff w v).0 e))
            | inr e ↦
                let split : (back ++ front) ++ u ∷ [] ≡ a ++ w ∷ (b ++ v ∷ post) =
                  o ∙ ap (λ (l : List ℕ). l ++ v ∷ post) p ∙ append_assoc a (w ∷ b) (v ∷ post) in
                let (front', back', same, order) =
                  turn_on front back u w a (b ++ v ∷ post) split
                    (omega (arith, length-append b (v ∷ post))) in
                let order' : (back' ++ front') ++ w ∷ [] ≡ b ++ v ∷ ((post ++ a) ++ w ∷ []) =
                  ap (λ (l : List ℕ). l ++ w ∷ []) (order ∙ append_assoc b (v ∷ post) a)
                  ∙ append_assoc b (v ∷ (post ++ a)) (w ∷ []) in
                let before = ap length p ∙ length-append a (w ∷ b) in
                let (m, few, up) =
                  reaches n z (round z k) front' back' w b v ((post ++ a) ++ w ∷ [])
                    (subst (λ (l : List ℕ). Computes (round z k) l w) same t.computes) order'
                    (t.still v ready (λ i. ground arith)) (omega (arith, before)) in
                (suc m, omega (arith, before), up)
          ]
    ]

-- If `u` runs, the list of all processes is `front`, `u`, `back`, and each process that is ready
-- is at a label where it goes back to its program at once, then a ready process of the list comes
-- to run after at most as many rounds as there are processes in the list, where a round is a
-- system tick and what follows the switch.
pub ticks_reach :
    (z : Proc0) (k : Kernel) (front back : List ℕ) (u v : ℕ)
    → Computes k (front ++ u ∷ back) u
    → has v (front ++ u ∷ back) ≡ true
    → is_ready (k.procs v).state ≡ true
    → (m : ℕ) × (m ≤ length (front ++ u ∷ back)) × ((rounds z m k).up ≡ some v)
ticks_reach z k front back u v s member ready =
    let order = (back ++ front) ++ u ∷ [] in
    let inside : has v order ≡ true = ground (
      arith,
      has-append v (back ++ front) (u ∷ []),
      has-append v back front,
      has-append v front (u ∷ back),
      member,
    ) in
    let (pre, post, at) = split_at v order inside in
    let (m, few, up) =
      reaches (suc (length pre)) z k front back u pre v post s at ready (omega arith) in
    (
      m,
      omega (
        arith,
        few,
        ap length at,
        length-append pre (v ∷ post),
        length-append (back ++ front) (u ∷ []),
        length-append back front,
        length-append front (u ∷ back),
      ),
      up,
    )
