-- ===== src/Kern/Proc/Schedule.antt =====
-- `schedule` of kern/proc.c: who runs afterwards, and in which state each process is.
use omb.Base.{
  ℕ, ◌≤◌, ◌≡◌, refl, ap, ◌∙◌, ◌≢◌, Bool, true, false, Option, none, some, List, [], ◌∷◌, ◌++◌, ◌↔◌,
  arith, AllBelow, length, length_le_of_Distinct, length-append, if◌then◌else◌, ◌==◌, ◌||◌, ◌&&◌,
  fun_ext, Bool-cases, inl, inr, ==_iff,
}
use omb.Kern.Links.Seg.{Holds}
use omb.Kern.State.{
  ProcState, dead, ready, oncpu, is_ready, is_oncpu, Label, Kernel, max_procs, Outcome, switched,
  idle, hangs,
}
use omb.Kern.Proc.{ready_in, next_proc, next_proc_in, park, dispatch, dispatch_found, schedule}
use omb.Kern.Proc.Choice.{first_ready, next_proc_in_running, next_proc_in_idle}

-- The list of all processes: each in the table, and each once.
pub record Alive (k : Kernel) (xs : List ℕ) : Type 0 where
  pub holds : Holds k.alive xs
  pub below : AllBelow max_procs xs

-- No process but `up` is marked as running.
abbrev pub OnlyUp : Kernel → Type 0
OnlyUp k = (i : ℕ) → (k.procs i).state ≡ oncpu → k.up ≡ some i

oncpu_iff : (s : ProcState) → (is_oncpu s ≡ true) ↔ (s ≡ oncpu)
oncpu_iff dead = ground arith
oncpu_iff s = ground arith

-- The state that `schedule` leaves a process in that is not chosen.
abbrev pub parked : ProcState → ProcState
parked s = if is_oncpu s then ready else s

parked-ne-oncpu : (s : ProcState) → parked s ≢ oncpu
parked-ne-oncpu s = ground arith

abbrev pub runs : Kernel → ℕ → Bool
runs k i = elim k.up [ none ↦ false | some u ↦ u == i ]

park-state :
    (l : Label) (k : Kernel) (i : ℕ)
    → ((park l k).procs i).state
      ≡ (if runs k i then parked (k.procs i).state else (k.procs i).state)
unfolding park
park-state l k i = ground arith

pub park-ne-oncpu :
    (l : Label) (k : Kernel) → OnlyUp k → (i : ℕ) → ((park l k).procs i).state ≢ oncpu
unfolding park
park-ne-oncpu l k only i = ground (arith, only i)

pub park-up : (l : Label) (k : Kernel) → (park l k).up ≡ k.up
unfolding park
park-up l k = ground arith

pub park-alive : (l : Label) (k : Kernel) → (park l k).alive ≡ k.alive
unfolding park
park-alive l k = ground arith

-- The kernel after `schedule`, by how it ended: exactly the process `up` is marked as running.
pub data Exclusive (k : Kernel) : Outcome → Type 0 where
  runs_only : (i : ℕ) → k.up ≡ some i → (k.procs i).state ≡ oncpu → OnlyUp k → Exclusive k switched
  runs_nothing : k.up ≡ none → ((i : ℕ) → (k.procs i).state ≢ oncpu) → Exclusive k idle
  is_stuck : ((i : ℕ) → (k.procs i).state ≢ oncpu) → Exclusive k hangs

pub Exclusive-OnlyUp : (k : Kernel) (o : Outcome) → Exclusive k o → OnlyUp k
Exclusive-OnlyUp k _ (runs_only i a b only) = only
Exclusive-OnlyUp k _ (runs_nothing a quiet) = λ i h. absurd (quiet i h)
Exclusive-OnlyUp k _ (is_stuck quiet) = λ i h. absurd (quiet i h)

dispatch-Exclusive :
    (n : Option ℕ) (k : Kernel)
    → ((i : ℕ) → (k.procs i).state ≢ oncpu)
    → let (k', o) = dispatch n k in Exclusive k' o
unfolding dispatch
dispatch-Exclusive none k quiet = runs_nothing refl quiet
dispatch-Exclusive (some v) k quiet =
    runs_only v refl (ground arith) (λ i h. ground (arith, quiet i))

dispatch_found-Exclusive :
    (n : Option (Option ℕ)) (k : Kernel)
    → ((i : ℕ) → (k.procs i).state ≢ oncpu)
    → let (k', o) = dispatch_found n k in Exclusive k' o
dispatch_found-Exclusive none k quiet = is_stuck quiet
dispatch_found-Exclusive (some n) k quiet = dispatch-Exclusive n k quiet

-- If no process but `up` is marked PROC_oncpu, then after `schedule`, whatever process it is
-- given, none but the new `up` is: where it switches, the new `up` is PROC_oncpu, and where it
-- idles, or where its search does not end, no process is, and where it idles there is no `up`.
pub schedule-Exclusive :
    (l : Label) (n : Option ℕ) (k : Kernel)
    → OnlyUp k
    → let (k', o) = schedule l n k in Exclusive k' o
unfolding schedule
schedule-Exclusive l (some n) k only =
    dispatch-Exclusive (some n) (park l k) (park-ne-oncpu l k only)
schedule-Exclusive l none k only =
    dispatch_found-Exclusive (next_proc (park l k)) (park l k) (park-ne-oncpu l k only)

few : (k : Kernel) (xs : List ℕ) → Alive k xs → length xs ≤ max_procs
few k xs a = length_le_of_Distinct max_procs xs a.below a.holds.distinct

-- Whether a process counts as ready when `schedule` is called: it is ready, or it runs and would go on.
abbrev pub may_run : Kernel → (u i : ℕ) → Bool
may_run k u i = is_ready (k.procs i).state || ((u == i) && is_oncpu (k.procs i).state)

ready_in-park : (l : Label) (k : Kernel) (u : ℕ) → k.up ≡ some u → ready_in (park l k) ≡ may_run k u
unfolding park
ready_in-park l k u e = fun_ext (λ i. rw e (elim (Bool-cases (u == i)) [
  | inl s ↦ ground (arith, (==_iff u i).0 s, ap (λ (j : ℕ). (k.procs j).state))
  | inr n ↦ ground arith
]))

abbrev pub chosen_by : Label → Kernel → List ℕ → Option ℕ
chosen_by l k order = first_ready (ready_in (park l k)) order

dispatch-up : (n : Option ℕ) (k : Kernel) → (dispatch n k).0.up ≡ n
unfolding dispatch
dispatch-up none k = refl
dispatch-up (some v) k = refl

dispatch-ends : (n : Option ℕ) (k : Kernel) → (dispatch n k).1 ≢ hangs
unfolding dispatch
dispatch-ends none k = cc
dispatch-ends (some v) k = cc

pub next_proc-park :
    (l : Label) (k : Kernel) (u : ℕ) (front back : List ℕ)
    → k.up ≡ some u
    → Alive k (front ++ u ∷ back)
    → next_proc (park l k) ≡ some (chosen_by l k (back ++ front ++ u ∷ []))
unfolding next_proc
next_proc-park l k u front back e a =
    let n = few k (front ++ u ∷ back) a in
    ap (next_proc_in (ready_in (park l k)) (park l k).alive) (park-up l k ∙ e)
    ∙ ap (λ s. next_proc_in (ready_in (park l k)) s (some u)) (park-alive l k)
    ∙ next_proc_in_running (ready_in (park l k)) k.alive u front back a.holds
        (omega (arith, n, length-append front (u ∷ back)))

pub next_proc-park_idle :
    (l : Label) (k : Kernel) (xs : List ℕ)
    → k.up ≡ none
    → Alive k xs
    → next_proc (park l k) ≡ some (chosen_by l k xs)
unfolding next_proc
next_proc-park_idle l k xs e a =
    ap (next_proc_in (ready_in (park l k)) (park l k).alive) (park-up l k ∙ e)
    ∙ ap (λ s. next_proc_in (ready_in (park l k)) s none) (park-alive l k)
    ∙ next_proc_in_idle (ready_in (park l k)) k.alive xs a.holds (few k xs a)

-- If `u` runs and the list of all processes is `front`, `u`, `back`, then `schedule(nil)` chooses
-- the first process that is ready in the order `back`, `front`, `u`, where `u` itself counts as
-- ready if it was PROC_oncpu; it chooses none only if none is ready, and its search ends.
pub schedule_round_robin :
    (l : Label) (k : Kernel) (u : ℕ) (front back : List ℕ)
    → k.up ≡ some u
    → Alive k (front ++ u ∷ back)
    → let (k', o) = schedule l none k in
      (k'.up ≡ first_ready (may_run k u) (back ++ front ++ u ∷ [])) × (o ≢ hangs)
unfolding schedule
schedule_round_robin l k u front back e a = rw (next_proc-park l k u front back e a) (
  dispatch-up (chosen_by l k (back ++ front ++ u ∷ [])) (park l k)
      ∙ ap (λ (r : ℕ → Bool). first_ready r (back ++ front ++ u ∷ [])) (ready_in-park l k u e),
  dispatch-ends (chosen_by l k (back ++ front ++ u ∷ [])) (park l k),
)

-- If no process runs and the list of all processes is `xs`, then `schedule(nil)` chooses the
-- first of them that is ready, or none if none is, and its search ends.
pub schedule_from_idle :
    (l : Label) (k : Kernel) (xs : List ℕ)
    → k.up ≡ none
    → Alive k xs
    → let (k', o) = schedule l none k in
      (k'.up ≡ first_ready (ready_in (park l k)) xs) × (o ≢ hangs)
unfolding schedule
schedule_from_idle l k xs e a =
    rw (next_proc-park_idle l k xs e a)
      (dispatch-up (chosen_by l k xs) (park l k), dispatch-ends (chosen_by l k xs) (park l k))
