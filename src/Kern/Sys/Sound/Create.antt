-- ===== src/Kern/Sys/Sound/Create.antt =====
-- A process that is created: what `proc_new` does to the lists.
use omb.Base.{
  ℕ, ◌≡◌, refl, ap, ◌∙◌, sym, subst, true, false, not, none, List, [], ◌∷◌, ◌++◌, arith, has,
  Bool-cases, inl, inr, if◌then◌else◌, ◌==◌, ==_iff,
}
use omb.Kern.Links.Seg.{has-append}
use omb.Kern.State.{Proc, at_proc_start, is_dead, is_send, Kernel}
use omb.Kern.Proc.{func_label, new_proc, proc_new}
use omb.Kern.Proc.Create.{Created, proc_new_lem}
use omb.Kern.Proc.Waiting.{Waits}
use omb.Kern.Sys.{created}
use omb.Kern.Sys.Queueing.{Waits-same}
use omb.Kern.Sys.Sound.{Queues, Steady, Sound, started, Kept}

empty_waiting : (k : Kernel) (l : ℕ) (ns : List ℕ) → Waits k l ns [] → (k.procs l).waiting ≡ none
empty_waiting k l [] w = w.holds.chain
empty_waiting k l (n ∷ ns) w = absurd w.names

new_started : started (func_label at_proc_start) ≡ true
unfolding func_label
new_started = refl

module _ (k : Kernel) (space page : ℕ) (xs : List ℕ) (ns q : ℕ → List ℕ) (s : Steady k xs ns q)
    (room : is_dead (k.procs k.nextpid).state ≡ true)
    (c : Created k space page xs (proc_new space page k)) where
  proc_at :
      (i : ℕ)
      → c.after.procs i ≡ (if k.nextpid == i then new_proc space page k.nextpid else k.procs i)
  unfolding func_label
  proc_at i = elim (Bool-cases (k.nextpid == i)) [
    | inl e ↦ rw e (ap c.after.procs (sym ((==_iff k.nextpid i).0 e)) ∙ c.fresh)
    | inr e ↦ rw e (c.others_same i (λ same. ground arith))
  ]

  away : (i : ℕ) → is_dead (k.procs i).state ≡ false → (k.nextpid == i) ≡ false
  away i h = ground (arith, ap (λ (j : ℕ). is_dead (k.procs j).state))

  same_proc : (i : ℕ) → (k.nextpid == i) ≡ false → c.after.procs i ≡ k.procs i
  same_proc i h = proc_at i ∙ rw h refl

  dead_at :
      (i : ℕ)
      → is_dead (c.after.procs i).state
        ≡ (if k.nextpid == i then false else is_dead (k.procs i).state)
  dead_at i = ap (λ (p : Proc). is_dead p.state) (proc_at i) ∙ ground arith

  send_at : (i : ℕ) → is_send (c.after.procs i).state ≡ is_send (k.procs i).state
  send_at i = elim (Bool-cases (k.nextpid == i)) [
    | inl e ↦ ground (arith, proc_at i, ap (λ (j : ℕ). is_dead (k.procs j).state))
    | inr e ↦ ap (λ (p : Proc). is_send p.state) (same_proc i e)
  ]

  send-away : (i : ℕ) → is_send (k.procs i).state ≡ true → (k.nextpid == i) ≡ false
  send-away i h = away i (ground arith)

  same_waiting : (l : ℕ) → (c.after.procs l).waiting ≡ (k.procs l).waiting
  same_waiting l = elim (Bool-cases (k.nextpid == l)) [
    | inl e ↦
        let gone : is_dead (k.procs l).state ≡ true =
          ground (arith, ap (λ (j : ℕ). is_dead (k.procs j).state)) in
        ap (λ (p : Proc). p.waiting) (proc_at l)
        ∙ rw e (
            sym (
              empty_waiting k l (ns l)
                (subst (λ ps. Waits k l (ns l) ps) (s.queues.nobody l gone) (s.queues.waits l))))
    | inr e ↦ ap (λ (p : Proc). p.waiting) (same_proc l e)
  ]

  new-Queues : Queues c.after ns q
  new-Queues = record {
    waits = λ l.
        Waits-same k c.after l (ns l) (q l) (same_waiting l) c.list_next_same c.list_proc_same
          (s.queues.waits l);
    apart = s.queues.apart;
    blocked = λ l i h.
        let b = s.queues.blocked l i h in
        (send_at i ∙ b.0, ap (λ (p : Proc). p.waiting_on) (same_proc i (send-away i b.0)) ∙ b.1);
    in_queue = λ i h.
        let was = sym (send_at i) ∙ h in
        let f = s.queues.in_queue i was in
        (f.0, ap (λ (p : Proc). p.waiting_on) (same_proc i (send-away i was)) ∙ f.1, f.2);
    once = s.queues.once;
    nobody = λ l h. s.queues.nobody l (ground (arith, dead_at l));
  }

  pub new-Steady : Steady c.after (xs ++ k.nextpid ∷ []) ns q
  new-Steady = record {
    queues = new-Queues;
    alive = c.alive;
    live = λ i. ground (arith, has-append i xs (k.nextpid ∷ []), s.live i, dead_at i);
    slot = c.next_slot;
    present = λ u e. ground (arith, dead_at u, s.present u (sym c.up_same ∙ e));
    begun = λ i h. ground (arith, proc_at i, s.begun i, new_started);
  }

  pub new-Sound : Sound k xs ns q → Sound c.after (xs ++ k.nextpid ∷ []) ns q
  new-Sound t = record {
    steady = new-Steady;
    busy = λ u e.
        let was = t.busy u (sym c.up_same ∙ e) in
        ap (λ (p : Proc). p.state) (same_proc u (away u (ground arith))) ∙ was;
  }

-- A slot that is dead is not in the list of all processes.
pub dead-out :
    (k : Kernel) (xs : List ℕ) (ns q : ℕ → List ℕ)
    → Steady k xs ns q
    → is_dead (k.procs k.nextpid).state ≡ true
    → has k.nextpid xs ≡ false
dead-out k xs ns q s room = s.live k.nextpid ∙ ap not room

-- `proc_new` keeps the kernel sound, with the new process among the living.
pub created-Kept :
    (k : Kernel) (space page : ℕ) (xs : List ℕ) (ns q : ℕ → List ℕ)
    → Sound k xs ns q
    → is_dead (k.procs k.nextpid).state ≡ true
    → Kept (created k (proc_new space page k)) (xs ++ k.nextpid ∷ []) ns q
created-Kept k space page xs ns q s room =
    let c =
      proc_new_lem k space page xs s.steady.alive (dead-out k xs ns q s.steady room)
        s.steady.slot in
    rw c.ends (new-Sound k space page xs ns q s.steady room c s, cc)
