-- ===== src/Kern/Sys/Sound/Send.antt =====
-- A process that goes to wait: what `ksend` does to the waiting lists.
use omb.Base.{
  ℕ, ◌≡◌, refl, ap, ◌∙◌, sym, subst, false, not, none, some, List, [], ◌∷◌, ◌++◌, ◌<◌, arith,
  Bool-cases, inl, inr, if◌then◌else◌, update,
}
use omb.Kern.State.{send, is_dead, is_recv, in_ksend, Kernel, set_state, max_procs, returned, err}
use omb.Kern.Proc.{proc_list_add}
use omb.Kern.Proc.Waiting.{Queued, proc_list_add_lem}
use omb.Kern.Sys.Queueing.{Waits-same, waiting_for, waiting_for-Waits}
use omb.Kern.Sys.{hand_over, ksend}
use omb.Kern.Sys.Sound.{Steady, Sound, Kept, Alive-same, MayRun, Next, Next-stays, joins}
use omb.Kern.Sys.Sound.Schedule.{schedule-Sound}
use omb.Kern.Sys.Sound.Asleep.{asleep_state, asleep-Queues}

-- The receiver that `ksend` hands over to is not in a waiting list, nor dead.
receiver-MayRun :
    (k : Kernel) (p v : ℕ)
    → (if is_recv (k.procs p).state then some p else none) ≡ some v
    → MayRun k v
receiver-MayRun k p v e = (
  ground (arith, ap (λ (i : ℕ). (k.procs i).state)),
  ground (arith, ap (λ (i : ℕ). (k.procs i).state)),
)

module _ (k : Kernel) (u p : ℕ) (xs : List ℕ) (ns q : ℕ → List ℕ) (s : Sound k xs ns q)
    (up : k.up ≡ some u) where
  refused_state : (i : ℕ) → ((waiting_for k u p).procs i).state ≡ (k.procs i).state
  refused_state i = ground arith

  refused-Sound : Sound (waiting_for k u p) xs ns q
  refused-Sound =
      let runs = s.busy u up in
      let w = s.steady.queues in
      record {
        steady = record {
          queues = record {
            waits = λ l.
                Waits-same k (waiting_for k u p) l (ns l) (q l) (ground arith) refl refl
                  (w.waits l);
            apart = w.apart;
            blocked = λ l i h. (
              ground (arith, (w.blocked l i h).0),
              ground (arith, (w.blocked l i h).0, (w.blocked l i h).1),
            );
            in_queue =
                λ i h. let f = w.in_queue i (ground arith) in (f.0, ground (arith, f.1), f.2);
            once = w.once;
            nobody = λ l h. w.nobody l (ground arith);
          };
          alive = Alive-same k (waiting_for k u p) xs refl s.steady.alive;
          live = λ i. s.steady.live i ∙ ap (λ t. not (is_dead t)) (sym (refused_state i));
          slot = s.steady.slot;
          present = λ i e. ap is_dead (refused_state i) ∙ s.steady.present i e;
          begun = λ i h. ground (arith, s.steady.begun i (sym (ap is_dead (refused_state i)) ∙ h));
        };
        busy = λ i e. refused_state i ∙ s.busy i e;
      }

  module _ (alive : is_dead (k.procs p).state ≡ false)
      (a : Queued
        (waiting_for k u p)
        p
        u
        (ns p)
        (q p)
        (proc_list_add p u (waiting_for k u p))) where
    asleep_dead :
        (i : ℕ) → is_dead ((set_state a.after u send).procs i).state ≡ is_dead (k.procs i).state
    asleep_dead i =
        ground
          (arith, asleep_state k u p xs ns q s.steady.queues (s.busy u up) alive a i, s.busy u up)

    asleep-Steady :
        Steady
          (set_state a.after u send)
          xs
          (update ns p (ns p ++ a.entry ∷ []))
          (update q p (q p ++ u ∷ []))
    asleep-Steady = record {
      queues = asleep-Queues k u p xs ns q s.steady.queues (s.busy u up) alive a;
      alive = Alive-same k (set_state a.after u send) xs a.alive_same s.steady.alive;
      live = λ i. s.steady.live i ∙ ap not (sym (asleep_dead i));
      slot = subst (λ n. n < max_procs) (sym a.nextpid_same) s.steady.slot;
      present = λ i e. asleep_dead i ∙ s.steady.present i (sym a.up_same ∙ e);
      begun = λ i h. ground (arith, a.same i, a.same u, s.steady.begun i (sym (asleep_dead i) ∙ h));
    }

    handed :
        Kept
          (hand_over p (set_state a.after u send))
          xs
          (update ns p (ns p ++ a.entry ∷ []))
          (update q p (q p ++ u ∷ []))
    handed =
        schedule-Sound in_ksend _ (set_state a.after u send) xs _ _ refl
          (receiver-MayRun (set_state a.after u send) p) asleep-Steady

    pub sent-Next : Next k q (hand_over p (set_state a.after u send))
    sent-Next = record {
      all = xs;
      entries = update ns p (ns p ++ a.entry ∷ []);
      queue = update q p (q p ++ u ∷ []);
      sound = handed.0;
      ends = handed.1;
      move = joins u p up refl;
    }

-- `ksend` keeps the kernel sound: nothing joins a list, or the sender joins that of the receiver.
pub ksend-Next :
    (k : Kernel) (u p : ℕ) (xs : List ℕ) (ns q : ℕ → List ℕ)
    → Sound k xs ns q
    → k.up ≡ some u
    → Next k q (ksend u p k)
unfolding ksend
ksend-Next k u p xs ns q s up = elim (Bool-cases (is_dead (k.procs p).state)) [
  | inl d ↦ rw (ksend, d) (Next-stays k (k, returned err) xs ns q (s, cc))
  | inr d ↦
      elim (proc_list_add_lem (waiting_for k u p) p u (ns p) (q p)
        (waiting_for-Waits k u p (ns p) (q p) (s.steady.queues.waits p))) [
          | inl (e, f) ↦
              rw (ksend, d, e)
                (Next-stays k (waiting_for k u p, returned err) xs ns q
                  (refused-Sound k u p xs ns q s up, cc))
          | inr a ↦ rw (ksend, d, a.ends) (sent-Next k u p xs ns q s up d a)
        ]
]
