-- ===== src/Kern/Sys/Sound/Reply.antt =====
-- Replies: what they change, and the waiting lists beside it.
use omb.Base.{ℕ, ◌≡◌, ◌≢◌, refl, true, some, List, arith, Bool-cases, inl, inr, subst}
use mathlib.Core.Option.{some-injective}
use omb.Kern.State.{recv, Label, in_kreply_recv, Kernel, set_state, Outcome, hangs}
use omb.Kern.Sys.{pass_message, may_reply, answer, kreply, kreply_recv}
use omb.Kern.Sys.Sound.{Steady, Sound, Kept, started, Calm, Steady-Calm, MayRun}
use omb.Kern.Sys.Sound.Schedule.{schedule-Sound}

module _ (u p ret : ℕ) (k : Kernel) where
  answer-Calm : Calm k (answer u p ret k)
  unfolding answer pass_message
  answer-Calm = record {
    waiting = λ i. refl;
    waiting_on = λ i. refl;
    begun = λ i h. h;
    sends = λ i. refl;
    deads = λ i. refl;
    list_next = refl;
    list_proc = refl;
    alive = refl;
    nextpid = refl;
  }

  waiting-MayRun : may_reply k u p ≡ true → MayRun (answer u p ret k) p
  unfolding answer pass_message
  waiting-MayRun m = (ground arith, ground arith)

  listener-MayRun : may_reply k u p ≡ true → MayRun (set_state (answer u p ret k) u recv) p
  unfolding answer pass_message
  listener-MayRun m = (ground arith, ground arith)

module _ (u p ret : ℕ) (k : Kernel) {xs : List ℕ} {ns q : ℕ → List ℕ} where
  answer-Steady : Steady k xs ns q → Steady (answer u p ret k) xs ns q
  unfolding answer pass_message
  answer-Steady s = Steady-Calm k (answer u p ret k) xs ns q (answer-Calm u p ret k) s.present s

  pub kreply-Sound :
      (l : Label) (bad : Outcome)
      → started l ≡ true
      → bad ≢ hangs
      → Sound k xs ns q
      → Kept (kreply l bad u p ret k) xs ns q
  unfolding kreply
  kreply-Sound l bad go fine s = elim (Bool-cases (may_reply k u p)) [
    | inl e ↦ rw e (
        schedule-Sound l (some p) (answer u p ret k) xs ns q go
          (λ v same.
            subst (MayRun (answer u p ret k)) (some-injective p v same)
              (waiting-MayRun u p ret k e))
          (answer-Steady s.steady))
    | inr e ↦ rw e (s, fine)
  ]

  module _ (pid : ℕ) (s : Sound k xs ns q) (up : k.up ≡ some u) where
    listening-Steady : Steady (set_state (answer u p ret k) u recv) xs ns q
    unfolding answer pass_message
    listening-Steady =
        let runs = s.busy u up in
        Steady-Calm k (set_state (answer u p ret k) u recv) xs ns q
          (record {
            waiting = λ i. ground arith;
            waiting_on = λ i. ground arith;
            begun = λ i h. ground (arith, h);
            sends = λ i. ground (arith, runs);
            deads = λ i. ground (arith, runs);
            list_next = refl;
            list_proc = refl;
            alive = refl;
            nextpid = refl;
          })
          (λ v e. ground (arith, s.steady.present v e, runs)) s.steady

    pub kreply_recv-Sound : Kept (kreply_recv u p ret pid k) xs ns q
    unfolding kreply_recv
    kreply_recv-Sound = elim (Bool-cases (may_reply k u p)) [
      | inl e ↦ rw e (
          schedule-Sound (in_kreply_recv pid) (some p) (set_state (answer u p ret k) u recv) xs ns q
            refl
            (λ v same.
              subst (MayRun (set_state (answer u p ret k) u recv)) (some-injective p v same)
                (listener-MayRun u p ret k e))
            listening-Steady)
      | inr e ↦ rw e (s, cc)
    ]
