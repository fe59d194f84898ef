-- ===== src/Kern/Sys/Sound/Asleep.antt =====
-- A waiting list that a process joins, and the queues that result.
use omb.Base.{
  ℕ, ◌≡◌, refl, ap, subst, ◌≢◌, true, false, some, List, [], ◌∷◌, ◌++◌, arith, has, Distinct,
  Bool-cases, inl, inr, if◌then◌else◌, ◌==◌, ==_iff, ==_refl, update,
}
use omb.Kern.Links.Seg.{has-append, Distinct-snoc}
use omb.Kern.State.{send, oncpu, is_dead, is_send, Kernel, set_state}
use omb.Kern.Proc.{proc_list_add}
use omb.Kern.Proc.Waiting.{Waits, Queued, has_of_Names}
use omb.Kern.Sys.Queueing.{Waits-same, waiting_for}
use omb.Kern.Sys.Sound.{Queues}
use omb.Kern.Sys.Sound.Frame.{Waits-frame}

module _ (k : Kernel) (u p : ℕ) (xs : List ℕ) (ns q : ℕ → List ℕ) (s : Queues k ns q)
    (runs : (k.procs u).state ≡ oncpu) (alive : is_dead (k.procs p).state ≡ false)
    (a : Queued (waiting_for k u p) p u (ns p) (q p) (proc_list_add p u (waiting_for k u p))) where
  abbrev asleep : Kernel
  asleep = set_state a.after u send

  abbrev entries : ℕ → List ℕ
  entries = update ns p (ns p ++ a.entry ∷ [])

  abbrev pub joined : ℕ → List ℕ
  joined = update q p (q p ++ u ∷ [])

  entry-out : (l : ℕ) → has a.entry (ns l) ≡ false
  entry-out l = has_of_Names k.list_proc a.entry (ns l) (q l) (s.waits l).names a.entry_free

  sender-out : (l : ℕ) → has u (q l) ≡ false
  sender-out l = elim (Bool-cases (has u (q l))) [
    | inl h ↦ absurd (ground (arith, (s.blocked l u h).0))
    | inr h ↦ h
  ]

  pub asleep_state : (i : ℕ) → (asleep.procs i).state ≡ (if u == i then send else (k.procs i).state)
  asleep_state i = ground (arith, a.same i, a.same u)

  asleep_waiting_on :
      (i : ℕ) → (asleep.procs i).waiting_on ≡ (if u == i then some p else (k.procs i).waiting_on)
  asleep_waiting_on i = ground (arith, a.same i, a.same u)

  asleep_waiting : (l : ℕ) → p ≢ l → (asleep.procs l).waiting ≡ (k.procs l).waiting
  asleep_waiting l ne = ground (arith, a.elsewhere l, a.elsewhere u)

  own-Waits : Waits asleep p (ns p ++ a.entry ∷ []) (q p ++ u ∷ [])
  own-Waits = Waits-same a.after asleep p _ _ (ground arith) refl refl a.waits

  asleep-Waits : (l : ℕ) → Waits asleep l (entries l) (joined l)
  asleep-Waits l = elim (Bool-cases (p == l)) [
    | inl e ↦
        subst (λ (j : ℕ). Waits asleep j (entries j) (joined j)) ((==_iff p l).0 e)
          (rw (==_refl p) own-Waits)
    | inr e ↦ rw e (
        Waits-frame k asleep l (ns l) (q l) (asleep_waiting l (ground arith))
          (λ i h.
            a.next_frame i (ground (arith, s.apart l p i))
              (ground (arith, entry-out l, ap (λ (t : ℕ). has t (ns l)))))
          (λ i h. a.proc_frame i (ground (arith, entry-out l, ap (λ (t : ℕ). has t (ns l)))))
          (s.waits l))
  ]

  asleep_apart : (i j e : ℕ) → i ≢ j → has e (entries i) ≡ true → has e (entries j) ≡ false
  asleep_apart i j e ne h = elim (Bool-cases (p == i)) [
    | inl a_i ↦ ground (
      arith,
      has-append e (ns p) (a.entry ∷ []),
      s.apart p j e,
      entry-out j,
      ap (λ (t : ℕ). has t (ns j)),
    )
    | inr b_i ↦ elim (Bool-cases (p == j)) [
      | inl a_j ↦ ground (
        arith,
        has-append e (ns p) (a.entry ∷ []),
        s.apart i p e,
        entry-out i,
        ap (λ (t : ℕ). has t (ns i)),
      )
      | inr b_j ↦ ground (arith, s.apart i j e)
    ]
  ]

  asleep_blocked :
      (l i : ℕ)
      → has i (joined l) ≡ true
      → (is_send (asleep.procs i).state ≡ true) × ((asleep.procs i).waiting_on ≡ some l)
  asleep_blocked l i h =
      rw (asleep_state i, asleep_waiting_on i)
        (elim (Bool-cases (u == i)) [
          | inl e ↦ rw e (refl, ground (arith, sender-out l, ap (λ (t : ℕ). has t (q l))))
          | inr e ↦ rw e (
              s.blocked l i
                (ground (arith, has-append i (q p) (u ∷ []), ap (λ (j : ℕ). has i (q j)))))
        ])

  asleep_queued :
      (i : ℕ)
      → is_send (asleep.procs i).state ≡ true
      → (l : ℕ) × ((asleep.procs i).waiting_on ≡ some l) × (has i (joined l) ≡ true)
  asleep_queued i h = elim (Bool-cases (u == i)) [
    | inl e ↦ (p, ground (arith, asleep_waiting_on i), ground (arith, has-append i (q p) (u ∷ [])))
    | inr e ↦
        let f = s.in_queue i (ground (arith, asleep_state i)) in
        (
          f.0,
          ground (arith, asleep_waiting_on i, f.1),
          ground (arith, f.2, has-append i (q p) (u ∷ []), ap (λ (l : ℕ). has i (q l))),
        )
  ]

  asleep_once : (l : ℕ) → Distinct (joined l)
  asleep_once l = elim (Bool-cases (p == l)) [
    | inl e ↦ rw e (Distinct-snoc (q p) u (s.once p) (sender-out p))
    | inr e ↦ rw e (s.once l)
  ]

  asleep_nobody : (l : ℕ) → is_dead (asleep.procs l).state ≡ true → joined l ≡ []
  asleep_nobody l h =
      let was : is_dead (k.procs l).state ≡ true = ground (arith, asleep_state l) in
      let ne : (p == l) ≡ false = ground (arith, ap (λ (i : ℕ). is_dead (k.procs i).state)) in
      rw ne (s.nobody l was)

  pub asleep-Queues : Queues asleep entries joined
  asleep-Queues = record {
    waits = asleep-Waits;
    apart = asleep_apart;
    blocked = asleep_blocked;
    in_queue = asleep_queued;
    once = asleep_once;
    nobody = asleep_nobody;
  }
