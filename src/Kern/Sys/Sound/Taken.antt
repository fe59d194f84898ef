-- ===== src/Kern/Sys/Sound/Taken.antt =====
-- A waiting list that a process is taken from, and the queues that are left.
use omb.Base.{
  ℕ, ◌≡◌, refl, ap, ◌∙◌, sym, subst, ◌≢◌, Bool, true, false, Option, none, some, List, [], ◌∷◌,
  arith, has, Distinct, Bool-cases, inl, inr, if◌then◌else◌, ◌==◌, ==_iff, ==_refl, update,
}
use omb.Kern.Links.Take.{choose, others}
use omb.Kern.State.{reply, oncpu, is_dead, is_send, Kernel, set_state}
use omb.Kern.Proc.{proc_list_remove}
use omb.Kern.Proc.Waiting.{
  Waits, Dequeued, pid_is, has-others, has-choose, choose-out, choose-ne-none,
}
use omb.Kern.Sys.{pass_message}
use omb.Kern.Sys.Queueing.{Waits-same}
use omb.Kern.Sys.Sound.{Queues}
use omb.Kern.Sys.Sound.Frame.{Waits-frame}

others-keeps :
    (hit : ℕ → Bool) (w i : ℕ) (xs : List ℕ)
    → choose hit xs ≡ some w
    → has i xs ≡ true
    → (w == i) ≡ false
    → has i (others hit xs) ≡ true
others-keeps hit w i [] c h ne = cc
others-keeps hit w i (x ∷ []) c h ne = ground (arith, ap (λ (t : Option ℕ). t))
others-keeps hit w i (x ∷ y ∷ xs) c h ne = ground (arith, others-keeps hit w i (y ∷ xs))

others-Distinct : (hit : ℕ → Bool) (xs : List ℕ) → Distinct xs → Distinct (others hit xs)
others-Distinct hit [] d = tt
others-Distinct hit (x ∷ []) d = tt
others-Distinct hit (x ∷ y ∷ xs) d = elim (Bool-cases (hit x)) [
  | inl e ↦ rw e d.1
  | inr e ↦ rw e (has-others x hit (y ∷ xs) d.0, others-Distinct hit (y ∷ xs) d.1)
]

pub nobody_chosen : (hit : ℕ → Bool) (xs : List ℕ) → choose hit xs ≡ none → xs ≡ []
nobody_chosen hit [] c = refl
nobody_chosen hit (x ∷ xs) c = absurd (choose-ne-none hit x xs c)

module _ (k : Kernel) (u pid : ℕ) (ns q : ℕ → List ℕ) (s : Queues k ns q)
    (runs : (k.procs u).state ≡ oncpu)
    (d : Dequeued k u (pid_is k pid) (ns u) (q u) (proc_list_remove u pid k)) where
  abbrev hit : ℕ → Bool
  hit = pid_is k pid

  abbrev rest : ℕ → List ℕ
  rest = update q u (others hit (q u))

  abbrev entries : ℕ → List ℕ
  entries = update ns u d.left

  pub after-Waits : (l : ℕ) → Waits d.after l (entries l) (rest l)
  after-Waits l = elim (Bool-cases (u == l)) [
    | inl e ↦
        subst (λ (j : ℕ). Waits d.after j (entries j) (rest j)) ((==_iff u l).0 e)
          (rw (==_refl u) d.waits)
    | inr e ↦ rw e (
        Waits-frame k d.after l (ns l) (q l) (d.elsewhere l (ground arith))
          (λ i h. d.next_frame i (s.apart l u i (ground arith) h))
          (λ i h. d.proc_frame i (s.apart l u i (ground arith) h)) (s.waits l))
  ]

  pub after_apart : (i j e : ℕ) → i ≢ j → has e (entries i) ≡ true → has e (entries j) ≡ false
  after_apart i j e ne h = elim (Bool-cases (u == i)) [
    | inl a_i ↦ ground (arith, d.left_fewer e, s.apart u j e)
    | inr b_i ↦ elim (Bool-cases (u == j)) [
      | inl a_j ↦ ground (arith, d.left_fewer e, s.apart i u e)
      | inr b_j ↦ ground (arith, s.apart i j e)
    ]
  ]

  rest_fewer : (l i : ℕ) → has i (rest l) ≡ true → has i (q l) ≡ true
  rest_fewer l i h = elim (Bool-cases (u == l)) [
    | inl e ↦ ground (arith, has-others i hit (q u), ap (λ (j : ℕ). has i (q j)))
    | inr e ↦ ground arith
  ]

  rest_once : (l : ℕ) → Distinct (rest l)
  rest_once l = elim (Bool-cases (u == l)) [
    | inl e ↦ rw e (others-Distinct hit (q u) (s.once u))
    | inr e ↦ rw e (s.once l)
  ]

  -- The sender's turn.
  module _ (w : ℕ) (c : choose hit (q u) ≡ some w) where
    abbrev pub taken : Kernel
    taken = set_state (pass_message w u d.after) w reply

    pub chosen_blocked : (is_send (k.procs w).state ≡ true) × ((k.procs w).waiting_on ≡ some u)
    chosen_blocked = s.blocked u w (has-choose w hit (q u) c)

    pub taken_state :
        (i : ℕ) → (taken.procs i).state ≡ (if w == i then reply else (k.procs i).state)
    unfolding pass_message
    taken_state i = ground (arith, d.same i)

    taken_waiting_on : (i : ℕ) → (taken.procs i).waiting_on ≡ (k.procs i).waiting_on
    unfolding pass_message
    taken_waiting_on i = ground (arith, d.same i, d.same w)

    taken-Waits : (l : ℕ) → Waits taken l (entries l) (rest l)
    unfolding pass_message
    taken-Waits l =
        Waits-same d.after taken l (entries l) (rest l) (ground arith) refl refl (after-Waits l)

    chosen_gone : (l : ℕ) → has w (rest l) ≡ false
    chosen_gone l = elim (Bool-cases (u == l)) [
      | inl e ↦ rw e (choose-out w hit (q u) c (s.once u))
      | inr e ↦ rw e (elim (Bool-cases (has w (q l))) [
        | inl h ↦ absurd (ground (arith, (s.blocked l w h).1, chosen_blocked.1))
        | inr h ↦ h
      ])
    ]

    kept : (l i : ℕ) → has i (q l) ≡ true → (w == i) ≡ false → has i (rest l) ≡ true
    kept l i h away = elim (Bool-cases (u == l)) [
      | inl e ↦ ground (arith, others-keeps hit w i (q u) c, ap (λ (j : ℕ). has i (q j)))
      | inr e ↦ ground arith
    ]

    pub taken_dead : (l : ℕ) → is_dead (taken.procs l).state ≡ is_dead (k.procs l).state
    taken_dead l = ground (arith, taken_state l, chosen_blocked.0)

    taken_empty : (l : ℕ) → is_dead (taken.procs l).state ≡ true → rest l ≡ []
    taken_empty l h =
        let was : is_dead (k.procs l).state ≡ true = sym (taken_dead l) ∙ h in
        let ne : (u == l) ≡ false = ground (arith, ap (λ (i : ℕ). is_dead (k.procs i).state)) in
        rw ne (s.nobody l was)

    pub taken-Queues : Queues taken entries rest
    taken-Queues = record {
      waits = taken-Waits;
      apart = after_apart;
      blocked = λ l i h.
          let b = s.blocked l i (rest_fewer l i h) in
          (
            ground (arith, taken_state i, b.0, h, chosen_gone l, ap (λ (j : ℕ). has j (rest l))),
            taken_waiting_on i ∙ b.1,
          );
      in_queue = λ i h.
          let away : (w == i) ≡ false = ground (arith, taken_state i) in
          let f = s.in_queue i (ground (arith, taken_state i)) in
          (f.0, taken_waiting_on i ∙ f.1, kept f.0 i f.2 away);
      once = rest_once;
      nobody = taken_empty;
    }
