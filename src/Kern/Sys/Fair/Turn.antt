-- ===== src/Kern/Sys/Fair/Turn.antt =====
-- The orders in which `next_proc` looks for a ready process, as lists.
use omb.Base.{
  ℕ, ◌<◌, ◌≡◌, ◌≢◌, refl, ◌∙◌, sym, ap, ◌⊎◌, inl, inr, Bool, true, some, List, [], ◌∷◌, ◌++◌,
  append_assoc, arith, Bool-cases, length, length-append, get_or, drop, ap₂,
}
use omb.Kern.Proc.Choice.{first_ready}

head_eq : (x y : ℕ) (xs ys : List ℕ) → x ∷ xs ≡ y ∷ ys → x ≡ y
head_eq x y xs ys h = ap (λ (l : List ℕ). get_or l 0 0) h

tail_eq : (x y : ℕ) (xs ys : List ℕ) → x ∷ xs ≡ y ∷ ys → xs ≡ ys
tail_eq x y xs ys h = ap (drop 1) h

-- A list that is split in two ways.
two_splits :
    (a : List ℕ) (w : ℕ) (b c d : List ℕ)
    → a ++ w ∷ b ≡ c ++ d
    → ((e : List ℕ) × (c ≡ a ++ w ∷ e) × (b ≡ e ++ d))
      ⊎ ((e : List ℕ) × (a ≡ c ++ e) × (d ≡ e ++ w ∷ b))
two_splits a w b [] d h = inr (a, refl, sym h)
two_splits [] w b (y ∷ c) d h =
    inl (c, ap (λ (x : ℕ). x ∷ c) (sym (head_eq w y b (c ++ d) h)), tail_eq w y b (c ++ d) h)
two_splits (x ∷ a) w b (y ∷ c) d h =
    let same = head_eq x y (a ++ w ∷ b) (c ++ d) h in
    elim (two_splits a w b c d (tail_eq x y (a ++ w ∷ b) (c ++ d) h)) [
      | inl (e, p, q) ↦ inl (e, ap₂ (λ (t : ℕ) (l : List ℕ). t ∷ l) (sym same) p, q)
      | inr (e, p, q) ↦ inr (e, ap₂ (λ (t : ℕ) (l : List ℕ). t ∷ l) same p, q)
    ]

not_last : (e : List ℕ) (u w : ℕ) (b : List ℕ) → 0 < length b → u ∷ [] ≢ e ++ w ∷ b
not_last e u w b lt h = omega (arith, ap length h, length-append e (w ∷ b))

-- The order in which `next_proc` looks from `w` on, where it looked from `u` on before.
pub turn_on :
    (front back : List ℕ) (u w : ℕ) (a b : List ℕ)
    → (back ++ front) ++ u ∷ [] ≡ a ++ w ∷ b
    → 0 < length b
    → (front' : List ℕ) × (back' : List ℕ) × (front ++ u ∷ back ≡ front' ++ w ∷ back')
      × (back' ++ front' ≡ b ++ a)
turn_on front back u w a b h more =
    elim (two_splits a w b back (front ++ u ∷ []) (sym h ∙ append_assoc back front (u ∷ []))) [
      | inl (e, p, q) ↦ (
        front ++ u ∷ a,
        e,
        ap (λ (t : List ℕ). front ++ u ∷ t) p ∙ sym (append_assoc front (u ∷ a) (w ∷ e)),
        ap (λ (t : List ℕ). e ++ t) (sym (append_assoc front (u ∷ []) a))
            ∙ sym (append_assoc e (front ++ u ∷ []) a)
            ∙ ap (λ (t : List ℕ). t ++ a) (sym q),
      )
      | inr (e, p, q) ↦ elim (two_splits e w b front (u ∷ []) (sym q)) [
        | inl (c, r, t) ↦ (
          e,
          c ++ u ∷ back,
          ap (λ (l : List ℕ). l ++ u ∷ back) r ∙ append_assoc e (w ∷ c) (u ∷ back),
          append_assoc c (u ∷ back) e
              ∙ sym (append_assoc c (u ∷ []) (back ++ e))
              ∙ ap₂ (λ (x y : List ℕ). x ++ y) (sym t) (sym p),
        )
        | inr (c, r, t) ↦ absurd (not_last c u w b more t)
      ]
    ]

-- The first ready process is the last of these, or an earlier one.
pub first_among :
    (rdy : ℕ → Bool) (pre : List ℕ) (v : ℕ) (post : List ℕ)
    → rdy v ≡ true
    → (first_ready rdy (pre ++ v ∷ post) ≡ some v)
      ⊎ ((a : List ℕ) × (w : ℕ) × (b : List ℕ) × (pre ≡ a ++ w ∷ b)
          × (rdy w ≡ true)
          × (first_ready rdy (pre ++ v ∷ post) ≡ some w))
unfolding first_ready
first_among rdy [] v post r = inl (rw r refl)
first_among rdy (x ∷ pre) v post r = elim (Bool-cases (rdy x)) [
  | inl e ↦ inr ([], x, pre, refl, e, rw e refl)
  | inr e ↦ elim (first_among rdy pre v post r) [
    | inl h ↦ inl (rw e h)
    | inr (a, w, b, p, q, h) ↦ inr (x ∷ a, w, b, ap (λ (l : List ℕ). x ∷ l) p, q, rw e h)
  ]
]
