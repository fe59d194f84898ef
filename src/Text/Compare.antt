-- ===== src/Text/Compare.antt =====
-- `strlen`, `strncmp` and `strcmp` of string.c: which strings they hold to be equal.
use omb.Base.{
  ℕ, zero, suc, ◌+◌, ◌<◌, ◌≤◌, ◌≡◌, refl, ap, Bool, true, false, Option, some, ◌≢◌, ◌↔◌, arith,
  ◌==◌, if◌then◌else◌, Bool-cases, inl, inr,
}
use omb.Text.{Chars, strlen_loop, strlen, strncmp_from, strncmp, same_text, strcmp}

-- The string `s` ends at index `n`: its first character 0 stands there.
pub record Ends (s : Chars) (n : ℕ) : Type 0 where
  pub ending : s n ≡ 0
  pub before : (i : ℕ) → i < n → s i ≢ 0

strlen_from : (k f i n : ℕ) (s : Chars) → Ends s n → n ≡ i + k → k < f → strlen_loop f s i ≡ some n
unfolding strlen_loop
strlen_from k zero i n s e h g = absurd (omega arith)
strlen_from zero (suc f) i n s e h g =
    let here : (s i == 0) ≡ true = ground (arith, ap s h, Ends.ending e) in
    rw (strlen_loop, here) (ap some (omega (arith, h)))
strlen_from (suc k) (suc f) i n s e h g =
    let here : (s i == 0) ≡ false = ground (arith, Ends.before e i (omega (arith, h))) in
    rw (strlen_loop, here) (strlen_from k f (i + 1) n s e (omega (arith, h)) (omega arith))

-- On a string that ends, `strlen` returns the index of its first character 0.
pub strlen_lem : (s : Chars) (n f : ℕ) → Ends s n → n < f → strlen f s ≡ some n
unfolding strlen
strlen_lem s n f e g = strlen_from n f 0 n s e (omega arith) g

-- Two strings agree on the indices from `i` up to `i + n`.
abbrev pub Agree : (s1 s2 : Chars) (i n : ℕ) → Type 0
Agree s1 s2 i n = (j : ℕ) → i ≤ j → j < i + n → s1 j ≡ s2 j

abbrev NoEnd : Chars → (i n : ℕ) → Type 0
NoEnd s i n = (j : ℕ) → i ≤ j → j < i + n → s j ≢ 0

strncmp_true :
    (n i : ℕ) (s1 s2 : Chars) → NoEnd s1 i n → strncmp_from n i s1 s2 ≡ true → Agree s1 s2 i n
unfolding strncmp_from
strncmp_true zero i s1 s2 e h j a b = absurd (omega arith)
strncmp_true (suc n) i s1 s2 e h j a b =
    let no : s1 i ≢ 0 = e i (omega arith) (omega arith) in
    elim (Bool-cases (j == i)) [
      | inl p ↦ ground (arith)
      | inr p ↦
          strncmp_true n (i + 1) s1 s2 (λ k c d. e k (omega arith) (omega arith)) (ground (arith)) j
            (ground arith) (omega arith)
    ]

strncmp_from-Agree : (n i : ℕ) (s1 s2 : Chars) → Agree s1 s2 i n → strncmp_from n i s1 s2 ≡ true
unfolding strncmp_from
strncmp_from-Agree zero i s1 s2 e = refl
strncmp_from-Agree (suc n) i s1 s2 e = ground (
  arith,
  e i (omega arith) (omega arith),
  strncmp_from-Agree n (i + 1) s1 s2 (λ k c d. e k (omega arith) (omega arith)),
)

-- The outcome of a comparison: it ends, and says whether the two strings have the same length and
-- the same characters.
pub record Compared (s1 s2 : Chars) (n1 n2 : ℕ) (r : Option Bool) : Type 0 where
  pub equal : Bool
  pub ends : r ≡ some equal
  pub means : (equal ≡ true) ↔ ((n1 ≡ n2) × Agree s1 s2 0 n1)

-- On two strings that end, with fuel beyond their lengths, `strcmp` returns, and it returns true
-- exactly if the two have the same length and the same characters.
pub strcmp_lem :
    (s1 s2 : Chars) (n1 n2 f : ℕ)
    → Ends s1 n1
    → Ends s2 n2
    → n1 < f
    → n2 < f
    → Compared s1 s2 n1 n2 (strcmp f s1 s2)
unfolding strcmp same_text strncmp
strcmp_lem s1 s2 n1 n2 f e1 e2 h1 h2 =
    rw (strlen_lem s1 n1 f e1 h1, strlen_lem s2 n2 f e2 h2)
      (record {
        equal = if n1 == n2 then strncmp_from n1 0 s1 s2 else false;
        ends = refl;
        means = (same, agreeing);
      })
  where
    same :
        ((if n1 == n2 then strncmp_from n1 0 s1 s2 else false) ≡ true)
        → (n1 ≡ n2) × Agree s1 s2 0 n1
    same h = (
      ground arith,
      strncmp_true n1 0 s1 s2 (λ j a b. Ends.before e1 j (omega arith)) (ground arith),
    )

    agreeing :
        (n1 ≡ n2) × Agree s1 s2 0 n1 → (if n1 == n2 then strncmp_from n1 0 s1 s2 else false) ≡ true
    agreeing h = ground (arith, h.0, strncmp_from-Agree n1 0 s1 s2 h.1)
