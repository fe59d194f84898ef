-- ===== src/Base/Lists.antt =====
-- Lists measured and indexed by native numbers, under the library's names.
use Prim.Native.Nat.{ℕ, zero, suc, ◌+◌, ◌<◌, ◌≤◌, min}
use mathlib.Core.Path.{◌≡◌, refl}
use mathlib.Core.Bool.{Bool, false, ◌||◌}
use mathlib.Core.List.{List, [], ◌∷◌, ◌++◌}
use native.Mathlib.Omega.{arith}
use omb.Base.Tests.{◌==◌, if◌then◌else◌}

module _ {ℓ} {A : Type ℓ} where
  abbrev pub length : List A → ℕ
  length [] = 0
  length (x ∷ xs) = suc (length xs)

  abbrev pub get_or : List A → ℕ → A → A
  get_or [] i d = d
  get_or (x ∷ xs) zero d = x
  get_or (x ∷ xs) (suc i) d = get_or xs i d

  abbrev pub take : ℕ → List A → List A
  take zero xs = []
  take (suc n) [] = []
  take (suc n) (x ∷ xs) = x ∷ take n xs

  abbrev pub drop : ℕ → List A → List A
  drop zero xs = xs
  drop (suc n) [] = []
  drop (suc n) (x ∷ xs) = drop n xs

  abbrev pub replicate : ℕ → A → List A
  replicate zero a = []
  replicate (suc n) a = a ∷ replicate n a

  pub length-append : (xs ys : List A) → length (xs ++ ys) ≡ length xs + length ys
  length-append [] ys = omega arith
  length-append (x ∷ xs) ys = omega (arith, length-append xs ys)

  pub length-take : (n : ℕ) (xs : List A) → length (take n xs) ≡ min n (length xs)
  length-take zero xs = omega arith
  length-take (suc n) [] = omega arith
  length-take (suc n) (x ∷ xs) = omega (arith, length-take n xs)

-- Whether a number stands in a list, and whether no number stands there twice.
abbrev pub has : ℕ → List ℕ → Bool
has a [] = false
has a (x ∷ xs) = (x == a) || has a xs

abbrev pub Distinct : List ℕ → Type 0
Distinct [] = Unit
Distinct (x ∷ xs) = (has x xs ≡ false) × Distinct xs

abbrev pub AllBelow : ℕ → List ℕ → Type 0
AllBelow n [] = Unit
AllBelow n (x ∷ xs) = (x < n) × AllBelow n xs

abbrev pub remove : ℕ → List ℕ → List ℕ
remove a [] = []
remove a (x ∷ xs) = if x == a then xs else x ∷ remove a xs

length-remove : (a : ℕ) (xs : List ℕ) → length xs ≤ suc (length (remove a xs))
length-remove a [] = omega arith
length-remove a (x ∷ xs) = ground (arith, length-remove a xs)

has-remove : (a b : ℕ) (xs : List ℕ) → has b xs ≡ false → has b (remove a xs) ≡ false
has-remove a b [] h = refl
has-remove a b (x ∷ xs) h = ground (arith, has-remove a b xs)

Distinct-remove : (a : ℕ) (xs : List ℕ) → Distinct xs → Distinct (remove a xs)
Distinct-remove a [] d = tt
Distinct-remove a (x ∷ xs) d = ground (arith, Distinct-remove a xs d.1, has-remove a x xs)

AllBelow-absent : (n : ℕ) (xs : List ℕ) → AllBelow (suc n) xs → has n xs ≡ false → AllBelow n xs
AllBelow-absent n [] b h = tt
AllBelow-absent n (x ∷ xs) b h = ground (arith, AllBelow-absent n xs b.1)

AllBelow-remove :
    (n : ℕ) (xs : List ℕ) → AllBelow (suc n) xs → Distinct xs → AllBelow n (remove n xs)
AllBelow-remove n [] b d = tt
AllBelow-remove n (x ∷ xs) b d =
    ground (arith, AllBelow-remove n xs b.1 d.1, AllBelow-absent n xs b.1)

-- The pigeonhole principle: distinct numbers below `n` are at most `n`.
pub length_le_of_Distinct : (n : ℕ) (xs : List ℕ) → AllBelow n xs → Distinct xs → length xs ≤ n
length_le_of_Distinct zero [] b d = omega arith
length_le_of_Distinct zero (x ∷ xs) b d = absurd (omega arith)
length_le_of_Distinct (suc n) xs b d = omega (
  arith,
  length-remove n xs,
  length_le_of_Distinct n (remove n xs) (AllBelow-remove n xs b d) (Distinct-remove n xs d),
)
