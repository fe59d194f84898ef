-- ===== src/Text/Format/Ending.antt =====
-- The string that `vsnprintf` leaves.
use omb.Base.{
  ℕ, zero, suc, ◌+◌, ◌<◌, ◌≤◌, ◌≡◌, ◌≢◌, refl, ◌∙◌, ap, Option, List, [], ◌∷◌, arith, length,
  length-take, take, get_or, ◌-◌,
}
use Prim.Native.Nat.{min}
use omb.Text.{Chars}
use omb.Text.Write.{Spells}
use omb.Text.Format.{Formatted}

-- No character is 0.
abbrev pub NoZero : List ℕ → Type 0
NoZero [] = Unit
NoZero (c ∷ cs) = (c ≢ 0) × NoZero cs

Spells-chars :
    (t : List ℕ) (s : Chars) (i : ℕ)
    → NoZero t
    → ((j : ℕ) → j < length t → s (i + j) ≡ get_or t j 0)
    → s (i + length t) ≡ 0
    → Spells s i t
Spells-chars [] s i z h e = ap s (omega arith) ∙ e
Spells-chars (c ∷ t) s i z h e = (
  ap s (omega arith) ∙ h 0 (omega arith),
  z.0,
  Spells-chars t s (i + 1) z.1 (λ j lt. ap s (shift j) ∙ h (suc j) (omega arith))
      (ap s (shift (length t)) ∙ e),
)
  where
    shift : (j : ℕ) → i + 1 + j ≡ i + suc j
    shift j = omega arith

NoZero-take : (n : ℕ) (t : List ℕ) → NoZero t → NoZero (take n t)
NoZero-take zero t z = tt
NoZero-take (suc n) [] z = tt
NoZero-take (suc n) (c ∷ t) z = (z.0, NoZero-take n t z.1)

get_or-take : (n : ℕ) (t : List ℕ) (j : ℕ) → j < n → get_or (take n t) j 0 ≡ get_or t j 0
get_or-take zero t j lt = absurd (omega arith)
get_or-take (suc n) [] zero lt = refl
get_or-take (suc n) [] (suc j) lt = refl
get_or-take (suc n) (c ∷ t) zero lt = refl
get_or-take (suc n) (c ∷ t) (suc j) lt = get_or-take n t j (omega arith)

pub take_all : (n : ℕ) (t : List ℕ) → length t ≤ n → take n t ≡ t
take_all zero [] h = refl
take_all zero (c ∷ t) h = absurd (omega arith)
take_all (suc n) [] h = refl
take_all (suc n) (c ∷ t) h = ap (λ (s : List ℕ). c ∷ s) (take_all n t (omega arith))

from_start : (k : ℕ) → 0 + k ≡ k
from_start k = omega arith

less_none : (k : ℕ) → k - 0 ≡ k
less_none k = omega arith

-- What `vsnprintf` leaves is a string, of the characters that had room.
pub Formatted-Spells :
    (str : Chars) (max : ℕ) (t : List ℕ) (r : Option (Chars × ℕ)) (d : Formatted str max t r)
    → NoZero t
    → Spells d.after 0 (take max t)
Formatted-Spells str max t r d z =
    let count : length (take max t) ≡ min (length t) max = omega (arith, length-take max t) in
    Spells-chars (take max t) d.after 0 (NoZero-take max t z)
      (λ j under.
        ap d.after (from_start j)
        ∙ d.chars j
        ∙ ground
            (arith, count, under, get_or-take max t j, ap (λ (i : ℕ). get_or t i 0) (less_none j)))
      (ap d.after (from_start (length (take max t)))
        ∙ d.chars (length (take max t))
        ∙ ground (arith, count))
