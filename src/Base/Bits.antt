-- ===== src/Base/Bits.antt =====
-- Laws of `|` and `&` at variables: the lowest digit, sums of disjoint fields, low masks.
use Prim.Native.Nat.{
  ℕ, zero, suc, ◌+◌, ◌-◌, ◌*◌, ◌/◌, ◌%◌, ◌^◌, ◌≤◌, ◌<◌, min, max, bit_and, bit_or, digits,
  bit_and-bitwise, bit_or-bitwise,
}
use mathlib.Core.Path.{◌≡◌, refl, ap, ap₂, ◌∙◌}
use native.Mathlib.Nat.{pow-suc, one-le-pow}
use native.Mathlib.Omega.{arith}

-- The count of digits to go does not matter once it is large enough.
enough_digits :
    (z : ℕ → ℕ) (f : ℕ → ℕ → ℕ) (n k a b : ℕ) → a ≤ n → digits z f (n + k) a b ≡ digits z f n a b
enough_digits z f zero zero zero b p = refl
enough_digits z f zero (suc k) zero b p = let e : zero + suc k ≡ suc k = omega arith in rw e
enough_digits z f zero k (suc a) b p = absurd (omega arith)
enough_digits z f (suc n) k zero b p = let e : suc n + k ≡ suc (n + k) = omega arith in rw e
enough_digits z f (suc n) k (suc a) b p =
    let e : suc n + k ≡ suc (n + k) = omega arith in
    rw e (rw (enough_digits z f n k (suc a / 2) (b / 2) (omega arith)))

halve :
    (z : ℕ → ℕ) (f : ℕ → ℕ → ℕ) (a b : ℕ)
    → digits z f a (suc a / 2) b ≡ digits z f (suc a / 2) (suc a / 2) b
halve z f a b =
    let e : a ≡ suc a / 2 + a / 2 = omega arith in
    ap (λ n. digits z f n (suc a / 2) b) e
    ∙ enough_digits z f (suc a / 2) (a / 2) (suc a / 2) b (omega arith)

-- One digit of each operation.
pub bit_or_digit : (a b : ℕ) → bit_or a b ≡ 2 * bit_or (a / 2) (b / 2) + max (a % 2) (b % 2)
bit_or_digit zero b = omega (arith, bit_or-bitwise 0 b, bit_or-bitwise 0 (b / 2))
bit_or_digit (suc a) b = omega (
  arith,
  bit_or-bitwise (suc a) b,
  bit_or-bitwise (suc a / 2) (b / 2),
  halve (λ y. y) max a (b / 2),
)

pub bit_and_digit : (a b : ℕ) → bit_and a b ≡ 2 * bit_and (a / 2) (b / 2) + min (a % 2) (b % 2)
bit_and_digit zero b = omega (arith, bit_and-bitwise 0 b, bit_and-bitwise 0 (b / 2))
bit_and_digit (suc a) b = omega (
  arith,
  bit_and-bitwise (suc a) b,
  bit_and-bitwise (suc a / 2) (b / 2),
  halve (λ y. 0) min a (b / 2),
)

pub zero-bit_or : (b : ℕ) → bit_or 0 b ≡ b
zero-bit_or b = bit_or-bitwise 0 b

bit_or-zero_below : (n a : ℕ) → a < n → bit_or a 0 ≡ a
bit_or-zero_below zero a h = absurd (omega arith)
bit_or-zero_below (suc n) zero h = zero-bit_or 0
bit_or-zero_below (suc n) (suc a) h =
    omega (arith, bit_or_digit (suc a) 0, bit_or-zero_below n (suc a / 2) (omega arith))

pub bit_or-zero : (a : ℕ) → bit_or a 0 ≡ a
bit_or-zero a = bit_or-zero_below (suc a) a (omega arith)

bit_and-zero_below : (n a : ℕ) → a < n → bit_and a 0 ≡ 0
bit_and-zero_below zero a h = absurd (omega arith)
bit_and-zero_below (suc n) zero h = bit_and-bitwise 0 0
bit_and-zero_below (suc n) (suc a) h =
    omega (arith, bit_and_digit (suc a) 0, bit_and-zero_below n (suc a / 2) (omega arith))

pub bit_and-zero : (a : ℕ) → bit_and a 0 ≡ 0
bit_and-zero a = bit_and-zero_below (suc a) a (omega arith)

-- `|` leaves a field above bit `k` alone if the other number lies below it.
pub bit_or_fields :
    (k q r m : ℕ) → r < 2 ^ k → m < 2 ^ k → bit_or (2 ^ k * q + r) m ≡ 2 ^ k * q + bit_or r m
bit_or_fields zero q r m h g =
    let e : r ≡ 0 = omega arith in
    let d : m ≡ 0 = omega arith in
    omega (
      arith,
      ap (bit_or (2 ^ 0 * q + r)) d,
      ap₂ bit_or e d,
      bit_or-zero (2 ^ 0 * q + r),
      bit_or-zero 0,
    )
bit_or_fields (suc k) q r m h g =
    let p : 2 ^ suc k ≡ 2 * 2 ^ k = pow-suc 2 k ∙ omega arith in
    let x : ℕ = 2 ^ k * q in
    let c : 2 ^ suc k * q ≡ 2 * x = ap (λ (t : ℕ). t * q) p ∙ omega arith in
    let a : 2 ^ suc k * q + r ≡ 2 * x + r = omega (arith, c) in
    let b : (2 * x + r) / 2 ≡ x + r / 2 = omega arith in
    omega (
      arith,
      c,
      ap (λ (t : ℕ). bit_or t m) a,
      bit_or_digit (2 * x + r) m,
      ap (λ (t : ℕ). bit_or t (m / 2)) b,
      bit_or_digit r m,
      bit_or_fields k q (r / 2) (m / 2) (omega (arith, p)) (omega (arith, p)),
    )

-- `&` acts on the fields above and below bit `k` apart.
pub bit_and_fields :
    (k q r m n : ℕ)
    → r < 2 ^ k
    → n < 2 ^ k
    → bit_and (2 ^ k * q + r) (2 ^ k * m + n) ≡ 2 ^ k * bit_and q m + bit_and r n
bit_and_fields zero q r m n h g =
    let e : r ≡ 0 = omega arith in
    let d : n ≡ 0 = omega arith in
    let a : 2 ^ 0 * q + r ≡ q = omega arith in
    let b : 2 ^ 0 * m + n ≡ m = omega arith in
    omega (arith, ap₂ bit_and a b, ap₂ bit_and e d, bit_and-zero 0)
bit_and_fields (suc k) q r m n h g =
    let p : 2 ^ suc k ≡ 2 * 2 ^ k = pow-suc 2 k ∙ omega arith in
    let x : ℕ = 2 ^ k * q in
    let y : ℕ = 2 ^ k * m in
    let a : 2 ^ suc k * q + r ≡ 2 * x + r = ap (λ (t : ℕ). t * q + r) p ∙ omega arith in
    let b : 2 ^ suc k * m + n ≡ 2 * y + n = ap (λ (t : ℕ). t * m + n) p ∙ omega arith in
    let c : 2 ^ suc k * bit_and q m ≡ 2 * (2 ^ k * bit_and q m) =
      ap (λ (t : ℕ). t * bit_and q m) p ∙ omega arith in
    omega (
      arith,
      c,
      ap₂ bit_and a b,
      bit_and_digit (2 * x + r) (2 * y + n),
      ap₂ bit_and (halved x r) (halved y n),
      bit_and_digit r n,
      bit_and_fields k q (r / 2) m (n / 2) (omega (arith, p)) (omega (arith, p)),
    )
  where
    halved : (z w : ℕ) → (2 * z + w) / 2 ≡ z + w / 2
    halved z w = omega arith

bit_and-ones : (k r : ℕ) → r < 2 ^ k → bit_and r (2 ^ k - 1) ≡ r
bit_and-ones zero r h = bit_and-zero r ∙ omega arith
bit_and-ones (suc k) r h =
    let p : 2 ^ suc k ≡ 2 * 2 ^ k = pow-suc 2 k ∙ omega arith in
    let pos : 1 ≤ 2 ^ k = one-le-pow k 2 (omega arith) in
    let m : (2 ^ suc k - 1) / 2 ≡ 2 ^ k - 1 = omega (arith, p, pos) in
    omega (
      arith,
      p,
      pos,
      bit_and_digit r (2 ^ suc k - 1),
      ap (bit_and (r / 2)) m,
      bit_and-ones k (r / 2) (omega (arith, p)),
    )

-- A mask of `k` low ones keeps the field below bit `k`.
pub bit_and-low_mask : (k q r : ℕ) → r < 2 ^ k → bit_and (2 ^ k * q + r) (2 ^ k - 1) ≡ r
bit_and-low_mask k q r h =
    let n : ℕ = 2 ^ k - 1 in
    let a : 2 ^ k * 0 + n ≡ n = omega arith in
    let pos : 1 ≤ 2 ^ k = one-le-pow k 2 (omega arith) in
    omega (
      arith,
      ap (bit_and (2 ^ k * q + r)) a,
      bit_and_fields k q r 0 n h (omega arith),
      ap (λ (t : ℕ). 2 ^ k * t) (bit_and-zero q),
      bit_and-ones k r h,
    )
