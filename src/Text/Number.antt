-- ===== src/Text/Number.antt =====
-- `printint` of string.c: the digits it writes stand for the number.
use omb.Base.{
  ℕ, zero, suc, ◌+◌, ◌-◌, ◌*◌, ◌/◌, ◌%◌, ◌^◌, ◌<◌, ◌≤◌, ◌≡◌, refl, ◌∙◌, ap, ap₂, List, [], ◌∷◌,
  arith, ltb, leb, ◌==◌, if◌then◌else◌, Bool-cases, inl, inr, update, length, get_or, ◌&&◌,
}
use Prim.Native.Nat.{min}
use native.Mathlib.Nat.{div-add-mod, mod-lt, div-lt_iff_lt-mul, mul-le-mul_left, pow-suc}
use omb.Text.{Chars, digit_char, digits_loop, copy_digits, printint}

-- The number that a list of digits stands for in a base, after the digits read so far.
unfoldable pub digit_value : ℕ → ℕ
digit_value c = if ltb c 58 then c - 48 else c - 87

abbrev pub value : (base n : ℕ) → List ℕ → ℕ
value base n [] = n
value base n (c ∷ s) = value base (n * base + digit_value c) s

digit_lem : (d : ℕ) → d < 36 → digit_value (digit_char d) ≡ d
unfolding digit_value digit_char
digit_lem d h = ground arith

-- The digits of `i` stand in front of those that the buffer has.
pub digits_value :
    (f i base : ℕ) (s : List ℕ)
    → 1 < base
    → base ≤ 36
    → i < 2 ^ f
    → value base 0 (digits_loop f i base s) ≡ value base i s
unfolding digits_loop
digits_value zero i base s b c h = ap (λ (t : ℕ). value base t s) (omega arith)
digits_value (suc f) i base s b c h =
    let r : ℕ = i % base in
    let below : r < base = mod-lt i (omega arith) in
    let digit : digit_value (digit_char r) ≡ r = digit_lem r (omega (arith, below)) in
    let whole : i / base * base + digit_value (digit_char r) ≡ i =
      ap (λ (t : ℕ). i / base * base + t) digit ∙ omega (arith, div-add-mod i base) in
    let up : value base (i / base) (digit_char r ∷ s) ≡ value base i s =
      ap (λ (t : ℕ). value base t s) whole in
    let doubled : 2 ^ f * 2 ≤ 2 ^ f * base = mul-le-mul_left (2 ^ f) b in
    let small : i / base < 2 ^ f =
      (div-lt_iff_lt-mul (omega arith)).1 (omega (arith, h, doubled, pow-suc 2 f)) in
    elim (Bool-cases (ltb 0 (i / base))) [
      | inl p ↦ rw p (digits_value f (i / base) base (digit_char r ∷ s) b c small ∙ up)
      | inr p ↦
          let none_left : 0 ≡ i / base = ground arith in
          rw p (ap (λ (t : ℕ). value base t (digit_char r ∷ s)) none_left ∙ up)
    ]

pub digits_length : (f i base : ℕ) (s : List ℕ) → length (digits_loop f i base s) ≤ length s + f
unfolding digits_loop
digits_length zero i base s = omega arith
digits_length (suc f) i base s =
    ground (arith, digits_length f (i / base) base (digit_char (i % base) ∷ s))

-- The string with `n` characters of the list put at index `at`.
abbrev pub put : Chars → (at n : ℕ) → List ℕ → Chars
put str at n s j = if leb at j && ltb j (at + n) then get_or s (j - at) 0 else str j

drop_one : (k : ℕ) → suc k - 1 ≡ k
drop_one k = omega arith

get_or-cons :
    (c : ℕ) (s : List ℕ) (k : ℕ) → get_or (c ∷ s) k 0 ≡ (if k == 0 then c else get_or s (k - 1) 0)
get_or-cons c s zero = refl
get_or-cons c s (suc k) = ground (arith, ap (λ (i : ℕ). get_or s i 0) (drop_one k))

pub put_step :
    (str : Chars) (at n c : ℕ) (s : List ℕ) (j : ℕ)
    → put (update str at c) (at + 1) n s j ≡ put str at (suc n) (c ∷ s) j
put_step str at n c s j =
    let shift : get_or s (j - (at + 1)) 0 ≡ get_or s (j - at - 1) 0 =
      ap (λ (k : ℕ). get_or s k 0) (omega arith) in
    ground (arith, shift, get_or-cons c s (j - at))

pub copied_digits :
    (s : List ℕ) (str : Chars) (max at d j : ℕ)
    → d ≤ max
    → (copy_digits s str max at d).0 j ≡ put str (at + d) (min (length s) (max - d)) s j
unfolding copy_digits
copied_digits [] str max at d j h = ground arith
copied_digits (c ∷ s) str max at d j h = elim (Bool-cases (ltb d max)) [
  | inl p ↦
      let n : ℕ = min (length s) (max - (d + 1)) in
      let first : Chars = update str (at + d) c in
      let place : put first (at + (d + 1)) n s j ≡ put first (at + d + 1) n s j =
        ap (λ (k : ℕ). put first k n s j) (omega arith) in
      let count : put str (at + d) (suc n) (c ∷ s) j
          ≡ put str (at + d) (min (suc (length s)) (max - d)) (c ∷ s) j =
        ap (λ (k : ℕ). put str (at + d) k (c ∷ s) j) (ground arith) in
      rw p (
        copied_digits s first max at (d + 1) j (ground arith)
        ∙ place
        ∙ put_step str (at + d) n c s j
        ∙ count)
  | inr p ↦ rw p (ground arith)
]

pub copied_count :
    (s : List ℕ) (str : Chars) (max at d : ℕ)
    → d ≤ max
    → (copy_digits s str max at d).1 ≡ d + min (length s) (max - d)
unfolding copy_digits
copied_count [] str max at d h = omega arith
copied_count (c ∷ s) str max at d h =
    ground (arith, copied_count s (update str (at + d) c) max at (d + 1))

-- What `printint` leaves: the digits put into the string, cut off at `max`.
pub record Printed (str : Chars) (at max i base : ℕ) (r : Chars × ℕ) : Type 0 where
  pub digits : List ℕ
  pub number : value base 0 digits ≡ i
  pub buffer : length digits ≤ 32
  pub count : r.1 ≡ min (length digits) max
  pub chars : (j : ℕ) → r.0 j ≡ put str at r.1 digits j

-- For a 32-bit number and a base from 2 to 36, the digits that `printint` makes, most significant
-- first, stand for the number, and its buffer of 32 characters has room for them; it writes the
-- first of them to the string, at most `max`, returns how many, and changes nothing else.
pub printint_lem :
    (str : Chars) (at max i base : ℕ)
    → 1 < base
    → base ≤ 36
    → i < 2 ^ 32
    → Printed str at max i base (printint str at max i base)
unfolding printint
printint_lem str at max i base b c h =
    let digits : List ℕ = digits_loop 32 i base [] in
    let written = copied_count digits str max at 0 (omega arith) in
    record {
      digits = digits;
      number = digits_value 32 i base [] b c h;
      buffer = omega (arith, digits_length 32 i base []);
      count = omega (arith, written);
      chars = λ j.
          copied_digits digits str max at 0 j (omega arith)
          ∙ ap₂ (λ (k n : ℕ). put str k n digits j) (omega arith) (omega (arith, written));
    }
