-- ===== src/Text/Parse.antt =====
-- `strtol` of conv.c on what `printint` of string.c prints.
use omb.Base.{
  ℕ, zero, suc, ◌+◌, ◌-◌, ◌*◌, ◌/◌, ◌%◌, ◌^◌, ◌<◌, ◌≤◌, ◌≡◌, ◌∙◌, ap, true, false, not, ◌&&◌, some,
  List, [], ◌∷◌, arith, ltb, ◌==◌, Bool-cases, inl, inr, update, update_self, update_ne, sym,
  length, get_or,
}
use Prim.Native.Nat.{min}
use omb.Text.{
  Chars, isspace, digit_char, digits_loop, copy_digits, printint, skip_spaces, read_digits,
  read_signed, strtol,
}
use omb.Text.Number.{
  digit_value, value, put, digits_value, digits_length, copied_digits, copied_count,
}

-- The characters of a list are the digits 0 to 9.
abbrev pub AllDigits : List ℕ → Type 0
AllDigits [] = Unit
AllDigits (c ∷ s) = ((48 ≤ c) × (c < 58)) × AllDigits s

digit_char_range : (d : ℕ) → d < 10 → (48 ≤ digit_char d) × (digit_char d < 58)
unfolding digit_char
digit_char_range d h = ground arith

pub digits_loop-AllDigits : (f i : ℕ) (s : List ℕ) → AllDigits s → AllDigits (digits_loop f i 10 s)
unfolding digits_loop
digits_loop-AllDigits zero i s a = a
digits_loop-AllDigits (suc f) i s a =
    let here : AllDigits (digit_char (i % 10) ∷ s) = (digit_char_range (i % 10) (omega arith), a) in
    elim (Bool-cases (ltb 0 (i / 10))) [
      | inl p ↦ rw p (digits_loop-AllDigits f (i / 10) (digit_char (i % 10) ∷ s) here)
      | inr p ↦ rw p here
    ]

digits_loop-grows : (f i : ℕ) (s : List ℕ) → length s ≤ length (digits_loop f i 10 s)
unfolding digits_loop
digits_loop-grows zero i s = omega arith
digits_loop-grows (suc f) i s =
    ground (arith, digits_loop-grows f (i / 10) (digit_char (i % 10) ∷ s))

pub digits_loop-some : (f i : ℕ) (s : List ℕ) → 0 < length (digits_loop (suc f) i 10 s)
unfolding digits_loop
digits_loop-some f i s = ground (arith, digits_loop-grows f (i / 10) (digit_char (i % 10) ∷ s))

value_grows : (n : ℕ) (s : List ℕ) → n ≤ value 10 n s
value_grows n [] = omega arith
value_grows n (c ∷ s) = omega (arith, value_grows (n * 10 + digit_value c) s)

-- The string has the characters of the list from index `i` on, and 0 behind them.
pub record Shows (s : Chars) (i : ℕ) (ds : List ℕ) : Type 0 where
  pub chars : (k : ℕ) → k < length ds → s (i + k) ≡ get_or ds k 0
  pub ending : s (i + length ds) ≡ 0

Shows-rest : (s : Chars) (i c : ℕ) (ds : List ℕ) → Shows s i (c ∷ ds) → Shows s (i + 1) ds
Shows-rest s i c ds h = record {
  chars = λ k lt. ap s (shift k) ∙ h.chars (suc k) (omega arith);
  ending = ap s (shift (length ds)) ∙ h.ending;
}
  where
    shift : (k : ℕ) → i + 1 + k ≡ i + suc k
    shift k = omega arith

digit_value_low : (c : ℕ) → c < 58 → digit_value c ≡ c - 48
unfolding digit_value
digit_value_low c h = ground arith

read_digits_lem :
    (ds : List ℕ) (f i n : ℕ) (s : Chars)
    → AllDigits ds
    → Shows s i ds
    → length ds < f
    → value 10 n ds < 2 ^ 32
    → read_digits f s 10 i n ≡ some (value 10 n ds)
unfolding read_digits isspace
read_digits_lem ds zero i n s a h lt b = absurd (omega arith)
read_digits_lem [] (suc f) i n s a h lt b =
    let end : s i ≡ 0 = ap s (omega arith) ∙ h.ending in rw (read_digits, end)
read_digits_lem (c ∷ ds) (suc f) i n s a h lt b =
    let here : s i ≡ c = ap s (omega arith) ∙ h.chars 0 (omega arith) in
    let low : 48 ≤ c = a.0.0 in
    let high : c < 58 = a.0.1 in
    let go : (not (s i == 0) && not (isspace (s i))) ≡ true = ground (arith, here, low, high) in
    let grown = value_grows (n * 10 + digit_value c) ds in
    let next : (n * 10 + s i + (2 ^ 32 - 48)) % 2 ^ 32 ≡ n * 10 + digit_value c =
      omega (arith, here, low, high, digit_value_low c high, grown, b) in
    rw (read_digits, go, next)
      (read_digits_lem ds f (i + 1) (n * 10 + digit_value c) s a.1 (Shows-rest s i c ds h)
        (omega arith) b)

pub strtol_digits :
    (ds : List ℕ) (f : ℕ) (s : Chars)
    → AllDigits ds
    → 0 < length ds
    → Shows s 0 ds
    → length ds < f
    → value 10 0 ds < 2 ^ 32
    → strtol f s 10 ≡ some (value 10 0 ds)
unfolding strtol skip_spaces read_signed isspace
strtol_digits [] f s a p h lt b = absurd (omega arith)
strtol_digits (c ∷ ds) zero s a p h lt b = absurd (omega arith)
strtol_digits (c ∷ ds) (suc f) s a p h lt b =
    let here : s 0 ≡ c = h.chars 0 (omega arith) in
    let low : 48 ≤ c = a.0.0 in
    let high : c < 58 = a.0.1 in
    let no_space : isspace (s 0) ≡ false = ground (arith, here, low, high) in
    let no_plus : (s 0 == 43) ≡ false = ground (arith, here, low) in
    let no_minus : (s 0 == 45) ≡ false = ground (arith, here, low) in
    rw (skip_spaces, no_space, no_plus, no_minus) (read_digits_lem (c ∷ ds) (suc f) 0 0 s a h lt b)

copy_digits-Shows :
    (ds : List ℕ) (str : Chars)
    → length ds ≤ 32
    → let (s, d) = copy_digits ds str 32 0 0 in Shows (update s d 0) 0 ds
copy_digits-Shows ds str few =
    let s = (copy_digits ds str 32 0 0).0 in
    let d = (copy_digits ds str 32 0 0).1 in
    let count : d ≡ length ds = omega (arith, copied_count ds str 32 0 0 (omega arith)) in
    record {
      chars = λ k lt.
          ap (update s d 0) (from_start k)
          ∙ update_ne s d k 0 (omega (arith, count, lt))
          ∙ copied_digits ds str 32 0 0 k (omega arith)
          ∙ at_start str ds k lt few;
      ending =
          ap (update s d 0) (from_start (length ds))
          ∙ ap (update s d 0) (sym count)
          ∙ update_self s d 0;
    }
  where
    from_start : (k : ℕ) → 0 + k ≡ k
    from_start k = omega arith

    at_start :
        (str : Chars) (ds : List ℕ) (k : ℕ)
        → k < length ds
        → length ds ≤ 32
        → put str (0 + 0) (min (length ds) (32 - 0)) ds k ≡ get_or ds k 0
    at_start str ds k lt few =
        let same : get_or ds (k - (0 + 0)) 0 ≡ get_or ds k 0 =
          ap (λ (j : ℕ). get_or ds j 0) (omega arith) in
        ground (arith, same)

-- For a 32-bit number, if `printint` prints it in base 10 with room for 32 characters and a 0 is
-- put behind it, then `strtol` in base 10, with fuel of at least 33, returns the number.
pub printint-strtol :
    (str : Chars) (i f : ℕ)
    → i < 2 ^ 32
    → 33 ≤ f
    → let (s, d) = printint str 0 32 i 10 in strtol f (update s d 0) 10 ≡ some i
unfolding printint
printint-strtol str i f h g =
    let ds : List ℕ = digits_loop 32 i 10 [] in
    let few = digits_length 32 i 10 [] in
    let number : value 10 0 ds ≡ i = digits_value 32 i 10 [] (omega arith) (omega arith) h in
    strtol_digits ds f (update (copy_digits ds str 32 0 0).0 (copy_digits ds str 32 0 0).1 0)
      (digits_loop-AllDigits 32 i [] tt) (digits_loop-some 31 i [])
      (copy_digits-Shows ds str (omega (arith, few))) (omega (arith, few)) (omega (arith, number))
    ∙ ap some number
