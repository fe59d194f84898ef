-- ===== src/Text/Write.antt =====
-- Text that is put into a string and cut off at its end, and the conversions of `vsnprintf`
-- of string.c as such writing.
use omb.Base.{
  ℕ, zero, suc, ◌+◌, ◌-◌, ◌/◌, ◌%◌, ◌^◌, ◌<◌, ◌≤◌, ◌≡◌, ◌≢◌, refl, ◌∙◌, sym, ap, ap₂, true, false,
  not, ◌&&◌, some, List, [], ◌∷◌, ◌++◌, append_assoc, append-nil, arith, ltb, leb, ◌==◌,
  if◌then◌else◌, Bool-cases, inl, inr, update, length,
}
use Prim.Native.Nat.{min}
use omb.Text.Number.{put, put_step}
use omb.Text.{
  Chars, digit_char, digits_loop, copy_digits, printint, put_string, put_number, put_int,
}

-- The text put into the string from index `ind` on, cut off at index `max`, and where it ends.
abbrev pub put_text : Chars → (max ind : ℕ) → List ℕ → Chars × ℕ
put_text str max ind [] = (str, ind)
put_text str max ind (c ∷ cs) =
    if ltb ind max then put_text (update str ind c) max (ind + 1) cs else (str, ind)

pub put_text_full :
    (str : Chars) (max ind : ℕ) (cs : List ℕ) → max ≤ ind → put_text str max ind cs ≡ (str, ind)
put_text_full str max ind [] h = refl
put_text_full str max ind (c ∷ cs) h = ground arith

pub put_text-append :
    (str : Chars) (max ind : ℕ) (a b : List ℕ)
    → put_text str max ind (a ++ b) ≡ (let w = put_text str max ind a in put_text w.0 max w.1 b)
put_text-append str max ind [] b = refl
put_text-append str max ind (c ∷ cs) b = elim (Bool-cases (ltb ind max)) [
  | inl e ↦ rw e (put_text-append (update str ind c) max (ind + 1) cs b)
  | inr e ↦ rw e (sym (put_text_full str max ind b (ground arith)))
]

pub put_text-from : (str : Chars) (max ind : ℕ) (cs : List ℕ) → ind ≤ (put_text str max ind cs).1
put_text-from str max ind [] = omega arith
put_text-from str max ind (c ∷ cs) =
    ground (arith, put_text-from (update str ind c) max (ind + 1) cs)

-- The digits of a number, most significant first, at most `f` of them.
abbrev pub numeral : (f base i : ℕ) → List ℕ
numeral zero base i = []
numeral (suc f) base i =
    let front = numeral f base (i / base) in
    (if ltb 0 (i / base) then front else []) ++ digit_char (i % base) ∷ []

pub digits_loop-numeral :
    (f i base : ℕ) (s : List ℕ) → digits_loop f i base s ≡ numeral f base i ++ s
unfolding digits_loop
digits_loop-numeral zero i base s = refl
digits_loop-numeral (suc f) i base s = elim (Bool-cases (ltb 0 (i / base))) [
  | inl e ↦ rw e (
      digits_loop-numeral f (i / base) base (digit_char (i % base) ∷ s)
      ∙ sym (append_assoc (numeral f base (i / base)) (digit_char (i % base) ∷ []) s))
  | inr e ↦ rw e refl
]

copy_digits-put_text :
    (s : List ℕ) (str : Chars) (max ind d : ℕ)
    → (let (s', n) = copy_digits s str (max - ind) ind d in (s', ind + n))
      ≡ put_text str max (ind + d) s
unfolding copy_digits
copy_digits-put_text [] str max ind d = refl
copy_digits-put_text (c ∷ s) str max ind d = elim (Bool-cases (ltb d (max - ind))) [
  | inl e ↦
      let room : ltb (ind + d) max ≡ true = ground arith in
      rw (e, room)
        (copy_digits-put_text s (update str (ind + d) c) max ind (d + 1)
          ∙ ap (λ (n : ℕ). put_text (update str (ind + d) c) max n s) (omega arith))
  | inr e ↦ let full : ltb (ind + d) max ≡ false = ground arith in rw (e, full) refl
]

pub put_number_lem :
    (str : Chars) (max ind u base : ℕ)
    → put_number str max ind u base ≡ some (put_text str max ind (numeral 32 base u))
unfolding put_number printint
put_number_lem str max ind u base = ap some (
    copy_digits-put_text (digits_loop 32 u base []) str max ind 0
    ∙ ap₂ (λ (n : ℕ) (s : List ℕ). put_text str max n s) (omega arith)
        (digits_loop-numeral 32 u base [] ∙ append-nil (numeral 32 base u)))

-- The text of a signed number.
abbrev pub signed_text : ℕ → List ℕ
signed_text i = if ltb i (2 ^ 31) then numeral 32 10 i else 45 ∷ numeral 32 10 (2 ^ 32 - i)

pub put_int_lem :
    (str : Chars) (max ind i : ℕ)
    → ind < max
    → put_int str max ind i ≡ some (put_text str max ind (signed_text i))
unfolding put_int
put_int_lem str max ind i room = elim (Bool-cases (ltb i (2 ^ 31))) [
  | inl e ↦ rw e (put_number_lem str max ind i 10)
  | inr e ↦
      let here : ltb ind max ≡ true = ground arith in
      rw (e, here)
        (elim (Bool-cases (leb max (ind + 1))) [
          | inl d ↦ rw d (
              ap some (
                sym (
                  put_text_full (update str ind 45) max (ind + 1) (numeral 32 10 (2 ^ 32 - i))
                    (ground arith))))
          | inr d ↦ rw d (put_number_lem (update str ind 45) max (ind + 1) (2 ^ 32 - i) 10)
        ])
]

-- The string has the characters of the list, none of them 0, from index `i` on, and 0 behind them.
abbrev pub Spells : Chars → ℕ → List ℕ → Type 0
Spells s i [] = s i ≡ 0
Spells s i (c ∷ cs) = (s i ≡ c) × (c ≢ 0) × Spells s (i + 1) cs

pub put_string_lem :
    (cs : List ℕ) (f : ℕ) (str : Chars) (max ind : ℕ) (s : Chars) (i : ℕ)
    → Spells s i cs
    → length cs < f
    → put_string f str max ind s i ≡ some (put_text str max ind cs)
unfolding put_string
put_string_lem cs zero str max ind s i h lt = absurd (omega arith)
put_string_lem [] (suc f) str max ind s i h lt =
    let stop : (ltb ind max && not (s i == 0)) ≡ false = ground arith in rw (put_string, stop) refl
put_string_lem (c ∷ cs) (suc f) str max ind s i h lt = elim (Bool-cases (ltb ind max)) [
  | inl e ↦
      let go : (ltb ind max && not (s i == 0)) ≡ true = ground (arith, h.0, h.1) in
      rw (put_string, go, e, h.0)
        (put_string_lem cs f (update str ind c) max (ind + 1) s (i + 1) h.2 (omega arith))
  | inr e ↦
      let stop : (ltb ind max && not (s i == 0)) ≡ false = ground arith in
      rw (put_string, stop, e) refl
]

pub put_text_count :
    (str : Chars) (max ind : ℕ) (cs : List ℕ)
    → (put_text str max ind cs).1 ≡ ind + min (length cs) (max - ind)
put_text_count str max ind [] = omega arith
put_text_count str max ind (c ∷ cs) =
    ground (arith, put_text_count (update str ind c) max (ind + 1) cs)

pub put_text_chars :
    (str : Chars) (max ind : ℕ) (cs : List ℕ) (j : ℕ)
    → (put_text str max ind cs).0 j ≡ put str ind (min (length cs) (max - ind)) cs j
put_text_chars str max ind [] j = ground arith
put_text_chars str max ind (c ∷ cs) j = elim (Bool-cases (ltb ind max)) [
  | inl e ↦
      let n : ℕ = min (length cs) (max - (ind + 1)) in
      let count : suc n ≡ min (suc (length cs)) (max - ind) = ground arith in
      rw e (
        put_text_chars (update str ind c) max (ind + 1) cs j
        ∙ put_step str ind n c cs j
        ∙ ap (λ (k : ℕ). put str ind k (c ∷ cs) j) count)
  | inr e ↦ rw e (ground arith)
]
