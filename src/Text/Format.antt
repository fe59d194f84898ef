-- ===== src/Text/Format.antt =====
-- `vsnprintf` of string.c, beside a reference that builds the whole text and cuts it off.
pub mod Ending
use omb.Base.{
  ℕ, zero, suc, ◌+◌, ◌-◌, ◌*◌, ◌/◌, ◌%◌, ◌^◌, ◌<◌, ◌≤◌, ◌≡◌, ◌≢◌, refl, ◌∙◌, sym, subst, ap, ap₂,
  Bool, true, false, not, ◌&&◌, ◌||◌, Option, none, some, List, [], ◌∷◌, ◌++◌, append_assoc,
  append-nil, arith, ltb, leb, ◌==◌, if◌then◌else◌, Bool-cases, inl, inr, update, length,
  length-append, get_or,
}
use mathlib.Core.Option
use Prim.Native.Nat.{min}
use omb.Text.Number.{put, put_step}
use omb.Text.{
  Chars, Arg, word, string, digit_char, digits_loop, copy_digits, printint, null_text, put_string,
  put_number, put_int, convert, vsnprintf_loop, vsnprintf,
}
use omb.Text.Write.{
  put_text, put_text_full, put_text-append, numeral, signed_text, Spells, put_number_lem,
  put_int_lem, put_string_lem, put_text_count, put_text_chars,
}

-- What a conversion shows, with its argument; a string comes with the characters that it has.
pub data Conversion : Type 0 where
  percent : Conversion
  signed : ℕ → Conversion
  decimal : ℕ → Conversion
  hex : ℕ → Conversion
  binary : ℕ → Conversion
  char : ℕ → Conversion
  text : Chars → List ℕ → Conversion
  no_text : Conversion

-- What a format is made of.
pub data Piece : Type 0 where
  plain : ℕ → Piece
  shows : Conversion → Piece

-- The character after `%`.
abbrev pub letter : Conversion → ℕ
letter percent = 37
letter (signed u) = 105
letter (decimal u) = 117
letter (hex u) = 104
letter (binary u) = 98
letter (char u) = 99
letter (text s cs) = 115
letter no_text = 115

-- The argument, in front of the others.
abbrev pub with_argument : Conversion → List Arg → List Arg
with_argument percent args = args
with_argument (signed u) args = word u ∷ args
with_argument (decimal u) args = word u ∷ args
with_argument (hex u) args = word u ∷ args
with_argument (binary u) args = word u ∷ args
with_argument (char u) args = word u ∷ args
with_argument (text s cs) args = string (some s) ∷ args
with_argument no_text args = string none ∷ args

-- The text that is asked for.
abbrev pub shown : Conversion → List ℕ
shown percent = 37 ∷ []
shown (signed u) = signed_text u
shown (decimal u) = numeral 32 10 u
shown (hex u) = numeral 32 16 u
shown (binary u) = numeral 32 2 u
shown (char u) = u % 2 ^ 8 ∷ []
shown (text s cs) = cs
shown no_text = 40 ∷ 110 ∷ 117 ∷ 108 ∷ 108 ∷ 41 ∷ []

abbrev pub Proper : Conversion → Type 0
Proper (text s cs) = Spells s 0 cs
Proper _ = Unit

abbrev pub AllProper : List Piece → Type 0
AllProper [] = Unit
AllProper (plain c ∷ ps) = (c ≢ 37) × AllProper ps
AllProper (shows v ∷ ps) = Proper v × AllProper ps

abbrev pub format_of : List Piece → List ℕ
format_of [] = []
format_of (plain c ∷ ps) = c ∷ format_of ps
format_of (shows v ∷ ps) = 37 ∷ letter v ∷ format_of ps

abbrev pub arguments_of : List Piece → List Arg
arguments_of [] = []
arguments_of (plain c ∷ ps) = arguments_of ps
arguments_of (shows v ∷ ps) = with_argument v (arguments_of ps)

abbrev pub text_of : List Piece → List ℕ
text_of [] = []
text_of (plain c ∷ ps) = c ∷ text_of ps
text_of (shows v ∷ ps) = shown v ++ text_of ps

null-Spells : Spells null_text 0 (40 ∷ 110 ∷ 117 ∷ 108 ∷ 108 ∷ 41 ∷ [])
null-Spells = (refl, cc, (refl, cc, (refl, cc, (refl, cc, (refl, cc, (refl, cc, refl))))))

convert_percent :
    (f : ℕ) (str : Chars) (max ind : ℕ) (args : List Arg)
    → convert f 37 str max ind args ≡ some ((update str ind 37, ind + 1), args)
unfolding convert
convert_percent f str max ind [] = refl
convert_percent f str max ind (word u ∷ args) = refl
convert_percent f str max ind (string s ∷ args) = refl

convert_lem :
    (v : Conversion) (f : ℕ) (str : Chars) (max ind : ℕ) (args : List Arg)
    → Proper v
    → ind < max
    → length (shown v) < f
    → convert f (letter v) str max ind (with_argument v args)
      ≡ some (put_text str max ind (shown v), args)
unfolding convert
convert_lem percent f str max ind args h room lt =
    let here : ltb ind max ≡ true = ground arith in rw here (convert_percent f str max ind args)
convert_lem (signed u) f str max ind args h room lt =
    ap (Option.map (λ r. (r, args))) (put_int_lem str max ind u room)
convert_lem (decimal u) f str max ind args h room lt =
    ap (Option.map (λ r. (r, args))) (put_number_lem str max ind u 10)
convert_lem (hex u) f str max ind args h room lt =
    ap (Option.map (λ r. (r, args))) (put_number_lem str max ind u 16)
convert_lem (binary u) f str max ind args h room lt =
    ap (Option.map (λ r. (r, args))) (put_number_lem str max ind u 2)
convert_lem (char u) f str max ind args h room lt =
    let here : ltb ind max ≡ true = ground arith in rw here refl
convert_lem (text s cs) f str max ind args h room lt =
    ap (Option.map (λ r. (r, args))) (put_string_lem cs f str max ind s 0 h lt)
convert_lem no_text f str max ind args h room lt =
    ap (Option.map (λ r. (r, args))) (
      put_string_lem (40 ∷ 110 ∷ 117 ∷ 108 ∷ 108 ∷ 41 ∷ []) f str max ind null_text 0 null-Spells
        lt)

-- The 0 behind the text.
abbrev closed : Chars × ℕ → Option (Chars × ℕ)
closed w = some (update w.0 w.1 0, w.1)

two_on : (k : ℕ) → k + 1 + 1 ≡ k + 2
two_on k = omega arith

vsnprintf_loop_lem :
    (ps : List Piece) (f : ℕ) (str : Chars) (max ind : ℕ) (fmt : Chars) (k : ℕ)
    → AllProper ps
    → Spells fmt k (format_of ps)
    → length (format_of ps) + length (text_of ps) < f
    → vsnprintf_loop f str max ind fmt k (arguments_of ps)
      ≡ closed (put_text str max ind (text_of ps))
unfolding vsnprintf_loop
vsnprintf_loop_lem ps zero str max ind fmt k a h lt = absurd (omega arith)
vsnprintf_loop_lem [] (suc f) str max ind fmt k a h lt =
    let stop : (not (fmt k == 0) && ltb ind max) ≡ false = ground (arith, h) in
    rw (vsnprintf_loop, stop) refl
vsnprintf_loop_lem (plain c ∷ ps) (suc f) str max ind fmt k a h lt =
    elim (Bool-cases (ltb ind max)) [
      | inr e ↦
          let stop : (not (fmt k == 0) && ltb ind max) ≡ false = ground arith in
          rw (vsnprintf_loop, stop, e) refl
      | inl e ↦
          let go : (not (fmt k == 0) && ltb ind max) ≡ true = ground (arith, h.0, h.1) in
          let same : (fmt k == 37) ≡ false = ground (arith, h.0, a.0) in
          rw (vsnprintf_loop, go, same, e, h.0)
            (vsnprintf_loop_lem ps f (update str ind c) max (ind + 1) fmt (k + 1) a.1 h.2
              (omega arith))
    ]
vsnprintf_loop_lem (shows v ∷ ps) (suc f) str max ind fmt k a h lt =
    elim (Bool-cases (ltb ind max)) [
      | inr e ↦
          let stop : (not (fmt k == 0) && ltb ind max) ≡ false = ground arith in
          rw
            (vsnprintf_loop, stop, put_text_full str max ind (shown v ++ text_of ps) (ground arith))
            refl
      | inl e ↦
          let go : (not (fmt k == 0) && ltb ind max) ≡ true = ground (arith, h.0) in
          let escape : (fmt k == 37) ≡ true = ground (arith, h.0) in
          let long = length-append (shown v) (text_of ps) in
          let w = put_text str max ind (shown v) in
          let behind = subst (λ n. Spells fmt n (format_of ps)) (two_on k) h.2.2 in
          let converts =
            convert_lem v f str max ind (arguments_of ps) a.0 (ground arith)
              (omega (arith, long, lt)) in
          let args = with_argument v (arguments_of ps) in
          rw
            (
              vsnprintf_loop,
              go,
              escape,
              ap (λ (c : ℕ). convert f c str max ind args) h.2.0 ∙ converts,
              put_text-append str max ind (shown v) (text_of ps),
            )
            (vsnprintf_loop_lem ps f w.0 max w.1 fmt (k + 2) a.1 behind (omega (arith, long, lt)))
    ]

-- What `vsnprintf` leaves where the whole text is `t`.
pub record Formatted (str : Chars) (max : ℕ) (t : List ℕ) (r : Option (Chars × ℕ)) : Type 0 where
  pub after : Chars
  pub ends : r ≡ some (after, min (length t) max)
  pub chars :
      (j : ℕ) → after j ≡ (let n = min (length t) max in if n == j then 0 else put str 0 n t j)

-- For a format that is made of characters and conversions, with the arguments that they ask for
-- and with fuel beyond the length of the format and of the whole text that it asks for,
-- `vsnprintf` ends. It writes the first characters of that text, at most `max`, with 0 behind
-- them, which is at index `max` where the text fills it, returns how many, and changes nothing
-- else.
pub vsnprintf_lem :
    (ps : List Piece) (f : ℕ) (str : Chars) (max : ℕ) (fmt : Chars)
    → AllProper ps
    → Spells fmt 0 (format_of ps)
    → length (format_of ps) + length (text_of ps) < f
    → Formatted str max (text_of ps) (vsnprintf f str max fmt (arguments_of ps))
unfolding vsnprintf
vsnprintf_lem ps f str max fmt a h lt =
    let t = text_of ps in
    let w = put_text str max 0 t in
    let count : w.1 ≡ min (length t) max = omega (arith, put_text_count str max 0 t) in
    record {
      after = update w.0 w.1 0;
      ends =
          vsnprintf_loop_lem ps f str max 0 fmt 0 a h lt
          ∙ ap (λ (n : ℕ). some (update w.0 w.1 0, n)) count;
      chars = λ j.
          ap (λ (n : ℕ). if n == j then 0 else w.0 j) count
          ∙ ap (λ (c : ℕ). if min (length t) max == j then 0 else c)
              (put_text_chars str max 0 t j ∙ ap (λ (n : ℕ). put str 0 n t j) (omega arith));
    }
