-- ===== src/Text.antt =====
-- lib/libstring/string.c and lib/libstring/conv.c. A string is the family of its characters from
-- its pointer on, with no end of its own: what ends it is the character 0. A loop that looks for
-- that character runs on fuel, and `none` is a loop that goes on past it. A `size_t` has 32 bits.
use omb.Base.{
  ℕ, zero, suc, ◌+◌, ◌-◌, ◌*◌, ◌/◌, ◌%◌, ◌^◌, Bool, true, false, not, ◌&&◌, ◌||◌, Option, none,
  some, List, [], ◌∷◌, ltb, leb, ◌==◌, if◌then◌else◌, update, length, is_nil,
}
use mathlib.Core.Option
pub mod Compare
pub mod Copy
pub mod Number
pub mod Parse
pub mod Write
pub mod Format
pub mod Scan
pub mod Token

abbrev pub Chars : Type 0
Chars = ℕ → ℕ

-- str + n
abbrev pub from : Chars → ℕ → Chars
from s n i = s (n + i)

unfoldable pub isspace : ℕ → Bool
isspace c = (c == 32) || (c == 10) || (c == 9)

unfoldable pub strlen_loop : ℕ → Chars → ℕ → Option ℕ
strlen_loop zero s len = none
strlen_loop (suc f) s len = elim (s len == 0) [
  | true ↦ some len
  | false ↦ strlen_loop f s (len + 1)
]

-- strlen(s), with the fuel `f`.
unfoldable pub strlen : ℕ → Chars → Option ℕ
unfolding strlen_loop
strlen f s = strlen_loop f s 0

unfoldable pub strncmp_from : ℕ → ℕ → (s1 s2 : Chars) → Bool
strncmp_from zero i s1 s2 = true
strncmp_from (suc len) i s1 s2 =
    let rest = strncmp_from len (i + 1) s1 s2 in
    if (s1 i == 0) && (s2 i == 0) then true else if not (s1 i == s2 i) then false else rest

-- strncmp(s1, s2, len)
unfoldable pub strncmp : (s1 s2 : Chars) → ℕ → Bool
unfolding strncmp_from
strncmp s1 s2 len = strncmp_from len 0 s1 s2

-- `strcmp` with the two lengths.
unfoldable pub same_text : (s1 s2 : Chars) → Option ℕ → Option ℕ → Option Bool
unfolding strncmp
same_text s1 s2 none l2 = none
same_text s1 s2 (some l1) none = none
same_text s1 s2 (some l1) (some l2) = some (if l1 == l2 then strncmp s1 s2 l1 else false)

-- strcmp(s1, s2)
unfoldable pub strcmp : ℕ → (s1 s2 : Chars) → Option Bool
unfolding strlen same_text
strcmp f s1 s2 = same_text s1 s2 (strlen f s1) (strlen f s2)

-- The loop of `strlcpy` from index `i` on, with the test `i < max - 1` on 32 bits, and what is
-- after it.
unfoldable pub strlcpy_loop : ℕ → (dest src : Chars) → (max i : ℕ) → Option (Chars × ℕ)
strlcpy_loop zero dest src max i = none
strlcpy_loop (suc f) dest src max i =
    elim (ltb i ((max + (2 ^ 32 - 1)) % 2 ^ 32) && not (src i == 0)) [
      | true ↦ strlcpy_loop f (update dest i (src i)) src max (i + 1)
      | false ↦ some (update dest i 0, i + 1)
    ]

-- strlcpy(dest, src, max): the destination after the call, and the result.
unfoldable pub strlcpy : ℕ → (dest src : Chars) → ℕ → Option (Chars × ℕ)
unfolding strlcpy_loop
strlcpy f dest src max = strlcpy_loop f dest src max 0

-- The character that `printint` writes for a digit.
unfoldable pub digit_char : ℕ → ℕ
digit_char i = if ltb 9 i then 97 + (i - 10) else 48 + i

-- The do loop of `printint`: the digits in the buffer `s`, the last written first. The buffer has
-- 32 characters, which is the fuel.
unfoldable pub digits_loop : ℕ → (i base : ℕ) → List ℕ → List ℕ
unfolding digit_char
digits_loop zero i base s = s
digits_loop (suc f) i base s =
    let d = i / base in
    let r = i % base in
    let more = digits_loop f d base (digit_char r ∷ s) in if ltb 0 d then more else digit_char r ∷ s

-- The second loop of `printint`, which takes the digits off the end of the buffer.
unfoldable pub copy_digits : List ℕ → (str : Chars) → (max at : ℕ) → ℕ → Chars × ℕ
copy_digits [] str max at d = (str, d)
copy_digits (c ∷ s) str max at d =
    let rest = copy_digits s (update str (at + d) c) max at (d + 1) in
    if ltb d max then rest else (str, d)

-- printint(str + at, max, i, base): the string after the call, and the count of characters.
unfoldable pub printint : Chars → (at max i base : ℕ) → Chars × ℕ
unfolding digits_loop copy_digits
printint str at max i base = copy_digits (digits_loop 32 i base []) str max at 0

-- An argument of `vsnprintf`: a word, which `%i` reads as signed, or a string.
pub data Arg : Type 0 where
  word : ℕ → Arg
  string : Option Chars → Arg

-- "(null)"
abbrev null_text : Chars
null_text i =
    if i == 0
    then 40
    else if i == 1
    then 110
    else if i == 2
    then 117
    else if i == 3
    then 108
    else if i == 4
    then 108
    else if i == 5
    then 41
    else 0

-- The loop of `%s`.
unfoldable pub put_string : ℕ → Chars → (max ind : ℕ) → Chars → ℕ → Option (Chars × ℕ)
put_string zero str max ind s i = none
put_string (suc f) str max ind s i = elim (ltb ind max && not (s i == 0)) [
  | true ↦ put_string f (update str ind (s i)) max (ind + 1) s (i + 1)
  | false ↦ some (str, ind)
]

unfoldable pub put_number : Chars → (max ind u base : ℕ) → Option (Chars × ℕ)
unfolding printint
put_number str max ind u base = let r = printint str ind (max - ind) u base in some (r.0, ind + r.1)

-- `%i`: the sign of a negative number, and its magnitude if there is room for it.
unfoldable pub put_int : Chars → (max ind i : ℕ) → Option (Chars × ℕ)
unfolding put_number
put_int str max ind i =
    if ltb i (2 ^ 31)
    then put_number str max ind i 10
    else if leb max (ind + 1)
    then some (update str ind 45, ind + 1)
    else put_number (update str ind 45) max (ind + 1) (2 ^ 32 - i) 10

-- One conversion of `vsnprintf`, for the character after `%`; a conversion that takes an argument
-- where none of its kind is left is undefined, and `none` here.
unfoldable pub convert :
    ℕ → (c : ℕ) → Chars → (max ind : ℕ) → List Arg → Option ((Chars × ℕ) × List Arg)
unfolding put_int put_number put_string
convert f c str max ind [] =
    if c == 37
    then some ((update str ind 37, ind + 1), [])
    else if (c == 105) || (c == 117) || (c == 104) || (c == 98) || (c == 99) || (c == 115)
    then none
    else some ((str, ind), [])
convert f c str max ind (word u ∷ args) =
    if c == 37
    then some ((update str ind 37, ind + 1), word u ∷ args)
    else if c == 105
    then Option.map (λ r. (r, args)) (put_int str max ind u)
    else if c == 117
    then Option.map (λ r. (r, args)) (put_number str max ind u 10)
    else if c == 104
    then Option.map (λ r. (r, args)) (put_number str max ind u 16)
    else if c == 98
    then Option.map (λ r. (r, args)) (put_number str max ind u 2)
    else if c == 99
    then some ((update str ind (u % 2 ^ 8), ind + 1), args)
    else if c == 115
    then none
    else some ((str, ind), word u ∷ args)
convert f c str max ind (string s ∷ args) =
    if c == 37
    then some ((update str ind 37, ind + 1), string s ∷ args)
    else if c == 115
    then Option.map (λ r. (r, args)) (put_string f str max ind (or_null s) 0)
    else if (c == 105) || (c == 117) || (c == 104) || (c == 98) || (c == 99)
    then none
    else some ((str, ind), string s ∷ args)
  where
    or_null : Option Chars → Chars
    or_null none = null_text
    or_null (some s) = s

unfoldable pub vsnprintf_loop :
    ℕ → Chars → (max ind : ℕ) → (fmt : Chars) → ℕ → List Arg → Option (Chars × ℕ)
unfolding convert
vsnprintf_loop zero str max ind fmt k args = none
vsnprintf_loop (suc f) str max ind fmt k args = elim (not (fmt k == 0) && ltb ind max) [
  | false ↦ some (update str ind 0, ind)
  | true ↦ elim (fmt k == 37) [
    | false ↦ vsnprintf_loop f (update str ind (fmt k)) max (ind + 1) fmt (k + 1) args
    | true ↦ elim (convert f (fmt (k + 1)) str max ind args) [
      | none ↦ none
      | some ((str', ind'), rest) ↦ vsnprintf_loop f str' max ind' fmt (k + 2) rest
    ]
  ]
]

-- vsnprintf(str, max, fmt, args): the string after the call, and the result.
unfoldable pub vsnprintf : ℕ → Chars → ℕ → Chars → List Arg → Option (Chars × ℕ)
unfolding vsnprintf_loop
vsnprintf f str max fmt args = vsnprintf_loop f str max 0 fmt 0 args

-- snprintf(str, max, fmt, args)
unfoldable pub snprintf : ℕ → Chars → ℕ → Chars → List Arg → Option (Chars × ℕ)
snprintf f str max fmt args = vsnprintf f str max fmt args

-- `isspace` skipped, from index `i` on: the first loop of `strtol`.
unfoldable pub skip_spaces : ℕ → Chars → ℕ → Option ℕ
unfolding isspace
skip_spaces zero s i = none
skip_spaces (suc f) s i = elim (isspace (s i)) [ true ↦ skip_spaces f s (i + 1) | false ↦ some i ]

-- The second loop of `strtol`, with `long` taken modulo 2^32.
unfoldable pub read_digits : ℕ → Chars → (base i n : ℕ) → Option ℕ
unfolding isspace
read_digits zero s base i n = none
read_digits (suc f) s base i n = elim (not (s i == 0) && not (isspace (s i))) [
  | true ↦ read_digits f s base (i + 1) ((n * base + s i + (2 ^ 32 - 48)) % 2 ^ 32)
  | false ↦ some n
]

-- `strtol` after the spaces: the sign, the digits and the negation.
unfoldable pub read_signed : ℕ → Chars → (base : ℕ) → Option ℕ → Option ℕ
unfolding read_digits
read_signed f s base none = none
read_signed f s base (some i) =
    if s i == 43
    then read_digits f s base (i + 1) 0
    else if s i == 45
    then Option.map (λ (n : ℕ). (2 ^ 32 - n) % 2 ^ 32) (read_digits f s base (i + 1) 0)
    else read_digits f s base i 0

-- strtol(nptr, endptr, base): the result as 32 bits; `endptr` is not used.
unfoldable pub strtol : ℕ → Chars → ℕ → Option ℕ
unfolding skip_spaces read_signed
strtol f s base = read_signed f s base (skip_spaces f s 0)
