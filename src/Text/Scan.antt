-- ===== src/Text/Scan.antt =====
-- lib/libstring/scanf.c.
pub mod Back
pub mod Trip
use omb.Base.{
  ℕ, zero, suc, ◌+◌, ◌^◌, Bool, true, false, not, ◌&&◌, Option, none, some, List, [], ◌∷◌, ltb,
  ◌==◌, if◌then◌else◌, length, get_or,
}
use omb.Text.{Chars, strtol}

-- What is stored through an argument.
pub data Field : Type 0 where
  number : ℕ → Field
  character : ℕ → Field
  characters : List ℕ → Field

-- The loop of `%i` and `%s`: the characters of `str` from index `i` on up to the next character of
-- the format, or to the 0, and the index behind them.
unfoldable pub read_until : ℕ → Chars → (i stop : ℕ) → Option (List ℕ × ℕ)
read_until zero str i stop = none
read_until (suc f) str i stop = elim (not (str i == 0) && not (str i == stop)) [
  | false ↦ some ([], i)
  | true ↦ elim (read_until f str (i + 1) stop) [
    | none ↦ none
    | some (cs, end) ↦ some (str i ∷ cs, end)
  ]
]

-- `num`, with the 0 that is put behind the characters.
abbrev pub num_of : List ℕ → Chars
num_of cs i = get_or cs i 0

abbrev pub store : Field → Option (ℕ × List Field) → Option (ℕ × List Field)
store v none = none
store v (some (n, vs)) = some (n, v ∷ vs)

-- `%i` once its characters are read: `none` if they overrun `num`, which has 32.
abbrev pub scan_number :
    ℕ → Option (List ℕ × ℕ) → (ℕ → Option (ℕ × List Field)) → Option (ℕ × List Field)
scan_number f none go_on = none
scan_number f (some (cs, end)) go_on = elim (ltb (length cs) 32) [
  | false ↦ none
  | true ↦ elim (strtol f (num_of cs) 10) [ none ↦ none | some v ↦ store (number v) (go_on end) ]
]

abbrev pub scan_text : Option (List ℕ × ℕ) → (ℕ → Option (ℕ × List Field)) → Option (ℕ × List Field)
scan_text none go_on = none
scan_text (some (cs, end)) go_on = store (characters cs) (go_on end)

-- ERR
abbrev scan_err : ℕ
scan_err = 0xffffffff

-- The switch of `vsscanf` for the character `t`, with `stop` the character behind it in the
-- format; `go_on` is the next round, at an index of `str`.
unfoldable pub scan_conversion :
    ℕ → (t stop : ℕ) → Chars → (i n : ℕ) → (ℕ → Option (ℕ × List Field)) → Option (ℕ × List Field)
scan_conversion f t stop str i n go_on =
    if t == 37
    then if not (str i == 37) then some (n, []) else go_on (i + 1)
    else if t == 105
    then scan_number f (read_until f str i stop) go_on
    else if t == 99
    then store (character (str i)) (go_on (i + 1))
    else if t == 115
    then scan_text (read_until f str i stop) go_on
    else some (scan_err, [])

-- The loop of `vsscanf`: the result and what is stored. A character that matches the format is
-- followed by the next conversion in the same round, without a look at its `%`.
unfoldable pub vsscanf_loop : ℕ → Chars → ℕ → Chars → (k n : ℕ) → Option (ℕ × List Field)
unfolding scan_conversion
vsscanf_loop zero str i fmt k n = none
vsscanf_loop (suc f) str i fmt k n = elim (fmt k == 0) [
  | true ↦ some (n, [])
  | false ↦ elim (fmt k == 37) [
    | true ↦
        scan_conversion f (fmt (k + 1)) (fmt (k + 2)) str i n
          (λ (j : ℕ). vsscanf_loop f str j fmt (k + 2) (n + 1))
    | false ↦ elim (str i == fmt k) [
      | false ↦ some (n, [])
      | true ↦
          scan_conversion f (fmt (k + 2)) (fmt (k + 3)) str (i + 1) n
            (λ (j : ℕ). vsscanf_loop f str j fmt (k + 3) (n + 1))
    ]
  ]
]

-- vsscanf(str, fmt, args)
unfoldable pub vsscanf : ℕ → (str fmt : Chars) → Option (ℕ × List Field)
unfolding vsscanf_loop
vsscanf f str fmt = vsscanf_loop f str 0 fmt 0 0

-- sscanf(str, fmt, args)
unfoldable pub sscanf : ℕ → (str fmt : Chars) → Option (ℕ × List Field)
unfolding vsscanf
sscanf f str fmt = vsscanf f str fmt
