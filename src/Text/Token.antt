-- ===== src/Text/Token.antt =====
-- `strtok` of string.c.
pub mod Cutting
use omb.Base.{
  ℕ, zero, suc, ◌+◌, ◌<◌, ◌≤◌, ◌≡◌, ◌≢◌, refl, ◌∙◌, sym, ap, subst, Bool, true, false, not, ◌&&◌,
  Option, none, some, List, [], ◌∷◌, arith, ◌==◌, has, length, if◌then◌else◌, Bool-cases, inl, inr,
  update, ◌||◌,
}
use omb.Text.{Chars, from, strlen, strlen_loop, strncmp, strncmp_from}
use omb.Text.Write.{Spells}

-- The first loop: the index of the first separator in `str`, or of the 0.
unfoldable pub find_sep : ℕ → (str sep : Chars) → (seplen i : ℕ) → Option ℕ
find_sep zero str sep seplen i = none
find_sep (suc f) str sep seplen i = elim (str i == 0) [
  | true ↦ some i
  | false ↦ elim (strncmp (from str i) sep seplen) [
    | true ↦ some i
    | false ↦ find_sep f str sep seplen (i + 1)
  ]
]

-- The second loop: the index behind the separators.
unfoldable pub skip_seps : ℕ → (str sep : Chars) → (seplen i : ℕ) → Option ℕ
skip_seps zero str sep seplen i = none
skip_seps (suc f) str sep seplen i = elim (str i == 0) [
  | true ↦ some i
  | false ↦ elim (strncmp (from str i) sep seplen) [
    | true ↦ skip_seps f str sep seplen (i + seplen)
    | false ↦ some i
  ]
]

-- What `strtok` leaves: the characters, the static variable `str` and the result. A pointer is an
-- index of the characters.
pub record Cut : Type 0 where
  pub chars : Chars
  pub kept : Option ℕ
  pub result : Option ℕ

abbrev pub cut_at : ℕ → (str sep : Chars) → (seplen start : ℕ) → Option ℕ → Option Cut
cut_at f str sep seplen start none = none
cut_at f str sep seplen start (some i) = elim (str i == 0) [
  | true ↦ some (record { chars = str; kept = none; result = some start })
  | false ↦
      let str' = update str i 0 in
      elim (skip_seps f str' sep seplen (i + 1)) [
        | none ↦ none
        | some j ↦ some (record { chars = str'; kept = some j; result = some start })
      ]
]

abbrev pub cut_from : ℕ → (str sep : Chars) → Option ℕ → (start : ℕ) → Option Cut
cut_from f str sep none start = none
cut_from f str sep (some seplen) start =
    cut_at f str sep seplen start (find_sep f str sep seplen start)

-- strtok(nstr, sep), where the static variable is `kept`.
unfoldable pub strtok : ℕ → (str : Chars) → (kept nstr : Option ℕ) → (sep : Chars) → Option Cut
strtok f str kept (some start) sep = cut_from f str sep (strlen f sep) start
strtok f str (some start) none sep = cut_from f str sep (strlen f sep) start
strtok f str none none sep = some (record { chars = str; kept = none; result = none })
