-- ===== src/Text/Scan/Trip.antt =====
-- `snprintf`, and then `sscanf` on what it printed.
use omb.Base.{
  ℕ, suc, ◌+◌, ◌^◌, ◌<◌, ◌≤◌, ◌≡◌, refl, sym, ap, subst, some, List, [], ◌∷◌, ◌++◌, arith, length,
}
use Prim.Native.Nat.{min}
use omb.Text.{Chars, snprintf}
use omb.Text.Parse.{AllDigits}
use omb.Text.Write.{numeral, Spells}
use omb.Text.Format.{
  Piece, plain, shows, decimal, AllProper, format_of, arguments_of, text_of, vsnprintf_lem,
}
use omb.Text.Format.Ending.{NoZero, take_all, Formatted-Spells}
use omb.Text.Scan.{number, sscanf}
use omb.Text.Scan.Back.{digits-AllDigits, printed, format_for, numbers, Separated, vsscanf_lem}

-- Numbers behind separators, as pieces of a format.
abbrev pub pieces_for : List (ℕ × ℕ) → List Piece
pieces_for [] = []
pieces_for ((c, u) ∷ vs) = plain c ∷ shows (decimal u) ∷ pieces_for vs

-- A number, and those behind separators.
abbrev pub line_of : ℕ → List (ℕ × ℕ) → List Piece
line_of u vs = shows (decimal u) ∷ pieces_for vs

AllProper-pieces : (vs : List (ℕ × ℕ)) → Separated vs → AllProper (pieces_for vs)
AllProper-pieces [] s = tt
AllProper-pieces ((c, u) ∷ vs) s = (s.1, (tt, AllProper-pieces vs s.3))

text_of-pieces : (vs : List (ℕ × ℕ)) → text_of (pieces_for vs) ≡ printed vs
text_of-pieces [] = refl
text_of-pieces ((c, u) ∷ vs) = ap (λ (t : List ℕ). c ∷ numeral 32 10 u ++ t) (text_of-pieces vs)

format_length : (vs : List (ℕ × ℕ)) → length vs ≤ length (format_of (pieces_for vs))
format_length [] = omega arith
format_length ((c, u) ∷ vs) = omega (arith, format_length vs)

NoZero-digits : (cs rest : List ℕ) → AllDigits cs → NoZero rest → NoZero (cs ++ rest)
NoZero-digits [] rest a z = z
NoZero-digits (c ∷ cs) rest a z = (λ e. omega (arith, a.0, e), NoZero-digits cs rest a.1 z)

NoZero-printed :
    (vs : List (ℕ × ℕ)) (fmt : Chars) (k : ℕ) → Spells fmt k (format_for vs) → NoZero (printed vs)
NoZero-printed [] fmt k h = tt
NoZero-printed ((c, u) ∷ vs) fmt k h = (
  h.1,
  NoZero-digits (numeral 32 10 u) (printed vs) (digits-AllDigits u)
      (NoZero-printed vs fmt (k + 1 + 1 + 1) h.2.2.2),
)

-- If 32-bit numbers, with characters between them that are neither digits nor %, are printed by
-- `snprintf` with %u and with room for all of them, then `sscanf` with the same format, but with
-- %i, reads as many numbers and stores the same, where the fuel is larger than the lengths of the
-- format and the text and 12.
pub snprintf-sscanf :
    (u : ℕ) (vs : List (ℕ × ℕ)) (f max : ℕ) (str to back : Chars)
    → u < 2 ^ 32
    → Separated vs
    → Spells to 0 (format_of (line_of u vs))
    → Spells back 0 (37 ∷ 105 ∷ format_for vs)
    → length (text_of (line_of u vs)) < max
    → length (format_of (line_of u vs)) + length (text_of (line_of u vs)) + 12 < f
    → (s : Chars) × (n : ℕ) × (snprintf f str max to (arguments_of (line_of u vs)) ≡ some (s, n))
      × (sscanf f s back ≡ some (suc (length vs), number u ∷ numbers vs))
unfolding snprintf sscanf
snprintf-sscanf u vs f max str to back b s w r room enough =
    let ps = line_of u vs in
    let d = vsnprintf_lem ps f str max to (tt, AllProper-pieces vs s) w (omega arith) in
    let same : text_of ps ≡ numeral 32 10 u ++ printed vs =
      ap (λ (t : List ℕ). numeral 32 10 u ++ t) (text_of-pieces vs) in
    let z =
      NoZero-digits (numeral 32 10 u) (printed vs) (digits-AllDigits u)
        (NoZero-printed vs back (0 + 1 + 1) r.2.2) in
    let text =
      subst (Spells d.after 0) (take_all max (text_of ps) (omega arith))
        (Formatted-Spells str max (text_of ps) _ d (subst NoZero (sym same) z)) in
    (
      d.after,
      min (length (text_of ps)) max,
      d.ends,
      vsscanf_lem u vs f d.after back b s (subst (Spells d.after 0) same text) r
          (omega (arith, format_length vs)),
    )
