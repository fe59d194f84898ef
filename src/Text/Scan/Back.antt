-- ===== src/Text/Scan/Back.antt =====
-- `sscanf` on numbers that are printed.
use omb.Base.{
  ℕ, zero, suc, ◌+◌, ◌/◌, ◌%◌, ◌^◌, ◌<◌, ◌≤◌, ◌≡◌, ◌≢◌, refl, ◌∙◌, sym, ap, subst, Bool, true,
  false, not, ◌&&◌, Option, some, List, [], ◌∷◌, ◌++◌, append-nil, arith, ltb, leb, ◌==◌,
  Bool-cases, inl, inr, length, length-append, get_or,
}
use native.Mathlib.Nat.{pow-suc}
use omb.Text.{Chars, digit_char, digits_loop, strtol}
use omb.Text.Number.{value, digits_value}
use omb.Text.Parse.{AllDigits, Shows, strtol_digits, digits_loop-AllDigits, digits_loop-some}
use omb.Text.Write.{numeral, digits_loop-numeral, Spells}
use omb.Text.Scan.{
  Field, number, read_until, num_of, store, scan_number, scan_conversion, vsscanf_loop, vsscanf,
}

abbrev pub digits : ℕ → List ℕ
digits u = numeral 32 10 u

digits_lem : (u : ℕ) → digits_loop 32 u 10 [] ≡ digits u
digits_lem u = digits_loop-numeral 32 u 10 [] ∙ append-nil (digits u)

pub digits-AllDigits : (u : ℕ) → AllDigits (digits u)
digits-AllDigits u = subst AllDigits (digits_lem u) (digits_loop-AllDigits 32 u [] tt)

digits_some : (u : ℕ) → 0 < length (digits u)
digits_some u = subst (λ (s : List ℕ). 0 < length s) (digits_lem u) (digits_loop-some 31 u [])

digits_number : (u : ℕ) → u < 2 ^ 32 → value 10 0 (digits u) ≡ u
digits_number u h =
    subst (λ (s : List ℕ). value 10 0 s ≡ u) (digits_lem u)
      (digits_value 32 u 10 [] (omega arith) (omega arith) h)

length-numeral : (n f i : ℕ) → i < 10 ^ suc n → length (numeral f 10 i) ≤ suc n
length-numeral n zero i h = omega arith
length-numeral zero (suc f) i h =
    let single : ltb 0 (i / 10) ≡ false = ground arith in rw single (omega arith)
length-numeral (suc n) (suc f) i h =
    let low : i / 10 < 10 ^ suc n = omega (arith, h, pow-suc 10 (suc n)) in
    let front = length-numeral n f (i / 10) low in
    elim (Bool-cases (ltb 0 (i / 10))) [
      | inl e ↦
          rw e (
            omega
              (arith, front, length-append (numeral f 10 (i / 10)) ((digit_char (i % 10)) ∷ [])))
      | inr e ↦ rw e (omega arith)
    ]

length-digits : (u : ℕ) → u < 2 ^ 32 → length (digits u) ≤ 10
length-digits u h = length-numeral 9 32 u (omega arith)

-- The string has the characters of the list from index `i` on, and `stop` behind them.
abbrev Reads : Chars → ℕ → List ℕ → ℕ → Type 0
Reads str i [] stop = str i ≡ stop
Reads str i (c ∷ cs) stop = (str i ≡ c) × Reads str (i + 1) cs stop

abbrev pub is_digit : ℕ → Bool
is_digit c = leb 48 c && ltb c 58

read_until_lem :
    (cs : List ℕ) (f : ℕ) (str : Chars) (i stop : ℕ)
    → AllDigits cs
    → is_digit stop ≡ false
    → Reads str i cs stop
    → length cs < f
    → read_until f str i stop ≡ some (cs, i + length cs)
unfolding read_until
read_until_lem cs zero str i stop a d h lt = absurd (omega arith)
read_until_lem [] (suc f) str i stop a d h lt =
    let end : (not (str i == 0) && not (str i == stop)) ≡ false = ground (arith, h) in
    rw (read_until, end) (ap (λ (j : ℕ). some ([], j)) (omega arith))
read_until_lem (c ∷ cs) (suc f) str i stop a d h lt =
    let go : (not (str i == 0) && not (str i == stop)) ≡ true = ground (arith, h.0, a.0) in
    rw (read_until, go, read_until_lem cs f str (i + 1) stop a.1 d h.1 (omega arith), h.0)
      (ap (λ (j : ℕ). some (c ∷ cs, j)) (omega arith))

num-Shows : (cs : List ℕ) → Shows (num_of cs) 0 cs
num-Shows cs = record {
  chars = λ k lt. ap (λ (i : ℕ). get_or cs i 0) (omega arith);
  ending = ap (λ (i : ℕ). get_or cs i 0) (omega arith) ∙ past cs;
}
  where
    past : (cs : List ℕ) → get_or cs (length cs) 0 ≡ 0
    past [] = refl
    past (c ∷ cs) = past cs

scanned :
    (cs : List ℕ) (f v end : ℕ) (go_on : ℕ → Option (ℕ × List Field))
    → ltb (length cs) 32 ≡ true
    → strtol f (num_of cs) 10 ≡ some v
    → scan_number f (some (cs, end)) go_on ≡ store (number v) (go_on end)
scanned cs f v end go_on room parses = rw (scan_number, room, parses) refl

scan_number_lem :
    (u f : ℕ) (str : Chars) (i n stop : ℕ) (go_on : ℕ → Option (ℕ × List Field))
    → u < 2 ^ 32
    → is_digit stop ≡ false
    → Reads str i (digits u) stop
    → 11 ≤ f
    → scan_conversion f 105 stop str i n go_on ≡ store (number u) (go_on (i + length (digits u)))
unfolding scan_conversion
scan_number_lem u f str i n stop go_on h d r enough =
    let few = length-digits u h in
    let reads =
      read_until_lem (digits u) f str i stop (digits-AllDigits u) d r (omega (arith, few)) in
    let room : ltb (length (digits u)) 32 ≡ true = ground (arith, few) in
    let parses =
      strtol_digits (digits u) f (num_of (digits u)) (digits-AllDigits u) (digits_some u)
        (num-Shows (digits u)) (omega (arith, few)) (omega (arith, digits_number u h)) in
    ap (λ r. scan_number f r go_on) reads
    ∙ scanned (digits u) f u (i + length (digits u)) go_on room
        (parses ∙ ap some (digits_number u h))

-- Numbers behind separators: the text, the format that reads it, and what is stored.
abbrev pub printed : List (ℕ × ℕ) → List ℕ
printed [] = []
printed ((c, u) ∷ vs) = c ∷ numeral 32 10 u ++ printed vs

abbrev pub format_for : List (ℕ × ℕ) → List ℕ
format_for [] = []
format_for ((c, u) ∷ vs) = c ∷ 37 ∷ 105 ∷ format_for vs

abbrev pub numbers : List (ℕ × ℕ) → List Field
numbers [] = []
numbers ((c, u) ∷ vs) = number u ∷ numbers vs

abbrev pub Separated : List (ℕ × ℕ) → Type 0
Separated [] = Unit
Separated ((c, u) ∷ vs) = (is_digit c ≡ false) × (c ≢ 37) × (u < 2 ^ 32) × Separated vs

-- The character that follows.
abbrev next_of : List (ℕ × ℕ) → ℕ
next_of [] = 0
next_of ((c, u) ∷ vs) = c

stop_digit : (vs : List (ℕ × ℕ)) → Separated vs → is_digit (next_of vs) ≡ false
stop_digit [] s = refl
stop_digit ((c, u) ∷ vs) s = s.0

Spells-next :
    (vs : List (ℕ × ℕ)) (fmt : Chars) (k : ℕ) → Spells fmt k (format_for vs) → fmt k ≡ next_of vs
Spells-next [] fmt k h = h
Spells-next ((c, u) ∷ vs) fmt k h = h.0

Reads-Spells :
    (cs : List ℕ) (vs : List (ℕ × ℕ)) (str : Chars) (i : ℕ)
    → Spells str i (cs ++ printed vs)
    → Reads str i cs (next_of vs)
Reads-Spells [] [] str i h = h
Reads-Spells [] ((c, u) ∷ vs) str i h = h.0
Reads-Spells (c ∷ cs) vs str i h = (h.0, Reads-Spells cs vs str (i + 1) h.2)

Spells-drop :
    (cs rest : List ℕ) (str : Chars) (i : ℕ)
    → Spells str i (cs ++ rest)
    → Spells str (i + length cs) rest
Spells-drop [] rest str i h = subst (λ (j : ℕ). Spells str j rest) (omega arith) h
Spells-drop (c ∷ cs) rest str i h =
    subst (λ (j : ℕ). Spells str j rest) (omega arith) (Spells-drop cs rest str (i + 1) h.2)

-- One number and those behind it.
scan_next :
    (u : ℕ) (vs : List (ℕ × ℕ)) (f : ℕ) (str : Chars) (i : ℕ) (fmt : Chars) (k n stop : ℕ) (m : ℕ)
    → u < 2 ^ 32
    → Separated vs
    → stop ≡ next_of vs
    → Spells str i (digits u ++ printed vs)
    → 11 ≤ f
    → vsscanf_loop f str (i + length (digits u)) fmt k (n + 1) ≡ some (m, numbers vs)
    → scan_conversion f 105 stop str i n (λ (j : ℕ). vsscanf_loop f str j fmt k (n + 1))
      ≡ some (m, number u ∷ numbers vs)
scan_next u vs f str i fmt k n stop m h s e t enough rest =
    scan_number_lem u f str i n stop (λ (j : ℕ). vsscanf_loop f str j fmt k (n + 1)) h
      (ap is_digit e ∙ stop_digit vs s)
      (subst (Reads str i (digits u)) (sym e) (Reads-Spells (digits u) vs str i t)) enough
    ∙ ap (store (number u)) rest

three_on : (k : ℕ) → k + 1 + 1 + 1 ≡ k + 3
three_on k = omega arith

two_on : (k : ℕ) → k + 1 + 1 ≡ k + 2
two_on k = omega arith

vsscanf_loop_lem :
    (vs : List (ℕ × ℕ)) (f : ℕ) (str : Chars) (i : ℕ) (fmt : Chars) (k n : ℕ)
    → Separated vs
    → Spells str i (printed vs)
    → Spells fmt k (format_for vs)
    → length vs + 11 < f
    → vsscanf_loop f str i fmt k n ≡ some (n + length vs, numbers vs)
unfolding vsscanf_loop
vsscanf_loop_lem vs zero str i fmt k n s t h lt = absurd (omega arith)
vsscanf_loop_lem [] (suc f) str i fmt k n s t h lt =
    let end : (fmt k == 0) ≡ true = ground (arith, h) in
    rw (vsscanf_loop, end) (ap (λ (m : ℕ). some (m, [])) (omega arith))
vsscanf_loop_lem ((c, u) ∷ vs) (suc f) str i fmt k n s t h lt =
    let on : (fmt k == 0) ≡ false = ground (arith, h.0, h.1) in
    let literal : (fmt k == 37) ≡ false = ground (arith, h.0, s.1) in
    let same : (str i == fmt k) ≡ true = ground (arith, h.0, t.0) in
    let behind = subst (λ (j : ℕ). Spells fmt j (format_for vs)) (three_on k) h.2.2.2 in
    let rest =
      vsscanf_loop_lem vs f str (i + 1 + length (digits u)) fmt (k + 3) (n + 1) s.3
        (Spells-drop (digits u) (printed vs) str (i + 1) t.2) behind (omega arith) in
    let count : n + 1 + length vs ≡ n + suc (length vs) = omega arith in
    let conversion : fmt (k + 2) ≡ 105 = ap fmt (sym (two_on k)) ∙ h.2.2.0 in
    rw (vsscanf_loop, on, literal, same)
      (ap
          (λ (t : ℕ).
            scan_conversion f t (fmt (k + 3)) str (i + 1) n
              (λ (j : ℕ). vsscanf_loop f str j fmt (k + 3) (n + 1)))
          conversion
        ∙ scan_next u vs f str (i + 1) fmt (k + 3) n (fmt (k + 3)) (n + suc (length vs)) s.2 s.3
            (Spells-next vs fmt (k + 3) behind) t.2 (omega arith)
            (rest ∙ ap (λ (m : ℕ). some (m, numbers vs)) count))

-- `vsscanf` with %i for each number, on the text of the numbers.
pub vsscanf_lem :
    (u : ℕ) (vs : List (ℕ × ℕ)) (f : ℕ) (str fmt : Chars)
    → u < 2 ^ 32
    → Separated vs
    → Spells str 0 (numeral 32 10 u ++ printed vs)
    → Spells fmt 0 (37 ∷ 105 ∷ format_for vs)
    → length vs + 12 < f
    → vsscanf f str fmt ≡ some (suc (length vs), number u ∷ numbers vs)
unfolding vsscanf vsscanf_loop
vsscanf_lem u vs zero str fmt b s t h lt = absurd (omega arith)
vsscanf_lem u vs (suc f) str fmt b s t h lt =
    let on : (fmt 0 == 0) ≡ false = ground (arith, h.0) in
    let escape : (fmt 0 == 37) ≡ true = ground (arith, h.0) in
    let behind : Spells fmt 2 (format_for vs) =
      subst (λ (j : ℕ). Spells fmt j (format_for vs)) (omega arith) h.2.2 in
    let rest =
      vsscanf_loop_lem vs f str (0 + length (digits u)) fmt 2 1 s
        (Spells-drop (digits u) (printed vs) str 0 t) behind (omega arith) in
    let conversion : fmt 1 ≡ 105 = ap fmt (omega arith) ∙ h.2.0 in
    rw (vsscanf_loop, on, escape)
      (ap (λ (t : ℕ). scan_conversion f t (fmt 2) str 0 0 (λ (j : ℕ). vsscanf_loop f str j fmt 2 1))
          conversion
        ∙ scan_next u vs f str 0 fmt 2 0 (fmt 2) (suc (length vs)) b s (Spells-next vs fmt 2 behind)
            t (omega arith) (rest ∙ ap (λ (m : ℕ). some (m, numbers vs)) (omega arith)))
