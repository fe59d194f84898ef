-- ===== src/Text/Copy.antt =====
-- `strlcpy` of string.c: what it writes, and where.
use omb.Base.{
  ℕ, zero, suc, ◌+◌, ◌-◌, ◌%◌, ◌^◌, ◌<◌, ◌≤◌, ◌≡◌, ◌∙◌, ap, true, false, not, ◌&&◌, Option, some,
  ◌≢◌, arith, ltb, leb, ◌==◌, if◌then◌else◌, Bool-cases, inl, inr, update,
}
use omb.Text.{Chars, strlcpy_loop, strlcpy}
use omb.Text.Compare.{Ends}

-- The string that `strlcpy` leaves when it copied `n` characters from index `i` on.
abbrev pub copied : (dest src : Chars) → (i n : ℕ) → Chars
copied dest src i n j = if j == i + n then 0 else if leb i j && ltb j (i + n) then src j else dest j

pub record Copied (dest src : Chars) (i n : ℕ) (r : Option (Chars × ℕ)) : Type 0 where
  pub after : Chars
  pub ends : r ≡ some (after, i + n + 1)
  pub chars : (j : ℕ) → after j ≡ copied dest src i n j

copied_step :
    (dest src : Chars) (i n j : ℕ)
    → copied (update dest i (src i)) src (i + 1) n j ≡ copied dest src i (suc n) j
copied_step dest src i n j = ground arith

step :
    (dest src : Chars) (i n : ℕ) {r : Option (Chars × ℕ)}
    → Copied (update dest i (src i)) src (i + 1) n r
    → Copied dest src i (suc n) r
step dest src i n c = record {
  after = Copied.after c;
  ends = Copied.ends c ∙ ap (λ (t : ℕ). some (Copied.after c, t)) (omega arith);
  chars = λ j. Copied.chars c j ∙ copied_step dest src i n j;
}

strlcpy_loop-Copied :
    (n f i max : ℕ) (dest src : Chars)
    → n < f
    → max < 2 ^ 32
    → 0 < max
    → ((j : ℕ) → i ≤ j → j < i + n → src j ≢ 0)
    → i + n + 1 ≤ max
    → (i + n + 1 < max → src (i + n) ≡ 0)
    → Copied dest src i n (strlcpy_loop f dest src max i)
unfolding strlcpy_loop
strlcpy_loop-Copied n zero i max dest src a w b c d e = absurd (omega arith)
strlcpy_loop-Copied zero (suc f) i max dest src a w b c d e =
    let same : src (i + 0) ≡ src i = ap src (omega arith) in
    let last : (ltb i ((max + (2 ^ 32 - 1)) % 2 ^ 32) && not (src i == 0)) ≡ false =
      ground (arith, e, same) in
    rw (strlcpy_loop, last)
      (record {
        after = update dest i 0;
        ends = ap (λ (t : ℕ). some (update dest i 0, t)) (omega arith);
        chars = λ j. ground arith;
      })
strlcpy_loop-Copied (suc n) (suc f) i max dest src a w b c d e =
    let go : (ltb i ((max + (2 ^ 32 - 1)) % 2 ^ 32) && not (src i == 0)) ≡ true =
      ground (arith, c i (omega arith) (omega arith)) in
    let next : src (i + 1 + n) ≡ src (i + suc n) = ap src (omega arith) in
    rw (strlcpy_loop, go)
      (step dest src i n (
        strlcpy_loop-Copied n f (i + 1) max (update dest i (src i)) src (omega arith) w b
          (λ j g h. c j (omega arith) (omega arith)) (omega arith) (λ g. next ∙ e (omega arith))))

-- For a source of `len` characters and a size `max` from 1 to 2^32 - 1, `strlcpy` copies the
-- first `len` or `max - 1` characters, whichever is less, writes 0 behind them, returns their
-- count with the 0, and changes nothing else: it writes at most `max` characters.
pub strlcpy_lem :
    (dest src : Chars) (len max f : ℕ)
    → Ends src len
    → 0 < max
    → max < 2 ^ 32
    → len < f
    → Copied dest src 0 (if ltb len max then len else max - 1) (strlcpy f dest src max)
unfolding strlcpy
strlcpy_lem dest src len max f e p w h =
    let whole : src (0 + len) ≡ src len = ap src (omega arith) in
    elim (Bool-cases (ltb len max)) [
      | inl b ↦ rw b (
          strlcpy_loop-Copied len f 0 max dest src h w p (λ j g k. Ends.before e j (omega arith))
            (ground arith) (λ g. whole ∙ Ends.ending e))
      | inr b ↦ rw b (
          strlcpy_loop-Copied (max - 1) f 0 max dest src (ground arith) w p
            (λ j g k. Ends.before e j (ground arith)) (omega arith) (λ g. absurd (omega arith)))
    ]
