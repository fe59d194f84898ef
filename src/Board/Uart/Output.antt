-- ===== src/Board/Uart/Output.antt =====
-- What `puts` and `debug` send.
use omb.Base.{
  ℕ, zero, suc, ◌+◌, ◌<◌, ◌≤◌, ◌≡◌, ◌≢◌, refl, ◌∙◌, sym, ap, subst, true, false, Option, some, List,
  [], ◌∷◌, ◌++◌, append_assoc, append-nil, arith, ltb, ◌==◌, bit_and, if◌then◌else◌, Bool-cases,
  inl, inr, length, length-take, take,
}
use mathlib.Core.Option
use Prim.Native.Nat.{min}
use omb.Text.{Chars}
use omb.Text.Write.{Spells}
use omb.Text.Format.{Piece, AllProper, format_of, arguments_of, text_of, vsnprintf_lem}
use omb.Text.Format.Ending.{NoZero, Formatted-Spells}
use omb.Board.Uart.{
  Uart, wait_ready, put_plain, then_put, putc, puts_from, puts, debug_max, put_formatted, debug,
}

-- Among any `b` reads of `lsr` that follow each other, one finds the device ready.
abbrev pub IsServed : (ℕ → ℕ) → ℕ → Type 0
IsServed lsr b = (n : ℕ) → (m : ℕ) × (m < b) × (bit_and (lsr (n + m)) 32 ≢ 0)

-- The text with '\r' in front of each '\n'.
abbrev pub with_returns : List ℕ → List ℕ
with_returns [] = []
with_returns (c ∷ cs) = if c == 10 then 13 ∷ 10 ∷ with_returns cs else c ∷ with_returns cs

-- The device with more characters sent.
pub record Sent (u : Uart) (cs : List ℕ) (r : Option Uart) : Type 0 where
  pub reads : ℕ
  pub ends : r ≡ some (record u { reads = reads; sent = u.sent ++ cs })

no_more : (n : ℕ) → n + 0 ≡ n
no_more n = omega arith

one_on : (n m : ℕ) → n + suc m ≡ n + 1 + m
one_on n m = omega arith

returns_step :
    (c : ℕ) (cs : List ℕ) → with_returns (c ∷ []) ++ with_returns cs ≡ with_returns (c ∷ cs)
returns_step c cs = elim (Bool-cases (c == 10)) [ inl e ↦ rw e refl | inr e ↦ rw e refl ]

wait_ready_lem :
    (f m : ℕ) (u : Uart)
    → m < f
    → bit_and (u.lsr (u.reads + m)) 32 ≢ 0
    → (n : ℕ) × (wait_ready f u ≡ some (record u { reads = n }))
unfolding wait_ready
wait_ready_lem zero m u lt ready = absurd (omega arith)
wait_ready_lem (suc f) zero u lt ready =
    let now : (bit_and (u.lsr u.reads) 32 == 0) ≡ false =
      ground (arith, ready, ap u.lsr (no_more u.reads)) in
    (u.reads + 1, rw (wait_ready, now) refl)
wait_ready_lem (suc f) (suc m) u lt ready = elim (Bool-cases (bit_and (u.lsr u.reads) 32 == 0)) [
  | inr e ↦ (u.reads + 1, rw (wait_ready, e) refl)
  | inl e ↦
      let (n, r) =
        wait_ready_lem f m (record u { reads = u.reads + 1 }) (omega arith)
          (subst (λ (i : ℕ). bit_and (u.lsr i) 32 ≢ 0) (one_on u.reads m) ready) in
      (n, rw (wait_ready, e) r)
]

module _ (f b : ℕ) (enough : b ≤ f) where
  put_plain-Sent : (c : ℕ) (u : Uart) → IsServed u.lsr b → Sent u (c ∷ []) (put_plain f c u)
  unfolding put_plain
  put_plain-Sent c u served =
      let (m, lt, ready) = served u.reads in
      let (n, r) = wait_ready_lem f m u (omega arith) ready in
      record {
        reads = n;
        ends = ap (Option.map (λ (v : Uart). record v { sent = v.sent ++ c ∷ [] })) r;
      }

  putc-Sent : (c : ℕ) (u : Uart) → IsServed u.lsr b → Sent u (with_returns (c ∷ [])) (putc f c u)
  unfolding putc
  putc-Sent c u served = elim (Bool-cases (c == 10)) [
    | inr e ↦ rw (putc, e) (put_plain-Sent c u served)
    | inl e ↦
        let first = put_plain-Sent 13 u served in
        let after = record u { reads = first.reads; sent = u.sent ++ 13 ∷ [] } in
        let second = put_plain-Sent 10 after served in
        rw (putc, e)
          (record {
            reads = second.reads;
            ends =
                ap (then_put f 10) first.ends
                ∙ second.ends
                ∙ ap (λ (t : List ℕ). some (record u { reads = second.reads; sent = t }))
                    (append_assoc u.sent (13 ∷ []) (10 ∷ []));
          })
  ]

  puts_from-Sent :
      (cs : List ℕ) (g : ℕ) (s : Chars) (i : ℕ) (u : Uart)
      → IsServed u.lsr b
      → Spells s i cs
      → length cs < g
      → Sent u (with_returns cs) (puts_from g f s i u)
  unfolding puts_from
  puts_from-Sent cs zero s i u served h lt = absurd (omega arith)
  puts_from-Sent [] (suc g) s i u served h lt =
      let end : (s i == 0) ≡ true = ground (arith, h) in
      rw (puts_from, end)
        (record {
          reads = u.reads;
          ends = ap (λ (t : List ℕ). some (record u { sent = t })) (sym (append-nil u.sent));
        })
  puts_from-Sent (c ∷ cs) (suc g) s i u served h lt =
      let on : (s i == 0) ≡ false = ground (arith, h.0, h.1) in
      let first = putc-Sent c u served in
      let after = record u { reads = first.reads; sent = u.sent ++ with_returns (c ∷ []) } in
      let rest = puts_from-Sent cs g s (i + 1) after served h.2 (omega arith) in
      rw (puts_from, on, h.0, first.ends)
        (record {
          reads = rest.reads;
          ends =
              rest.ends
              ∙ ap (λ (t : List ℕ). some (record u { reads = rest.reads; sent = t }))
                  (append_assoc u.sent (with_returns (c ∷ [])) (with_returns cs)
                    ∙ ap (λ (t : List ℕ). u.sent ++ t) (returns_step c cs));
        })

  pub puts_lem :
      (cs : List ℕ) (g : ℕ) (s : Chars) (u : Uart)
      → IsServed u.lsr b
      → Spells s 0 cs
      → length cs < g
      → Sent u (with_returns cs) (puts g f s u)
  unfolding puts
  puts_lem cs g s u served h lt = puts_from-Sent cs g s 0 u served h lt

-- What `debug` of the text `t` leaves: its first 128 characters are sent.
pub record Debugged (u : Uart) (t : List ℕ) (r : Option (Uart × ℕ)) : Type 0 where
  pub reads : ℕ
  pub ends :
      r
      ≡ some (
        record u { reads = reads; sent = u.sent ++ with_returns (take debug_max t) },
        min (length t) debug_max,
      )

empty_take : (n : ℕ) (t : List ℕ) → 0 < n → min (length t) n ≡ 0 → take n t ≡ []
empty_take zero t lt e = refl
empty_take (suc n) [] lt e = refl
empty_take (suc n) (c ∷ t) lt e = absurd (omega (arith, e))

-- If among any `b` reads of `lsr` one finds the device ready and the fuel of a wait is at least
-- `b`, and the format is made of characters and conversions with their arguments, that ask for a
-- text without 0, with fuel beyond the lengths of both, then `debug` ends. It sends the first 128
-- characters of the text, with a carriage return before each newline, and returns how many
-- characters of the text those are.
pub debug_lem :
    (ps : List Piece) (g f b : ℕ) (str fmt : Chars) (u : Uart)
    → b ≤ f
    → IsServed u.lsr b
    → AllProper ps
    → NoZero (text_of ps)
    → Spells fmt 0 (format_of ps)
    → length (format_of ps) + length (text_of ps) < g
    → Debugged u (text_of ps) (debug g f str fmt (arguments_of ps) u)
unfolding debug puts
debug_lem ps g f b str fmt u enough served proper z h lt =
    let t = text_of ps in
    let d = vsnprintf_lem ps g str debug_max fmt proper h lt in
    let n = min (length t) debug_max in
    let spelled = Formatted-Spells str debug_max t _ d z in
    let out =
      puts_from-Sent f b enough (take debug_max t) g d.after 0 u served spelled
        (omega (arith, length-take debug_max t)) in
    elim (Bool-cases (ltb 0 n)) [
      | inl e ↦ record {
        reads = out.reads;
        ends =
            ap (put_formatted g f u) d.ends
            ∙ rw (put_formatted, e) (ap (Option.map (λ (v : Uart). (v, n))) out.ends);
      }
      | inr e ↦ record {
        reads = u.reads;
        ends =
            ap (put_formatted g f u) d.ends
            ∙ rw (put_formatted, e)
                (ap (λ (s : List ℕ). some (record u { sent = s }, n))
                  (sym (append-nil u.sent)
                    ∙ ap (λ (s : List ℕ). u.sent ++ with_returns s)
                        (sym (empty_take debug_max t (omega arith) (ground arith)))));
      }
    ]
