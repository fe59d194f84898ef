-- ===== src/Board/Uart.antt =====
-- am335x/kern/uart.c: the serial port, `debug` and `panic`.
pub mod Output
use omb.Base.{
  ℕ, zero, suc, ◌+◌, Bool, true, false, Option, none, some, List, [], ◌∷◌, ◌++◌, ltb, ◌==◌, bit_and,
  if◌then◌else◌,
}
use mathlib.Core.Option
use omb.Text.{Chars, Arg, vsnprintf}

-- The device: what `lsr` holds at each of its reads, how many reads there were, and the
-- characters that were written to `hr`.
pub record Uart : Type 0 where
  pub lsr : ℕ → ℕ
  pub reads : ℕ
  pub sent : List ℕ

-- The while loop of `putc`, which waits for bit 5 of `lsr`.
unfoldable pub wait_ready : ℕ → Uart → Option Uart
wait_ready zero u = none
wait_ready (suc f) u =
    let u' = record u { reads = u.reads + 1 } in
    elim (bit_and (u.lsr u.reads) 32 == 0) [ true ↦ wait_ready f u' | false ↦ some u' ]

-- What `putc` does for a character but '\n'.
unfoldable pub put_plain : ℕ → (c : ℕ) → Uart → Option Uart
unfolding wait_ready
put_plain f c u = Option.map (λ (v : Uart). record v { sent = v.sent ++ c ∷ [] }) (wait_ready f u)

abbrev pub then_put : ℕ → (c : ℕ) → Option Uart → Option Uart
then_put f c none = none
then_put f c (some u) = put_plain f c u

-- putc(c)
unfoldable pub putc : ℕ → (c : ℕ) → Uart → Option Uart
unfolding put_plain
putc f c u = if c == 10 then then_put f 10 (put_plain f 13 u) else put_plain f c u

-- puts(s + i): fuel for the loop and for each wait.
unfoldable pub puts_from : (g f : ℕ) → Chars → ℕ → Uart → Option Uart
unfolding putc
puts_from zero f s i u = none
puts_from (suc g) f s i u = elim (s i == 0) [
  | true ↦ some u
  | false ↦ elim (putc f (s i) u) [ none ↦ none | some v ↦ puts_from g f s (i + 1) v ]
]

unfoldable pub puts : (g f : ℕ) → Chars → Uart → Option Uart
unfolding puts_from
puts g f s u = puts_from g f s 0 u

-- The buffer `str` of `debug` and `panic` has 128 characters.
abbrev pub debug_max : ℕ
debug_max = 128

abbrev pub put_formatted : (g f : ℕ) → Uart → Option (Chars × ℕ) → Option (Uart × ℕ)
put_formatted g f u none = none
put_formatted g f u (some (s, i)) =
    if ltb 0 i then Option.map (λ (v : Uart). (v, i)) (puts g f s u) else some (u, i)

-- debug(fmt, args), where `str` is what the buffer holds before: the device and the result.
unfoldable pub debug : (g f : ℕ) → (str fmt : Chars) → List Arg → Uart → Option (Uart × ℕ)
unfolding puts
debug g f str fmt args u = put_formatted g f u (vsnprintf g str debug_max fmt args)

-- panic(fmt, args): the device when it comes to its last loop, which does not end.
unfoldable pub panic : (g f : ℕ) → (str fmt : Chars) → List Arg → Uart → Option Uart
unfolding puts
panic g f str fmt args u =
    Option.map (λ (r : Uart × ℕ). r.0) (put_formatted g f u (vsnprintf g str debug_max fmt args))
