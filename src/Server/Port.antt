-- ===== src/Server/Port.antt =====
-- putc and puts of am335x/base/uart/main.c and of am335x/kern/uart.c do the same to the device.
use omb.Base.{
  ℕ, zero, suc, ◌+◌, ◌≡◌, refl, ap, ◌∙◌, Option, none, some, [], ◌∷◌, ◌++◌, ◌==◌, bit_and,
  Bool-cases, ==_iff, inl, inr,
}
use mathlib.Core.Option
use omb.Text.{Chars}
use omb.Board.Uart.{Uart, wait_ready, put_plain, then_put, putc, puts_from, puts}
use omb.Server.{port_wait, port_write, port_putc, port_puts_from, port_puts}

port_wait-wait_ready : (f : ℕ) (u : Uart) → port_wait f u ≡ wait_ready f u
unfolding port_wait wait_ready
port_wait-wait_ready zero u = refl
port_wait-wait_ready (suc f) u = elim (Bool-cases (bit_and (u.lsr u.reads) 32 == 0)) [
  | inl e ↦
      rw (port_wait, wait_ready, e) (port_wait-wait_ready f (record u { reads = u.reads + 1 }))
  | inr e ↦ rw (port_wait, wait_ready, e) refl
]

port_write-put_plain : (f c : ℕ) (u : Uart) → port_write f c u ≡ put_plain f c u
unfolding port_write put_plain
port_write-put_plain f c u =
    ap (Option.map (λ (v : Uart). record v { sent = v.sent ++ c ∷ [] })) (port_wait-wait_ready f u)

bind-then_put : (f : ℕ) (o : Option Uart) → Option.bind o (port_write f 10) ≡ then_put f 10 o
unfolding Option.bind
bind-then_put f none = refl
bind-then_put f (some u) = port_write-put_plain f 10 u

port_putc-putc : (f c : ℕ) (u : Uart) → port_putc f c u ≡ putc f c u
unfolding port_putc putc
port_putc-putc f c u = elim (Bool-cases (c == 10)) [
  | inl e ↦
      let newline = (==_iff c 10).0 e in
      rw e (
        ap (λ (d : ℕ). Option.bind (port_write f 13 u) (port_write f d)) newline
        ∙ ap (λ (o : Option Uart). Option.bind o (port_write f 10)) (port_write-put_plain f 13 u)
        ∙ bind-then_put f (put_plain f 13 u))
  | inr e ↦ rw e (port_write-put_plain f c u)
]

bind_as :
    (o : Option Uart) (p q : Uart → Option Uart)
    → ((v : Uart) → p v ≡ q v)
    → Option.bind o p ≡ elim o [ none ↦ none | some v ↦ q v ]
unfolding Option.bind
bind_as none p q h = refl
bind_as (some v) p q h = h v

port_puts_from-puts_from :
    (g f : ℕ) (s : Chars) (i : ℕ) (u : Uart) → port_puts_from g f s i u ≡ puts_from g f s i u
unfolding port_puts_from puts_from
port_puts_from-puts_from zero f s i u = refl
port_puts_from-puts_from (suc g) f s i u = elim (Bool-cases (s i == 0)) [
  | inl e ↦ rw (port_puts_from, puts_from, e) refl
  | inr e ↦
      rw (port_puts_from, puts_from, e)
        (ap (λ (o : Option Uart). Option.bind o (port_puts_from g f s (i + 1)))
            (port_putc-putc f (s i) u)
          ∙ bind_as (putc f (s i) u) (port_puts_from g f s (i + 1)) (puts_from g f s (i + 1))
              (port_puts_from-puts_from g f s (i + 1)))
]

-- The two programs print alike.
pub port_puts-puts : (g f : ℕ) (s : Chars) (u : Uart) → port_puts g f s u ≡ puts g f s u
unfolding port_puts puts
port_puts-puts g f s u = port_puts_from-puts_from g f s 0 u
