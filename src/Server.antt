-- ===== src/Server.antt =====
-- am335x/base/uart/main.c: the process that owns the serial port and prints what it is sent. The
-- device is that of Board/Uart; Port compares the two drivers.
pub mod Port
pub mod Serving
pub mod Together
use omb.Base.{
  ℕ, zero, suc, ◌+◌, true, false, Option, none, some, List, [], ◌∷◌, ◌++◌, ◌==◌, get_or,
  if◌then◌else◌, bit_or, bit_and,
}
use mathlib.Core.Option
use omb.Space.{page_align, addr_read, addr_write, addr_take}
use omb.Text.{Chars}
use omb.Kern.State.{ok, pid_all}
use omb.Kern.Sys.{Call, sys_send, sys_recv, sys_reply_recv, sys_addr_offer}
use omb.Board.Uart.{Uart}

-- The while loop of `putc`.
unfoldable pub port_wait : ℕ → Uart → Option Uart
port_wait zero u = none
port_wait (suc f) u =
    let rest = port_wait f (record u { reads = u.reads + 1 }) in
    if bit_and (u.lsr u.reads) 32 == 0 then rest else some (record u { reads = u.reads + 1 })

-- The loop and the write of `putc`.
unfoldable pub port_write : ℕ → (c : ℕ) → Uart → Option Uart
unfolding port_wait
port_write f c u = Option.map (λ (v : Uart). record v { sent = v.sent ++ c ∷ [] }) (port_wait f u)

-- putc(c), which calls itself with '\r' before '\n'.
unfoldable pub port_putc : ℕ → (c : ℕ) → Uart → Option Uart
unfolding port_write
port_putc f c u =
    if c == 10 then Option.bind (port_write f 13 u) (port_write f c) else port_write f c u

-- puts(c + i): fuel for the loop and for each wait.
unfoldable pub port_puts_from : (g f : ℕ) → Chars → ℕ → Uart → Option Uart
unfolding port_putc
port_puts_from zero f s i u = none
port_puts_from (suc g) f s i u = elim (s i == 0) [
  | true ↦ some u
  | false ↦ Option.bind (port_putc f (s i) u) (port_puts_from g f s (i + 1))
]

unfoldable pub port_puts : (g f : ℕ) → Chars → Uart → Option Uart
unfolding port_puts_from
port_puts g f s u = port_puts_from g f s 0 u

-- `struct addr_req`, as it stands in `m_out`.
pub record AddrReq : Type 0 where
  pub type : ℕ
  pub addr : ℕ
  pub len : ℕ

-- sizeof(struct uart_regs)
abbrev uart_regs_size : ℕ
uart_regs_size = 124

-- The request for UART0.
unfoldable pub uart_request : AddrReq
uart_request = record { type = 0; addr = 0x44e09000; len = page_align uart_regs_size }

-- The call of `main` that offers the addresses from 0xa0000 on.
unfoldable pub offer_call : Call
unfolding uart_request
offer_call =
    sys_addr_offer 0 0xa0000 uart_request.len (bit_or (bit_or addr_read addr_write) addr_take)

-- The system call that `main` waits for, from that of `get_proc_page` on; `stuck` is its loops
-- after an error.
pub data At : Type 0 where
  starting offering sending serving stuck : At

-- "Hello from userspace!\n"
abbrev pub hello : List ℕ
hello =
    72 ∷ 101 ∷ 108 ∷ 108 ∷ 111 ∷ 32 ∷ 102 ∷ 114 ∷ 111 ∷ 109 ∷ 32 ∷ 117 ∷ 115 ∷ 101 ∷ 114 ∷ 115 ∷ 112
    ∷ 97 ∷ 99 ∷ 101 ∷ 33 ∷ 10 ∷ []

abbrev pub hello_chars : Chars
hello_chars i = get_or hello i 0

abbrev pub printed_then : Call → Option Uart → Option (At × List Call × Uart)
printed_then c none = none
printed_then c (some u) = some (serving, c ∷ [], u)

-- `main` from the return of one system call, with the result `r` and `m_in` in the page, to the
-- next: where it is then, the call it makes, and the device.
unfoldable pub server_step :
    (g f : ℕ) → At → (r : ℕ) → (m_in : Chars) → Uart → Option (At × List Call × Uart)
server_step g f starting r m_in u = some (offering, offer_call ∷ [], u)
server_step g f offering r m_in u =
    some (if r == ok then (sending, sys_send 0 ∷ [], u) else (stuck, [], u))
server_step g f sending r m_in u =
    if r == ok
    then printed_then (sys_recv pid_all) (port_puts g f hello_chars u)
    else some (stuck, [], u)
server_step g f serving r m_in u = printed_then (sys_reply_recv r ok pid_all) (port_puts g f m_in u)
server_step g f stuck r m_in u = some (stuck, [], u)
