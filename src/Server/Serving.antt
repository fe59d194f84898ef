-- ===== src/Server/Serving.antt =====
-- What the process prints and which calls it makes.
use omb.Base.{
  ℕ, ◌<◌, ◌≤◌, ◌≡◌, ◌≢◌, false, refl, sym, ap, Option, none, some, List, [], ◌∷◌, ◌++◌,
  append_assoc, append-nil, arith, length, ◌==◌,
}
use omb.Text.{Chars}
use omb.Text.Write.{Spells}
use omb.Kern.State.{ok, pid_all}
use omb.Kern.Sys.{Call, sys_send, sys_recv, sys_reply_recv}
use omb.Board.Uart.{Uart}
use omb.Board.Uart.Output.{IsServed, with_returns, puts_lem}
use omb.Server.Port.{port_puts-puts}
use omb.Server.{
  At, starting, offering, sending, serving, stuck, hello, hello_chars, offer_call, server_step,
}

-- A message: who sent it, the bytes, and the text that they hold.
pub record Message : Type 0 where
  pub sender : ℕ
  pub bytes : Chars
  pub text : List ℕ

-- Each message is a string that `puts` has fuel for.
abbrev pub AllTexts : ℕ → List Message → Type 0
AllTexts g [] = Unit
AllTexts g (m ∷ ms) = Spells m.bytes 0 m.text × (length m.text < g) × AllTexts g ms

-- `main` over the results of its calls, with the bytes that each leaves in the page: the calls it
-- makes, in order, and the device.
abbrev pub server_run : (g f : ℕ) → At → List (ℕ × Chars) → Uart → Option (List Call × Uart)
server_run g f a [] u = some ([], u)
server_run g f a ((r, m_in) ∷ rs) u = elim (server_step g f a r m_in u) [
  | none ↦ none
  | some (a', calls, v) ↦ elim (server_run g f a' rs v) [
    | none ↦ none
    | some (more, w) ↦ some (calls ++ more, w)
  ]
]

abbrev pub received_as : List Message → List (ℕ × Chars)
received_as [] = []
received_as (m ∷ ms) = (m.sender, m.bytes) ∷ received_as ms

abbrev pub replies : List Message → List Call
replies [] = []
replies (m ∷ ms) = sys_reply_recv m.sender ok pid_all ∷ replies ms

abbrev pub output : List Message → List ℕ
output [] = []
output (m ∷ ms) = with_returns m.text ++ output ms

-- The end of a run: its calls, and what was sent.
pub record Served (u : Uart) (calls : List Call) (text : List ℕ) (r : Option (List Call × Uart))
    : Type 0 where
  pub reads : ℕ
  pub ends : r ≡ some (calls, record u { reads = reads; sent = u.sent ++ text })

module _ (g f b : ℕ) (enough : b ≤ f) where
  serving_lem :
      (ms : List Message) (u : Uart)
      → IsServed u.lsr b
      → AllTexts g ms
      → Served u (replies ms) (output ms) (server_run g f serving (received_as ms) u)
  unfolding server_step
  serving_lem [] u served a = record {
    reads = u.reads;
    ends = ap (λ (t : List ℕ). some ([], record u { sent = t })) (sym (append-nil u.sent));
  }
  serving_lem (m ∷ ms) u served a =
      let one = puts_lem f b enough m.text g m.bytes u served a.0 a.1 in
      let after = record u { reads = one.reads; sent = u.sent ++ with_returns m.text } in
      let rest = serving_lem ms after served a.2 in
      rw (server_run, port_puts-puts g f m.bytes u, one.ends, rest.ends)
        (record {
          reads = rest.reads;
          ends =
              ap
                (λ (t : List ℕ). some (replies (m ∷ ms), record u { reads = rest.reads; sent = t }))
                (append_assoc u.sent (with_returns m.text) (output ms));
        })

hello-Spells : Spells hello_chars 0 hello
hello-Spells = ground arith

-- If among any `b` reads of `lsr` one finds the device ready, the fuel of a wait is at least `b`,
-- that of `puts` is beyond each text and its greeting, and the offer and the send return OK, then
-- the process of the serial port makes the calls: the offer of its addresses, the send to process
-- 0, a receive from any process, and for each message that it receives a reply to its sender with
-- the next receive. It prints its greeting and then the text of each message, in order, with a
-- carriage return before each newline.
pub server_lem :
    (g f b : ℕ) (ms : List Message) (r : ℕ) (page page' page'' : Chars) (u : Uart)
    → b ≤ f
    → IsServed u.lsr b
    → AllTexts g ms
    → length hello < g
    → Served u
        (offer_call ∷ sys_send 0 ∷ sys_recv pid_all ∷ replies ms)
        (with_returns hello ++ output ms)
        (server_run g f starting ((r, page) ∷ (ok, page') ∷ (ok, page'') ∷ received_as ms) u)
unfolding server_step
server_lem g f b ms r page page' page'' u enough served a long =
    let one = puts_lem f b enough hello g hello_chars u served hello-Spells long in
    let after = record u { reads = one.reads; sent = u.sent ++ with_returns hello } in
    let rest = serving_lem g f b enough ms after served a in
    rw (server_run, port_puts-puts g f hello_chars u, one.ends, rest.ends)
      (record {
        reads = rest.reads;
        ends =
            ap
              (λ (t : List ℕ). some (
                offer_call ∷ sys_send 0 ∷ sys_recv pid_all ∷ replies ms,
                record u { reads = rest.reads; sent = t },
              ))
              (append_assoc u.sent (with_returns hello) (output ms));
      })

stuck_run : (g f : ℕ) (rs : List (ℕ × Chars)) (u : Uart) → server_run g f stuck rs u ≡ some ([], u)
unfolding server_step
stuck_run g f [] u = refl
stuck_run g f ((r, m_in) ∷ rs) u = rw (stuck_run g f rs u) refl

-- A call that fails where `main` tests it.
offer_refused :
    (g f r : ℕ) (page : Chars) (u : Uart)
    → r ≢ ok
    → server_step g f offering r page u ≡ some (stuck, [], u)
unfolding server_step
offer_refused g f r page u ne =
    let no : (r == ok) ≡ false = ground arith in rw (server_step, no) refl

send_refused :
    (g f r : ℕ) (page : Chars) (u : Uart)
    → r ≢ ok
    → server_step g f sending r page u ≡ some (stuck, [], u)
unfolding server_step
send_refused g f r page u ne =
    let no : (r == ok) ≡ false = ground arith in rw (server_step, no) refl

offer_done :
    (g f : ℕ) (page : Chars) (u : Uart)
    → server_step g f offering ok page u ≡ some (sending, sys_send 0 ∷ [], u)
unfolding server_step
offer_done g f page u = refl
