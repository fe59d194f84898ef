-- ===== src/Proc0/Main.antt =====
-- `main` of proc0/main.c and the requests that it answers.
use omb.Base.{ℕ, Option, none, some, List, [], ◌∷◌, ◌==◌, if◌then◌else◌, bit_or}
use omb.Space.Init.{Region}
use omb.Space.{page_align, addr_read, addr_write, addr_give, addr_cache}
use mathlib.Core.Option
use omb.Proc0.{Pages, Store, get_io, get_ram}
use omb.Proc0.SetUp.{FirstMessage, init_procs, init_sections}

-- What `handle_addr_request` does after it has an address: it accepts the offer of the process, by
-- the call `addr_accept(pid, addr, len, flags)` of the kernel, or answers ERR.
pub data Answer : Type 0 where
  refuse : Answer
  accept : (addr len flags : ℕ) → Answer

unfoldable pub answer_request : (len flags : ℕ) → Store × ℕ → Store × Answer
answer_request len flags (st, addr) =
    if addr == 0 then (st, refuse) else (st, accept addr len flags)

-- handle_addr_request(pid, req, resp) for a request of `len` bytes at `addr`, with nil for memory.
unfoldable pub handle_addr_request : ℕ → (addr len : ℕ) → Store → Option (Store × Answer)
unfolding get_io get_ram answer_request
handle_addr_request f addr len st =
    let flags = bit_or (bit_or addr_read addr_write) addr_give in
    if page_align len == 0
    then some (st, refuse)
    else if addr == 0
    then Option.map (answer_request (page_align len) (bit_or flags addr_cache))
        (get_ram f (page_align len) st)
    else Option.map (answer_request (page_align len) flags) (get_io f addr (page_align len) st)

-- enum message_type of sys.h
abbrev pub message_addr : ℕ
message_addr = 0

-- A round of `main`: the message of the type `type` that process 0 received.
unfoldable pub handle_message : ℕ → (type addr len : ℕ) → Store → Option (Store × Answer)
unfolding handle_addr_request
handle_message f type addr len st =
    if type == message_addr then handle_addr_request f addr len st else some (st, refuse)

-- A message of the input page of process 0: its type, and the address and the length of a request.
pub record Request : Type 0 where
  pub type : ℕ
  pub addr : ℕ
  pub len : ℕ

-- The loop of `main` over the messages that `recv` and `reply_recv` give it one after the other,
-- with the answer to each.
unfoldable pub main_loop : ℕ → List Request → Store → Option (Store × List Answer)
unfolding handle_message
main_loop f [] st = some (st, [])
main_loop f (m ∷ ms) st = elim (handle_message f m.type m.addr m.len st) [
  | none ↦ none
  | some (st', a) ↦ Option.map (λ (r : Store × List Answer). (r.0, a ∷ r.1)) (main_loop f ms st')
]

-- main, from the static variables as they are loaded on: the messages sent to the processes it
-- creates, and the answers to the messages `ms`.
unfoldable pub main :
    ℕ
    → List Region
    → (texts : List ℕ) → List Request
    → Pages
    → Option (Store × List FirstMessage × List Answer)
unfolding init_sections init_procs main_loop
main f regions texts ms pages =
    elim (init_sections f regions (record { ram = 0; io = 0; pages = pages })) [
      | none ↦ none
      | some st ↦ elim (init_procs f texts st) [
        | none ↦ none
        | some (st', sent) ↦
            Option.map (λ (r : Store × List Answer). (r.0, sent, r.1)) (main_loop f ms st')
      ]
    ]
