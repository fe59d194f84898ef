-- ===== src/Kern/Sys.antt =====
-- kern/sys.c: messages between processes and the system calls, with `proc_start` of kern/proc.c,
-- `init_proc0`, `proc0_start` of am335x/kern/main.c and `systick_handler` of am335x/kern/timer.c.
-- A call of `schedule` ends a run of the kernel; `resume` is what follows it, from the label of
-- the process that is switched to. The calls of `debug` are left out.
pub mod Running
pub mod Rendezvous
pub mod Queueing
pub mod Accept
pub mod Fair
pub mod Sound
use omb.Base.{
  ℕ, zero, suc, ◌+◌, ◌*◌, ◌/◌, ◌%◌, ◌^◌, Bool, true, false, not, ◌&&◌, Option, none, some,
  if◌then◌else◌, ◌==◌, ltb, same_ptr, bit_and,
}
use omb.Libc.{memcpy}
use omb.Space.{Memory, page_size, addr_take, clear_page, space_find, space_map, space_unmap}
use omb.Board.Timer.{clear_irq}
use omb.Kern.State.{
  send, reply, recv, is_dead, is_reply, is_recv, Caller, by_syscall, by_proc_start, Label,
  at_proc_start, at_proc0_start, in_ksend, in_krecv, in_kreply, in_start_reply, in_kreply_recv,
  in_systick, ok, err, pid_all, message_len, Kernel, set_proc, set_state, page_of, set_page,
  Outcome, returned, dropped, resumed, idle, hangs,
}
use omb.Kern.Proc.{schedule, find_proc, proc_new, proc_list_add, proc_list_remove, func_label}

-- The call of `schedule` in `ksend`: straight to a process that is in `krecv`.
abbrev pub hand_over : ℕ → Kernel → Kernel × Outcome
hand_over p k = schedule in_ksend (if is_recv (k.procs p).state then some p else none) k

abbrev pub queued : (u p : ℕ) → Option (Kernel × Bool) → Kernel → Kernel × Outcome
queued u p none k = (k, hangs)
queued u p (some (k', false)) k = (k', returned err)
queued u p (some (k', true)) k = hand_over p (set_state k' u send)

-- ksend(p), with `u` for `up`.
unfoldable pub ksend : (u p : ℕ) → Kernel → Kernel × Outcome
ksend u p k =
    if is_dead (k.procs p).state
    then (k, returned err)
    else (let k' = set_proc k u (record (k.procs u) { waiting_on = some p }) in
        queued u p (proc_list_add p u k') k')

-- memcpy(to->page->m_in, from->page->m_out, MESSAGE_LEN)
unfoldable pub pass_message : (from to : ℕ) → Kernel → Kernel
pass_message from to k =
    set_page k to (record (page_of k to) {
      m_in = memcpy (page_of k to).m_in (page_of k from).m_out message_len;
    })

abbrev pub may_reply : Kernel → (u p : ℕ) → Bool
may_reply k u p = is_reply (k.procs p).state && same_ptr (k.procs p).waiting_on (some u)

-- The copy and the result that `kreply` and `kreply_recv` give to `p`.
unfoldable pub answer : (u p ret : ℕ) → Kernel → Kernel
answer u p ret k =
    let k' = pass_message u p k in set_page k' p (record (page_of k' p) { m_ret = ret })

-- kreply(p, ret): `bad` is how it goes on after ERR, `l` where it goes on after `schedule`.
unfoldable pub kreply : Label → Outcome → (u p ret : ℕ) → Kernel → Kernel × Outcome
kreply l bad u p ret k =
    if may_reply k u p then schedule l (some p) (answer u p ret k) else (k, bad)

-- A little-endian word of a message.
abbrev pub word_at : (ℕ → ℕ) → ℕ → ℕ
word_at m i = m i + 256 * (m (i + 1) + 256 * (m (i + 2) + 256 * m (i + 3)))

-- What follows `krecv` in its callers, with the sender `w`: `sys_recv` and `sys_reply_recv`
-- return its pid; `proc_start` takes `pc` and `sp` from the request, replies and drops.
unfoldable pub received : Caller → (u w : ℕ) → Kernel → Kernel × Outcome
received by_syscall u w k = (k, returned (k.procs w).pid)
received by_proc_start u w k =
    let pc = word_at (page_of k u).m_in 4 in
    let sp = word_at (page_of k u).m_in 8 in kreply (in_start_reply pc sp) (dropped pc sp) u w ok k

abbrev pub found_sender :
    Caller → (u pid : ℕ) → Option (Kernel × Option ℕ) → Kernel → Kernel × Outcome
found_sender c u pid none k = (k, hangs)
found_sender c u pid (some (k', none)) k = schedule (in_krecv c pid) none (set_state k' u recv)
found_sender c u pid (some (k', some w)) k =
    received c u w (set_state (pass_message w u k') w reply)

-- A round of the loop of `krecv(pid)`. The next round follows when the process is resumed.
unfoldable pub krecv : Caller → (u pid : ℕ) → Kernel → Kernel × Outcome
krecv c u pid k = found_sender c u pid (proc_list_remove u pid k) k

-- kreply_recv(p, ret, pid)
unfoldable pub kreply_recv : (u p ret pid : ℕ) → Kernel → Kernel × Outcome
kreply_recv u p ret pid k =
    if may_reply k u p
    then schedule (in_kreply_recv pid) (some p) (set_state (answer u p ret k) u recv)
    else (k, returned err)

-- The body of `get_page`, the callback of `space_map`: it returns nil.
unfoldable pub get_page : (arg : ℕ) → ℕ
get_page arg = 0

abbrev pub accept_page :
    Memory × Bool → (from vf : ℕ) → (Memory → Option (Memory × ℕ)) → Option (Memory × ℕ)
accept_page (m, false) from vf rest = some (m, err)
accept_page (m, true) from vf rest = rest (space_unmap m from vf)

-- The `for` loop of `sys_addr_accept` at `l`; `none` is a loop that goes on, since `l` wraps
-- before it reaches `len`. The test of `p` in its body never holds.
unfoldable pub accept_loop : ℕ → Memory → (from vf to vt arg len flags l : ℕ) → Option (Memory × ℕ)
accept_loop zero m from vf to vt arg len flags l = none
accept_loop (suc f) m from vf to vt arg len flags l = elim (ltb l len) [
  | true ↦
      let pa = space_find m from ((vf + l) % 2 ^ 32) in
      accept_page (space_map m to pa ((vt + l) % 2 ^ 32) flags (get_page arg)) from
        ((vf + l) % 2 ^ 32)
        (λ m'. accept_loop f m' from vf to vt arg len flags ((l + page_size) % 2 ^ 32))
  | false ↦ some (m, ok)
]

abbrev pub accept_fuel : ℕ
accept_fuel = 2 ^ 20 + 1

abbrev pub accepted : Kernel → Option (Memory × ℕ) → Kernel × Outcome
accepted k none = (k, hangs)
accepted k (some (m, r)) = (record k { memory = m }, returned r)

abbrev pub takes : ℕ → Bool
takes flags = not (bit_and flags addr_take == 0)

-- The checks of `sys_addr_accept` before it looks at the directions.
abbrev pub offer_matches : Kernel → (u p len flags : ℕ) → Bool
offer_matches k u p len flags =
    let o = (k.procs p).addr_offer in
    (k.procs u).pid == o.to && (len == o.len && (flags / 2 == o.flags / 2))

unfoldable pub accept_from : (u p start len flags : ℕ) → Kernel → Kernel × Outcome
accept_from u p start len flags k =
    let o = (k.procs p).addr_offer in
    let mine = (k.procs u).space in
    let theirs = (k.procs p).space in
    if not (offer_matches k u p len flags)
    then (k, returned err)
    else (if not (takes flags) && takes o.flags
        then accepted k (accept_loop accept_fuel k.memory mine start theirs o.start p len flags 0)
        else (if takes flags && not (takes o.flags)
            then accepted k
                (accept_loop accept_fuel k.memory theirs o.start mine start u len flags 0)
            else (k, returned err)))

-- The entries of `systab`.
pub data Call : Type 0 where
  sys_send : (pid : ℕ) → Call
  sys_recv : (pid : ℕ) → Call
  sys_reply : (pid ret : ℕ) → Call
  sys_reply_recv : (pid ret rpid : ℕ) → Call
  sys_get_proc_page : Call
  sys_get_kernel_page : Call
  sys_proc_create : (page space_page : ℕ) → Call
  sys_addr_offer : (pid start len flags : ℕ) → Call
  sys_addr_accept : (pid start len flags : ℕ) → Call

abbrev pub created : Kernel → Option (Kernel × ℕ) → Kernel × Outcome
created k none = (k, hangs)
created k (some (k', p)) = (k', returned (k'.procs p).pid)

abbrev pub with_proc : Option ℕ → Kernel → (ℕ → Kernel × Outcome) → Kernel × Outcome
with_proc none k f = (k, returned err)
with_proc (some p) k f = f p

-- The body of each system call, with `u` for `up`.
unfoldable pub syscall : Call → (u : ℕ) → Kernel → Kernel × Outcome
syscall (sys_send pid) u k = with_proc (find_proc pid) k (λ p. ksend u p k)
syscall (sys_recv pid) u k = krecv by_syscall u pid k
syscall (sys_reply pid ret) u k =
    with_proc (find_proc pid) k (λ p. kreply in_kreply (returned err) u p ret k)
syscall (sys_reply_recv pid ret rpid) u k =
    with_proc (find_proc pid) k (λ p. kreply_recv u p ret rpid k)
syscall sys_get_proc_page u k = (k, returned (k.procs u).page)
syscall sys_get_kernel_page u k = (k, returned k.kernel_page)
syscall (sys_proc_create page space_page) u k =
    let k' = record k { memory = clear_page k.memory space_page } in
    created k' (proc_new space_page page k')
syscall (sys_addr_offer pid start len flags) u k = with_proc (find_proc pid) k (λ p. (
  set_proc k u (record (k.procs u) {
    addr_offer = record { start = start; len = len; flags = flags; to = pid };
  }),
  returned ok,
))
syscall (sys_addr_accept pid start len flags) u k =
    with_proc (find_proc pid) k (λ p. accept_from u p start len flags k)

-- The addresses of the first program, proc0: its page, its stack's end, its text, its space.
pub record Proc0 : Type 0 where
  pub page : ℕ
  pub stack_top : ℕ
  pub text_start : ℕ
  pub space : ℕ

-- What follows `schedule`, at each label, for the process `u` that is switched to.
unfoldable pub resume_at : Proc0 → Label → (u : ℕ) → Kernel → Kernel × Outcome
resume_at z Label.cleared u k = (k, hangs)
resume_at z at_proc_start u k = krecv by_proc_start u pid_all k
resume_at z at_proc0_start u k = (k, dropped z.text_start z.stack_top)
resume_at z in_ksend u k = (k, returned (page_of k u).m_ret)
resume_at z (in_krecv c pid) u k = krecv c u pid k
resume_at z in_kreply u k = (k, returned ok)
resume_at z (in_start_reply pc sp) u k = (k, dropped pc sp)
resume_at z (in_kreply_recv pid) u k = krecv by_syscall u pid k
resume_at z in_systick u k = (k, resumed)

unfoldable pub resume : Proc0 → Kernel → Kernel × Outcome
resume z k = elim k.up [ none ↦ (k, idle) | some u ↦ resume_at z (k.procs u).label u k ]

-- systick_handler(irqn); the write of `intc_reset` is in Board/Intc.
unfoldable pub systick_handler : Kernel → Kernel × Outcome
systick_handler k = schedule in_systick none (record k { timer = clear_irq k.timer })

-- init_proc0() and the call of `schedule` in `kmain`.
unfoldable pub start_proc0 : Proc0 → Kernel → Kernel × Outcome
start_proc0 z k =
    let k' = record k { memory = clear_page k.memory z.space } in
    elim (proc_new z.space z.page k') [
      | none ↦ (k', hangs)
      | some (k'', p) ↦
          schedule at_proc0_start (some p)
            (set_proc k'' p (record (k''.procs p) { label = func_label at_proc0_start }))
    ]
