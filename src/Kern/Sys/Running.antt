-- ===== src/Kern/Sys/Running.antt =====
-- Which process is marked as running, over the runs of the kernel.
use omb.Base.{
  ℕ, ◌≡◌, ◌≢◌, Option, none, some, inl, inr, arith, Bool-cases, not, Option-cases, ◌&&◌, update,
}
use omb.Space.{Memory}
use omb.Kern.Links.{Links, append_cell, take_entry}
use omb.Kern.State.{
  ProcState, reply, recv, oncpu, Caller, by_syscall, by_proc_start, Label, at_proc_start,
  at_proc0_start, in_ksend, in_krecv, in_kreply, in_start_reply, in_kreply_recv, in_systick, Kernel,
  set_proc, set_state, Outcome, returned, is_dead, err,
}
use omb.Kern.Proc.{
  schedule, find_free, waiting_links, set_waiting, add_entry, proc_list_add, free_entry, has_pid,
  proc_list_remove, list_fuel, find_proc, proc_new, new_found,
}
use omb.Kern.Proc.Schedule.{OnlyUp, Exclusive-OnlyUp, schedule-Exclusive}
use omb.Kern.Sys.{
  hand_over, queued, ksend, pass_message, answer, may_reply, kreply, received, found_sender, krecv,
  kreply_recv, accept_from, accepted, offer_matches, takes, Call, syscall, sys_send, sys_recv,
  sys_reply, sys_reply_recv, sys_get_proc_page, sys_get_kernel_page, sys_proc_create,
  sys_addr_offer, sys_addr_accept, created, Proc0, resume_at, resume, systick_handler,
}

-- `k'` marks no process as running that `k` does not, and has the same `up`.
abbrev Quiet : Kernel → Kernel → Type 0
Quiet k k' = (k'.up ≡ k.up) × ((i : ℕ) → (k'.procs i).state ≡ oncpu → (k.procs i).state ≡ oncpu)

OnlyUp-Quiet : (k k' : Kernel) → Quiet k k' → OnlyUp k → OnlyUp k'
OnlyUp-Quiet k k' q only i h = ground (arith, q.1 i h, only i)

set_state-OnlyUp :
    (k : Kernel) (i : ℕ) (s : ProcState) → s ≢ oncpu → OnlyUp k → OnlyUp (set_state k i s)
set_state-OnlyUp k i s ne only j h = ground (arith, only j)

schedule-OnlyUp : (l : Label) (n : Option ℕ) (k : Kernel) → OnlyUp k → OnlyUp (schedule l n k).0
schedule-OnlyUp l n k only =
    Exclusive-OnlyUp (schedule l n k).0 (schedule l n k).1 (schedule-Exclusive l n k only)

hand_over-OnlyUp : (p : ℕ) (k : Kernel) → OnlyUp k → OnlyUp (hand_over p k).0
hand_over-OnlyUp p k only = schedule-OnlyUp in_ksend _ k only

add_entry-OnlyUp :
    (u p : ℕ) (k : Kernel) (l e w : ℕ) (s : Option Links)
    → OnlyUp k
    → OnlyUp (queued u p (add_entry k l w e s) k).0
add_entry-OnlyUp u p k l e w none only = only
add_entry-OnlyUp u p k l e w (some s) only = hand_over-OnlyUp p _ (λ i h. ground (arith, only i))

ksend-OnlyUp : (u p : ℕ) (k : Kernel) → OnlyUp k → OnlyUp (ksend u p k).0
unfolding ksend proc_list_add
ksend-OnlyUp u p k only = elim (Bool-cases (is_dead (k.procs p).state)) [
  | inl e ↦ rw e only
  | inr e ↦ rw e (
      queue_case (set_proc k u (record (k.procs u) { waiting_on = some p }))
        (λ i h. ground (arith, only i)))
]
  where
    queue_case : (k' : Kernel) → OnlyUp k' → OnlyUp (queued u p (proc_list_add p u k') k').0
    queue_case k' only' = elim (Option-cases (find_free 2048 0 k'.list_proc)) [
      | inl e ↦ rw (proc_list_add, e) only'
      | inr (n, e) ↦
          rw (proc_list_add, e)
            (add_entry-OnlyUp u p k' p n u (append_cell list_fuel (waiting_links k' p) n) only')
    ]

answer-OnlyUp : (u p ret : ℕ) (k : Kernel) → OnlyUp k → OnlyUp (answer u p ret k)
unfolding answer pass_message
answer-OnlyUp u p ret k only = only

kreply-OnlyUp :
    (l : Label) (bad : Outcome) (u p ret : ℕ) (k : Kernel)
    → OnlyUp k
    → OnlyUp (kreply l bad u p ret k).0
unfolding kreply
kreply-OnlyUp l bad u p ret k only = elim (Bool-cases (may_reply k u p)) [
  | inl e ↦ rw e (schedule-OnlyUp l (some p) (answer u p ret k) (answer-OnlyUp u p ret k only))
  | inr e ↦ rw e only
]

received-OnlyUp : (c : Caller) (u w : ℕ) (k : Kernel) → OnlyUp k → OnlyUp (received c u w k).0
unfolding received
received-OnlyUp by_syscall u w k only = only
received-OnlyUp by_proc_start u w k only = kreply-OnlyUp _ _ u w _ k only

found-OnlyUp :
    (c : Caller) (u pid : ℕ) (k k' : Kernel) (w : Option ℕ)
    → OnlyUp k'
    → OnlyUp (found_sender c u pid (some (k', w)) k).0
unfolding pass_message
found-OnlyUp c u pid k k' none only =
    schedule-OnlyUp (in_krecv c pid) none _ (set_state-OnlyUp k' u recv (cc) only)
found-OnlyUp c u pid k k' (some w) only =
    received-OnlyUp c u w _ (set_state-OnlyUp (pass_message w u k') w reply (cc) only)

free_entry-OnlyUp :
    (c : Caller) (u pid : ℕ) (k : Kernel) (s : Option (Links × Option ℕ))
    → OnlyUp k
    → OnlyUp (found_sender c u pid (free_entry k u s) k).0
free_entry-OnlyUp c u pid k none only = only
free_entry-OnlyUp c u pid k (some (s, none)) only = found-OnlyUp c u pid k k none only
free_entry-OnlyUp c u pid k (some (s, some n)) only =
    found-OnlyUp c u pid k (record (set_waiting k u s) { list_proc = update k.list_proc n none })
      (k.list_proc n) (λ i h. ground (arith, only i))

krecv-OnlyUp : (c : Caller) (u pid : ℕ) (k : Kernel) → OnlyUp k → OnlyUp (krecv c u pid k).0
unfolding krecv proc_list_remove
krecv-OnlyUp c u pid k only =
    free_entry-OnlyUp c u pid k (take_entry list_fuel (waiting_links k u) (has_pid k pid)) only

kreply_recv-OnlyUp :
    (u p ret pid : ℕ) (k : Kernel) → OnlyUp k → OnlyUp (kreply_recv u p ret pid k).0
unfolding kreply_recv
kreply_recv-OnlyUp u p ret pid k only = elim (Bool-cases (may_reply k u p)) [
  | inl e ↦ rw e (
      schedule-OnlyUp (in_kreply_recv pid) (some p) _
        (set_state-OnlyUp (answer u p ret k) u recv (cc) (answer-OnlyUp u p ret k only)))
  | inr e ↦ rw e only
]

added-OnlyUp :
    (space page : ℕ) (k : Kernel) (s : Option Links)
    → OnlyUp k
    → OnlyUp (created k (new_found space page k s)).0
added-OnlyUp space page k none only = only
added-OnlyUp space page k (some s) only = λ i h. ground (arith, only i)

accepted-OnlyUp : (k : Kernel) (r : Option (Memory × ℕ)) → OnlyUp k → OnlyUp (accepted k r).0
accepted-OnlyUp k none only = only
accepted-OnlyUp k (some r) only = only

accept_from-OnlyUp :
    (u p start len flags : ℕ) (k : Kernel) → OnlyUp k → OnlyUp (accept_from u p start len flags k).0
unfolding accept_from
accept_from-OnlyUp u p start len flags k only =
    let o = (k.procs p).addr_offer in
    elim (Bool-cases (offer_matches k u p len flags)) [
      | inr e ↦ rw e only
      | inl e ↦ rw e (elim (Bool-cases (not (takes flags) && takes o.flags)) [
        | inl d ↦ rw d (accepted-OnlyUp k _ only)
        | inr d ↦ rw d (elim (Bool-cases (takes flags && not (takes o.flags))) [
          | inl g ↦ rw g (accepted-OnlyUp k _ only)
          | inr g ↦ rw g only
        ])
      ])
    ]

-- A system call leaves no process but `up` marked as running.
syscall-OnlyUp : (c : Call) (u : ℕ) (k : Kernel) → OnlyUp k → OnlyUp (syscall c u k).0
unfolding syscall find_proc proc_new
syscall-OnlyUp (sys_send pid) u k only = ksend-OnlyUp u pid k only
syscall-OnlyUp (sys_recv pid) u k only = krecv-OnlyUp by_syscall u pid k only
syscall-OnlyUp (sys_reply pid ret) u k only =
    kreply-OnlyUp in_kreply (returned err) u pid ret k only
syscall-OnlyUp (sys_reply_recv pid ret rpid) u k only = kreply_recv-OnlyUp u pid ret rpid k only
syscall-OnlyUp sys_get_proc_page u k only = only
syscall-OnlyUp sys_get_kernel_page u k only = only
syscall-OnlyUp (sys_proc_create page space_page) u k only = added-OnlyUp space_page page _ _ only
syscall-OnlyUp (sys_addr_offer pid start len flags) u k only = λ i h. ground (arith, only i)
syscall-OnlyUp (sys_addr_accept pid start len flags) u k only =
    accept_from-OnlyUp u pid start len flags k only

resume_at-OnlyUp :
    (z : Proc0) (l : Label) (u : ℕ) (k : Kernel) → OnlyUp k → OnlyUp (resume_at z l u k).0
unfolding resume_at
resume_at-OnlyUp z Label.cleared u k only = only
resume_at-OnlyUp z at_proc_start u k only = krecv-OnlyUp by_proc_start u _ k only
resume_at-OnlyUp z at_proc0_start u k only = only
resume_at-OnlyUp z in_ksend u k only = only
resume_at-OnlyUp z (in_krecv c pid) u k only = krecv-OnlyUp c u pid k only
resume_at-OnlyUp z in_kreply u k only = only
resume_at-OnlyUp z (in_start_reply pc sp) u k only = only
resume_at-OnlyUp z (in_kreply_recv pid) u k only = krecv-OnlyUp by_syscall u pid k only
resume_at-OnlyUp z in_systick u k only = only

resume-OnlyUp : (z : Proc0) (k : Kernel) → OnlyUp k → OnlyUp (resume z k).0
unfolding resume
resume-OnlyUp z k only = elim (Option-cases k.up) [
  | inl e ↦ rw (resume, e) only
  | inr (u, e) ↦ rw (resume, e) (resume_at-OnlyUp z (k.procs u).label u k only)
]

-- One run of the kernel: a system call of the running process, what follows a switch, or the
-- system tick.
pub data Run (z : Proc0) : Kernel → Kernel → Type 0 where
  call : {k : Kernel} (c : Call) (u : ℕ) → k.up ≡ some u → Run z k (syscall c u k).0
  switch : {k : Kernel} → Run z k (resume z k).0
  tick : {k : Kernel} → Run z k (systick_handler k).0

pub data Runs (z : Proc0) (k : Kernel) : Kernel → Type 0 where
  start : Runs z k k
  then_run : {a b : Kernel} → Runs z k a → Run z a b → Runs z k b

Run-OnlyUp : {z : Proc0} {k k' : Kernel} → Run z k k' → OnlyUp k → OnlyUp k'
unfolding systick_handler
Run-OnlyUp (call {k} c u e) only = syscall-OnlyUp c u k only
Run-OnlyUp {z} (switch {k}) only = resume-OnlyUp z k only
Run-OnlyUp (tick {k}) only = schedule-OnlyUp in_systick none _ only

-- If no process but `up` is marked PROC_oncpu, then none but `up` is after any sequence of system
-- calls of the running process, of returns from a switch, and of system ticks.
pub Runs-OnlyUp : {z : Proc0} {k k' : Kernel} → OnlyUp k → Runs z k k' → OnlyUp k'
Runs-OnlyUp only start = only
Runs-OnlyUp only (then_run r s) = Run-OnlyUp s (Runs-OnlyUp only r)
