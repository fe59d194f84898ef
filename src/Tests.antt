-- ===== src/Tests.antt =====
-- Theorems applied at concrete inputs: a kernel of two processes, memory, strings.
use omb.Base.{
  ℕ, zero, suc, ◌+◌, ◌<◌, ◌≡◌, ◌≢◌, ◌⊎◌, refl, Bool, true, false, Option, none, some, List, [], ◌∷◌,
  arith, ◌==◌, if◌then◌else◌, length, update,
}
use omb.Board.Timer.{Timer}
use omb.Kern.Links.{Links}
use omb.Kern.Links.Seg.{Holds}
use omb.Kern.State.{
  ProcState, Label, Caller, ProcPage, empty_page, Proc, empty_proc, Kernel, Outcome, err,
  max_proc_lists, is_dead,
}
use omb.Kern.Proc.{find_free, schedule, proc_list_add, proc_list_remove, proc_new}
use omb.Kern.Proc.Schedule.{
  may_run, Alive, OnlyUp, Exclusive, schedule_round_robin, schedule_from_idle, schedule-Exclusive,
}
use omb.Kern.Proc.Waiting.{Waits, Dequeued, Queued, pid_is, proc_list_add_lem, proc_list_remove_lem}
use omb.Kern.Proc.Create.{Created, proc_new_lem, proc_new_wraps}
use omb.Kern.Proc.Choice.{first_ready}
use omb.Kern.Sys.{Call, sys_send, sys_reply, Proc0, syscall, resume, krecv, ksend, systick_handler}
use omb.Kern.Sys.Running.{Run, Runs, Runs-OnlyUp}
use omb.Kern.Sys.Queueing.{Sent, Handed, ksend_switches, ksend_lem, waiting_for}
use omb.Kern.Sys.Rendezvous.{Received, Exchanged, Replied, krecv_lem, send_delivers, reply_returns}
pub mod Parts
pub mod Reach
pub mod Strings
pub mod Ledger
pub mod Handing

abbrev pub first_program : Proc0
first_program = record { page = 4096; stack_top = 8192; text_start = 12288; space = 16384 }

abbrev pub timer_off : Timer
timer_off = record { irqstatus = 0; irqenable_set = 0; tclr = 0; tcrr = 0; timer2_clk = 0 }

-- Process 0 runs; process 1 is in the given state, at the label.
abbrev pub proc_of : ProcState → Label → (on : Option ℕ) → ℕ → Proc
proc_of s l on i =
    if i == 0
    then record empty_proc { label = Label.at_proc0_start; state = ProcState.oncpu; page = 100 }
    else if i == 1
    then record empty_proc { state = s; label = l; pid = 1; page = 200; waiting_on = on }
    else empty_proc

abbrev pub in_turn : Links
in_turn = record { root = some 0; next = λ i. if i == 0 then some 1 else none }

abbrev pub two_procs : ProcState → Label → Option ℕ → Kernel
two_procs s l on = record {
  nextpid = 2;
  procs = proc_of s l on;
  alive = in_turn;
  up = some 0;
  list_proc = λ i. none;
  list_next = λ i. none;
  pages = λ a. record empty_page { m_out = λ i. a + i };
  memory = λ a. 0;
  kernel_page = 0;
  timer = timer_off;
  intr_on = false;
}

abbrev pub listening : Kernel
listening = two_procs ProcState.recv (Label.in_krecv Caller.by_syscall 0) none

abbrev calling : Kernel
calling = two_procs ProcState.reply Label.in_ksend (some 0)

pub nobody-Waits : (l : ℕ) → (k : Kernel) → (k.procs l).waiting ≡ none → Waits k l [] []
nobody-Waits l k e = record { holds = record { chain = e; distinct = tt }; below = tt; names = tt }

first_entry : find_free max_proc_lists 0 (λ i. none) ≡ some 0
unfolding find_free
first_entry = refl

send_delivers_example :
    let (k', o) = syscall (sys_send 1) 0 listening in
    let (k'', o') = resume first_program k' in
    (o ≡ Outcome.switched) × Exchanged listening 0 1 k'' o'
send_delivers_example =
    send_delivers first_program listening 0 1 0 refl (ground arith) refl refl
      (nobody-Waits 1 listening refl) 0 first_entry

reply_returns_example :
    let (k', o) = syscall (sys_reply 1 7) 0 calling in
    let (k'', o') = resume first_program k' in (o ≡ Outcome.switched) × Replied calling 0 1 7 k'' o'
reply_returns_example = reply_returns first_program calling 0 1 7 refl (ground arith) refl refl refl

-- Process 1 waits for process 0 to receive.
abbrev sent : Kernel
sent = record (two_procs ProcState.send Label.in_ksend (some 0)) {
  procs =
      update (proc_of ProcState.send Label.in_ksend (some 0)) 0
        (record empty_proc { state = ProcState.oncpu; page = 100; waiting = some 0 });
  list_proc = λ i. if i == 0 then some 1 else none;
}

one-Waits : Waits sent 0 (0 ∷ []) (1 ∷ [])
one-Waits = record {
  holds = record { chain = (refl, refl); distinct = (refl, tt) };
  below = (omega arith, tt);
  names = (refl, tt);
}

krecv_lem_example : let (k', o) = krecv Caller.by_syscall 0 1 sent in Received sent 0 1 [] k' o
krecv_lem_example = krecv_lem sent 0 1 (0 ∷ []) (1 ∷ []) one-Waits 1 refl

ksend_lem_example :
    (is_dead (listening.procs 1).state ≡ true)
      × (ksend 0 1 listening ≡ (listening, Outcome.returned err))
    ⊎ (is_dead (listening.procs 1).state ≡ false)
      × (find_free max_proc_lists 0 listening.list_proc ≡ none)
      × (ksend 0 1 listening ≡ (waiting_for listening 0 1, Outcome.returned err))
    ⊎ (is_dead (listening.procs 1).state ≡ false)
      × (find_free max_proc_lists 0 listening.list_proc ≢ none)
      × (let (k', o) = ksend 0 1 listening in Sent listening 0 1 [] k' o)
ksend_lem_example = ksend_lem listening 0 1 [] [] (nobody-Waits 1 listening refl)

ksend_switches_example :
    let (k', o) = ksend 0 1 listening in Sent listening 0 1 [] k' o × Handed listening 0 1 k' o
ksend_switches_example =
    ksend_switches listening 0 1 [] [] (nobody-Waits 1 listening refl) 0 refl (ground arith) refl
      first_entry

listening-OnlyUp : OnlyUp listening
listening-OnlyUp i h = ground arith

abbrev after_send : Kernel
after_send = (systick_handler (syscall (sys_send 1) 0 listening).0).0

Runs-OnlyUp_example : OnlyUp after_send
Runs-OnlyUp_example =
    Runs-OnlyUp {z = first_program} {k = listening} {k' = after_send} listening-OnlyUp
      (Runs.then_run (Runs.then_run Runs.start (Run.call (sys_send 1) 0 refl)) Run.tick)

pub listening-Alive : Alive listening (0 ∷ 1 ∷ [])
listening-Alive = record {
  holds = record { chain = (refl, (refl, refl)); distinct = (refl, (refl, tt)) };
  below = (omega arith, (omega arith, tt));
}

schedule_round_robin_example :
    let (k', o) = schedule Label.in_systick none listening in
    (k'.up ≡ first_ready (may_run listening 0) (1 ∷ 0 ∷ [])) × (o ≢ Outcome.hangs)
schedule_round_robin_example =
    schedule_round_robin Label.in_systick listening 0 [] (1 ∷ []) refl listening-Alive

abbrev idling : Kernel
idling = record calling { up = none }

idling-Alive : Alive idling (0 ∷ 1 ∷ [])
idling-Alive = record {
  holds = record { chain = (refl, (refl, refl)); distinct = (refl, (refl, tt)) };
  below = (omega arith, (omega arith, tt));
}

proc_list_remove_lem_example :
    Dequeued sent 0 (pid_is sent 9) (0 ∷ []) (1 ∷ []) (proc_list_remove 0 9 sent)
proc_list_remove_lem_example = proc_list_remove_lem sent 0 9 (0 ∷ []) (1 ∷ []) one-Waits

proc_new_lem_example : Created listening 16384 300 (0 ∷ 1 ∷ []) (proc_new 16384 300 listening)
proc_new_lem_example =
    proc_new_lem listening 16384 300 (0 ∷ 1 ∷ []) listening-Alive refl (omega arith)

abbrev all_used : Kernel
all_used = record listening { nextpid = 0 }

proc_new_wraps_example :
    (k' : Kernel) × (proc_new 16384 300 all_used ≡ some (k', 0))
    × (k'.alive.root ≡ some 0)
    × (k'.alive.next 0 ≡ some 0)
proc_new_wraps_example = proc_new_wraps all_used 16384 300 refl
