-- ===== src/Kern/State.antt =====
-- The state of the kernel: kern/head.h, the static variables of kern/proc.c, `struct proc_page`
-- of include/c.h. The `next` fields of `procs` and `proc_lists` are kept as families of their
-- own, beside the roots of the lists that run through them. An index past the end of an array
-- stands for the memory there.
use omb.Base.{ℕ, Bool, true, false, Option, none, update}
use omb.Board.Timer.{Timer}
use omb.Kern.Links.{Links}
use omb.Space.{Memory}

-- `procstate_t`
pub data ProcState : Type 0 where
  dead enter ready oncpu send reply recv recving : ProcState

-- `up->state == PROC_ready` and the other tests.
abbrev pub is_dead : ProcState → Bool
is_dead dead = true
is_dead _ = false

abbrev pub is_ready : ProcState → Bool
is_ready ready = true
is_ready _ = false

abbrev pub is_oncpu : ProcState → Bool
is_oncpu oncpu = true
is_oncpu _ = false

abbrev pub is_send : ProcState → Bool
is_send send = true
is_send _ = false

abbrev pub is_reply : ProcState → Bool
is_reply reply = true
is_reply _ = false

abbrev pub is_recv : ProcState → Bool
is_recv recv = true
is_recv _ = false

-- Who called `krecv`: a system call, which returns the sender's pid, or `proc_start`.
pub data Caller : Type 0 where
  by_syscall by_proc_start : Caller

-- `label_t`: where a process goes on when it is switched to, and the locals on its kernel stack
-- that are read there. All but the first three are set by `set_label` in `schedule`.
pub data Label : Type 0 where
  cleared : Label
  at_proc_start : Label
  at_proc0_start : Label
  in_ksend : Label
  in_krecv : Caller → (pid : ℕ) → Label
  in_kreply : Label
  in_start_reply : (pc sp : ℕ) → Label
  in_kreply_recv : (pid : ℕ) → Label
  in_systick : Label

-- Signed results travel as the bits of a `reg_t`.
abbrev pub ok : ℕ
ok = 0

abbrev pub err : ℕ
err = 0xffffffff

abbrev pub pid_all : ℕ
pid_all = 0xffffffff

abbrev pub max_procs : ℕ
max_procs = 512

abbrev pub max_proc_lists : ℕ
max_proc_lists = 2048

abbrev pub message_len : ℕ
message_len = 64

pub record ProcPage : Type 0 where
  pub page_pid : ℕ
  pub m_in : ℕ → ℕ
  pub m_out : ℕ → ℕ
  pub m_ret : ℕ

abbrev pub empty_page : ProcPage
empty_page = record { page_pid = 0; m_in = λ i. 0; m_out = λ i. 0; m_ret = 0 }

pub record AddrOffer : Type 0 where
  pub start : ℕ
  pub len : ℕ
  pub flags : ℕ
  pub to : ℕ

-- `struct proc` without `next` and `kstack`
pub record Proc : Type 0 where
  pub label : Label
  pub state : ProcState
  pub pid : ℕ
  pub page : ℕ
  pub waiting_on : Option ℕ
  pub waiting : Option ℕ
  pub addr_offer : AddrOffer
  pub space : ℕ

-- What `memset(p, 0, sizeof(struct proc))` leaves.
abbrev pub empty_proc : Proc
empty_proc = record {
  label = cleared;
  state = dead;
  pid = 0;
  page = 0;
  waiting_on = none;
  waiting = none;
  addr_offer = record { start = 0; len = 0; flags = 0; to = 0 };
  space = 0;
}

pub record Kernel : Type 0 where
  pub nextpid : ℕ
  pub procs : ℕ → Proc
  pub alive : Links
  pub up : Option ℕ
  pub list_proc : ℕ → Option ℕ
  pub list_next : ℕ → Option ℕ
  pub pages : ℕ → ProcPage
  pub memory : Memory
  pub kernel_page : ℕ
  pub timer : Timer
  pub intr_on : Bool

abbrev pub set_proc : Kernel → ℕ → Proc → Kernel
set_proc k i p = record k { procs = update k.procs i p }

abbrev pub set_state : Kernel → ℕ → ProcState → Kernel
set_state k i s = set_proc k i (record (k.procs i) { state = s })

abbrev pub page_of : Kernel → ℕ → ProcPage
page_of k i = k.pages (k.procs i).page

abbrev pub set_page : Kernel → ℕ → ProcPage → Kernel
set_page k i g = record k { pages = update k.pages (k.procs i).page g }

-- How a run of the kernel ends.
pub data Outcome : Type 0 where
  -- a system call returns to the user program of `up`
  returned : ℕ → Outcome
  -- `drop_to_user`
  dropped : (pc sp : ℕ) → Outcome
  -- the interrupted program of `up` goes on
  resumed : Outcome
  -- `goto_label(&up->label)`
  switched : Outcome
  -- no process is ready: `schedule` waits for interrupts
  idle : Outcome
  -- a loop that does not end
  hangs : Outcome
