-- ===== src/Kern/Sys/Sound/Steps.antt =====
-- The runs of the kernel, one after the other from its start.
use omb.Base.{ℕ, ◌≡◌, ◌≢◌, refl, ap, Bool, true, false, ◌||◌, none, some, List, [], ◌∷◌, arith}
use omb.Space.{clear_page}
use omb.Kern.State.{
  at_proc0_start, Proc, is_dead, empty_proc, Kernel, set_proc, Outcome, returned, dropped, resumed,
  idle, switched, hangs,
}
use omb.Kern.Proc.{func_label, schedule, proc_new}
use omb.Kern.Proc.Create.{Created, proc_new_lem}
use omb.Kern.Sys.{Call, syscall, Proc0, resume, systick_handler, start_proc0}
use omb.Kern.Sys.Sound.{Steady, Sound, Calm, Steady-Calm, MayRun, Kept, Next}
use omb.Kern.Sys.Sound.Schedule.{schedule-Sound}
use omb.Kern.Sys.Sound.Create.{new-Steady}
use omb.Kern.Sys.Sound.Calls.{
  Allowed, elsewhere, elsewhere-Steady, syscall-Next, resume-Next, tick-Next,
}

-- A user program runs: the system calls are its, and it can be interrupted.
abbrev pub in_user : Outcome → Bool
in_user (returned r) = true
in_user (dropped pc sp) = true
in_user resumed = true
in_user _ = false

abbrev pub is_idle : Outcome → Bool
is_idle idle = true
is_idle _ = false

-- What can follow the end of a run: a system call of the running program, the system tick, or
-- what stands at the label of the process that was switched to.
pub data Step (z : Proc0) (r : Kernel × Outcome) : Kernel × Outcome → Type 0 where
  call :
      (c : Call) (u : ℕ)
      → in_user r.1 ≡ true
      → r.0.up ≡ some u
      → Allowed c r.0
      → Step z r (syscall c u r.0)
  switch : r.1 ≡ switched → Step z r (resume z r.0)
  tick : in_user r.1 || is_idle r.1 ≡ true → Step z r (systick_handler r.0)

-- The static variables of the kernel as they are when `init_proc0` is called.
pub record Booting (k : Kernel) : Type 0 where
  pub nobody : (i : ℕ) → k.procs i ≡ empty_proc
  pub no_alive : k.alive.root ≡ none
  pub no_up : k.up ≡ none
  pub first_slot : k.nextpid ≡ 0

-- What the kernel can come to.
pub data Reached (z : Proc0) : Kernel × Outcome → Type 0 where
  boots : {k : Kernel} → Booting k → Reached z (start_proc0 z k)
  goes_on : {a b : Kernel × Outcome} → Reached z a → Step z a b → Reached z b

-- If the kernel is sound, then one run of it is a move of the machine of message queues, and
-- ends, with the kernel sound again, where the run is an allowed system call of the running
-- process, what follows a switch, or a system tick. A move leaves all queues as they are, or puts
-- the running process at the end of one queue, or takes from the queue of the running process the
-- first with a pid, or the last if none has it. Sound is that the waiting lists hold the queues,
-- in entries that belong to one list each; that a process is in PROC_send exactly if it is in a
-- queue, once, and waits on the process that the queue belongs to; that nobody waits for a dead
-- process; that the list of all processes holds those that are not dead, each once and each with
-- a label; that the next slot is below 512; and that the running process is PROC_oncpu. Allowed
-- is that a pid is below 512, that the next slot is free when a process is made, and that the
-- length of an accepted range is at most 2^32 - 4096.
pub Step-Next :
    (z : Proc0) (r r' : Kernel × Outcome) (xs : List ℕ) (ns q : ℕ → List ℕ)
    → Sound r.0 xs ns q
    → Step z r r'
    → Next r.0 q r'
Step-Next z r _ xs ns q s (call c u user up a) = syscall-Next r.0 u xs ns q s up c a
Step-Next z r _ xs ns q s (switch e) = resume-Next z r.0 xs ns q s
Step-Next z r _ xs ns q s (tick e) = tick-Next r.0 xs ns q s

abbrev nothing : ℕ → List ℕ
nothing i = []

Booting-Steady : (k : Kernel) → Booting k → Steady k [] nothing nothing
Booting-Steady k b = record {
  queues = record {
    waits = λ l. record {
      holds = record { chain = ap (λ (p : Proc). p.waiting) (b.nobody l); distinct = tt };
      below = tt;
      names = tt;
    };
    apart = λ i j e ne h. refl;
    blocked = λ l i h. cc;
    in_queue = λ i h. absurd (ground (arith, b.nobody i));
    once = λ l. tt;
    nobody = λ l h. refl;
  };
  alive = record { holds = record { chain = b.no_alive; distinct = tt }; below = tt };
  live = λ i. ground (arith, b.nobody i);
  slot = ground (arith, b.first_slot);
  present = λ u e. absurd (ground (arith, b.no_up));
  begun = λ i h. absurd (ground (arith, b.nobody i));
}

-- A kernel in order, at the end of a run.
pub record InOrder (r : Kernel × Outcome) : Type 0 where
  pub all : List ℕ
  pub entries : ℕ → List ℕ
  pub queue : ℕ → List ℕ
  pub kept : Kept r all entries queue

module _ (z : Proc0) (k : Kernel) (b : Booting k) where
  abbrev readied : Kernel
  readied = elsewhere k (clear_page k.memory z.space) k.timer

  readied-Steady : Steady readied [] nothing nothing
  readied-Steady = elsewhere-Steady k (clear_page k.memory z.space) k.timer (Booting-Steady k b)

  readied_room : is_dead (k.procs k.nextpid).state ≡ true
  readied_room = ap (λ (p : Proc). is_dead p.state) (b.nobody k.nextpid)

  module _ (c : Created readied z.space z.page [] (proc_new z.space z.page readied)) where
    abbrev labelled : Kernel
    labelled =
        set_proc c.after k.nextpid
          (record (c.after.procs k.nextpid) { label = func_label at_proc0_start })

    labelled-Calm : Calm c.after labelled
    unfolding func_label
    labelled-Calm = record {
      waiting = λ i. ground arith;
      waiting_on = λ i. ground arith;
      sends = λ i. ground arith;
      deads = λ i. ground arith;
      begun = λ i h. ground (arith, h);
      list_next = refl;
      list_proc = refl;
      alive = refl;
      nextpid = refl;
    }

    labelled-Steady : Steady labelled (k.nextpid ∷ []) nothing nothing
    labelled-Steady =
        Steady-Calm c.after labelled (k.nextpid ∷ []) nothing nothing labelled-Calm
          (λ u e. absurd (ground (arith, c.up_same, b.no_up)))
          (new-Steady readied z.space z.page [] nothing nothing readied-Steady readied_room c)

    labelled-MayRun : (v : ℕ) → some k.nextpid ≡ some v → MayRun labelled v
    labelled-MayRun v e = (ground (arith, c.fresh), ground (arith, c.fresh))

    started-Kept :
        Kept (schedule at_proc0_start (some k.nextpid) labelled) (k.nextpid ∷ []) nothing nothing
    started-Kept =
        schedule-Sound at_proc0_start (some k.nextpid) labelled (k.nextpid ∷ []) nothing nothing
          refl labelled-MayRun labelled-Steady

  boots-InOrder : InOrder (start_proc0 z k)
  unfolding start_proc0
  boots-InOrder =
      let c =
        proc_new_lem readied z.space z.page [] readied-Steady.alive refl readied-Steady.slot in
      rw (start_proc0, c.ends)
        (record { all = k.nextpid ∷ []; entries = nothing; queue = nothing; kept = started-Kept c })

-- From its start, with the table of processes cleared, and after any sequence of allowed system
-- calls of running programs, of what follows a switch, and of system ticks, the kernel is sound,
-- with some queues.
pub Reached-InOrder : (z : Proc0) (r : Kernel × Outcome) → Reached z r → InOrder r
Reached-InOrder z _ (boots {k} b) = boots-InOrder z k b
Reached-InOrder z r (goes_on {a} before step) =
    let s = Reached-InOrder z a before in
    let n = Step-Next z a r s.all s.entries s.queue s.kept.0 step in
    record { all = n.all; entries = n.entries; queue = n.queue; kept = (n.sound, n.ends) }

-- No run of the kernel that is reached from its start hangs, where the system calls are allowed:
-- the walks over the lists, the search for the next process, the loops of receiving and of
-- accepting a range end within their fuel, and no process is switched to without a label.
pub Reached-ends : (z : Proc0) (r : Kernel × Outcome) → Reached z r → r.1 ≢ hangs
Reached-ends z r reached = (Reached-InOrder z r reached).kept.1
