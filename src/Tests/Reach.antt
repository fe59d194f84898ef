-- ===== src/Tests/Reach.antt =====
-- Theorems on runs of the kernel, applied at its start and at a kernel of two processes.
use omb.Base.{ℕ, ◌≤◌, some, ◌≡◌, ◌≢◌, refl, ap, Bool, true, false, none, [], ◌∷◌, arith, ◌||◌}
use omb.Kern.Links.{add_to_list_back}
use omb.Kern.State.{err, ProcState, Label, empty_page, empty_proc, Kernel, Outcome}
use omb.Kern.Sys.{accept_from, sys_send, syscall, resume, resume_at, systick_handler, start_proc0}
use omb.Kern.Proc.{proc_new, schedule, park, dispatch, func_label}
use omb.Kern.Sys.Sound.{Sound, Next}
use omb.Kern.Sys.Sound.Steps.{
  in_user, is_idle, Step, Booting, Reached, InOrder, Step-Next, Reached-InOrder, Reached-ends,
}
use omb.Kern.Sys.Fair.{Computes, rounds, ticks_reach}
use omb.Kern.Sys.Accept.{no_table_here, accept_from-Refused}
use omb.Tests.{two_procs, first_program, timer_off, listening, nobody-Waits, listening-Alive}

abbrev blank : Kernel
blank = record {
  nextpid = 0;
  procs = λ i. empty_proc;
  alive = record { root = none; next = λ i. none };
  up = none;
  list_proc = λ i. none;
  list_next = λ i. none;
  pages = λ a. empty_page;
  memory = λ a. 0;
  kernel_page = 0;
  timer = timer_off;
  intr_on = false;
}

blank-Booting : Booting blank
blank-Booting = record { nobody = λ i. refl; no_alive = refl; no_up = refl; first_slot = refl }

abbrev begun : Kernel × Outcome
begun = start_proc0 first_program blank

begun_switched : begun.1 ≡ Outcome.switched
unfolding start_proc0 proc_new add_to_list_back schedule park dispatch
begun_switched = refl

abbrev entered : Kernel × Outcome
entered = resume first_program begun.0

entered_user : in_user entered.1 ≡ true
unfolding resume resume_at start_proc0 proc_new add_to_list_back schedule park dispatch func_label
entered_user = refl

entered-Reached : Reached first_program entered
entered-Reached = Reached.goes_on (Reached.boots blank-Booting) (Step.switch begun_switched)

ticked-Reached : Reached first_program (systick_handler entered.0)
ticked-Reached =
    Reached.goes_on entered-Reached
      (Step.tick (ap (λ (b : Bool). b || is_idle entered.1) entered_user))

Reached-InOrder_example : InOrder (systick_handler entered.0)
Reached-InOrder_example = Reached-InOrder first_program (systick_handler entered.0) ticked-Reached

Reached-ends_example : (systick_handler entered.0).1 ≢ Outcome.hangs
Reached-ends_example = Reached-ends first_program (systick_handler entered.0) ticked-Reached

listening-Sound : Sound listening (0 ∷ 1 ∷ []) (λ i. []) (λ i. [])
listening-Sound = record {
  steady = record {
    queues = record {
      waits = λ l. nobody-Waits l listening (ground arith);
      apart = λ i j e ne h. refl;
      blocked = λ l i h. cc;
      in_queue = λ i h. absurd (ground arith);
      once = λ l. tt;
      nobody = λ l h. refl;
    };
    alive = listening-Alive;
    live = λ i. ground arith;
    slot = omega arith;
    present = λ u e. ground arith;
    begun = λ i h. ground arith;
  };
  busy = λ u e. ground arith;
}

Step-Next_example : Next listening (λ i. []) (syscall (sys_send 1) 0 listening)
Step-Next_example =
    Step-Next first_program (listening, Outcome.resumed) (syscall (sys_send 1) 0 listening)
      (0 ∷ 1 ∷ []) (λ i. []) (λ i. []) listening-Sound
      (Step.call (sys_send 1) 0 refl refl (omega arith))

-- Process 1 is ready, where its `send` has returned.
abbrev computing : Kernel
computing = two_procs ProcState.ready Label.in_ksend none

computing-Computes : Computes computing (0 ∷ 1 ∷ []) 0
computing-Computes = record {
  alive = record { holds = listening-Alive.holds; below = listening-Alive.below };
  up = refl;
  running = refl;
  computing = λ i h. ground arith;
}

ticks_reach_example : (m : ℕ) × (m ≤ 2) × ((rounds first_program m computing).up ≡ some 1)
ticks_reach_example =
    ticks_reach first_program computing [] (1 ∷ []) 0 1 computing-Computes (ground arith) refl

-- Process 1 offers a page to process 0.
abbrev offering : Kernel
offering = record listening {
  procs = λ i. record (listening.procs i) {
    addr_offer = record { start = 8192; len = 4096; flags = 2; to = 0 };
  };
}

accept_from-Refused_example :
    accept_from 0 1 16384 4096 3 offering ≡ (offering, Outcome.returned err)
accept_from-Refused_example =
    accept_from-Refused offering 0 1 16384 4096 3
      (no_table_here (omega arith) refl (omega arith) refl)
