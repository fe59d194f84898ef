-- ===== src/Kern/Sys/Sound.antt =====
-- What is true of the kernel's lists whenever a process runs or the kernel idles.
pub mod Frame
pub mod Schedule
pub mod Taken
pub mod Asleep
pub mod Send
pub mod Reply
pub mod Receive
pub mod Create
pub mod Calls
pub mod Steps
use omb.Base.{
  ℕ, zero, suc, ◌<◌, ◌≡◌, refl, ap, ◌∙◌, sym, subst, ◌≢◌, Bool, true, false, not, Option, none,
  some, List, [], ◌∷◌, ◌++◌, arith, has, Distinct, Bool-cases, Option-cases, inl, inr,
  if◌then◌else◌, ◌==◌, update,
}
use omb.Kern.Links.Seg.{Holds}
use omb.Kern.State.{
  ProcState, send, oncpu, ready, is_dead, is_send, is_ready, is_oncpu, Label, cleared, Kernel,
  hangs, max_procs, Outcome, set_state,
}
use omb.Kern.Proc.{ready_in, next_proc, park, dispatch, dispatch_found, schedule}
use omb.Kern.Proc.Choice.{first_ready}
use omb.Kern.Proc.Schedule.{Alive, chosen_by, next_proc-park, next_proc-park_idle}
use omb.Kern.Links.Take.{choose, others}
use omb.Kern.Proc.Waiting.{Waits, pid_is}
use omb.Kern.Sys.Queueing.{Waits-same, Unmoved, schedule-Unmoved}

-- The waiting lists hold the processes `q`, in the entries `ns`: each entry is in one list, and
-- a process is in PROC_send exactly if it is in a waiting list, which is that of the process that
-- it waits on; it is there once. Nobody waits for a dead process.
pub record Queues (k : Kernel) (ns q : ℕ → List ℕ) : Type 0 where
  pub waits : (l : ℕ) → Waits k l (ns l) (q l)
  pub apart : (i j e : ℕ) → i ≢ j → has e (ns i) ≡ true → has e (ns j) ≡ false
  pub blocked :
      (l s : ℕ)
      → has s (q l) ≡ true
      → (is_send (k.procs s).state ≡ true) × ((k.procs s).waiting_on ≡ some l)
  pub in_queue :
      (s : ℕ)
      → is_send (k.procs s).state ≡ true
      → (l : ℕ) × ((k.procs s).waiting_on ≡ some l) × (has s (q l) ≡ true)
  pub once : (l : ℕ) → Distinct (q l)
  pub nobody : (l : ℕ) → is_dead (k.procs l).state ≡ true → q l ≡ []

-- A process that can be switched to has a label.
abbrev pub started : Label → Bool
started cleared = false
started _ = true

-- With them, the list of all processes holds those that are not dead, `up` among them, and
-- each of them has a label to go on at.
pub record Steady (k : Kernel) (xs : List ℕ) (ns q : ℕ → List ℕ) : Type 0 where
  pub queues : Queues k ns q
  pub alive : Alive k xs
  pub live : (i : ℕ) → has i xs ≡ not (is_dead (k.procs i).state)
  pub slot : k.nextpid < max_procs
  pub present : (u : ℕ) → k.up ≡ some u → is_dead (k.procs u).state ≡ false
  pub begun : (i : ℕ) → is_dead (k.procs i).state ≡ false → started (k.procs i).label ≡ true

-- And `up` is marked as running.
pub record Sound (k : Kernel) (xs : List ℕ) (ns q : ℕ → List ℕ) : Type 0 where
  pub steady : Steady k xs ns q
  pub busy : (u : ℕ) → k.up ≡ some u → (k.procs u).state ≡ oncpu

pub Alive-same : (k k' : Kernel) (xs : List ℕ) → k'.alive ≡ k.alive → Alive k xs → Alive k' xs
Alive-same k k' xs e a = record { holds = subst (λ t. Holds t xs) (sym e) a.holds; below = a.below }

-- A change that moves no process into a waiting list or out of it, and none out of the dead.
pub record Calm (k k' : Kernel) : Type 0 where
  pub waiting : (i : ℕ) → (k'.procs i).waiting ≡ (k.procs i).waiting
  pub waiting_on : (i : ℕ) → (k'.procs i).waiting_on ≡ (k.procs i).waiting_on
  pub sends : (i : ℕ) → is_send (k'.procs i).state ≡ is_send (k.procs i).state
  pub deads : (i : ℕ) → is_dead (k'.procs i).state ≡ is_dead (k.procs i).state
  pub begun : (i : ℕ) → started (k.procs i).label ≡ true → started (k'.procs i).label ≡ true
  pub list_next : k'.list_next ≡ k.list_next
  pub list_proc : k'.list_proc ≡ k.list_proc
  pub alive : k'.alive ≡ k.alive
  pub nextpid : k'.nextpid ≡ k.nextpid

module _ (k k' : Kernel) (xs : List ℕ) (ns q : ℕ → List ℕ) (c : Calm k k') where
  Queues-Calm : Queues k ns q → Queues k' ns q
  Queues-Calm s = record {
    waits = λ l. Waits-same k k' l (ns l) (q l) (c.waiting l) c.list_next c.list_proc (s.waits l);
    apart = s.apart;
    blocked = λ l p h. (c.sends p ∙ (s.blocked l p h).0, c.waiting_on p ∙ (s.blocked l p h).1);
    in_queue =
        λ p h. let f = s.in_queue p (sym (c.sends p) ∙ h) in (f.0, c.waiting_on p ∙ f.1, f.2);
    once = s.once;
    nobody = λ l h. s.nobody l (sym (c.deads l) ∙ h);
  }

  pub Steady-Calm :
      ((u : ℕ) → k'.up ≡ some u → is_dead (k'.procs u).state ≡ false)
      → Steady k xs ns q
      → Steady k' xs ns q
  Steady-Calm up s = record {
    queues = Queues-Calm s.queues;
    alive = Alive-same k k' xs c.alive s.alive;
    live = λ i. s.live i ∙ ap not (sym (c.deads i));
    slot = subst (λ n. n < max_procs) (sym c.nextpid) s.slot;
    present = up;
    begun = λ i h. c.begun i (s.begun i (sym (c.deads i) ∙ h));
  }

-- What an operation does to the waiting lists, told without the entries: nothing, or a process
-- joins a list at its end, or the process that is chosen by its pid leaves one.
pub data Move (k : Kernel) (q q' : ℕ → List ℕ) : Type 0 where
  stays : q' ≡ q → Move k q q'
  joins : (u p : ℕ) → k.up ≡ some u → q' ≡ update q p (q p ++ u ∷ []) → Move k q q'
  leaves :
      (u w pid : ℕ)
      → k.up ≡ some u
      → choose (pid_is k pid) (q u) ≡ some w
      → q' ≡ update q u (others (pid_is k pid) (q u))
      → Move k q q'

-- The end of a run of the kernel that keeps the lists.
abbrev pub Kept : Kernel × Outcome → List ℕ → (ℕ → List ℕ) → (ℕ → List ℕ) → Type 0
Kept r xs ns q = Sound r.0 xs ns q × (r.1 ≢ hangs)

-- The kernel after an operation, which ends.
pub record Next (k : Kernel) (q : ℕ → List ℕ) (r : Kernel × Outcome) : Type 0 where
  pub all : List ℕ
  pub entries : ℕ → List ℕ
  pub queue : ℕ → List ℕ
  pub sound : Sound r.0 all entries queue
  pub ends : r.1 ≢ hangs
  pub move : Move k q queue

pub Next-stays :
    (k : Kernel) (r : Kernel × Outcome) (xs : List ℕ) (ns q : ℕ → List ℕ)
    → Kept r xs ns q
    → Next k q r
Next-stays k r xs ns q s = record {
  all = xs;
  entries = ns;
  queue = q;
  sound = s.0;
  ends = s.1;
  move = stays refl;
}

-- A process that `schedule` may be given.
abbrev pub MayRun : Kernel → ℕ → Type 0
MayRun k v = (is_send (k.procs v).state ≡ false) × (is_dead (k.procs v).state ≡ false)
