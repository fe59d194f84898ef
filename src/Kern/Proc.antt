-- ===== src/Kern/Proc.antt =====
-- kern/proc.c: the process table, the scheduler and the waiting lists, with `func_label` of
-- am335x/kern/proc.c.
pub mod Choice
pub mod Create
pub mod Schedule
pub mod Waiting
use omb.Base.{
  ℕ, zero, suc, ◌+◌, ◌%◌, Bool, true, false, Option, none, some, if◌then◌else◌, ◌==◌, same_ptr,
  is_nil, update,
}
use omb.Board.Timer.{set_systick}
use omb.Kern.Links.{Links, add_to_list_back, append_cell, take_entry}
use omb.Kern.State.{
  ready, oncpu, is_ready, is_oncpu, Label, at_proc_start, Proc, empty_proc, empty_page, Kernel,
  set_proc, set_state, Outcome, switched, idle, hangs, max_procs, max_proc_lists,
}

-- Enough rounds for a walk over the list of all processes, and for one over a waiting list.
abbrev pub proc_fuel : ℕ
proc_fuel = 513

abbrev pub list_fuel : ℕ
list_fuel = 2049

-- `p != nil && p->state == PROC_ready`, where `rdy` reads the states.
abbrev pub ready_at : (ℕ → Bool) → Option ℕ → Bool
ready_at rdy none = false
ready_at rdy (some x) = rdy x

-- One round of the `do` loop of `next_proc` that does not return.
abbrev pub advance : Links → Option ℕ → Option ℕ
advance s none = s.root
advance s (some x) = s.next x

-- The `do` loop of `next_proc` from `p`, with the test behind it.
unfoldable pub scan : ℕ → (ℕ → Bool) → Links → (up p : Option ℕ) → Option (Option ℕ)
scan zero rdy s up p = none
scan (suc f) rdy s up p = elim (ready_at rdy p) [
  | true ↦ some p
  | false ↦ elim (same_ptr (advance s p) up) [
    | true ↦ some (if ready_at rdy (advance s p) then advance s p else none)
    | false ↦ scan f rdy s up (advance s p)
  ]
]

abbrev pub first_candidate : Links → Option ℕ → Option ℕ
first_candidate s none = s.root
first_candidate s (some u) = s.next u

abbrev pub scan_fuel : ℕ
scan_fuel = 1030

-- next_proc(); `none` is a loop that does not end.
unfoldable pub next_proc_in : (ℕ → Bool) → Links → (up : Option ℕ) → Option (Option ℕ)
next_proc_in rdy s up =
    if is_nil s.root then some none else scan scan_fuel rdy s up (first_candidate s up)

abbrev pub ready_in : Kernel → ℕ → Bool
ready_in k i = is_ready (k.procs i).state

unfoldable pub next_proc : Kernel → Option (Option ℕ)
next_proc k = next_proc_in (ready_in k) k.alive k.up

-- The first part of `schedule`: the running process is ready again, and its label is set.
unfoldable pub park : Label → Kernel → Kernel
park l k = elim k.up [
  | none ↦ k
  | some u ↦
      let p = k.procs u in
      set_proc k u (record p { label = l; state = if is_oncpu p.state then ready else p.state })
]

-- The last part: the choice is put on the processor, or the kernel waits.
unfoldable pub dispatch : Option ℕ → Kernel → Kernel × Outcome
dispatch none k = (record k { up = none; timer = set_systick 1000 k.timer; intr_on = true }, idle)
dispatch (some v) k =
    (set_state (record k { up = some v; timer = set_systick 1000 k.timer }) v oncpu, switched)

abbrev pub dispatch_found : Option (Option ℕ) → Kernel → Kernel × Outcome
dispatch_found none k = (k, hangs)
dispatch_found (some n) k = dispatch n k

-- schedule(n), called where the running process is to go on at the label `l`.
unfoldable pub schedule : Label → Option ℕ → Kernel → Kernel × Outcome
schedule l (some n) k = dispatch (some n) (park l k)
schedule l none k = dispatch_found (next_proc (park l k)) (park l k)

-- func_label(l, stack, stacklen, func): the label enters `func`.
unfoldable pub func_label : Label → Label
func_label func = func

-- find_proc(pid): the address of an element of `procs`, never nil.
unfoldable pub find_proc : ℕ → Option ℕ
find_proc pid = some pid

-- The slot that `proc_new` fills: cleared, its `next` too, then set.
abbrev pub new_proc : (space sys_page pid : ℕ) → Proc
new_proc space sys_page pid = record empty_proc {
  pid = pid;
  page = sys_page;
  space = space;
  label = func_label at_proc_start;
  state = ready;
}

abbrev pub new_found : (space sys_page : ℕ) → Kernel → Option Links → Option (Kernel × ℕ)
new_found space sys_page k none = none
new_found space sys_page k (some alive') =
    let pid = k.nextpid in
    some (
      record k {
        nextpid = (pid + 1) % max_procs;
        procs = update k.procs pid (new_proc space sys_page pid);
        pages = update k.pages sys_page (record empty_page { page_pid = pid });
        alive = alive';
      },
      pid,
    )

-- proc_new(space, sys_page): `none` is a walk that does not end.
unfoldable pub proc_new : (space sys_page : ℕ) → Kernel → Option (Kernel × ℕ)
proc_new space sys_page k =
    let cleared = record k.alive { next = update k.alive.next k.nextpid none } in
    new_found space sys_page k (add_to_list_back proc_fuel cleared k.nextpid)

-- The `for` loop of `proc_list_add`: the first free entry from `i` on, with `n` to go.
unfoldable pub find_free : ℕ → ℕ → (ℕ → Option ℕ) → Option ℕ
find_free zero i list_proc = none
find_free (suc n) i list_proc = elim (is_nil (list_proc i)) [
  | true ↦ some i
  | false ↦ find_free n (i + 1) list_proc
]

-- The list `&p->waiting`.
abbrev pub waiting_links : Kernel → ℕ → Links
waiting_links k p = record { root = (k.procs p).waiting; next = k.list_next }

abbrev pub set_waiting : Kernel → ℕ → Links → Kernel
set_waiting k p s = record (set_proc k p (record (k.procs p) { waiting = s.root })) {
  list_next = s.next;
}

abbrev pub add_entry : Kernel → (l p n : ℕ) → Option Links → Option (Kernel × Bool)
add_entry k l p n none = none
add_entry k l p n (some s) =
    some (record (set_waiting k l s) { list_proc = update k.list_proc n (some p) }, true)

-- proc_list_add(&l->waiting, p)
unfoldable pub proc_list_add : (l p : ℕ) → Kernel → Option (Kernel × Bool)
proc_list_add l p k = elim (find_free max_proc_lists 0 k.list_proc) [
  | none ↦ some (k, false)
  | some n ↦ add_entry k l p n (append_cell list_fuel (waiting_links k l) n)
]

-- n->proc->pid == pid
abbrev pub has_pid : Kernel → ℕ → ℕ → Bool
has_pid k pid n = elim (k.list_proc n) [ none ↦ false | some p ↦ (k.procs p).pid == pid ]

abbrev pub free_entry : Kernel → ℕ → Option (Links × Option ℕ) → Option (Kernel × Option ℕ)
free_entry k l none = none
free_entry k l (some (s, none)) = some (k, none)
free_entry k l (some (s, some n)) =
    some (record (set_waiting k l s) { list_proc = update k.list_proc n none }, k.list_proc n)

-- proc_list_remove(&l->waiting, pid)
unfoldable pub proc_list_remove : (l pid : ℕ) → Kernel → Option (Kernel × Option ℕ)
proc_list_remove l pid k = free_entry k l (take_entry list_fuel (waiting_links k l) (has_pid k pid))
