-- ===== src/Kern/Proc/Create.antt =====
-- `proc_new` of kern/proc.c: a slot of the table becomes a process at the end of the list of all,
-- and what happens when the slots are used up.
use omb.Base.{
  ℕ, ◌+◌, ◌%◌, ◌<◌, ◌≤◌, ◌≡◌, refl, ap, ◌≢◌, false, Option, none, some, List, [], ◌∷◌, ◌++◌, arith,
  has, length, length_le_of_Distinct, update, update_self,
}
use omb.Kern.Links.{Links, add_to_list_back}
use omb.Kern.Links.Seg.{Holds, Seg-update, AllBelow-append}
use omb.Kern.Links.Laws.{Added, add_to_list_back_lem, add_to_list_back_self}
use omb.Kern.State.{Kernel, max_procs, empty_page, ready, at_proc_start}
use omb.Kern.Proc.{new_proc, new_found, proc_new, proc_fuel, func_label}
use omb.Kern.Proc.Schedule.{Alive}

-- What creating a process must give where the slot `nextpid` is free.
pub record Created (k : Kernel) (space page : ℕ) (xs : List ℕ) (r : Option (Kernel × ℕ))
    : Type 0 where
  pub after : Kernel
  pub ends : r ≡ some (after, k.nextpid)
  pub alive : Alive after (xs ++ k.nextpid ∷ [])
  pub fresh : after.procs k.nextpid ≡ record {
    label = at_proc_start;
    state = ready;
    pid = k.nextpid;
    page = page;
    waiting_on = none;
    waiting = none;
    addr_offer = record { start = 0; len = 0; flags = 0; to = 0 };
    space = space;
  }
  pub others_same : (i : ℕ) → i ≢ k.nextpid → after.procs i ≡ k.procs i
  pub told : (after.pages page).page_pid ≡ k.nextpid
  pub next_slot : after.nextpid < max_procs
  pub up_same : after.up ≡ k.up
  pub list_next_same : after.list_next ≡ k.list_next
  pub list_proc_same : after.list_proc ≡ k.list_proc

module _ (k : Kernel) (space page : ℕ) (xs : List ℕ) (a : Alive k xs)
    (free : has k.nextpid xs ≡ false) (slot : k.nextpid < max_procs) where
  cleared : Links
  cleared = record k.alive { next = update k.alive.next k.nextpid none }

  cleared-Holds : Holds cleared xs
  unfolding cleared
  cleared-Holds = record {
    chain = Seg-update k.alive.next k.alive.root none none k.nextpid xs a.holds.chain free;
    distinct = a.holds.distinct;
  }

  few : length xs ≤ max_procs
  few = length_le_of_Distinct max_procs xs a.below a.holds.distinct

  Added-Created :
      (r : Option Links)
      → Added cleared xs k.nextpid r
      → Created k space page xs (new_found space page k r)
  unfolding func_label
  Added-Created r d = rw d.ends (record {
    after = record k {
      nextpid = (k.nextpid + 1) % max_procs;
      procs = update k.procs k.nextpid (new_proc space page k.nextpid);
      pages = update k.pages page (record empty_page { page_pid = k.nextpid });
      alive = d.links;
    };
    ends = refl;
    alive = record {
      holds = d.holds;
      below = AllBelow-append max_procs xs (k.nextpid ∷ []) a.below (slot, tt);
    };
    fresh = update_self k.procs k.nextpid (new_proc space page k.nextpid);
    others_same = λ i ne. ground arith;
    told = ground arith;
    next_slot = omega arith;
    up_same = refl;
    list_next_same = refl;
    list_proc_same = refl;
  })

  -- If the list of all processes is `xs` and the next slot is below 512 and not in the list, then
  -- `proc_new` returns that slot, at the end of the list. The slot holds a process that is
  -- PROC_ready at the label of its start, with that pid, the page and the space given, no waiting
  -- list, nothing that it waits on and an empty offer; the pid is in the process's page, the
  -- other slots are unchanged, and the next slot is again below 512.
  pub proc_new_lem : Created k space page xs (proc_new space page k)
  unfolding proc_new cleared
  proc_new_lem =
      Added-Created (add_to_list_back proc_fuel cleared k.nextpid) (
        add_to_list_back_lem proc_fuel cleared xs k.nextpid cleared-Holds free (omega (arith, few)))

-- If the next slot is that of the process at the front of the list of all, as it is for the 513th
-- process, then `proc_new` still returns it, with the slot still at the front of the list and
-- linked to itself: the list has become a cycle without the other processes.
pub proc_new_wraps :
    (k : Kernel) (space page : ℕ)
    → k.alive.root ≡ some k.nextpid
    → (k' : Kernel) × (proc_new space page k ≡ some (k', k.nextpid))
      × (k'.alive.root ≡ some k.nextpid)
      × (k'.alive.next k.nextpid ≡ some k.nextpid)
unfolding proc_new
proc_new_wraps k space page e =
    let (s', r, a, b) = add_to_list_back_self 512 k.alive k.nextpid e (omega arith) in
    (
      record k {
        nextpid = (k.nextpid + 1) % max_procs;
        procs = update k.procs k.nextpid (new_proc space page k.nextpid);
        pages = update k.pages page (record empty_page { page_pid = k.nextpid });
        alive = s';
      },
      ap (new_found space page k) r,
      a,
      b,
    )
