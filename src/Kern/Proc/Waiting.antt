-- ===== src/Kern/Proc/Waiting.antt =====
-- The waiting list of a process, as the list of the processes that wait, oldest first:
-- `proc_list_add` and `proc_list_remove` of kern/proc.c.
use omb.Base.{
  ℕ, zero, suc, ◌+◌, ◌<◌, ◌≤◌, ◌≡◌, refl, ap, ◌≢◌, Bool, true, false, Option, none, some, List, [],
  ◌∷◌, ◌++◌, ◌⊎◌, inl, inr, arith, has, Distinct, AllBelow, length, length_le_of_Distinct,
  Bool-cases, Option-cases, ◌==◌, update, update_self,
}
use omb.Kern.Links.{Links, append_cell}
use omb.Kern.Links.Seg.{Holds, AllBelow-append}
use omb.Kern.Links.Laws.{Added, append_cell_lem}
use omb.Kern.Links.Take.{choose, others, take_entry_lem}
use omb.Kern.State.{Kernel, max_proc_lists}
use omb.Kern.Proc.{
  find_free, waiting_links, set_waiting, add_entry, proc_list_add, has_pid, free_entry,
  proc_list_remove, list_fuel,
}

-- The entries `ns` name the processes `ps`.
abbrev pub Names : (ℕ → Option ℕ) → List ℕ → List ℕ → Type 0
Names lp [] [] = Unit
Names lp [] (p ∷ ps) = ⊥
Names lp (n ∷ ns) [] = ⊥
Names lp (n ∷ ns) (p ∷ ps) = (lp n ≡ some p) × Names lp ns ps

-- The entries `ns` of `proc_lists` make up the waiting list of `l`, which is that of `ps`.
pub record Waits (k : Kernel) (l : ℕ) (ns ps : List ℕ) : Type 0 where
  pub holds : Holds (waiting_links k l) ns
  pub below : AllBelow max_proc_lists ns
  pub names : Names k.list_proc ns ps

-- `find_free` finds a free entry of the array.
pub find_free-IsFree :
    (n i : ℕ) (lp : ℕ → Option ℕ) {e : ℕ}
    → find_free n i lp ≡ some e
    → (lp e ≡ none) × (i ≤ e) × (e < i + n)
unfolding find_free
find_free-IsFree zero i lp h = cc
find_free-IsFree (suc n) i lp {e = found} h = elim (Option-cases (lp i)) [
  | inl none_here ↦ ground arith
  | inr (p, e) ↦ ground (arith, find_free-IsFree n (i + 1) lp {e = found})
]

pub has_of_Names :
    (lp : ℕ → Option ℕ) (e : ℕ) (ns ps : List ℕ) → Names lp ns ps → lp e ≡ none → has e ns ≡ false
has_of_Names lp e [] ps m h = refl
has_of_Names lp e (n ∷ ns) [] m h = elim m [ ]
has_of_Names lp e (n ∷ ns) (p ∷ ps) m h = ground (arith, has_of_Names lp e ns ps m.1, ap lp)

Names-update :
    (lp : ℕ → Option ℕ) (e : ℕ) (v : Option ℕ) (ns ps : List ℕ)
    → Names lp ns ps
    → has e ns ≡ false
    → Names (update lp e v) ns ps
Names-update lp e v [] [] m h = tt
Names-update lp e v [] (p ∷ ps) m h = m
Names-update lp e v (n ∷ ns) [] m h = m
Names-update lp e v (n ∷ ns) (p ∷ ps) m h = ground (arith, Names-update lp e v ns ps m.1)

Names-append :
    (lp : ℕ → Option ℕ) (e p : ℕ) (ns ps : List ℕ)
    → Names lp ns ps
    → lp e ≡ some p
    → Names lp (ns ++ e ∷ []) (ps ++ p ∷ [])
Names-append lp e p [] [] m h = (h, tt)
Names-append lp e p [] (q ∷ ps) m h = elim m [ ]
Names-append lp e p (n ∷ ns) [] m h = elim m [ ]
Names-append lp e p (n ∷ ns) (q ∷ ps) m h = (m.0, Names-append lp e p ns ps m.1 h)

-- What adding the process `p` to the waiting list of `l` must give.
pub record Queued (k : Kernel) (l p : ℕ) (ns ps : List ℕ) (r : Option (Kernel × Bool))
    : Type 0 where
  pub entry : ℕ
  pub after : Kernel
  pub ends : r ≡ some (after, true)
  pub waits : Waits after l (ns ++ entry ∷ []) (ps ++ p ∷ [])
  pub up_same : after.up ≡ k.up
  pub same : (i : ℕ) → after.procs i ≡ record (k.procs i) { waiting = (after.procs i).waiting }
  pub elsewhere : (i : ℕ) → i ≢ l → (after.procs i).waiting ≡ (k.procs i).waiting
  pub pages_same : after.pages ≡ k.pages
  pub alive_same : after.alive ≡ k.alive
  pub nextpid_same : after.nextpid ≡ k.nextpid
  pub entry_free : k.list_proc entry ≡ none
  pub next_frame : (i : ℕ) → has i ns ≡ false → i ≢ entry → after.list_next i ≡ k.list_next i
  pub proc_frame : (i : ℕ) → i ≢ entry → after.list_proc i ≡ k.list_proc i

module _ (k : Kernel) (l p : ℕ) (ns ps : List ℕ) (w : Waits k l ns ps) where
  few : length ns ≤ max_proc_lists
  few = length_le_of_Distinct max_proc_lists ns w.below w.holds.distinct

  add_entry-Queued :
      (e : ℕ) (r : Option Links)
      → k.list_proc e ≡ none
      → e < max_proc_lists
      → Added (waiting_links k l) ns e r
      → Queued k l p ns ps (add_entry k l p e r)
  add_entry-Queued e r free lt a = rw a.ends (record {
    entry = e;
    after = record (set_waiting k l a.links) { list_proc = update k.list_proc e (some p) };
    ends = refl;
    waits = record {
      holds = rw (update_self k.procs l) a.holds;
      below = AllBelow-append max_proc_lists ns (e ∷ []) w.below (lt, tt);
      names =
          Names-append (update k.list_proc e (some p)) e p ns ps
            (Names-update k.list_proc e (some p) ns ps w.names
              (has_of_Names k.list_proc e ns ps w.names free))
            (ground arith);
    };
    up_same = refl;
    same = λ i. ground arith;
    elsewhere = λ i ne. ground arith;
    pages_same = refl;
    alive_same = refl;
    nextpid_same = refl;
    entry_free = free;
    next_frame = λ i out ne. a.frame i out (λ e. ne e);
    proc_frame = λ i ne. ground arith;
  })

  -- If the waiting list of `l` holds the processes `ps`, then `proc_list_add` of `p` returns
  -- false and changes nothing if no entry of `proc_lists` is free, and otherwise returns true
  -- with `p` last on the list behind `ps`, and touches no other waiting list.
  pub proc_list_add_lem :
      (proc_list_add l p k ≡ some (k, false)) × (find_free max_proc_lists 0 k.list_proc ≡ none)
      ⊎ Queued k l p ns ps (proc_list_add l p k)
  unfolding proc_list_add
  proc_list_add_lem = elim (Option-cases (find_free max_proc_lists 0 k.list_proc)) [
    | inl e ↦ inl (rw (proc_list_add, e), e)
    | inr (n, e) ↦
        let free = find_free-IsFree max_proc_lists 0 k.list_proc {e = n} e in
        inr (
          rw (proc_list_add, e)
            (add_entry-Queued n (append_cell list_fuel (waiting_links k l) n) free.0 (omega arith) (
              append_cell_lem list_fuel (waiting_links k l) ns n w.holds
                (has_of_Names k.list_proc n ns ps w.names free.0) (omega (arith, few)))))
  ]

-- Choosing by the entry is choosing by the process.
choose-Names :
    (lp : ℕ → Option ℕ) (hit hit' : ℕ → Bool) (ns ps : List ℕ)
    → Names lp ns ps
    → ((n p : ℕ) → lp n ≡ some p → hit n ≡ hit' p)
    → (n : ℕ) → choose hit ns ≡ some n
    → lp n ≡ choose hit' ps
choose-Names lp hit hit' [] ps m same n h = cc
choose-Names lp hit hit' (x ∷ ns) [] m same n h = elim m [ ]
choose-Names lp hit hit' (x ∷ []) (p ∷ []) m same n h = ground arith
choose-Names lp hit hit' (x ∷ []) (p ∷ q ∷ ps) m same n h = elim m.1 [ ]
choose-Names lp hit hit' (x ∷ y ∷ ns) (p ∷ []) m same n h = elim m.1 [ ]
choose-Names lp hit hit' (x ∷ y ∷ ns) (p ∷ q ∷ ps) m same n h =
    ground (arith, same x p m.0, choose-Names lp hit hit' (y ∷ ns) (q ∷ ps) m.1 same n)

Names-others :
    (lp : ℕ → Option ℕ) (hit hit' : ℕ → Bool) (ns ps : List ℕ)
    → Names lp ns ps
    → ((n p : ℕ) → lp n ≡ some p → hit n ≡ hit' p)
    → Names lp (others hit ns) (others hit' ps)
Names-others lp hit hit' [] [] m same = tt
Names-others lp hit hit' [] (p ∷ ps) m same = elim m [ ]
Names-others lp hit hit' (x ∷ ns) [] m same = elim m [ ]
Names-others lp hit hit' (x ∷ []) (p ∷ []) m same = tt
Names-others lp hit hit' (x ∷ []) (p ∷ q ∷ ps) m same = elim m.1 [ ]
Names-others lp hit hit' (x ∷ y ∷ ns) (p ∷ []) m same = elim m.1 [ ]
Names-others lp hit hit' (x ∷ y ∷ ns) (p ∷ q ∷ ps) m same = elim (Bool-cases (hit x)) [
  | inl e ↦ rw (e, ← same x p m.0, e) m.1
  | inr e ↦ rw (e, ← same x p m.0, e) (m.0, Names-others lp hit hit' (y ∷ ns) (q ∷ ps) m.1 same)
]

AllBelow-others :
    (b : ℕ) (hit : ℕ → Bool) (ns : List ℕ) → AllBelow b ns → AllBelow b (others hit ns)
AllBelow-others b hit [] a = tt
AllBelow-others b hit (x ∷ []) a = tt
AllBelow-others b hit (x ∷ y ∷ ns) a = ground (arith, AllBelow-others b hit (y ∷ ns) a.1)

pub has-others :
    (m : ℕ) (hit : ℕ → Bool) (ns : List ℕ) → has m ns ≡ false → has m (others hit ns) ≡ false
has-others m hit [] h = refl
has-others m hit (x ∷ []) h = refl
has-others m hit (x ∷ y ∷ ns) h = ground (arith, has-others m hit (y ∷ ns))

pub has-choose : (m : ℕ) (hit : ℕ → Bool) (ns : List ℕ) → choose hit ns ≡ some m → has m ns ≡ true
has-choose m hit [] h = cc
has-choose m hit (x ∷ []) h = ground arith
has-choose m hit (x ∷ y ∷ ns) h = ground (arith, has-choose m hit (y ∷ ns))

pub choose-out :
    (m : ℕ) (hit : ℕ → Bool) (ns : List ℕ)
    → choose hit ns ≡ some m
    → Distinct ns
    → has m (others hit ns) ≡ false
choose-out m hit [] h d = refl
choose-out m hit (x ∷ []) h d = refl
choose-out m hit (x ∷ y ∷ ns) h d =
    ground
      (arith, choose-out m hit (y ∷ ns), has-others x hit (y ∷ ns) d.0, has-choose m hit (y ∷ ns))

pub choose-ne-none : (hit : ℕ → Bool) (x : ℕ) (ns : List ℕ) → choose hit (x ∷ ns) ≢ none
choose-ne-none hit x [] h = cc
choose-ne-none hit x (y ∷ ns) h = ground (arith, choose-ne-none hit y ns)

nothing_left :
    (lp : ℕ → Option ℕ) (hit hit' : ℕ → Bool) (ns ps : List ℕ)
    → Names lp ns ps
    → choose hit ns ≡ none
    → (choose hit' ps ≡ none) × (others hit' ps ≡ ps)
nothing_left lp hit hit' [] [] m h = (refl, refl)
nothing_left lp hit hit' [] (p ∷ ps) m h = elim m [ ]
nothing_left lp hit hit' (x ∷ ns) [] m h = elim m [ ]
nothing_left lp hit hit' (x ∷ []) (p ∷ ps) m h = cc
nothing_left lp hit hit' (x ∷ y ∷ ns) (p ∷ ps) m h = ground (arith, choose-ne-none hit y ns)

-- What taking from the waiting list of `l` must give, where `hit` is the test on processes.
pub record Dequeued (k : Kernel) (l : ℕ) (hit : ℕ → Bool) (ns ps : List ℕ)
    (r : Option (Kernel × Option ℕ)) : Type 0 where
  pub after : Kernel
  pub ends : r ≡ some (after, choose hit ps)
  pub left : List ℕ
  pub waits : Waits after l left (others hit ps)
  pub up_same : after.up ≡ k.up
  pub same : (i : ℕ) → after.procs i ≡ record (k.procs i) { waiting = (after.procs i).waiting }
  pub elsewhere : (i : ℕ) → i ≢ l → (after.procs i).waiting ≡ (k.procs i).waiting
  pub pages_same : after.pages ≡ k.pages
  pub alive_same : after.alive ≡ k.alive
  pub nextpid_same : after.nextpid ≡ k.nextpid
  pub left_fewer : (i : ℕ) → has i ns ≡ false → has i left ≡ false
  pub next_frame : (i : ℕ) → has i ns ≡ false → after.list_next i ≡ k.list_next i
  pub proc_frame : (i : ℕ) → has i ns ≡ false → after.list_proc i ≡ k.list_proc i

-- Whether a process has the pid.
abbrev pub pid_is : Kernel → ℕ → ℕ → Bool
pid_is k pid p = (k.procs p).pid == pid

module _ (k : Kernel) (l pid : ℕ) (ns ps : List ℕ) (w : Waits k l ns ps) where
  same_test : (n p : ℕ) → k.list_proc n ≡ some p → has_pid k pid n ≡ pid_is k pid p
  same_test n p e = rw (has_pid, e)

  free_entry-Dequeued :
      (s : Links) (c : Option ℕ)
      → choose (has_pid k pid) ns ≡ c
      → Holds s (others (has_pid k pid) ns)
      → ((i : ℕ) → has i ns ≡ false → s.next i ≡ k.list_next i)
      → Dequeued k l (pid_is k pid) ns ps (free_entry k l (some (s, c)))
  free_entry-Dequeued s none e h fr =
      let empty = nothing_left k.list_proc (has_pid k pid) (pid_is k pid) ns ps w.names e in
      record {
        after = k;
        ends = rw empty.0;
        left = ns;
        waits = rw empty.1 w;
        up_same = refl;
        same = λ i. refl;
        elsewhere = λ i ne. refl;
        pages_same = refl;
        alive_same = refl;
        nextpid_same = refl;
        left_fewer = λ i out. out;
        next_frame = λ i out. refl;
        proc_frame = λ i out. refl;
      }
  free_entry-Dequeued s (some n) e h fr = record {
    after = record (set_waiting k l s) { list_proc = update k.list_proc n none };
    ends = rw (choose-Names k.list_proc (has_pid k pid) (pid_is k pid) ns ps w.names same_test n e);
    left = others (has_pid k pid) ns;
    waits = record {
      holds = rw (update_self k.procs l) h;
      below = AllBelow-others max_proc_lists (has_pid k pid) ns w.below;
      names =
          Names-update k.list_proc n none (others (has_pid k pid) ns) (others (pid_is k pid) ps)
            (Names-others k.list_proc (has_pid k pid) (pid_is k pid) ns ps w.names same_test)
            (choose-out n (has_pid k pid) ns e w.holds.distinct);
    };
    up_same = refl;
    same = λ i. ground arith;
    elsewhere = λ i ne. ground arith;
    pages_same = refl;
    alive_same = refl;
    nextpid_same = refl;
    left_fewer = λ i out. has-others i (has_pid k pid) ns out;
    next_frame = fr;
    proc_frame =
        λ i out. ground (arith, has-choose n (has_pid k pid) ns e, ap (λ (x : ℕ). has x ns));
  }

  -- If the waiting list of `l` holds the processes `ps`, then `proc_list_remove` ends and takes
  -- the first of them with the pid, the last of them if none has it, or nil from an empty list;
  -- it leaves the others in order and touches no other waiting list.
  pub proc_list_remove_lem : Dequeued k l (pid_is k pid) ns ps (proc_list_remove l pid k)
  unfolding proc_list_remove
  proc_list_remove_lem =
      let few = length_le_of_Distinct max_proc_lists ns w.below w.holds.distinct in
      let t =
        take_entry_lem list_fuel (waiting_links k l) (has_pid k pid) ns w.holds
          (omega (arith, few)) in
      rw t.ends (free_entry-Dequeued t.links (choose (has_pid k pid) ns) refl t.holds t.frame)
