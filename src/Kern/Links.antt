-- ===== src/Kern/Links.antt =====
-- Singly linked lists of the elements of a static array, as kern/proc.c builds them: `alive`
-- through the `next` fields of `procs`, each `waiting` list through those of `proc_lists`.
-- A pointer into the array is an index, nil is `none`. The kernel runs with interrupts disabled
-- on one processor (am335x/kern/vectors.S), so nothing writes between a read and the `cas` after
-- it; the loops that retry a failed `cas` are kept, on the fuel of the walk.
-- `none` as a result means that the fuel ran out, as the C loop does not end on a cyclic list.
pub mod Seg
pub mod Splice
pub mod Laws
pub mod Take
pub mod Remove
use omb.Base.{
  ℕ, zero, suc, ◌+◌, Bool, true, false, Option, none, some, if◌then◌else◌, ◌==◌, same_ptr, is_nil,
  update,
}

pub record Links : Type 0 where
  pub root : Option ℕ
  pub next : ℕ → Option ℕ

-- A pointer to a pointer: to the root, or to the `next` field of an element.
pub data Loc : Type 0 where
  root_of : Loc
  next_of : ℕ → Loc

unfoldable pub read : Links → Loc → Option ℕ
read s root_of = s.root
read s (next_of i) = s.next i

unfoldable pub write : Links → Loc → Option ℕ → Links
write s root_of v = record s { root = v }
write s (next_of i) v = record s { next = update s.next i v }

-- `cas(l, old, new)`: the store, and whether it was made.
unfoldable pub cas : Links → Loc → (old new : Option ℕ) → Links × Bool
unfolding read write
cas s l old new = if same_ptr (read s l) old then (write s l new, true) else (s, false)

-- The `for` loop of `add_to_list_back`: the last element, or nil.
unfoldable pub find_last : ℕ → Links → Option ℕ → Option (Option ℕ)
find_last zero s pp = none
find_last (suc f) s none = some none
find_last (suc f) s (some x) = elim (s.next x) [
  | none ↦ some (some x)
  | some y ↦ find_last f s (some y)
]

-- Where the loop's `cas` goes.
abbrev pub last_cell : Option ℕ → Loc
last_cell none = root_of
last_cell (some x) = next_of x

-- `while (!cas(...))`: on with `done` if the store was made, else round again.
abbrev pub retry_unless : {A : Type 0} → Links × Bool → (done retry : Links → Option A) → Option A
retry_unless (s, true) done retry = done s
retry_unless (s, false) done retry = retry s

abbrev pub add_found : Links → ℕ → Option (Option ℕ) → (Links → Option Links) → Option Links
add_found s p none retry = none
add_found s p (some pp) retry = retry_unless (cas s (last_cell pp) none (some p)) some retry

add_loop : ℕ → ℕ → Links → ℕ → Option Links
add_loop zero g s p = none
add_loop (suc f) g s p = add_found s p (find_last g s s.root) (λ s'. add_loop f g s' p)

-- add_to_list_back(l, p), with fuel for each of its loops.
unfoldable pub add_to_list_back : ℕ → Links → ℕ → Option Links
unfolding add_loop cas find_last
add_to_list_back f s p = add_loop f f (record s { next = update s.next p none }) p

-- The inner `for` loop of `remove_from_list`: the element whose `next` is `p`, or nil.
unfoldable pub find_before : ℕ → Links → ℕ → Option ℕ → Option (Option ℕ)
find_before zero s p pt = none
find_before (suc f) s p none = some none
find_before (suc f) s p (some x) = elim (same_ptr (s.next x) (some p)) [
  | true ↦ some (some x)
  | false ↦ find_before f s p (s.next x)
]

abbrev pub remove_at : Links → ℕ → Loc → (Links → Option (Links × Bool)) → Option (Links × Bool)
remove_at s p l retry = retry_unless (cas s l (some p) (s.next p)) (λ s'. some (s', true)) retry

abbrev pub remove_behind :
    Links → ℕ → Option (Option ℕ) → (Links → Option (Links × Bool)) → Option (Links × Bool)
remove_behind s p none retry = none
remove_behind s p (some none) retry = some (s, false)
remove_behind s p (some (some pt)) retry = remove_at s p (next_of pt) retry

abbrev pub remove_try : ℕ → Links → ℕ → (Links → Option (Links × Bool)) → Option (Links × Bool)
remove_try g s p retry = elim (same_ptr s.root (some p)) [
  | true ↦ remove_at s p root_of retry
  | false ↦ remove_behind s p (find_before g s p s.root) retry
]

remove_loop : ℕ → ℕ → Links → ℕ → Option (Links × Bool)
remove_loop zero g s p = none
remove_loop (suc f) g s p = remove_try g s p (λ s'. remove_loop f g s' p)

-- remove_from_list(l, p)
unfoldable pub remove_from_list : ℕ → Links → ℕ → Option (Links × Bool)
unfolding remove_loop cas find_before
remove_from_list f s p = remove_loop f f s p

-- The `while` loop of `proc_list_add`: the cell that holds nil.
unfoldable pub find_end : ℕ → Links → Loc → Option Loc
unfolding read
find_end zero s l = none
find_end (suc f) s l = elim (read s l) [ none ↦ some l | some n ↦ find_end f s (next_of n) ]

abbrev pub append_found : Links → ℕ → Option Loc → (Loc → Links → Option Links) → Option Links
append_found s n none retry = none
append_found s n (some l) retry = retry_unless (cas s l none (some n)) some (retry l)

append_loop : ℕ → ℕ → Links → Loc → ℕ → Option Links
append_loop zero g s l n = none
append_loop (suc f) g s l n = append_found s n (find_end g s l) (λ l' s'. append_loop f g s' l' n)

-- The end of `proc_list_add`: `n->next = nil`, then the walk and the `cas`.
unfoldable pub append_cell : ℕ → Links → ℕ → Option Links
unfolding append_loop find_end cas
append_cell f s n = append_loop f f (record s { next = update s.next n none }) root_of n

-- The inner `while` loop of `proc_list_remove`: the cell that it stops at, with what it holds.
-- `hit n` is `n->proc->pid == pid`.
unfoldable pub find_entry : ℕ → Links → (ℕ → Bool) → Loc → Option (Loc × Option ℕ)
unfolding read
find_entry zero s hit l = none
find_entry (suc f) s hit l = elim (read s l) [
  | none ↦ some (l, none)
  | some n ↦ elim (hit n) [
    | true ↦ some (l, some n)
    | false ↦ elim (s.next n) [ none ↦ some (l, some n) | some _ ↦ find_entry f s hit (next_of n) ]
  ]
]

-- The part behind the walk: nothing to take, or the `cas` that unlinks the entry.
abbrev pub take_found :
    Links
    → Option (Loc × Option ℕ)
    → (Links → Option (Links × Option ℕ))
    → Option (Links × Option ℕ)
take_found s none retry = none
take_found s (some (l, none)) retry = some (s, none)
take_found s (some (l, some n)) retry =
    retry_unless (cas s l (some n) (s.next n)) (λ s'. some (s', some n)) retry

take_loop : ℕ → ℕ → Links → (ℕ → Bool) → Option (Links × Option ℕ)
take_loop zero g s hit = none
take_loop (suc f) g s hit = take_found s (find_entry g s hit root_of) (λ s'. take_loop f g s' hit)

-- The `do` loop of `proc_list_remove`: the links without the entry taken, and the entry.
unfoldable pub take_entry : ℕ → Links → (ℕ → Bool) → Option (Links × Option ℕ)
unfolding take_loop find_entry cas
take_entry f s hit = take_loop f f s hit
