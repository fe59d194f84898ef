-- ===== src/Kern/Links/Laws.antt =====
-- The list operations of kern/proc.c against lists: where an element is put, which is taken, that
-- the rest of the array is left alone, and that the walks end.
use omb.Base.{
  ℕ, zero, suc, ◌<◌, ◌≡◌, refl, sym, ◌∙◌, true, false, Option, none, some, List, [], ◌∷◌, ◌++◌,
  arith, has, length, update, update_self, update_ne, same_ptr, ==_refl,
}
use omb.Kern.Links.{
  Links, add_found, add_loop, append_found, append_loop, Loc, root_of, next_of, read, write, cas,
  find_last, last_cell, add_to_list_back, find_end, append_cell,
}
use omb.Kern.Links.Seg.{Seg, Holds, Seg-update, Distinct-snoc}
use omb.Kern.Links.Splice.{
  last, cell_after, cell_after-last, write-Holds, write-frame, read-cell_after,
}

same_ptr_refl : (a : Option ℕ) → same_ptr a a ≡ true
same_ptr_refl none = refl
same_ptr_refl (some a) = ==_refl a

-- With nobody in between, `cas` on the value just read makes its store.
pub cas_succeeds :
    (s : Links) (l : Loc) (old new : Option ℕ)
    → read s l ≡ old
    → cas s l old new ≡ (write s l new, true)
unfolding cas
cas_succeeds s l old new e = rw (e, same_ptr_refl old)

last_of : List ℕ → Option ℕ
last_of [] = none
last_of (x ∷ xs) = some (last x xs)

find_last-last :
    (f : ℕ) (s : Links) (pp : Option ℕ) (xs : List ℕ)
    → Seg s.next pp xs none
    → length xs < f
    → find_last f s pp ≡ some (last_of xs)
unfolding find_last last_of
find_last-last zero s pp xs c h = absurd (omega arith)
find_last-last (suc f) s pp [] c h = rw c
find_last-last (suc f) s pp (x ∷ []) c h = rw (c.0, find_last, c.1)
find_last-last (suc f) s pp (x ∷ y ∷ ys) c h =
    rw (c.0, find_last, c.1.0) (find_last-last f s (some y) (y ∷ ys) (refl, c.1.1) (omega arith))

last_cell-cell_after : (xs : List ℕ) → last_cell (last_of xs) ≡ cell_after root_of xs
unfolding last_of
last_cell-cell_after [] = refl
last_cell-cell_after (x ∷ xs) = rw (cell_after-last x xs)

-- What adding `p` to the list `xs` of `s` must give.
pub record Added (s : Links) (xs : List ℕ) (p : ℕ) (r : Option Links) : Type 0 where
  pub links : Links
  pub ends : r ≡ some links
  pub holds : Holds links (xs ++ p ∷ [])
  pub frame : (i : ℕ) → has i xs ≡ false → (i ≡ p → ⊥) → links.next i ≡ s.next i

-- The list with `p->next = nil` done.
abbrev cleared : Links → ℕ → Links
cleared s p = record s { next = update s.next p none }

-- The walk of `proc_list_add` from the cell `l`.
find_end-cell_after :
    (f : ℕ) (s : Links) (l : Loc) (xs : List ℕ)
    → Seg s.next (read s l) xs none
    → length xs < f
    → find_end f s l ≡ some (cell_after l xs)
unfolding find_end
find_end-cell_after zero s l xs c h = absurd (omega arith)
find_end-cell_after (suc f) s l [] c h = rw (find_end, c)
find_end-cell_after (suc f) s l (x ∷ xs) c h =
    rw (find_end, c.0) (find_end-cell_after f s (next_of x) xs c.1 (omega arith))

module _ (g : ℕ) (s : Links) (xs : List ℕ) (p : ℕ) (h : Holds s xs) (out : has p xs ≡ false)
    (fuel : length xs < g) where
  cleared-Seg : Seg (cleared s p).next s.root xs none
  cleared-Seg = Seg-update s.next s.root none none p xs h.chain out

  stored : Added s xs p (some (write (cleared s p) (cell_after root_of xs) (some p)))
  stored = record {
    links = write (cleared s p) (cell_after root_of xs) (some p);
    ends = refl;
    holds =
        write-Holds (cleared s p) (some p) none (p ∷ []) xs cleared-Seg
          (refl, update_self s.next p none) (Distinct-snoc xs p h.distinct out);
    frame = λ i o ne.
        write-frame (cleared s p) (some p) none [] xs i o
        ∙ update_ne s.next p i none (λ e. ne (sym e));
  }

  empty_cell : read (cleared s p) (cell_after root_of xs) ≡ none
  unfolding read
  empty_cell = read-cell_after (cleared s p) root_of none xs cleared-Seg

  at_root : Seg (cleared s p).next (read (cleared s p) root_of) xs none
  unfolding read
  at_root = cleared-Seg

  add_found-Added :
      (retry : Links → Option Links)
      → Added s xs p (add_found (cleared s p) p (find_last g (cleared s p) s.root) retry)
  add_found-Added retry =
      rw
        (
          find_last-last g (cleared s p) s.root xs cleared-Seg fuel,
          last_cell-cell_after xs,
          cas_succeeds (cleared s p) (cell_after root_of xs) none (some p) empty_cell,
        )
        stored

  append_found-Added :
      (retry : Loc → Links → Option Links)
      → Added s xs p (append_found (cleared s p) p (find_end g (cleared s p) root_of) retry)
  append_found-Added retry =
      rw
        (
          find_end-cell_after g (cleared s p) root_of xs at_root fuel,
          cas_succeeds (cleared s p) (cell_after root_of xs) none (some p) empty_cell,
        )
        stored

-- If a list holds the elements `xs`, each once, and `p` is not one of them, then with fuel beyond
-- their number `add_to_list_back` of `p` ends with the list `xs`, `p`, and changes no `next`
-- field but of these.
pub add_to_list_back_lem :
    (f : ℕ) (s : Links) (xs : List ℕ) (p : ℕ)
    → Holds s xs
    → has p xs ≡ false
    → length xs < f
    → Added s xs p (add_to_list_back f s p)
unfolding add_to_list_back
add_to_list_back_lem zero s xs p h out fuel = absurd (omega arith)
add_to_list_back_lem (suc f) s xs p h out fuel =
    add_found-Added (suc f) s xs p h out fuel (λ s'. add_loop f (suc f) s' p)

-- So does the last part of `proc_list_add`.
pub append_cell_lem :
    (f : ℕ) (s : Links) (xs : List ℕ) (p : ℕ)
    → Holds s xs
    → has p xs ≡ false
    → length xs < f
    → Added s xs p (append_cell f s p)
unfolding append_cell
append_cell_lem zero s xs p h out fuel = absurd (omega arith)
append_cell_lem (suc f) s xs p h out fuel =
    append_found-Added (suc f) s xs p h out fuel (λ l' s'. append_loop f (suc f) s' l' p)

abbrev twice : Links → ℕ → Links
twice s p = cleared (cleared s p) p

self_root :
    (s : Links) (p : ℕ) → s.root ≡ some p → (write (twice s p) (next_of p) (some p)).root ≡ some p
unfolding write
self_root s p e = e

self_next : (s : Links) (p : ℕ) → (write (twice s p) (next_of p) (some p)).next p ≡ some p
unfolding write
self_next s p = ground arith

self_empty : (s : Links) (p : ℕ) → read (twice s p) (next_of p) ≡ none
unfolding read
self_empty s p = ground arith

self_last :
    (g : ℕ) (s : Links) (p : ℕ)
    → s.root ≡ some p
    → 1 < g
    → find_last g (twice s p) s.root ≡ some (some p)
unfolding last_of
self_last g s p e fuel =
    find_last-last g (twice s p) s.root (p ∷ []) (e, update_self (cleared s p).next p none) fuel

self_linked :
    (g : ℕ) (s : Links) (p : ℕ)
    → s.root ≡ some p
    → 1 < g
    → (retry : Links → Option Links)
    → add_found (twice s p) p (find_last g (twice s p) s.root) retry
      ≡ some (write (twice s p) (next_of p) (some p))
self_linked g s p e fuel retry =
    rw (self_last g s p e fuel, cas_succeeds (twice s p) (next_of p) none (some p) (self_empty s p))

-- An element that is the whole list after its own `next` is cleared is linked to itself.
pub add_to_list_back_self :
    (f : ℕ) (s : Links) (p : ℕ)
    → s.root ≡ some p
    → 0 < f
    → (s' : Links) × (add_to_list_back (suc f) (cleared s p) p ≡ some s')
      × (s'.root ≡ some p)
      × (s'.next p ≡ some p)
unfolding add_to_list_back
add_to_list_back_self f s p e pos = (
  write (twice s p) (next_of p) (some p),
  self_linked (suc f) s p e (omega arith) (λ s'. add_loop f (suc f) s' p),
  self_root s p e,
  self_next s p,
)
