-- ===== src/Kern/Links/Remove.antt =====
-- `remove_from_list` of kern/proc.c: the element leaves the list, and the others keep their order.
use omb.Base.{
  ℕ, zero, suc, ◌<◌, ◌≡◌, refl, Bool, true, false, Option, none, some, List, [], ◌∷◌, ◌++◌, arith,
  has, same_ptr, subst, length,
}
use omb.Kern.Links.{
  Links, root_of, next_of, write, read, find_before, remove_at, remove_try, remove_loop,
  remove_from_list,
}
use omb.Kern.Links.Seg.{Seg, Holds, Seg-front, Seg-back, Distinct-drop, Distinct-apart}
use omb.Kern.Links.Splice.{
  last, cell_after, cell_after-last, write-Holds, write-frame, read-cell_after,
}
use omb.Kern.Links.Laws.{cas_succeeds}

-- The walk from `x` to the element before `p`.
find_before-last :
    (f : ℕ) (s : Links) (p x : ℕ) (xs : List ℕ) (h : Option ℕ)
    → Seg s.next h (x ∷ xs) (some p)
    → has p xs ≡ false
    → length xs < f
    → find_before f s p h ≡ some (some (last x xs))
unfolding find_before
find_before-last zero s p x xs h c out lt = absurd (omega arith)
find_before-last (suc f) s p x [] h c out lt =
    let there : same_ptr (s.next x) (some p) ≡ true = ground (arith, c.1) in
    rw (c.0, find_before, there)
find_before-last (suc f) s p x (y ∷ ys) h c out lt =
    let away : same_ptr (s.next x) (some p) ≡ false = ground (arith, c.1.0) in
    rw (c.0, find_before, away)
      (find_before-last f s p y ys (s.next x) c.1 (ground arith) (omega arith))

-- The walk over a list without `p`.
find_before-absent :
    (f : ℕ) (s : Links) (p : ℕ) (xs : List ℕ) (h : Option ℕ)
    → Seg s.next h xs none
    → has p xs ≡ false
    → length xs < f
    → find_before f s p h ≡ some none
unfolding find_before
find_before-absent zero s p xs h c out lt = absurd (omega arith)
find_before-absent (suc f) s p [] h c out lt = rw c
find_before-absent (suc f) s p (x ∷ []) h c out lt =
    let away : same_ptr (s.next x) (some p) ≡ false = ground (arith, c.1) in
    rw (c.0, find_before, away) (find_before-absent f s p [] (s.next x) c.1 refl (omega arith))
find_before-absent (suc f) s p (x ∷ y ∷ ys) h c out lt =
    let away : same_ptr (s.next x) (some p) ≡ false = ground (arith, c.1.0) in
    rw (c.0, find_before, away)
      (find_before-absent f s p (y ∷ ys) (s.next x) c.1 (ground arith) (omega arith))

-- What removing `p` from between `before` and `after` must give.
pub record Removed (s : Links) (before : List ℕ) (p : ℕ) (after : List ℕ)
    (r : Option (Links × Bool)) : Type 0 where
  pub links : Links
  pub ends : r ≡ some (links, true)
  pub holds : Holds links (before ++ after)
  pub frame : (i : ℕ) → has i before ≡ false → links.next i ≡ s.next i

module _ (s : Links) (p : ℕ) (after : List ℕ) (retry : Links → Option (Links × Bool)) where
  Removed-at :
      (before : List ℕ)
      → Holds s (before ++ p ∷ after)
      → Removed s before p after (remove_at s p (cell_after root_of before) retry)
  unfolding read
  Removed-at before h =
      let front = Seg-front s.next none p after s.root before h.chain in
      let back = Seg-back s.next none p after s.root before h.chain in
      rw
        (cas_succeeds s (cell_after root_of before) (some p) (s.next p)
          (read-cell_after s root_of (some p) before front))
        (record {
          links = write s (cell_after root_of before) (s.next p);
          ends = refl;
          holds =
              write-Holds s (s.next p) (some p) after before front back
                (Distinct-drop before after p h.distinct);
          frame = λ i out. write-frame s (s.next p) (some p) after before i out;
        })

  tried :
      (g : ℕ) (before : List ℕ)
      → Holds s (before ++ p ∷ after)
      → length before < g
      → Removed s before p after (remove_try g s p retry)
  tried g [] h lt =
      let at_root : same_ptr s.root (some p) ≡ true = ground (arith, h.chain.0) in
      rw (remove_try, at_root) (Removed-at [] h)
  tried g (x ∷ xs) h lt =
      let apart = Distinct-apart (x ∷ xs) after p h.distinct in
      let behind : same_ptr s.root (some p) ≡ false = ground (arith, h.chain.0, apart.0) in
      let front = Seg-front s.next none p after s.root (x ∷ xs) h.chain in
      rw
        (
          remove_try,
          behind,
          find_before-last g s p x xs s.root front (ground (arith, apart.0)) (omega arith),
        )
        (subst_cell (Removed-at (x ∷ xs) h))
    where
      subst_cell :
          Removed s (x ∷ xs) p after (remove_at s p (cell_after (next_of x) xs) retry)
          → Removed s (x ∷ xs) p after (remove_at s p (next_of (last x xs)) retry)
      subst_cell =
          subst (λ l. Removed s (x ∷ xs) p after (remove_at s p l retry)) (cell_after-last x xs)

-- If a list holds the elements `before`, `p`, `after`, each once, then with fuel beyond the
-- number of `before` `remove_from_list` of `p` ends with true and leaves the list `before`,
-- `after`, having changed no `next` field but of `before`.
pub remove_from_list_lem :
    (f : ℕ) (s : Links) (before : List ℕ) (p : ℕ) (after : List ℕ)
    → Holds s (before ++ p ∷ after)
    → length before < f
    → Removed s before p after (remove_from_list f s p)
unfolding remove_from_list
remove_from_list_lem zero s before p after h lt = absurd (omega arith)
remove_from_list_lem (suc f) s before p after h lt =
    tried s p after (λ s'. remove_loop f (suc f) s' p) (suc f) before h lt

-- If a list holds the elements `xs`, each once, and `p` is not one of them, then with fuel beyond
-- their number `remove_from_list` of `p` ends with false and changes nothing.
pub remove_from_list-absent :
    (f : ℕ) (s : Links) (xs : List ℕ) (p : ℕ)
    → Holds s xs
    → has p xs ≡ false
    → length xs < f
    → remove_from_list f s p ≡ some (s, false)
unfolding remove_from_list
remove_from_list-absent zero s xs p h out lt = absurd (omega arith)
remove_from_list-absent (suc f) s xs p h out lt =
    let behind : same_ptr s.root (some p) ≡ false = away xs h.chain out in
    rw (remove_loop, remove_try, behind, find_before-absent (suc f) s p xs s.root h.chain out lt)
  where
    away :
        (xs : List ℕ)
        → Seg s.next s.root xs none
        → has p xs ≡ false
        → same_ptr s.root (some p) ≡ false
    away [] c o = ground arith
    away (x ∷ xs) c o = ground (arith, c.0)
