-- ===== src/Kern/Links/Take.antt =====
-- `proc_list_remove` against lists: which entry it takes, and what it leaves.
use omb.Base.{
  ℕ, zero, suc, ◌<◌, ◌≡◌, refl, ap, Bool, false, Option, none, some, List, [], ◌∷◌, ◌++◌, inl, inr,
  subst, arith, has, Distinct, length, Bool-cases, if◌then◌else◌,
}
use omb.Kern.Links.{
  Links, Loc, root_of, next_of, read, write, find_entry, take_found, take_loop, take_entry,
}
use omb.Kern.Links.Seg.{Seg, Holds, Seg-front, Seg-back, Distinct-drop}
use omb.Kern.Links.Splice.{cell_after, has-append_left, write-Holds, write-frame, read-cell_after}
use omb.Kern.Links.Laws.{cas_succeeds}

-- The entry that the walk stops at: the first that `hit` accepts, else the last one.
abbrev pub choose : (ℕ → Bool) → List ℕ → Option ℕ
choose hit [] = none
choose hit (x ∷ []) = some x
choose hit (x ∷ y ∷ ys) = if hit x then some x else choose hit (y ∷ ys)

-- The entries that are left.
abbrev pub others : (ℕ → Bool) → List ℕ → List ℕ
others hit [] = []
others hit (x ∷ []) = []
others hit (x ∷ y ∷ ys) = if hit x then y ∷ ys else x ∷ others hit (y ∷ ys)

-- The walk over `x ∷ xs` from `l` stops at `n`, with `before` behind it and `after` to come.
record Stop (hit : ℕ → Bool) (s : Links) (l : Loc) (xs : List ℕ) (r : Option (Loc × Option ℕ))
    : Type 0 where
  n : ℕ
  before : List ℕ
  after : List ℕ
  ends : r ≡ some (cell_after l before, some n)
  split : xs ≡ before ++ n ∷ after
  chosen : choose hit xs ≡ some n
  left : others hit xs ≡ before ++ after

find_entry-Stop :
    (f : ℕ) (s : Links) (hit : ℕ → Bool) (l : Loc) (x : ℕ) (xs : List ℕ)
    → Seg s.next (read s l) (x ∷ xs) none
    → length (x ∷ xs) < f
    → Stop hit s l (x ∷ xs) (find_entry f s hit l)
unfolding find_entry
find_entry-Stop zero s hit l x xs c h = absurd (omega arith)
find_entry-Stop (suc f) s hit l x [] c h = record {
  n = x;
  before = [];
  after = [];
  ends =
      rw (find_entry, c.0)
        (elim (Bool-cases (hit x)) [
          | inl e ↦ rw (find_entry, e)
          | inr e ↦ rw (find_entry, e, c.1)
        ]);
  split = refl;
  chosen = refl;
  left = refl;
}
find_entry-Stop (suc f) s hit l x (y ∷ ys) c h = elim (Bool-cases (hit x)) [
  | inl e ↦ record {
    n = x;
    before = [];
    after = y ∷ ys;
    ends = rw (find_entry, c.0) (rw (find_entry, e));
    split = refl;
    chosen = rw e;
    left = rw e;
  }
  | inr e ↦ further e (find_entry-Stop f s hit (next_of x) y ys c.1 (omega arith))
]
  where
    further :
        hit x ≡ false
        → Stop hit s (next_of x) (y ∷ ys) (find_entry f s hit (next_of x))
        → Stop hit s l (x ∷ y ∷ ys) (find_entry (suc f) s hit l)
    further e r = record {
      n = r.n;
      before = x ∷ r.before;
      after = r.after;
      ends = rw (find_entry, c.0) (rw (find_entry, e) (rw (find_entry, c.1.0) r.ends));
      split = ap (λ t. x ∷ t) r.split;
      chosen = rw e r.chosen;
      left = rw e (ap (λ t. x ∷ t) r.left);
    }

-- What taking an entry from the list `xs` of `s` must give.
pub record Taken (s : Links) (hit : ℕ → Bool) (xs : List ℕ) (r : Option (Links × Option ℕ))
    : Type 0 where
  pub links : Links
  pub ends : r ≡ some (links, choose hit xs)
  pub holds : Holds links (others hit xs)
  pub frame : (i : ℕ) → has i xs ≡ false → links.next i ≡ s.next i

module _ (g : ℕ) (s : Links) (hit : ℕ → Bool) where
  unlinked :
      (xs : List ℕ) (r : Option (Loc × Option ℕ)) (retry : Links → Option (Links × Option ℕ))
      → Holds s xs
      → Stop hit s root_of xs r
      → Taken s hit xs (take_found s r retry)
  unfolding read
  unlinked xs r retry h t =
      let held : Seg s.next s.root (t.before ++ t.n ∷ t.after) none =
        subst (λ l. Seg s.next s.root l none) t.split h.chain in
      let apart = subst Distinct t.split h.distinct in
      let front = Seg-front s.next none t.n t.after s.root t.before held in
      let back = Seg-back s.next none t.n t.after s.root t.before held in
      rw
        (
          t.ends,
          cas_succeeds s (cell_after root_of t.before) (some t.n) (s.next t.n)
              (read-cell_after s root_of (some t.n) t.before front),
        )
        (record {
          links = write s (cell_after root_of t.before) (s.next t.n);
          ends = rw t.chosen;
          holds = rw t.left (
              write-Holds s (s.next t.n) (some t.n) t.after t.before front back
                (Distinct-drop t.before t.after t.n apart));
          frame = λ i out. write-frame s (s.next t.n) (some t.n) t.after t.before i (
              has-append_left i t.before (t.n ∷ t.after)
                (subst (λ l. has i l ≡ false) t.split out));
        })

find_entry-nil :
    (f : ℕ) (s : Links) (hit : ℕ → Bool) (l : Loc)
    → read s l ≡ none
    → find_entry (suc f) s hit l ≡ some (l, none)
unfolding find_entry
find_entry-nil f s hit l e = rw (find_entry, e)

nothing :
    (s : Links) (hit : ℕ → Bool) (r : Option (Loc × Option ℕ))
    (retry : Links → Option (Links × Option ℕ))
    → Holds s []
    → r ≡ some (root_of, none)
    → Taken s hit [] (take_found s r retry)
nothing s hit r retry h e = rw e (record { links = s; ends = refl; holds = h; frame = λ i o. refl })

-- If a list holds the elements `xs`, each once, then with fuel beyond their number the walk of
-- `proc_list_remove` ends, having unlinked the first element that passes the test, or the last if
-- none does, or nothing from an empty list; it keeps the order of the others and changes no
-- `next` field but of `xs`.
pub take_entry_lem :
    (f : ℕ) (s : Links) (hit : ℕ → Bool) (xs : List ℕ)
    → Holds s xs
    → length xs < f
    → Taken s hit xs (take_entry f s hit)
unfolding take_entry
take_entry_lem zero s hit xs h fuel = absurd (omega arith)
take_entry_lem (suc f) s hit [] h fuel =
    nothing s hit (find_entry (suc f) s hit root_of) (λ s'. take_loop f (suc f) s' hit) h
      (find_entry-nil f s hit root_of h.chain)
take_entry_lem (suc f) s hit (x ∷ xs) h fuel =
    unlinked (suc f) s hit (x ∷ xs) (find_entry (suc f) s hit root_of)
      (λ s'. take_loop f (suc f) s' hit) h (find_entry-Stop (suc f) s hit root_of x xs h.chain fuel)
