-- ===== src/Kern/Links/Splice.antt =====
-- The one write that each operation makes: at the cell behind a prefix of the list.
use omb.Base.{
  ℕ, ◌≡◌, refl, ap, ◌≢◌, true, false, Option, none, List, [], ◌∷◌, ◌++◌, arith, has, Distinct,
  update, update_self, update_ne,
}
use omb.Kern.Links.{Links, Loc, root_of, next_of, read, write}
use omb.Kern.Links.Seg.{Seg, Holds, Seg-update, has-append}

-- The last element of `x ∷ xs`.
abbrev pub last : ℕ → List ℕ → ℕ
last x [] = x
last x (y ∷ ys) = last y ys

-- The cell that a walk from `l` over `xs` ends at.
abbrev pub cell_after : Loc → List ℕ → Loc
cell_after l [] = l
cell_after l (x ∷ xs) = cell_after (next_of x) xs

pub cell_after-last : (x : ℕ) (xs : List ℕ) → cell_after (next_of x) xs ≡ next_of (last x xs)
cell_after-last x [] = refl
cell_after-last x (y ∷ ys) = cell_after-last y ys

has-last : (x : ℕ) (xs : List ℕ) → has (last x xs) (x ∷ xs) ≡ true
has-last x [] = ground arith
has-last x (y ∷ ys) = ground (arith, has-last y ys)

ne_of_has : (a b : ℕ) (xs : List ℕ) → has a xs ≡ false → has b xs ≡ true → b ≢ a
ne_of_has a b xs h g e = cc (ap (λ (t : ℕ). has t xs) e)

pub has-append_left : (a : ℕ) (xs ys : List ℕ) → has a (xs ++ ys) ≡ false → has a xs ≡ false
has-append_left a xs ys h = ground (arith, has-append a xs ys)

Seg-splice :
    (nx : ℕ → Option ℕ) (h mid v : Option ℕ) (x : ℕ) (xs ys : List ℕ)
    → Seg nx h (x ∷ xs) mid
    → Seg nx v ys none
    → Distinct (x ∷ xs ++ ys)
    → Seg (update nx (last x xs) v) h (x ∷ xs ++ ys) none
Seg-splice nx h mid v x [] ys s t d =
    (s.0, rw (update_self nx x v) (Seg-update nx v none v x ys t d.0))
Seg-splice nx h mid v x (y ∷ xs) ys s t d =
    let apart =
      ne_of_has x (last y xs) (y ∷ xs) (has-append_left x (y ∷ xs) ys d.0) (has-last y xs) in
    (s.0, rw (update_ne nx (last y xs) x v apart) (Seg-splice nx (nx x) mid v y xs ys s.1 t d.1))

module _ (s : Links) (v mid : Option ℕ) (ys : List ℕ) where
  -- Storing `v` behind the prefix `xs` leaves the list of `xs` and of what `v` leads to.
  pub write-Holds :
      (xs : List ℕ)
      → Seg s.next s.root xs mid
      → Seg s.next v ys none
      → Distinct (xs ++ ys)
      → Holds (write s (cell_after root_of xs) v) (xs ++ ys)
  unfolding write
  write-Holds [] a b d = record { chain = b; distinct = d }
  write-Holds (x ∷ xs) a b d =
      rw (cell_after-last x xs)
        (record { chain = Seg-splice s.next s.root mid v x xs ys a b d; distinct = d })

  -- and touches no element outside the prefix.
  pub write-frame :
      (xs : List ℕ) (i : ℕ)
      → has i xs ≡ false
      → (write s (cell_after root_of xs) v).next i ≡ s.next i
  unfolding write
  write-frame [] i out = refl
  write-frame (x ∷ xs) i out =
      rw (cell_after-last x xs)
        (update_ne s.next (last x xs) i v (ne_of_has i (last x xs) (x ∷ xs) out (has-last x xs)))

pub read-cell_after :
    (s : Links) (l : Loc) (mid : Option ℕ) (xs : List ℕ)
    → Seg s.next (read s l) xs mid
    → read s (cell_after l xs) ≡ mid
unfolding read
read-cell_after s l mid [] a = a
read-cell_after s l mid (x ∷ xs) a = read-cell_after s (next_of x) mid xs a.1
