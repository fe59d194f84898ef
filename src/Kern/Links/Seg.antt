-- ===== src/Kern/Links/Seg.antt =====
-- What a linked list stands for: the indices on the way from a pointer to a stop.
use omb.Base.{
  ℕ, ◌≡◌, refl, false, Option, none, some, List, [], ◌∷◌, ◌++◌, arith, has, Distinct, AllBelow,
  update, ◌||◌,
}
use omb.Kern.Links.{Links}

-- From `h` the `next` pointers lead through `xs` to `stop`.
abbrev pub Seg : (ℕ → Option ℕ) → Option ℕ → List ℕ → Option ℕ → Type 0
Seg nx h [] stop = h ≡ stop
Seg nx h (x ∷ xs) stop = (h ≡ some x) × Seg nx (nx x) xs stop

-- The list `s` holds exactly `xs`, in this order, each once.
pub record Holds (s : Links) (xs : List ℕ) : Type 0 where
  pub chain : Seg s.next s.root xs none
  pub distinct : Distinct xs

-- A write to an element that is not on the way changes nothing.
pub Seg-update :
    (nx : ℕ → Option ℕ) (h stop v : Option ℕ) (i : ℕ) (xs : List ℕ)
    → Seg nx h xs stop
    → has i xs ≡ false
    → Seg (update nx i v) h xs stop
Seg-update nx h stop v i [] s out = s
Seg-update nx h stop v i (x ∷ xs) s out = ground (arith, Seg-update nx (nx x) stop v i xs s.1)

pub Seg-append :
    (nx : ℕ → Option ℕ) (h mid stop : Option ℕ) (xs ys : List ℕ)
    → Seg nx h xs mid
    → Seg nx mid ys stop
    → Seg nx h (xs ++ ys) stop
Seg-append nx h mid stop [] ys s t = ground arith
Seg-append nx h mid stop (x ∷ xs) ys s t = (s.0, Seg-append nx (nx x) mid stop xs ys s.1 t)

pub has-append : (i : ℕ) (xs ys : List ℕ) → has i (xs ++ ys) ≡ (has i xs || has i ys)
has-append i [] ys = refl
has-append i (x ∷ xs) ys = ground (arith, has-append i xs ys)

pub Distinct-snoc : (xs : List ℕ) (i : ℕ) → Distinct xs → has i xs ≡ false → Distinct (xs ++ i ∷ [])
Distinct-snoc [] i d out = (refl, tt)
Distinct-snoc (x ∷ xs) i d out = ground (arith, Distinct-snoc xs i d.1, has-append x xs (i ∷ []))

module _ (nx : ℕ → Option ℕ) (stop : Option ℕ) (n : ℕ) (ys : List ℕ) where
  pub Seg-front : (h : Option ℕ) (xs : List ℕ) → Seg nx h (xs ++ n ∷ ys) stop → Seg nx h xs (some n)
  Seg-front h [] s = s.0
  Seg-front h (x ∷ xs) s = (s.0, Seg-front (nx x) xs s.1)

  pub Seg-back : (h : Option ℕ) (xs : List ℕ) → Seg nx h (xs ++ n ∷ ys) stop → Seg nx (nx n) ys stop
  Seg-back h [] s = s.1
  Seg-back h (x ∷ xs) s = Seg-back (nx x) xs s.1

pub Distinct-drop : (xs ys : List ℕ) (n : ℕ) → Distinct (xs ++ n ∷ ys) → Distinct (xs ++ ys)
Distinct-drop [] ys n d = d.1
Distinct-drop (x ∷ xs) ys n d =
    ground (arith, Distinct-drop xs ys n d.1, has-append x xs ys, has-append x xs (n ∷ ys))

pub Distinct-apart :
    (xs ys : List ℕ) (n : ℕ) → Distinct (xs ++ n ∷ ys) → (has n xs ≡ false) × (has n ys ≡ false)
Distinct-apart [] ys n d = (refl, d.0)
Distinct-apart (x ∷ xs) ys n d =
    ground (arith, Distinct-apart xs ys n d.1, has-append x xs (n ∷ ys))

pub AllBelow-append :
    (b : ℕ) (xs ys : List ℕ) → AllBelow b xs → AllBelow b ys → AllBelow b (xs ++ ys)
AllBelow-append b [] ys p q = q
AllBelow-append b (x ∷ xs) ys p q = (p.0, AllBelow-append b xs ys p.1 q)
