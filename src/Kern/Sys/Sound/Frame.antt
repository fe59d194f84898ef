-- ===== src/Kern/Sys/Sound/Frame.antt =====
-- A waiting list is left alone by a change to entries that are not in it.
use omb.Base.{ℕ, ◌≡◌, true, Option, List, [], ◌∷◌, ◌∙◌, arith, has}
use omb.Kern.Links.Seg.{Seg}
use omb.Kern.State.{Kernel}
use omb.Kern.Proc.Waiting.{Names, Waits}

Seg-frame :
    (nx nx' : ℕ → Option ℕ) (h stop : Option ℕ) (xs : List ℕ)
    → ((i : ℕ) → has i xs ≡ true → nx' i ≡ nx i)
    → Seg nx h xs stop
    → Seg nx' h xs stop
Seg-frame nx nx' h stop [] f s = s
Seg-frame nx nx' h stop (x ∷ xs) f s =
    (s.0, rw (f x (ground arith)) (Seg-frame nx nx' (nx x) stop xs (λ i a. f i (ground arith)) s.1))

Names-frame :
    (lp lp' : ℕ → Option ℕ) (ns ps : List ℕ)
    → ((i : ℕ) → has i ns ≡ true → lp' i ≡ lp i)
    → Names lp ns ps
    → Names lp' ns ps
Names-frame lp lp' [] [] f m = m
Names-frame lp lp' [] (p ∷ ps) f m = m
Names-frame lp lp' (n ∷ ns) [] f m = m
Names-frame lp lp' (n ∷ ns) (p ∷ ps) f m =
    (f n (ground arith) ∙ m.0, Names-frame lp lp' ns ps (λ i a. f i (ground arith)) m.1)

pub Waits-frame :
    (k k' : Kernel) (l : ℕ) (ns ps : List ℕ)
    → (k'.procs l).waiting ≡ (k.procs l).waiting
    → ((i : ℕ) → has i ns ≡ true → k'.list_next i ≡ k.list_next i)
    → ((i : ℕ) → has i ns ≡ true → k'.list_proc i ≡ k.list_proc i)
    → Waits k l ns ps
    → Waits k' l ns ps
Waits-frame k k' l ns ps a b c w = record {
  holds = record {
    chain = rw a (Seg-frame k.list_next k'.list_next (k.procs l).waiting _ ns b w.holds.chain);
    distinct = w.holds.distinct;
  };
  below = w.below;
  names = Names-frame k.list_proc k'.list_proc ns ps c w.names;
}
