-- ===== src/Proc0/Ledger/Procs.antt =====
-- `init_procs` of proc0/main.c: the pages that the processes start with come off the free memory.
use omb.Base.{
  ℕ, ◌+◌, ◌-◌, ◌%◌, ◌^◌, ◌<◌, ◌≤◌, ◌≡◌, refl, ap, Option, some, List, [], ◌∷◌, arith, ◌==◌, length,
  Bool-cases, inl, inr,
}
use omb.Proc0.{Section, Pages, Store}
use omb.Proc0.SetUp.{FirstMessage, new_process, init_procs}
use omb.Proc0.Ram.{Fits, AllFit}
use omb.Proc0.Ledger.{covers, free, Ledger}
use omb.Proc0.Ledger.Ram.{block, RamSpent, RamSpent-io, get_ram-RamSpent}

-- The stack that a process starts with ends at its stack pointer.
abbrev pub stack : FirstMessage → ℕ
stack m = (m.sp + (2 ^ 32 - 4096)) % 2 ^ 32

-- The addresses that a process starts with.
abbrev pub started : ℕ → FirstMessage → ℕ
started a m = block a m.page 4096 + block a m.space 4096 + block a (stack m) 4096

abbrev pub started_by : ℕ → List FirstMessage → ℕ
started_by a [] = 0
started_by a (m ∷ ms) = started a m + started_by a ms

covers_high : (a : ℕ) (ss : List Section) → Fits ss → 2 ^ 32 ≤ a → covers a ss ≡ 0
covers_high a [] f h = refl
covers_high a (s ∷ ss) f h = ground (arith, f.0, covers_high a ss f.1 h)

free_high : (a : ℕ) (ps : Pages) (hs : List ℕ) → AllFit ps hs → 2 ^ 32 ≤ a → free a ps hs ≡ 0
free_high a ps [] f h = refl
free_high a ps (k ∷ hs) f h =
    omega (arith, covers_high a (ps k).sections f.0 h, free_high a ps hs f.1 h)

-- A page of the memory ends in the 32-bit addresses.
page_below :
    (st : Store) (rs is : List ℕ) (ps : Pages) (page : ℕ)
    → Ledger st rs is
    → RamSpent st rs is 4096 ps page
    → ((page + 4096) % 2 ^ 32 + (2 ^ 32 - 4096)) % 2 ^ 32 ≡ page
page_below st rs is ps page l s = elim (Bool-cases (page == 0)) [
  | inl e ↦ ground (arith, e)
  | inr e ↦
      let high = free_high page st.pages rs l.ram_fits in ground (arith, s.bytes page, high, e)
]

-- What `init_procs` must give; the io list is not touched.
pub record Begun (st : Store) (rs is : List ℕ) (r : Option (Store × List FirstMessage))
    : Type 0 where
  pub outcome : Store × List FirstMessage
  pub ends : r ≡ some outcome
  pub ledger : Ledger outcome.0 rs is
  pub bytes :
      (a : ℕ)
      → free a outcome.0.pages rs + free a outcome.0.pages is + started_by a outcome.1
        ≤ free a st.pages rs + free a st.pages is

-- What `new_process` gives.
record Begins (st : Store) (rs is : List ℕ) (r : Option (Store × FirstMessage)) : Type 0 where
  pub outcome : Store × FirstMessage
  pub ends : r ≡ some outcome
  pub ledger : Ledger outcome.0 rs is
  pub bytes :
      (a : ℕ)
      → free a outcome.0.pages rs + free a outcome.0.pages is + started a outcome.1
        ≤ free a st.pages rs + free a st.pages is

module _ (f : ℕ) (rs is : List ℕ) (lt : length rs < f) where
  new_process-Begins :
      (text : ℕ) (st : Store) → Ledger st rs is → Begins st rs is (new_process f text st)
  unfolding new_process
  new_process-Begins text st l =
      let (p1, page, e1, s1) = get_ram-RamSpent f 4096 st rs is l lt (omega arith) in
      let (p2, space, e2, s2) =
        get_ram-RamSpent f 4096 (record st { pages = p1 }) rs is s1.ledger lt (omega arith) in
      let (p3, base, e3, s3) =
        get_ram-RamSpent f 4096 (record st { pages = p2 }) rs is s2.ledger lt (omega arith) in
      let below : ((base + 4096) % 2 ^ 32 + (2 ^ 32 - 4096)) % 2 ^ 32 ≡ base =
        page_below (record st { pages = p2 }) rs is p3 base s2.ledger s3 in
      rw (new_process, e1, e2, e3)
        (record {
          outcome = _;
          ends = refl;
          ledger = s3.ledger;
          bytes = λ a. omega (
            arith,
            s1.bytes a,
            s2.bytes a,
            s3.bytes a,
            RamSpent-io st rs is 4096 p1 page l s1 a,
            RamSpent-io (record st { pages = p1 }) rs is 4096 p2 space s1.ledger s2 a,
            RamSpent-io (record st { pages = p2 }) rs is 4096 p3 base s2.ledger s3 a,
            ap (λ (b : ℕ). block a b 4096) below,
          );
        })

  pub init_procs-Begun :
      (texts : List ℕ) (st : Store) → Ledger st rs is → Begun st rs is (init_procs f texts st)
  unfolding init_procs
  init_procs-Begun [] st l = record {
    outcome = (st, []);
    ends = refl;
    ledger = l;
    bytes = λ a. omega arith;
  }
  init_procs-Begun (text ∷ texts) st l =
      let b = new_process-Begins text st l in
      let d = init_procs-Begun texts b.outcome.0 b.ledger in
      rw (init_procs, b.ends, d.ends)
        (record {
          outcome = _;
          ends = refl;
          ledger = d.ledger;
          bytes = λ a. omega (arith, b.bytes a, d.bytes a);
        })
