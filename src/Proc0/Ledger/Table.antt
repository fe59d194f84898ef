-- ===== src/Proc0/Ledger/Table.antt =====
-- A table of the io list is set: `set_sections`, which `addr_add` and `get_io` end with.
use omb.Base.{
  ℕ, zero, suc, ◌+◌, ◌≡◌, ap, subst, ◌∙◌, true, false, Option, none, some, List, [], ◌∷◌, ◌++◌,
  arith, has, Distinct, ◌==◌, ==_iff, Bool-cases, inl, inr,
}
use omb.Proc0.{Section, Holder, Pages, Store, set_sections}
use omb.Proc0.Ram.{Fits, AllFit}
use omb.Proc0.Ledger.{covers, free, free_same, AllFit-same, Chain-same, Ledger}
use omb.Proc0.Ledger.Ram.{free-update, AllFit-update}

-- The section at an index of a table.
abbrev pub section_at : ℕ → List Section → Option Section
section_at i [] = none
section_at zero (s ∷ ss) = some s
section_at (suc i) (s ∷ ss) = section_at i ss

-- Where a list has a holder.
pub has_split :
    (h : ℕ) (hs : List ℕ) → has h hs ≡ true → (xs : List ℕ) × (ys : List ℕ) × (hs ≡ xs ++ h ∷ ys)
has_split h [] m = cc
has_split h (k ∷ hs) m = elim (Bool-cases (k == h)) [
  | inl e ↦ ([], hs, ap (λ (j : ℕ). j ∷ hs) ((==_iff k h).0 e))
  | inr e ↦
      let (xs, ys, p) = has_split h hs (ground (arith, m)) in
      (k ∷ xs, ys, ap (λ (js : List ℕ). k ∷ js) p)
]

-- Pages that differ in nothing that a list reads.
pub Ledger-same :
    (st : Store) (ps : Pages) (rs is : List ℕ)
    → ((h : ℕ) → (ps h).next ≡ (st.pages h).next)
    → ((h : ℕ) → (ps h).sections ≡ (st.pages h).sections)
    → Ledger st rs is
    → Ledger (record st { pages = ps }) rs is
Ledger-same st ps rs is n s l =
    let f = λ (a : ℕ). free_same a st.pages ps rs (λ h m. s h) in
    record {
      ram_chain = Chain-same st.pages ps rs (λ h m. n h) l.ram_chain;
      io_chain = Chain-same st.pages ps is (λ h m. n h) l.io_chain;
      ram_fits = AllFit-same st.pages ps rs (λ h m. s h) l.ram_fits;
      io_fits = AllFit-same st.pages ps is (λ h m. s h) l.io_fits;
      ram_distinct = l.ram_distinct;
      io_distinct = l.io_distinct;
      apart = l.apart;
      kept = λ h m. f h ∙ l.kept h m;
      once = λ a. omega (arith, f a, l.once a);
    }

-- The lists after a table of the io list is set.
pub record Tabled (st : Store) (rs is : List ℕ) (h : ℕ) (ss : List Section) : Type 0 where
  pub ledger : Ledger (set_sections st h ss) rs is
  pub ram : (a : ℕ) → free a (set_sections st h ss).pages rs ≡ free a st.pages rs
  pub io :
      (a : ℕ)
      → free a (set_sections st h ss).pages is + covers a (st.pages h).sections
        ≡ free a st.pages is + covers a ss
  pub table : ((set_sections st h ss).pages h).sections ≡ ss
  pub others : (k : ℕ) → (h == k) ≡ false → (set_sections st h ss).pages k ≡ st.pages k

module _ (st : Store) (rs : List ℕ) (h : ℕ) (ss : List Section) (fits : Fits ss) where
  abbrev after : Pages
  unfolding set_sections
  after = (set_sections st h ss).pages

  nexts_same : (k : ℕ) → (after k).next ≡ (st.pages k).next
  unfolding set_sections
  nexts_same k = ground (arith, ap (λ (j : ℕ). (st.pages j).next))

  others_same : (k : ℕ) → (h == k) ≡ false → after k ≡ st.pages k
  unfolding set_sections
  others_same k n = ground (arith, n)

  table_set : (after h).sections ≡ ss
  unfolding set_sections
  table_set = ground arith

  fits_set : (is : List ℕ) → AllFit st.pages is → AllFit after is
  unfolding set_sections
  fits_set is f = AllFit-update st.pages is h _ (λ g. fits) f

  io_set :
      (a : ℕ) (xs ys : List ℕ)
      → Distinct (xs ++ h ∷ ys)
      → free a after (xs ++ h ∷ ys) + covers a (st.pages h).sections
        ≡ free a st.pages (xs ++ h ∷ ys) + covers a ss
  unfolding set_sections
  io_set a xs ys d = free-update a st.pages xs h ys (record (st.pages h) { sections = ss }) d

  pub set_sections-Tabled : (is : List ℕ) → Ledger st rs is → has h is ≡ true → Tabled st rs is h ss
  unfolding set_sections
  set_sections-Tabled is l m =
      let apart = λ (k : ℕ) (r : has k rs ≡ true).
        others_same k (ground (arith, l.apart k, r, m, ap (λ (j : ℕ). has j is))) in
      let f = λ (a : ℕ).
        free_same a st.pages after rs (λ k r. ap (λ (x : Holder). x.sections) (apart k r)) in
      let (xs, ys, p) = has_split h is m in
      record {
        ledger = record {
          ram_chain = Chain-same st.pages after rs (λ k r. nexts_same k) l.ram_chain;
          io_chain = Chain-same st.pages after is (λ k r. nexts_same k) l.io_chain;
          ram_fits =
              AllFit-same st.pages after rs (λ k r. ap (λ (x : Holder). x.sections) (apart k r))
                l.ram_fits;
          io_fits = fits_set is l.io_fits;
          ram_distinct = l.ram_distinct;
          io_distinct = l.io_distinct;
          apart = l.apart;
          kept = λ k r. f k ∙ l.kept k r;
          once = λ a. omega (arith, f a, l.once a);
        };
        ram = f;
        io = λ a. rw p (io_set a xs ys (subst Distinct p l.io_distinct));
        table = table_set;
        others = others_same;
      }
