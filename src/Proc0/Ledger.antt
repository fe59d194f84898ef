-- ===== src/Proc0/Ledger.antt =====
-- Whose an address is: the free sections of the two lists of process 0, counted at each address.
pub mod Ram
pub mod Table
pub mod Grow
pub mod Place
pub mod Add
pub mod Io
pub mod Requests
pub mod Ready
pub mod RamRegions
pub mod FirstPage
pub mod IoRegions
pub mod Procs
pub mod Once
pub mod Kernel
use omb.Base.{
  ℕ, zero, suc, ◌+◌, ◌-◌, ◌^◌, ◌<◌, ◌≤◌, ◌≡◌, ◌≢◌, refl, ap, ap₂, sym, subst, ◌∙◌, Bool, true,
  false, ◌&&◌, ◌||◌, List, [], ◌∷◌, ◌++◌, arith, has, Distinct, leb, ltb, ◌==◌, if◌then◌else◌,
  length, update, Bool-cases, inl, inr,
}
use omb.Proc0.{Section, Holder, Pages, Store}
use omb.Proc0.Ram.{Chain, Fits, AllFit}

-- 1 if the address lies in the range, else 0.
abbrev pub holds : ℕ → (start len : ℕ) → ℕ
holds a start len = if leb start a && ltb a (start + len) then 1 else 0

-- How many sections of a table hold the address.
abbrev pub covers : ℕ → List Section → ℕ
covers a [] = 0
covers a (s ∷ ss) = holds a s.start s.len + covers a ss

-- How many sections of a chain of tables do.
abbrev pub free : ℕ → Pages → List ℕ → ℕ
free a ps [] = 0
free a ps (h ∷ hs) = covers a (ps h).sections + free a ps hs

pub covers-append : (a : ℕ) (xs ys : List Section) → covers a (xs ++ ys) ≡ covers a xs + covers a ys
covers-append a [] ys = omega arith
covers-append a (x ∷ xs) ys = omega (arith, covers-append a xs ys)

pub free-append :
    (a : ℕ) (ps : Pages) (xs ys : List ℕ) → free a ps (xs ++ ys) ≡ free a ps xs + free a ps ys
free-append a ps [] ys = omega arith
free-append a ps (x ∷ xs) ys = omega (arith, free-append a ps xs ys)

-- A chain whose tables are the same.
pub free_same :
    (a : ℕ) (ps ps' : Pages) (hs : List ℕ)
    → ((h : ℕ) → has h hs ≡ true → (ps' h).sections ≡ (ps h).sections)
    → free a ps' hs ≡ free a ps hs
free_same a ps ps' [] e = refl
free_same a ps ps' (h ∷ hs) e =
    ap₂ (λ (x y : ℕ). x + y) (ap (covers a) (e h (ground arith)))
      (free_same a ps ps' hs (λ k m. e k (ground (arith, m))))

pub AllFit-same :
    (ps ps' : Pages) (hs : List ℕ)
    → ((h : ℕ) → has h hs ≡ true → (ps' h).sections ≡ (ps h).sections)
    → AllFit ps hs
    → AllFit ps' hs
AllFit-same ps ps' [] e f = tt
AllFit-same ps ps' (h ∷ hs) e f = (
  subst Fits (sym (e h (ground arith))) f.0,
  AllFit-same ps ps' hs (λ k m. e k (ground (arith, m))) f.1,
)

pub Chain-same :
    (ps ps' : Pages) {h : ℕ} (hs : List ℕ)
    → ((k : ℕ) → has k hs ≡ true → (ps' k).next ≡ (ps k).next)
    → Chain ps h hs
    → Chain ps' h hs
Chain-same ps ps' [] e Chain.end = Chain.end
Chain-same ps ps' (k ∷ hs) e (Chain.link _ pos c) = Chain.link k pos (
    subst (λ (n : ℕ). Chain ps' n hs) (sym (e k (ground arith)))
      (Chain-same ps ps' hs (λ j m. e j (ground (arith, m))) c))

-- The lists of process 0: `ram` is the chain of the holders `rs` and `io` that of `is`. They do
-- not share a holder, no holder is free memory, and no address is free memory twice.
pub record Ledger (st : Store) (rs is : List ℕ) : Type 0 where
  pub ram_chain : Chain st.pages st.ram rs
  pub io_chain : Chain st.pages st.io is
  pub ram_fits : AllFit st.pages rs
  pub io_fits : AllFit st.pages is
  pub ram_distinct : Distinct rs
  pub io_distinct : Distinct is
  pub apart : (h : ℕ) → has h rs ≡ true → has h is ≡ false
  pub kept : (h : ℕ) → has h rs || has h is ≡ true → free h st.pages rs ≡ 0
  pub once : (a : ℕ) → free a st.pages rs ≤ 1

-- The lists after an operation that gives away the addresses `minus`: no other address is gained.
pub record Spent (st : Store) (rs is : List ℕ) (minus : ℕ → ℕ) (st' : Store) : Type 0 where
  pub io : List ℕ
  pub ledger : Ledger st' rs io
  pub bytes :
      (a : ℕ)
      → free a st'.pages rs + free a st'.pages io + minus a
        ≤ free a st.pages rs + free a st.pages is
  pub longer : length io ≤ suc (length is)
