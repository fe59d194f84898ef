-- ===== src/Proc0/Ledger/Ram.antt =====
-- `get_ram` takes the block that it gives away off the free memory.
use omb.Base.{
  ℕ, ◌+◌, ◌-◌, ◌<◌, ◌≤◌, ◌≡◌, refl, ap, sym, subst, true, false, Option, none, some, List, [], ◌∷◌,
  ◌++◌, arith, has, Distinct, ◌==◌, ==_iff, if◌then◌else◌, length, update, Bool-cases, inl, inr,
}
use omb.Kern.Links.Seg.{Distinct-apart, has-append}
use omb.Proc0.{Section, Holder, Pages, Store, get_ram}
use omb.Proc0.Ram.{Fits, AllFit, Split, Given, get_ram_lem}
use omb.Proc0.Ledger.{
  holds, covers, free, covers-append, free-append, free_same, AllFit-same, Chain-same, Ledger,
  Spent,
}

Split-covers :
    (a len : ℕ) (ss : List Section) (r : List Section × ℕ)
    → Split len ss r
    → covers a r.0 + holds a r.1 len ≡ covers a ss
Split-covers a len ss r s =
    let s0 = s.section in
    let cut : holds a s0.start (s0.len - len) + holds a r.1 len ≡ holds a s0.start s0.len =
      ground (arith, s.room, s.block) in
    omega (
      arith,
      cut,
      ap (covers a) s.before,
      ap (covers a) s.after,
      covers-append a s.ahead (s0 ∷ s.behind),
      covers-append a s.ahead (record s0 { len = s0.len - len } ∷ s.behind),
    )

Fits-part :
    (xs : List Section) (s : Section) (n : ℕ) (ys : List Section)
    → n ≤ s.len
    → Fits (xs ++ s ∷ ys)
    → Fits (xs ++ record s { len = n } ∷ ys)
Fits-part [] s n ys h f = (omega (arith, f.0), f.1)
Fits-part (x ∷ xs) s n ys h f = (f.0, Fits-part xs s n ys h f.1)

Split-Fits :
    (len : ℕ) (ss : List Section) (r : List Section × ℕ) → Split len ss r → Fits ss → Fits r.0
Split-Fits len ss r s f = subst Fits (sym s.after) (
    Fits-part s.ahead s.section (s.section.len - len) s.behind (omega arith)
      (subst Fits s.before f))

-- One table of a chain is changed.
pub free-update :
    (a : ℕ) (ps : Pages) (xs : List ℕ) (h : ℕ) (ys : List ℕ) (x : Holder)
    → Distinct (xs ++ h ∷ ys)
    → free a (update ps h x) (xs ++ h ∷ ys) + covers a (ps h).sections
      ≡ free a ps (xs ++ h ∷ ys) + covers a x.sections
free-update a ps xs h ys x d =
    let (left, right) = Distinct-apart xs ys h d in
    let f = free_same a ps (update ps h x) xs (λ k m. ground (arith, ap (λ (t : ℕ). has t xs))) in
    let g = free_same a ps (update ps h x) ys (λ k m. ground (arith, ap (λ (t : ℕ). has t ys))) in
    let here : (update ps h x h).sections ≡ x.sections = ground arith in
    omega (
      arith,
      f,
      g,
      ap (covers a) here,
      free-append a (update ps h x) xs (h ∷ ys),
      free-append a ps xs (h ∷ ys),
    )

pub AllFit-update :
    (ps : Pages) (hs : List ℕ) (h : ℕ) (x : Holder)
    → (Fits (ps h).sections → Fits x.sections)
    → AllFit ps hs
    → AllFit (update ps h x) hs
AllFit-update ps [] h x keep f = tt
AllFit-update ps (k ∷ hs) h x keep f = elim (Bool-cases (h == k)) [
  | inl e ↦ (
    rw e (keep (subst (λ (j : ℕ). Fits (ps j).sections) (sym ((==_iff h k).0 e)) f.0)),
    AllFit-update ps hs h x keep f.1,
  )
  | inr e ↦ (rw e f.0, AllFit-update ps hs h x keep f.1)
]

-- The addresses of a block, none for nil.
abbrev pub block : ℕ → (addr len : ℕ) → ℕ
block a addr len = if addr == 0 then 0 else holds a addr len

-- The lists after `get_ram`: only tables of the free memory have changed.
pub record RamSpent (st : Store) (rs is : List ℕ) (len : ℕ) (ps : Pages) (addr : ℕ) : Type 0 where
  pub ledger : Ledger (record st { pages = ps }) rs is
  pub bytes : (a : ℕ) → free a ps rs + block a addr len ≤ free a st.pages rs
  pub tables : (h : ℕ) → has h rs ≡ false → ps h ≡ st.pages h
  pub nexts : (h : ℕ) → (ps h).next ≡ (st.pages h).next

abbrev pub SpentAs : Store → (rs is : List ℕ) → ℕ → Option (Pages × ℕ) → Type 0
SpentAs st rs is len none = ⊥
SpentAs st rs is len (some (ps, addr)) = RamSpent st rs is len ps addr

has_middle : (xs : List ℕ) (h : ℕ) (ys : List ℕ) → has h (xs ++ h ∷ ys) ≡ true
has_middle xs h ys = ground (arith, has-append h xs (h ∷ ys))

module _ (st : Store) (is : List ℕ) (len : ℕ) (xs : List ℕ) (h : ℕ) (ys : List ℕ)
    (r : List Section × ℕ) (l : Ledger st (xs ++ h ∷ ys) is)
    (s : Split len (st.pages h).sections r) where
  abbrev rs : List ℕ
  rs = xs ++ h ∷ ys

  abbrev after : Pages
  after = update st.pages h (record (st.pages h) { sections = r.0 })

  taken_bytes : (a : ℕ) → free a after rs + holds a r.1 len ≡ free a st.pages rs
  taken_bytes a = omega (
    arith,
    free-update a st.pages xs h ys (record (st.pages h) { sections = r.0 }) l.ram_distinct,
    Split-covers a len (st.pages h).sections r s,
  )

  nexts_same : (k : ℕ) → (after k).next ≡ (st.pages k).next
  nexts_same k = ground (arith, ap (λ (j : ℕ). (st.pages j).next))

  outside : (k : ℕ) → has k rs ≡ false → after k ≡ st.pages k
  outside k m = ground (arith, has_middle xs h ys, ap (λ (j : ℕ). has j rs))

  io_outside : (k : ℕ) → has k is ≡ true → after k ≡ st.pages k
  io_outside k m = outside k (ground (arith, l.apart k))

  taken-RamSpent : RamSpent st rs is len after r.1
  taken-RamSpent = record {
    ledger = record {
      ram_chain = Chain-same st.pages after rs (λ k m. nexts_same k) l.ram_chain;
      io_chain = Chain-same st.pages after is (λ k m. nexts_same k) l.io_chain;
      ram_fits =
          AllFit-update st.pages rs h _ (Split-Fits len (st.pages h).sections r s) l.ram_fits;
      io_fits =
          AllFit-same st.pages after is (λ k m. ap (λ (x : Holder). x.sections) (io_outside k m))
            l.io_fits;
      ram_distinct = l.ram_distinct;
      io_distinct = l.io_distinct;
      apart = l.apart;
      kept = λ k m. omega (arith, taken_bytes k, l.kept k m);
      once = λ a. omega (arith, taken_bytes a, l.once a);
    };
    bytes = λ a. ground (arith, taken_bytes a);
    tables = outside;
    nexts = nexts_same;
  }

pub Given-SpentAs :
    (st : Store) (rs is : List ℕ) (len : ℕ) (o : Option (Pages × ℕ))
    → Ledger st rs is
    → Given len st.pages rs o
    → SpentAs st rs is len o
Given-SpentAs st rs is len _ l (Given.refused f) = record {
  ledger = l;
  bytes = λ a. omega arith;
  tables = λ h m. refl;
  nexts = λ h. refl;
}
Given-SpentAs st _ is len _ l (Given.given xs h ys r f s) = taken-RamSpent st is len xs h ys r l s

-- `get_ram` takes the block that it gives away off the free memory, and keeps the lists.
pub get_ram-RamSpent :
    (f len : ℕ) (st : Store) (rs is : List ℕ)
    → Ledger st rs is
    → length rs < f
    → 0 < len
    → (ps : Pages) × (addr : ℕ) × (get_ram f len st ≡ some (record st { pages = ps }, addr))
      × RamSpent st rs is len ps addr
get_ram-RamSpent f len st rs is l lt pos =
    let g = get_ram_lem f len st rs lt pos l.ram_chain l.ram_fits in
    (g.outcome.0, g.outcome.1, g.ends, Given-SpentAs st rs is len (some g.outcome) l g.block)

module _ (st : Store) (rs is : List ℕ) (len : ℕ) (ps : Pages) (addr : ℕ) (l : Ledger st rs is)
    (s : RamSpent st rs is len ps addr) where
  pub RamSpent-io : (a : ℕ) → free a ps is ≡ free a st.pages is
  RamSpent-io a =
      free_same a st.pages ps is
        (λ h m. ap (λ (x : Holder). x.sections) (s.tables h (ground (arith, l.apart h, m))))

  pub RamSpent-Spent : Spent st rs is (λ a. block a addr len) (record st { pages = ps })
  RamSpent-Spent = record {
    io = is;
    ledger = s.ledger;
    bytes = λ a. omega (arith, s.bytes a, RamSpent-io a);
    longer = omega arith;
  }
