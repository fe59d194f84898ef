-- ===== src/Proc0/Ledger/Grow.antt =====
-- `addr_add` puts a page of free memory behind the last holder of the io list.
use omb.Base.{
  ℕ, zero, suc, ◌<◌, ◌≤◌, ◌≡◌, refl, ap, sym, subst, ◌∙◌, true, false, ◌||◌, List, [], ◌∷◌, ◌++◌,
  arith, has, ◌==◌, ==_iff, update, replicate, Bool-cases, inl, inr,
}
use omb.Kern.Links.Seg.{Distinct-apart, Distinct-snoc, has-append}
use omb.Proc0.{Holder, Pages, Store, nsections, empty_holder, add_holder}
use omb.Proc0.Ram.{Chain, Fits, AllFit}
use omb.Proc0.Ledger.{covers, free, free-append, free_same, AllFit-same, Chain-same, Ledger}
use omb.Proc0.Ledger.Ram.{RamSpent}

pub covers_zero : (a n : ℕ) → covers a (replicate n (record { start = 0; len = 0 })) ≡ 0
covers_zero a zero = refl
covers_zero a (suc n) = ground (arith, covers_zero a n)

pub Fits-zero : (n : ℕ) → Fits (replicate n (record { start = 0; len = 0 }))
Fits-zero zero = tt
Fits-zero (suc n) = (omega arith, Fits-zero n)

AllFit-append : (ps : Pages) (xs ys : List ℕ) → AllFit ps xs → AllFit ps ys → AllFit ps (xs ++ ys)
AllFit-append ps [] ys p q = q
AllFit-append ps (x ∷ xs) ys p q = (p.0, AllFit-append ps xs ys p.1 q)

-- A chain whose last holder is linked to a new one.
Chain-snoc :
    (ps ps' : Pages) (page k : ℕ) {h : ℕ} (xs : List ℕ)
    → ((j : ℕ) → has j xs ≡ true → (ps' j).next ≡ (ps j).next)
    → (ps' k).next ≡ page
    → (ps' page).next ≡ 0
    → 0 < page
    → Chain ps h (xs ++ k ∷ [])
    → Chain ps' h ((xs ++ k ∷ []) ++ page ∷ [])
Chain-snoc ps ps' page k [] e l z pos (Chain.link _ p c) = Chain.link k p (
    subst (λ (n : ℕ). Chain ps' n (page ∷ [])) (sym l)
      (Chain.link page pos (subst (λ (n : ℕ). Chain ps' n []) (sym z) Chain.end)))
Chain-snoc ps ps' page k (x ∷ xs) e l z pos (Chain.link _ p c) = Chain.link x p (
    subst (λ (n : ℕ). Chain ps' n ((xs ++ k ∷ []) ++ page ∷ [])) (sym (e x (ground arith)))
      (Chain-snoc ps ps' page k xs (λ j m. e j (ground (arith, m))) l z pos c))

-- The lists after the io list got the page.
pub record Grown (st : Store) (rs is : List ℕ) (page : ℕ) (st' : Store) : Type 0 where
  pub ledger : Ledger st' rs (is ++ page ∷ [])
  pub ram : (a : ℕ) → free a st'.pages rs ≤ free a st.pages rs
  pub io : (a : ℕ) → free a st'.pages (is ++ page ∷ []) ≡ free a st.pages is
  pub tables : (h : ℕ) → has h is ≡ true → (st'.pages h).sections ≡ (st.pages h).sections
  pub head : st'.io ≡ st.io
  pub empty : (st'.pages page).sections ≡ replicate nsections (record { start = 0; len = 0 })
  pub fresh : has page is ≡ false

module _ (st : Store) (rs xs : List ℕ) (k page : ℕ) (ps : Pages) (pos : (page == 0) ≡ false)
    (l : Ledger st rs (xs ++ k ∷ [])) (s : RamSpent st rs (xs ++ k ∷ []) 4096 ps page) where
  abbrev is : List ℕ
  is = xs ++ k ∷ []

  abbrev linked : Pages
  linked = update ps k (record (ps k) { next = page })

  abbrev grown : Pages
  unfolding empty_holder
  grown = update linked page empty_holder

  was_free : 1 ≤ free page st.pages rs
  was_free = ground (arith, s.bytes page, pos)

  spent : free page ps rs ≡ 0
  spent = ground (arith, s.bytes page, pos, l.once page)

  not_holder : (has page rs || has page is) ≡ false
  not_holder = elim (Bool-cases (has page rs || has page is)) [
    | inl e ↦ absurd (omega (arith, l.kept page e, was_free))
    | inr e ↦ e
  ]

  -- A holder of one of the lists is not the page.
  other : (j : ℕ) → (has j rs || has j is) ≡ true → (page == j) ≡ false
  other j m = ground (arith, not_holder, m, ap (λ (t : ℕ). has t rs || has t is))

  last : has k is ≡ true
  last = ground (arith, has-append k xs (k ∷ []))

  sections_same : (j : ℕ) → (has j rs || has j is) ≡ true → (grown j).sections ≡ (ps j).sections
  unfolding empty_holder
  sections_same j m = ground (arith, other j m, ap (λ (t : ℕ). (ps t).sections))

  nexts_same :
      (j : ℕ) → (has j rs || has j is) ≡ true → (k == j) ≡ false → (grown j).next ≡ (ps j).next
  unfolding empty_holder
  nexts_same j m n = ground (arith, other j m, n)

  ram_next : (j : ℕ) → has j rs ≡ true → (grown j).next ≡ (ps j).next
  ram_next j m =
      nexts_same j (ground (arith, m)) (ground (arith, l.apart j m, last, ap (λ (t : ℕ). has t is)))

  io_next : (j : ℕ) → has j xs ≡ true → (grown j).next ≡ (ps j).next
  io_next j m =
      nexts_same j (ground (arith, m, has-append j xs (k ∷ [])))
        (ground (arith, m, (Distinct-apart xs [] k l.io_distinct).0, ap (λ (t : ℕ). has t xs)))

  last_next : (grown k).next ≡ page
  unfolding empty_holder
  last_next = ground (arith, other k (ground (arith, last)))

  page_next : (grown page).next ≡ 0
  unfolding empty_holder
  page_next = ground arith

  page_table : (grown page).sections ≡ replicate nsections (record { start = 0; len = 0 })
  unfolding empty_holder
  page_table = ground arith

  ram_same : (a : ℕ) → free a grown rs ≡ free a ps rs
  ram_same a = free_same a ps grown rs (λ h m. sections_same h (ground (arith, m)))

  io_same : (a : ℕ) → free a grown is ≡ free a ps is
  io_same a = free_same a ps grown is (λ h m. sections_same h (ground (arith, m)))

  kept_io : (h : ℕ) → has h is ≡ true → ps h ≡ st.pages h
  kept_io h m = s.tables h (ground (arith, l.apart h, m))

  page_covers : (a : ℕ) → covers a (grown page).sections ≡ 0
  page_covers a = ap (covers a) page_table ∙ covers_zero a nsections

  pages_fit : AllFit grown (is ++ page ∷ [])
  pages_fit =
      AllFit-append grown is (page ∷ [])
        (AllFit-same ps grown is (λ h m. sections_same h (ground (arith, m))) s.ledger.io_fits)
        (subst Fits (sym page_table) (Fits-zero nsections), tt)

  grown_apart : (h : ℕ) → has h rs ≡ true → has h (is ++ page ∷ []) ≡ false
  grown_apart h m =
      ground (arith, l.apart h m, has-append h is (page ∷ []), other h (ground (arith, m)))

  grown_kept : (h : ℕ) → (has h rs || has h (is ++ page ∷ [])) ≡ true → free h grown rs ≡ 0
  grown_kept h m = elim (Bool-cases (page == h)) [
    | inl e ↦ subst (λ (j : ℕ). free j grown rs ≡ 0) ((==_iff page h).0 e) (ram_same page ∙ spent)
    | inr e ↦
        let held : (has h rs || has h is) ≡ true =
          ground (arith, has-append h is (page ∷ []), m, e) in
        ram_same h ∙ s.ledger.kept h held
  ]

  pub add_holder-Grown : Grown st rs is page (add_holder k (record st { pages = ps }) page)
  unfolding add_holder
  add_holder-Grown = rw pos (record {
    ledger = record {
      ram_chain = Chain-same ps grown rs ram_next s.ledger.ram_chain;
      io_chain =
          Chain-snoc ps grown page k xs io_next last_next page_next (ground (arith, pos))
            s.ledger.io_chain;
      ram_fits =
          AllFit-same ps grown rs (λ h m. sections_same h (ground (arith, m))) s.ledger.ram_fits;
      io_fits = pages_fit;
      ram_distinct = l.ram_distinct;
      io_distinct = Distinct-snoc is page l.io_distinct (ground (arith, not_holder));
      apart = grown_apart;
      kept = grown_kept;
      once = λ a. omega (arith, ram_same a, s.ledger.once a);
    };
    ram = λ a. ground (arith, ram_same a, s.bytes a);
    io = λ a. omega (
      arith,
      free-append a grown is (page ∷ []),
      page_covers a,
      io_same a,
      free_same a st.pages ps is (λ h m. ap (λ (x : Holder). x.sections) (kept_io h m)),
    );
    tables =
        λ h m. sections_same h (ground (arith, m)) ∙ ap (λ (x : Holder). x.sections) (kept_io h m);
    head = refl;
    empty = page_table;
    fresh = ground (arith, not_holder);
  })
