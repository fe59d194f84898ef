-- ===== src/Proc0/Ledger/FirstPage.antt =====
-- The first page of the io list, which `init_io_sections` of proc0/main.c takes from the memory.
use omb.Base.{
  ℕ, zero, suc, ◌+◌, ◌<◌, ◌≤◌, ◌≡◌, refl, ap, sym, subst, ◌∙◌, true, false, ◌||◌, Option, some,
  List, [], ◌∷◌, arith, has, ◌==◌, ==_iff, replicate, Bool-cases, inl, inr,
}
use mathlib.Core.Option
use omb.Space.{page_size}
use omb.Proc0.{Section, Holder, Pages, Store, nsections, empty_holder, get_ram}
use omb.Proc0.SetUp.{clear_holder, io_page}
use omb.Proc0.Ram.{Chain, Fits, NoRoom, AllFull, Given, get_ram_lem}
use omb.Proc0.Ledger.{holds, covers, covers-append, free, free-append, Ledger}
use omb.Proc0.Ledger.Ram.{RamSpent, Given-SpentAs}
use omb.Proc0.Ledger.Table.{section_at}
use omb.Proc0.Ledger.Grow.{covers_zero, Fits-zero}
use omb.Proc0.Ledger.Ready.{Listed, Roomy}

NoRoom-section_at :
    (len i : ℕ) (ss : List Section) (s : Section)
    → NoRoom len ss
    → section_at i ss ≡ some s
    → s.len < len
NoRoom-section_at len i [] s n e = cc
NoRoom-section_at len zero (t ∷ ss) s n e =
    let same : t ≡ s = cc in subst (λ (x : Section). x.len < len) same n.0
NoRoom-section_at len (suc i) (t ∷ ss) s n e = NoRoom-section_at len i ss s n.1 e

-- A block is not at 0 where 0 is not free.
block_pos :
    (len : ℕ) (ps : Pages) (hs : List ℕ) (o : Option (Pages × ℕ)) (p : Pages × ℕ)
    → 0 < len
    → (AllFull len ps hs → ⊥)
    → free 0 ps hs ≡ 0
    → Given len ps hs o
    → o ≡ some p
    → 0 < p.1
block_pos len ps _ _ p pos roomy z (Given.refused f) e = elim (roomy f) [ ]
block_pos len ps _ _ p pos roomy z (Given.given xs h ys r f s) e =
    let here : r.1 ≡ p.1 = cc in
    let none_of : holds 0 s.section.start s.section.len ≡ 0 = omega (
      arith,
      z,
      free-append 0 ps xs (h ∷ ys),
      ap (covers 0) s.before,
      covers-append 0 s.ahead (s.section ∷ s.behind),
    ) in
    ground (arith, none_of, s.room, s.block, here)

-- The first page of the io list.
module _ (st : Store) (total : ℕ → ℕ) (l : Listed st 0 total) (y : Roomy (st.pages st.ram).sections)
    (once : (a : ℕ) → total a ≤ 1) (nil : total 0 ≡ 0) where
  abbrev rs : List ℕ
  rs = st.ram ∷ []

  kept_ram : (h : ℕ) → st.ram ≡ h → free h st.pages rs ≡ 0
  kept_ram h e = ground (arith, l.bytes h, once h, e)

  ram_Ledger : Ledger (record st { io = 0 }) rs []
  ram_Ledger = record {
    ram_chain =
        Chain.link st.ram l.pos (subst (λ (n : ℕ). Chain st.pages n []) (sym l.last) Chain.end);
    io_chain = Chain.end;
    ram_fits = (l.fits, tt);
    io_fits = tt;
    ram_distinct = (refl, tt);
    io_distinct = tt;
    apart = λ h m. refl;
    kept = λ h m. kept_ram h ((==_iff st.ram h).0 (ground (arith, m)));
    once = λ a. omega (arith, l.bytes a, once a);
  }

  -- What the call of `get_ram` gives.
  abbrev Page : ℕ → Pages → ℕ → Type 0
  Page f ps page =
      (get_ram f 4096 st ≡ some (record st { pages = ps }, page))
      × RamSpent (record st { io = 0 }) rs [] 4096 ps page
      × (0 < page)

  get_ram-Page : (f : ℕ) → 1 < f → (ps : Pages) × (page : ℕ) × Page f ps page
  get_ram-Page f lt =
      let g = get_ram_lem f 4096 st rs lt (omega arith) ram_Ledger.ram_chain ram_Ledger.ram_fits in
      let roomy : AllFull 4096 st.pages rs → ⊥ = λ full. absurd (
        omega (
          arith,
          NoRoom-section_at 4096 y.index (st.pages st.ram).sections y.section full.0 y.there,
          y.room,
        )) in
      let zero_kept : free 0 st.pages rs ≡ 0 = omega (arith, l.bytes 0, nil) in
      (
        g.outcome.0,
        g.outcome.1,
        (
          g.ends,
          Given-SpentAs (record st { io = 0 }) rs [] 4096 (some g.outcome) ram_Ledger g.block,
          block_pos 4096 st.pages rs _ g.outcome (omega arith) roomy zero_kept g.block refl,
        ),
      )

  module _ (f : ℕ) (ps : Pages) (page : ℕ) (p : Page f ps page) where
    abbrev paged : Store
    unfolding io_page clear_holder
    paged = io_page (record st { pages = ps }, page)

    spent : free page ps rs ≡ 0
    spent = ground (arith, p.1.bytes page, p.2, l.bytes page, once page)

    apart : (page == st.ram) ≡ false
    apart = ground (arith, p.1.bytes page, p.2, kept_ram page)

    ram_same : paged.pages st.ram ≡ ps st.ram
    unfolding io_page clear_holder
    ram_same = ground (arith, apart)

    table : (paged.pages page).sections ≡ replicate nsections (record { start = 0; len = 0 })
    unfolding io_page clear_holder empty_holder
    table = ground arith

    none_next : (paged.pages page).next ≡ 0
    unfolding io_page clear_holder empty_holder
    none_next = ground arith

    head : paged.io ≡ page
    unfolding io_page clear_holder
    head = refl

    ram_free : (a : ℕ) → free a paged.pages rs ≡ free a ps rs
    ram_free a = ap (λ (x : Holder). covers a x.sections + 0) ram_same

    io_free : (a : ℕ) → free a paged.pages (page ∷ []) ≡ 0
    io_free a = omega (arith, ap (covers a) table, covers_zero a nsections)

    ram_next : (paged.pages st.ram).next ≡ 0
    ram_next = ap (λ (x : Holder). x.next) ram_same ∙ p.1.nexts st.ram ∙ l.last

    page_apart : (h : ℕ) → st.ram ≡ h → has h (page ∷ []) ≡ false
    page_apart h e = ground (arith, apart, e)

    paged_kept : (h : ℕ) → (has h rs || has h (page ∷ [])) ≡ true → free h paged.pages rs ≡ 0
    paged_kept h m = elim (Bool-cases (page == h)) [
      | inl e ↦ ram_free h ∙ subst (λ (j : ℕ). free j ps rs ≡ 0) ((==_iff page h).0 e) spent
      | inr e ↦ ram_free h ∙ p.1.ledger.kept h (ground (arith, m, e))
    ]

    paged-Ledger : Ledger paged rs (page ∷ [])
    unfolding io_page clear_holder
    paged-Ledger = record {
      ram_chain =
          Chain.link st.ram l.pos
            (subst (λ (n : ℕ). Chain paged.pages n []) (sym ram_next) Chain.end);
      io_chain =
          Chain.link page p.2 (subst (λ (n : ℕ). Chain paged.pages n []) (sym none_next) Chain.end);
      ram_fits = (subst (λ (x : Holder). Fits x.sections) (sym ram_same) p.1.ledger.ram_fits.0, tt);
      io_fits = (subst Fits (sym table) (Fits-zero nsections), tt);
      ram_distinct = (refl, tt);
      io_distinct = (refl, tt);
      apart = λ h m. page_apart h ((==_iff st.ram h).0 (ground (arith, m)));
      kept = paged_kept;
      once = λ a. omega (arith, ram_free a, p.1.ledger.once a);
    }

  -- The store with the first page of the io list.
  pub record Paged (r : Option Store) : Type 0 where
    pub final : Store
    pub page : ℕ
    pub ends : r ≡ some final
    pub pos : 0 < final.io
    pub ledger : Ledger final (st.ram ∷ []) (page ∷ [])
    pub ram : (a : ℕ) → free a final.pages (st.ram ∷ []) ≤ free a st.pages (st.ram ∷ [])
    pub empty : (a : ℕ) → free a final.pages (page ∷ []) ≡ 0

  pub get_ram-Paged : (f : ℕ) → 1 < f → Paged (Option.map io_page (get_ram f page_size st))
  unfolding paged io_page
  get_ram-Paged f lt =
      let (ps, page, p) = get_ram-Page f lt in
      rw (p.0) (record {
        final = paged f ps page p;
        page = page;
        ends = refl;
        pos = omega (arith, head f ps page p, p.2);
        ledger = paged-Ledger f ps page p;
        ram = λ a. omega (arith, ram_free f ps page p a, p.1.bytes a);
        empty = io_free f ps page p;
      })
