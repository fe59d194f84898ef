-- ===== src/Proc0/Ledger/Add.antt =====
-- `addr_add` on the io list, which may take a page of the free memory for more sections.
use omb.Base.{
  ℕ, zero, suc, ◌+◌, ◌^◌, ◌<◌, ◌≤◌, ◌≡◌, refl, ap, sym, subst, ◌∙◌, true, false, Option, none, some,
  List, [], ◌∷◌, ◌++◌, arith, has, append_assoc, ◌==◌, length, update, Bool-cases, Option-cases,
  inl, inr, ◌⊎◌, ◌||◌,
}
use omb.Kern.Links.Seg.{has-append}
use omb.Proc0.{
  Section, Holder, Pages, Store, put_section, set_sections, add_holder, addr_add, get_ram,
}
use omb.Proc0.Ram.{Chain, AllFull, Given, get_ram_lem}
use omb.Proc0.Add.{put_section-Put, full_of, Placed-of, any_empty, has_empty}
use omb.Proc0.Ledger.{holds, covers, covers-append, free, free-append, free_same, Ledger}
use omb.Proc0.Ledger.Ram.{RamSpent, get_ram-RamSpent}
use omb.Proc0.Ledger.Table.{section_at, Ledger-same}
use omb.Proc0.Ledger.Grow.{Grown, add_holder-Grown}
use omb.Proc0.Ledger.Place.{Added, Lost, put-Added, Grown-Added, AllFit-at}

-- What `addr_add` must give: it ends, with the range added to the list unless it is lost.
pub record AddEnds (st : Store) (rs is : List ℕ) (start len : ℕ) (r : Option Store) : Type 0 where
  pub final : Store
  pub ends : r ≡ some final
  pub added : Added st rs is start len final

-- Where `get_ram` gives nil for a page, no section has room, or the page at 0 was free.
no_page :
    (ps : Pages) (rs : List ℕ) (o : Option (Pages × ℕ)) (p : Pages × ℕ)
    → Given 4096 ps rs o
    → o ≡ some p
    → p.1 ≡ 0
    → AllFull 4096 ps rs ⊎ (1 ≤ free 0 ps rs)
no_page ps rs _ p (Given.refused f) e z = inl f
no_page ps _ _ p (Given.given xs h ys r f s) e z =
    let here : r.1 ≡ p.1 = cc in
    let one : holds 0 s.section.start s.section.len ≡ 1 = ground (arith, s.room, s.block, here) in
    inr (
      omega (
        arith,
        one,
        free-append 0 ps xs (h ∷ ys),
        ap (covers 0) s.before,
        covers-append 0 s.ahead (s.section ∷ s.behind),
      ))

get_ram-no_page :
    (f : ℕ) (st : Store) (rs is : List ℕ) (st' : Store)
    → Ledger st rs is
    → length rs < f
    → get_ram f 4096 st ≡ some (st', 0)
    → AllFull 4096 st.pages rs ⊎ (1 ≤ free 0 st.pages rs)
get_ram-no_page f st rs is st' l lt e =
    let g = get_ram_lem f 4096 st rs lt (omega arith) l.ram_chain l.ram_fits in
    let same : some (record st { pages = g.outcome.0 }, g.outcome.1) ≡ some (st', 0) =
      sym g.ends ∙ e in
    no_page st.pages rs (some g.outcome) g.outcome g.block refl (cc)

has_empty-append :
    (ps : Pages) (xs ys : List ℕ) → has_empty ps (xs ++ ys) ≡ (has_empty ps xs || has_empty ps ys)
has_empty-append ps [] ys = refl
has_empty-append ps (x ∷ xs) ys = ground (arith, has_empty-append ps xs ys)

-- The holder behind full ones is full as well.
full_to :
    (start len : ℕ) (ps : Pages) (xs : List ℕ) (k : ℕ)
    → has_empty ps xs ≡ false
    → put_section start len (ps k).sections ≡ none
    → has_empty ps (xs ++ k ∷ []) ≡ false
full_to start len ps xs k full n =
    let here = full_of start len (ps k).sections _ (put_section-Put start len (ps k).sections) n in
    has_empty-append ps xs (k ∷ []) ∙ ground (arith, full, here)

-- The range is lost where no page is free.
module _ (st : Store) (rs is : List ℕ) (k start len : ℕ) (ps : Pages)
    (s : RamSpent st rs is 4096 ps 0) (l : Ledger st rs is) (z : (st.pages k).next ≡ 0)
    (gone : Lost st rs is) where
  abbrev lost : Pages
  lost = update ps k (record (ps k) { next = 0 })

  nexts_same : (h : ℕ) → (lost h).next ≡ (ps h).next
  nexts_same h = ground (arith, s.nexts k, z, ap (λ (j : ℕ). (ps j).next))

  sections_same : (h : ℕ) → (lost h).sections ≡ (ps h).sections
  sections_same h = ground (arith, ap (λ (j : ℕ). (ps j).sections))

  io_tables : (h : ℕ) → has h is ≡ true → (lost h).sections ≡ (st.pages h).sections
  io_tables h m =
      sections_same h ∙ ap (λ (x : Holder). x.sections) (s.tables h (ground (arith, l.apart h, m)))

  lost-Added : Added st rs is start len (add_holder k (record st { pages = ps }) 0)
  unfolding add_holder
  lost-Added = record {
    io = is;
    ledger = Ledger-same (record st { pages = ps }) lost rs is nexts_same sections_same s.ledger;
    ram = λ a. omega (arith, s.bytes a, free_same a ps lost rs (λ h m. sections_same h));
    bytes = λ a. omega (arith, free_same a st.pages lost is io_tables);
    fate = inr gone;
    stays = λ h i w m q pos. ap (section_at i) (io_tables h m) ∙ q;
    grown = λ h m. m;
    head = refl;
    longer = omega arith;
  }

has_middle : (xs : List ℕ) (h : ℕ) (ys : List ℕ) → has h (xs ++ h ∷ ys) ≡ true
has_middle xs h ys = ground (arith, has-append h xs (h ∷ ys))

module _ (start len : ℕ) (fits : start + len ≤ 2 ^ 32) where
  -- The round of the loop at the new page.
  new_page :
      (f : ℕ) (st st1 : Store) (rs is : List ℕ) (page : ℕ)
      → 0 < f
      → (page == 0) ≡ false
      → Grown st rs is page st1
      → AddEnds st rs is start len (addr_add f page start len st1)
  unfolding addr_add
  new_page zero st st1 rs is page lt pos g = absurd (omega arith)
  new_page (suc f) st st1 rs is page lt pos g =
      let search = put_section-Put start len (st1.pages page).sections in
      elim (Option-cases (put_section start len (st1.pages page).sections)) [
        | inl n ↦
            let full = full_of start len (st1.pages page).sections _ search n in
            let room = ap any_empty g.empty in absurd (ground (arith, full, room))
        | inr (r, e) ↦
            let p = Placed-of start len (st1.pages page).sections r _ search e in
            rw (addr_add, pos, e)
              (record {
                final = set_sections st1 page r;
                ends = refl;
                added = Grown-Added st st1 rs is page start len r g fits p;
              })
      ]

  -- What follows the call of `get_ram` at the last holder `k`.
  last_holder :
      (f : ℕ) (st : Store) (rs xs : List ℕ) (k : ℕ)
      → length rs < f
      → (k == 0) ≡ false
      → put_section start len (st.pages k).sections ≡ none
      → has_empty st.pages (xs ++ k ∷ []) ≡ false
      → (st.pages k).next ≡ 0
      → Ledger st rs (xs ++ k ∷ [])
      → AddEnds st rs (xs ++ k ∷ []) start len (addr_add (suc f) k start len st)
  unfolding addr_add
  last_holder f st rs xs k lt pos n full z l =
      let (ps, page, e, s) = get_ram-RamSpent f 4096 st rs (xs ++ k ∷ []) l lt (omega arith) in
      elim (Bool-cases (page == 0)) [
        | inl b ↦
            let nil : page ≡ 0 = ground arith in
            let s0 = subst (λ (a : ℕ). RamSpent st rs (xs ++ k ∷ []) 4096 ps a) nil s in
            let none_left =
              get_ram-no_page f st rs (xs ++ k ∷ []) (record st { pages = ps }) l lt
                (e ∙ ap (λ (a : ℕ). some (record st { pages = ps }, a)) nil) in
            rw (addr_add, pos, n, z, e, b)
              (record {
                final = add_holder k (record st { pages = ps }) 0;
                ends = ap (λ (a : ℕ). some (add_holder k (record st { pages = ps }) a)) nil;
                added = lost-Added st rs (xs ++ k ∷ []) k start len ps s0 l z (full, none_left);
              })
        | inr b ↦
            rw (addr_add, pos, n, z, e, b)
              (new_page f st (add_holder k (record st { pages = ps }) page) rs (xs ++ k ∷ []) page
                (omega arith) b (add_holder-Grown st rs xs k page ps b l s))
      ]

  put_here :
      (f : ℕ) (st : Store) (rs is : List ℕ) (k : ℕ) (r : List Section)
      → (k == 0) ≡ false
      → has k is ≡ true
      → put_section start len (st.pages k).sections ≡ some r
      → Ledger st rs is
      → AddEnds st rs is start len (addr_add (suc f) k start len st)
  unfolding addr_add
  put_here f st rs is k r pos m e l =
      let p =
        Placed-of start len (st.pages k).sections r _
          (put_section-Put start len (st.pages k).sections) e in
      rw (addr_add, pos, e)
        (record {
          final = set_sections st k r;
          ends = refl;
          added = put-Added st rs is k start len r l m fits p (AllFit-at st.pages is k l.io_fits m);
        })

  -- The loop from the holder `k` on, with `xs` ahead of it and `ys` behind.
  addr_add_from :
      (ys xs : List ℕ) (f k n : ℕ) (st : Store) (rs is : List ℕ)
      → length rs + length ys < f
      → 0 < k
      → is ≡ xs ++ k ∷ ys
      → has_empty st.pages xs ≡ false
      → Ledger st rs is
      → (st.pages k).next ≡ n
      → Chain st.pages n ys
      → AddEnds st rs is start len (addr_add (suc f) k start len st)
  unfolding addr_add
  addr_add_from [] xs f k _ st rs is lt pos p full l z Chain.end =
      elim (Option-cases (put_section start len (st.pages k).sections)) [
        | inl e ↦
            subst (λ (js : List ℕ). AddEnds st rs js start len (addr_add (suc f) k start len st))
              (sym p)
              (last_holder f st rs xs k (omega arith) (ground (arith, pos)) e
                (full_to start len st.pages xs k full e) z (subst (Ledger st rs) p l))
        | inr (r, e) ↦ put_here f st rs is k r (ground (arith, pos)) (rw p (has_middle xs k [])) e l
      ]
  addr_add_from (y ∷ ys) xs zero k n st rs is lt pos p full l z c = absurd (omega arith)
  addr_add_from (y ∷ ys) xs (suc f) k _ st rs is lt pos p full l z (Chain.link _ q c) =
      elim (Option-cases (put_section start len (st.pages k).sections)) [
        | inl e ↦
            let there : (k == 0) ≡ false = ground (arith, pos) in
            let behind : ((st.pages k).next == 0) ≡ false = ground (arith, q, z) in
            rw (addr_add, there, e, behind)
              (subst (λ (j : ℕ). AddEnds st rs is start len (addr_add (suc f) j start len st))
                (sym z)
                (addr_add_from ys (xs ++ k ∷ []) f y (st.pages y).next st rs is (omega arith) q
                  (p ∙ sym (append_assoc xs (k ∷ []) (y ∷ ys)))
                  (full_to start len st.pages xs k full e) l refl c))
        | inr (r, e) ↦
            put_here (suc f) st rs is k r (ground (arith, pos)) (rw p (has_middle xs k (y ∷ ys))) e
              l
      ]

  add_from_head :
      (f h : ℕ) (st : Store) (rs is : List ℕ)
      → length rs + length is < f
      → 0 < h
      → Ledger st rs is
      → Chain st.pages h is
      → AddEnds st rs is start len (addr_add f h start len st)
  add_from_head zero h st rs is lt pos l c = absurd (omega arith)
  add_from_head (suc f) _ st rs _ lt pos l Chain.end = absurd (omega arith)
  add_from_head (suc f) _ st rs _ lt pos l (Chain.link k {hs} q c) =
      addr_add_from hs [] f k (st.pages k).next st rs (k ∷ hs) (omega arith) q refl refl l refl c

  -- If the two lists of process 0 are in order, that of registers is not empty, and the range
  -- ends in the 32-bit addresses, then with fuel beyond the holders of both `addr_add` of the
  -- range to the list of registers ends and leaves the lists in order, with at most one holder
  -- more. The list of registers then holds each address as often as before, and once more if it
  -- is of the range, unless no place of its tables was empty and no page was to be had, as no
  -- section of memory had room for one or as the address 0 was free memory. In any case it holds
  -- nothing that it did not hold but the range, that of memory nothing that it did not hold, and
  -- each section in use stays at its place in its table.
  pub addr_add-AddEnds :
      (f : ℕ) (st : Store) (rs is : List ℕ)
      → length rs + length is < f
      → 0 < st.io
      → Ledger st rs is
      → AddEnds st rs is start len (addr_add f st.io start len st)
  addr_add-AddEnds f st rs is lt pos l = add_from_head f st.io st rs is lt pos l l.io_chain
