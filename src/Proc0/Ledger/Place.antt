-- ===== src/Proc0/Ledger/Place.antt =====
-- A range is put into a table of the io list, in the list as it is or in a page that it got.
use omb.Base.{
  ℕ, zero, suc, ◌+◌, ◌^◌, ◌<◌, ◌≤◌, ◌≡◌, refl, ap, sym, subst, ◌∙◌, true, Option, some, List, [],
  ◌∷◌, ◌++◌, arith, has, ◌==◌, ==_iff, length, Bool-cases, inl, inr, ◌⊎◌, false,
}
use omb.Kern.Links.Seg.{has-append}
use omb.Proc0.{Section, Holder, Pages, Store, set_sections}
use omb.Proc0.Ram.{Fits, AllFit, AllFull}
use omb.Proc0.Add.{Placed, has_empty}
use omb.Proc0.Ledger.{holds, covers, free, covers-append, Ledger}
use omb.Proc0.Ledger.Table.{section_at, Tabled, set_sections-Tabled}
use omb.Proc0.Ledger.Grow.{Grown}

-- Why a range is lost: no place of the io list is empty, and no page is to be had for another
-- table, since no section has room for one, or since the address 0, which the code takes for nil,
-- is free memory.
abbrev pub Lost : Store → (rs is : List ℕ) → Type 0
Lost st rs is =
    (has_empty st.pages is ≡ false) × (AllFull 4096 st.pages rs ⊎ (1 ≤ free 0 st.pages rs))

-- The lists after `addr_add` of the range of `len` addresses from `start` on to the io list. The
-- range was added, unless it is lost; nothing else was, and each section in use is still at its
-- place.
pub record Added (st : Store) (rs is : List ℕ) (start len : ℕ) (st' : Store) : Type 0 where
  pub io : List ℕ
  pub ledger : Ledger st' rs io
  pub ram : (a : ℕ) → free a st'.pages rs ≤ free a st.pages rs
  pub bytes : (a : ℕ) → free a st'.pages io ≤ free a st.pages is + holds a start len
  pub fate :
      ((a : ℕ) → free a st'.pages io ≡ free a st.pages is + holds a start len) ⊎ Lost st rs is
  pub stays :
      (h i : ℕ) (s : Section)
      → has h is ≡ true
      → section_at i (st.pages h).sections ≡ some s
      → 0 < s.len
      → section_at i (st'.pages h).sections ≡ some s
  pub grown : (h : ℕ) → has h is ≡ true → has h io ≡ true
  pub head : st'.io ≡ st.io
  pub longer : length io ≤ suc (length is)

-- What a table becomes where a section of it is replaced.
pub Fits-replace :
    (xs : List Section) (s t : Section) (ys : List Section)
    → t.start + t.len ≤ 2 ^ 32
    → Fits (xs ++ s ∷ ys)
    → Fits (xs ++ t ∷ ys)
Fits-replace [] s t ys h f = (h, f.1)
Fits-replace (x ∷ xs) s t ys h f = (f.0, Fits-replace xs s t ys h f.1)

section_at-replace :
    (i : ℕ) (xs : List Section) (e t s : Section) (ys : List Section)
    → e.len ≡ 0
    → 0 < s.len
    → section_at i (xs ++ e ∷ ys) ≡ some s
    → section_at i (xs ++ t ∷ ys) ≡ some s
section_at-replace zero [] e t s ys z p q =
    let same : e ≡ s = cc in absurd (omega (arith, ap (λ (x : Section). x.len) same))
section_at-replace (suc i) [] e t s ys z p q = q
section_at-replace zero (x ∷ xs) e t s ys z p q = q
section_at-replace (suc i) (x ∷ xs) e t s ys z p q = section_at-replace i xs e t s ys z p q

module _ (start len : ℕ) where
  abbrev new : Section
  new = record { start = start; len = len }

  pub Placed-covers :
      (a : ℕ) (ss r : List Section)
      → Placed start len ss r
      → covers a r ≡ covers a ss + holds a start len
  Placed-covers a ss r p =
      let none_of : holds a p.section.start p.section.len ≡ 0 = ground (arith, p.empty) in
      omega (
        arith,
        none_of,
        ap (covers a) p.before,
        ap (covers a) p.after,
        covers-append a p.ahead (p.section ∷ p.behind),
        covers-append a p.ahead (new ∷ p.behind),
      )

  pub Placed-Fits :
      (ss r : List Section) → start + len ≤ 2 ^ 32 → Placed start len ss r → Fits ss → Fits r
  Placed-Fits ss r h p f =
      subst Fits (sym p.after)
        (Fits-replace p.ahead p.section new p.behind h (subst Fits p.before f))

  pub Placed-stays :
      (i : ℕ) (ss r : List Section) (s : Section)
      → Placed start len ss r
      → section_at i ss ≡ some s
      → 0 < s.len
      → section_at i r ≡ some s
  Placed-stays i ss r s p q pos =
      ap (section_at i) p.after
      ∙ section_at-replace i p.ahead p.section new s p.behind p.empty pos
          (sym (ap (section_at i) p.before) ∙ q)

has_same :
    (st : Store) (h k : ℕ) (i : ℕ) (o : Option Section)
    → (h == k) ≡ true
    → section_at i (st.pages k).sections ≡ o
    → section_at i (st.pages h).sections ≡ o
has_same st h k i o e q = ap (λ (j : ℕ). section_at i (st.pages j).sections) ((==_iff h k).0 e) ∙ q

-- The range is put into a table of the list.
module _ (st : Store) (rs is : List ℕ) (h start len : ℕ) (r : List Section) (l : Ledger st rs is)
    (m : has h is ≡ true) (fits : start + len ≤ 2 ^ 32)
    (p : Placed start len (st.pages h).sections r) (g : Fits (st.pages h).sections) where
  put-stays :
      Tabled st rs is h r
      → (k i : ℕ) (s : Section) → section_at i (st.pages k).sections ≡ some s
      → 0 < s.len
      → section_at i ((set_sections st h r).pages k).sections ≡ some s
  put-stays t k i s q pos = elim (Bool-cases (h == k)) [
    | inl e ↦
        let here =
          Placed-stays start len i (st.pages h).sections r s p (has_same st h k i (some s) e q)
            pos in
        ap (λ (j : ℕ). section_at i ((set_sections st h r).pages j).sections)
          (sym ((==_iff h k).0 e))
        ∙ ap (section_at i) t.table
        ∙ here
    | inr e ↦ ap (λ (x : Holder). section_at i x.sections) (t.others k e) ∙ q
  ]

  pub put-Added : Added st rs is start len (set_sections st h r)
  unfolding set_sections
  put-Added =
      let t =
        set_sections-Tabled st rs h r (Placed-Fits start len (st.pages h).sections r fits p g) is l
          m in
      record {
        io = is;
        ledger = t.ledger;
        ram = λ a. omega (arith, t.ram a);
        bytes = λ a. omega (arith, t.io a, Placed-covers start len a (st.pages h).sections r p);
        fate =
            inl (λ a. omega (arith, t.io a, Placed-covers start len a (st.pages h).sections r p));
        stays = λ k i s w q pos. put-stays t k i s q pos;
        grown = λ k w. w;
        head = refl;
        longer = omega arith;
      }

pub AllFit-at :
    (ps : Pages) (hs : List ℕ) (h : ℕ) → AllFit ps hs → has h hs ≡ true → Fits (ps h).sections
AllFit-at ps [] h f m = cc
AllFit-at ps (k ∷ hs) h f m = elim (Bool-cases (k == h)) [
  | inl e ↦ subst (λ (j : ℕ). Fits (ps j).sections) ((==_iff k h).0 e) f.0
  | inr e ↦ AllFit-at ps hs h f.1 (ground (arith, m, e))
]

length_snoc : (is : List ℕ) (page : ℕ) → length (is ++ page ∷ []) ≤ suc (length is)
length_snoc [] page = omega arith
length_snoc (k ∷ is) page = omega (arith, length_snoc is page)

-- The range is put into the first place of a new page of the list.
pub Grown-Added :
    (st st1 : Store) (rs is : List ℕ) (page start len : ℕ) (r : List Section)
    → Grown st rs is page st1
    → start + len ≤ 2 ^ 32
    → Placed start len (st1.pages page).sections r
    → Added st rs is start len (set_sections st1 page r)
unfolding set_sections
Grown-Added st st1 rs is page start len r g fits p =
    let last : has page (is ++ page ∷ []) ≡ true = ground (arith, has-append page is (page ∷ [])) in
    let fit = AllFit-at st1.pages (is ++ page ∷ []) page g.ledger.io_fits last in
    let t =
      set_sections-Tabled st1 rs page r
        (Placed-Fits start len (st1.pages page).sections r fits p fit) (is ++ page ∷ []) g.ledger
        last in
    let stays = put-stays st1 rs (is ++ page ∷ []) page start len r g.ledger last fits p fit t in
    record {
      io = is ++ page ∷ [];
      ledger = t.ledger;
      ram = λ x. omega (arith, t.ram x, g.ram x);
      bytes = λ x.
          omega (arith, t.io x, g.io x, Placed-covers start len x (st1.pages page).sections r p);
      fate = inl (λ x.
          omega (arith, t.io x, g.io x, Placed-covers start len x (st1.pages page).sections r p));
      stays = λ k i s w q pos. stays k i s (ap (section_at i) (g.tables k w) ∙ q) pos;
      grown = λ k w. ground (arith, has-append k is (page ∷ []), w);
      head = g.head;
      longer = length_snoc is page;
    }
