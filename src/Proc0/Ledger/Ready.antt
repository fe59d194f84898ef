-- ===== src/Proc0/Ledger/Ready.antt =====
-- `init_ram_sections` of proc0/main.c: the free memory of the regions that the kernel lists.
use omb.Base.{
  ℕ, zero, suc, ◌+◌, ◌^◌, ◌<◌, ◌≤◌, ◌≡◌, refl, ap, sym, subst, ◌∙◌, Bool, true, false, ◌||◌, Option,
  some, List, [], ◌∷◌, ◌++◌, arith, ◌==◌, ◌⊎◌, if◌then◌else◌, replicate, update, Bool-cases,
  Option-cases, inl, inr,
}
use omb.Space.Init.{Region}
use omb.Proc0.{Section, Store, put_section, set_sections, addr_add}
use omb.Proc0.SetUp.{is_ram}
use omb.Proc0.Ram.{Fits}
use omb.Proc0.Add.{Placed, put_section-Put, full_of, Placed-of, any_empty}
use omb.Proc0.Ledger.{holds, covers}
use omb.Proc0.Ledger.Table.{section_at}
use omb.Proc0.Ledger.Place.{Placed-covers, Placed-Fits, Placed-stays}

-- How often the regions of a list hold an address: those of memory, and those of registers.
abbrev pub ram_total : ℕ → List Region → ℕ
ram_total a [] = 0
ram_total a (r ∷ rs) = (if is_ram r.type then holds a r.start r.len else 0) + ram_total a rs

abbrev pub io_total : ℕ → List Region → ℕ
io_total a [] = 0
io_total a (r ∷ rs) = (if is_ram r.type then 0 else holds a r.start r.len) + io_total a rs

-- Regions that neither start at nil nor reach the end of the 32-bit addresses; those of memory
-- have two pages at least.
abbrev pub RegionFits : Region → Type 0
RegionFits r = (0 < r.start) × (r.start + r.len < 2 ^ 32) × (is_ram r.type ≡ true → 8192 ≤ r.len)

abbrev pub RegionsFit : List Region → Type 0
RegionsFit [] = Unit
RegionsFit (r ∷ rs) = RegionFits r × RegionsFit rs

abbrev pub any_ram : List Region → Bool
any_ram [] = false
any_ram (r ∷ rs) = is_ram r.type || any_ram rs

-- The empty places of a table.
abbrev pub empties : List Section → ℕ
empties [] = 0
empties (s ∷ ss) = (if s.len == 0 then 1 else 0) + empties ss

empties-append : (xs ys : List Section) → empties (xs ++ ys) ≡ empties xs + empties ys
empties-append [] ys = omega arith
empties-append (x ∷ xs) ys = omega (arith, empties-append xs ys)

pub empties_zero : (n : ℕ) → empties (replicate n (record { start = 0; len = 0 })) ≡ n
empties_zero zero = refl
empties_zero (suc n) = ground (arith, empties_zero n)

any_of : (ss : List Section) → 0 < empties ss → any_empty ss ≡ true
any_of [] h = absurd (omega arith)
any_of (s ∷ ss) h = elim (Bool-cases (s.len == 0)) [
  | inl e ↦ rw e refl
  | inr e ↦ rw e (any_of ss (ground (arith, h, e)))
]

-- The free memory while the regions are read: one holder with `n` empty places; `total` bounds
-- what is free, the page of the holder left out.
pub record Listed (st : Store) (n : ℕ) (total : ℕ → ℕ) : Type 0 where
  pub pos : 0 < st.ram
  pub last : (st.pages st.ram).next ≡ 0
  pub fits : Fits (st.pages st.ram).sections
  pub places : n ≤ empties (st.pages st.ram).sections
  pub bytes : (a : ℕ) → covers a (st.pages st.ram).sections + holds a st.ram 4096 ≤ total a

-- A section of a table has room for a page.
pub record Roomy (ss : List Section) : Type 0 where
  pub index : ℕ
  pub section : Section
  pub there : section_at index ss ≡ some section
  pub room : 4096 ≤ section.len

section_at_middle :
    (xs : List Section) (s : Section) (ys : List Section)
    → (i : ℕ) × (section_at i (xs ++ s ∷ ys) ≡ some s)
section_at_middle [] s ys = (0, refl)
section_at_middle (x ∷ xs) s ys = let (i, e) = section_at_middle xs s ys in (suc i, e)

module _ (start len : ℕ) (fits : start + len ≤ 2 ^ 32) (st : Store) where
  Placed-empties : (ss r : List Section) → Placed start len ss r → empties ss ≤ suc (empties r)
  Placed-empties ss r p = ground (
    arith,
    ap empties p.before,
    ap empties p.after,
    empties-append p.ahead (p.section ∷ p.behind),
    empties-append p.ahead (record { start = start; len = len } ∷ p.behind),
  )

  -- `addr_add` where the first holder has an empty place.
  put_first :
      (f : ℕ)
      → 0 < st.ram
      → 0 < empties (st.pages st.ram).sections
      → (r : List Section) × (addr_add (suc f) st.ram start len st
          ≡ some (set_sections st st.ram r))
        × Placed start len (st.pages st.ram).sections r
  unfolding addr_add
  put_first f pos n =
      let there : (st.ram == 0) ≡ false = ground (arith, pos) in
      let search = put_section-Put start len (st.pages st.ram).sections in
      elim (Option-cases (put_section start len (st.pages st.ram).sections)) [
        | inl e ↦
            let full = full_of start len (st.pages st.ram).sections _ search e in
            let room = any_of (st.pages st.ram).sections n in absurd (ground (arith, full, room))
        | inr (r, e) ↦ (
          r,
          rw (addr_add, there, e) refl,
          Placed-of start len (st.pages st.ram).sections r _ search e,
        )
      ]

  Placed-Roomy : (ss r : List Section) → Placed start len ss r → (4096 ≤ len) ⊎ Roomy ss → Roomy r
  Placed-Roomy ss r p (inl big) =
      let new : Section = record { start = start; len = len } in
      let (i, e) = section_at_middle p.ahead new p.behind in
      record { index = i; section = new; there = ap (section_at i) p.after ∙ e; room = big }
  Placed-Roomy ss r p (inr y) = record {
    index = y.index;
    section = y.section;
    there = Placed-stays start len y.index ss r y.section p y.there (omega (arith, y.room));
    room = y.room;
  }

-- The store after a range of memory is added.
pub record Adds (n : ℕ) (total : ℕ → ℕ) (r : Option Store) : Type 0 where
  pub final : Store
  pub ends : r ≡ some final
  pub listed : Listed final n total
  pub roomy : Roomy (final.pages final.ram).sections

module _ (start len : ℕ) (fits : start + len ≤ 2 ^ 32) (st : Store) (n : ℕ) (total : ℕ → ℕ) where
  set_first :
      (r : List Section)
      → Placed start len (st.pages st.ram).sections r
      → Listed st (suc n) total
      → (4096 ≤ len) ⊎ Roomy (st.pages st.ram).sections
      → Adds n (λ a. total a + holds a start len) (some (set_sections st st.ram r))
  unfolding set_sections
  set_first r p l y =
      let table : (update st.pages st.ram (record (st.pages st.ram) { sections = r })
            st.ram).sections
          ≡ r =
        ground arith in
      record {
        final = _;
        ends = refl;
        listed = record {
          pos = l.pos;
          last = ground (arith, l.last);
          fits =
              subst Fits (sym table)
                (Placed-Fits start len (st.pages st.ram).sections r fits p l.fits);
          places = omega (
            arith,
            ap empties table,
            Placed-empties start len fits st (st.pages st.ram).sections r p,
            l.places,
          );
          bytes = λ a. omega (
            arith,
            ap (covers a) table,
            Placed-covers start len a (st.pages st.ram).sections r p,
            l.bytes a,
          );
        };
        roomy =
            subst Roomy (sym table)
              (Placed-Roomy start len fits st (st.pages st.ram).sections r p y);
      }

  pub addr_add-Adds :
      (f : ℕ)
      → Listed st (suc n) total
      → (4096 ≤ len) ⊎ Roomy (st.pages st.ram).sections
      → Adds n (λ a. total a + holds a start len) (addr_add (suc f) st.ram start len st)
  addr_add-Adds f l y =
      let (r, e, p) = put_first start len fits st f l.pos (omega (arith, l.places)) in
      subst (Adds n (λ a. total a + holds a start len)) (sym e) (set_first r p l y)
