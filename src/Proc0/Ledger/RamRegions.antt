-- ===== src/Proc0/Ledger/RamRegions.antt =====
-- `init_ram_sections` of proc0/main.c: the first region of memory gives the page of the holder.
use omb.Base.{
  ℕ, suc, ◌+◌, ◌-◌, ◌%◌, ◌^◌, ◌≤◌, ◌≡◌, refl, ap, sym, subst, true, false, Option, List, [], ◌∷◌,
  arith, ◌==◌, length, replicate, update, Bool-cases, inl, inr,
}
use mathlib.Core.Option
use omb.Space.{page_size}
use omb.Space.Init.{Region}
use omb.Proc0.{Store, nsections, empty_holder}
use omb.Proc0.SetUp.{clear_holder, add_ram, is_ram, init_ram_sections}
use omb.Proc0.Ram.{Fits}
use omb.Proc0.Ledger.{holds, covers}
use omb.Proc0.Ledger.Grow.{covers_zero, Fits-zero}
use omb.Proc0.Ledger.Ready.{
  ram_total, RegionFits, RegionsFit, any_ram, empties, empties_zero, Listed, Roomy, Adds,
  addr_add-Adds,
}

Listed-mono :
    (st : Store) (m n : ℕ) (p q : ℕ → ℕ)
    → m ≤ n
    → ((a : ℕ) → p a ≤ q a)
    → Listed st n p
    → Listed st m q
Listed-mono st m n p q h g l = record {
  pos = l.pos;
  last = l.last;
  fits = l.fits;
  places = omega (arith, h, l.places);
  bytes = λ a. omega (arith, l.bytes a, g a);
}

Adds-mono :
    (n : ℕ) (p q : ℕ → ℕ) (r : Option Store) → ((a : ℕ) → p a ≤ q a) → Adds n p r → Adds n q r
Adds-mono n p q r h d = record {
  final = d.final;
  ends = d.ends;
  listed = Listed-mono d.final n n p q (omega arith) h d.listed;
  roomy = d.roomy;
}

-- The regions behind the first one of memory.
more_regions :
    (f : ℕ) (rs : List Region) (st : Store) (n : ℕ) (total : ℕ → ℕ)
    → RegionsFit rs
    → Listed st (length rs + n) total
    → Roomy (st.pages st.ram).sections
    → Adds n (λ a. total a + ram_total a rs) (init_ram_sections (suc f) rs st)
unfolding init_ram_sections add_ram Option.bind
more_regions f [] st n total g l y = record {
  final = st;
  ends = refl;
  listed = Listed-mono st n (0 + n) total _ (omega arith) (λ a. omega arith) l;
  roomy = y;
}
more_regions f (r ∷ rs) st n total g l y =
    let starts : (r.start == 0) ≡ false = ground (arith, g.0) in
    let set : (st.ram == 0) ≡ false = ground (arith, l.pos) in
    elim (Bool-cases (is_ram r.type)) [
      | inl e ↦
          let l2 =
            Listed-mono st (suc (length rs + n)) _ total total (omega arith) (λ a. omega arith) l in
          let d =
            addr_add-Adds r.start r.len (omega (arith, g.0.1)) st (length rs + n) total f l2
              (inr y) in
          rw (starts, e, set, d.ends)
            (Adds-mono n _ _ _ (λ a. omega arith)
              (more_regions f rs d.final n (λ a. total a + holds a r.start r.len) g.1 d.listed
                d.roomy))
      | inr e ↦
          let l2 =
            Listed-mono st (length rs + n) _ total total (omega arith) (λ a. omega arith) l in
          rw (starts, e)
            (Adds-mono n _ _ _ (λ a. omega arith) (more_regions f rs st n total g.1 l2 y))
    ]

-- The page of the first holder.
module _ (r : Region) (st : Store) (fit : RegionFits r) (e : is_ram r.type ≡ true) where
  abbrev cleared : Store
  unfolding clear_holder
  cleared = clear_holder r.start (record st { ram = r.start })

  cleared-Listed : Listed cleared 511 (λ a. holds a r.start 4096)
  unfolding clear_holder empty_holder
  cleared-Listed =
      let table : (update st.pages r.start empty_holder r.start).sections
          ≡ replicate nsections (record { start = 0; len = 0 }) =
        ground arith in
      record {
        pos = fit.0;
        last = ground arith;
        fits = subst Fits (sym table) (Fits-zero nsections);
        places = omega (arith, ap empties table, empties_zero nsections);
        bytes = λ a. omega (arith, ap (covers a) table, covers_zero a nsections);
      }

  pages_sum :
      (a : ℕ)
      → holds a r.start 4096 + holds a (r.start + 4096) (r.len - 4096) ≤ holds a r.start r.len
  pages_sum a =
      let big : 8192 ≤ r.len = fit.2 e in
      let y : ℕ = r.len - 4096 in let sum : r.len ≡ 4096 + y = omega arith in rw sum (ground arith)

  first_region :
      (f n : ℕ)
      → suc n ≤ 511
      → (st.ram == 0) ≡ true
      → Adds n (λ a. holds a r.start r.len) (add_ram (suc f) r st)
  unfolding add_ram
  first_region f n small z =
      let start : (r.start + page_size) % 2 ^ 32 ≡ r.start + 4096 = omega (arith, fit.1) in
      let len : (r.len + (2 ^ 32 - page_size)) % 2 ^ 32 ≡ r.len - 4096 =
        omega (arith, fit.1, fit.2 e) in
      let l2 =
        Listed-mono cleared (suc n) 511 (λ a. holds a r.start 4096) (λ a. holds a r.start 4096)
          small (λ a. omega arith) cleared-Listed in
      let d =
        addr_add-Adds (r.start + 4096) (r.len - 4096) (omega (arith, fit.1)) cleared n
          (λ a. holds a r.start 4096) f l2 (inl (omega (arith, fit.2 e))) in
      rw (z, start, len) (Adds-mono n _ _ _ (λ a. pages_sum a) d)

-- With a region of memory and not too many of them, the free memory is set up.
pub init_ram_sections-Adds :
    (f : ℕ) (rs : List Region) (st : Store)
    → RegionsFit rs
    → any_ram rs ≡ true
    → length rs ≤ 511
    → (st.ram == 0) ≡ true
    → Adds 0 (λ a. ram_total a rs) (init_ram_sections (suc f) rs st)
unfolding init_ram_sections Option.bind
init_ram_sections-Adds f [] st g any small z = cc
init_ram_sections-Adds f (r ∷ rs) st g any small z =
    let starts : (r.start == 0) ≡ false = ground (arith, g.0.0) in
    elim (Bool-cases (is_ram r.type)) [
      | inl e ↦
          let d = first_region r st g.0 e f (length rs) small z in
          let l2 =
            Listed-mono d.final (length rs + 0) (length rs) (λ a. holds a r.start r.len)
              (λ a. holds a r.start r.len) (omega arith) (λ a. omega arith) d.listed in
          rw (starts, e, d.ends)
            (Adds-mono 0 _ _ _ (λ a. omega arith)
              (more_regions f rs d.final 0 (λ a. holds a r.start r.len) g.1 l2 d.roomy))
      | inr e ↦
          rw (starts, e)
            (Adds-mono 0 _ _ _ (λ a. omega arith)
              (init_ram_sections-Adds f rs st g.1 (ground (arith, any, e)) (omega arith) z))
    ]
