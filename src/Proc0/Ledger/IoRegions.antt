-- ===== src/Proc0/Ledger/IoRegions.antt =====
-- `init_io_sections` of proc0/main.c: a page of the memory becomes the holder of the io list.
use omb.Base.{
  ℕ, suc, ◌+◌, ◌<◌, ◌≤◌, ◌≡◌, refl, false, Option, some, List, [], ◌∷◌, arith, ◌==◌, length,
  Bool-cases, inl, inr,
}
use mathlib.Core.Option
use omb.Space.Init.{Region}
use omb.Proc0.{Store}
use omb.Proc0.SetUp.{is_ram, add_io, init_io_sections}
use omb.Proc0.Ledger.{free, Ledger}
use omb.Proc0.Ledger.Add.{addr_add-AddEnds}
use omb.Proc0.Ledger.FirstPage.{get_ram-Paged}
use omb.Proc0.Ledger.Ready.{io_total, RegionsFit, Listed, Roomy}

-- The lists after regions were added to the io list.
pub record IoListed (st : Store) (rs is : List ℕ) (total : ℕ → ℕ) (n : ℕ) (r : Option Store)
    : Type 0 where
  pub final : Store
  pub ends : r ≡ some final
  pub io : List ℕ
  pub ledger : Ledger final rs io
  pub ram : (a : ℕ) → free a final.pages rs ≤ free a st.pages rs
  pub bytes : (a : ℕ) → free a final.pages io ≤ free a st.pages is + total a
  pub longer : length io ≤ length is + n

add_io-IoListed :
    (f : ℕ) (rgs : List Region) (st : Store) (rs is : List ℕ)
    → RegionsFit rgs
    → length rs + (length is + length rgs) < f
    → 0 < st.io
    → Ledger st rs is
    → IoListed st rs is (λ a. io_total a rgs) (length rgs) (add_io f rgs st)
unfolding add_io Option.bind
add_io-IoListed f [] st rs is g lt pos l = record {
  final = st;
  ends = refl;
  io = is;
  ledger = l;
  ram = λ a. omega arith;
  bytes = λ a. omega arith;
  longer = omega arith;
}
add_io-IoListed f (r ∷ rgs) st rs is g lt pos l =
    let starts : (r.start == 0) ≡ false = ground (arith, g.0.0) in
    elim (Bool-cases (is_ram r.type)) [
      | inl e ↦
          let d = add_io-IoListed f rgs st rs is g.1 (omega arith) pos l in
          rw (starts, e)
            (record {
              final = d.final;
              ends = d.ends;
              io = d.io;
              ledger = d.ledger;
              ram = d.ram;
              bytes = λ a. omega (arith, d.bytes a);
              longer = omega (arith, d.longer);
            })
      | inr e ↦
          let x =
            addr_add-AddEnds r.start r.len (omega (arith, g.0.1)) f st rs is (omega arith) pos l in
          let y = x.added in
          let d =
            add_io-IoListed f rgs x.final rs y.io g.1 (omega (arith, y.longer))
              (omega (arith, y.head)) y.ledger in
          rw (starts, e, x.ends)
            (record {
              final = d.final;
              ends = d.ends;
              io = d.io;
              ledger = d.ledger;
              ram = λ a. omega (arith, d.ram a, y.ram a);
              bytes = λ a. omega (arith, d.bytes a, y.bytes a);
              longer = omega (arith, d.longer, y.longer);
            })
    ]

-- With memory for its first page, the io list is set up.
pub init_io_sections-IoListed :
    (f : ℕ) (rgs : List Region) (st : Store) (total : ℕ → ℕ)
    → Listed st 0 total
    → Roomy (st.pages st.ram).sections
    → ((a : ℕ) → total a ≤ 1)
    → total 0 ≡ 0
    → RegionsFit rgs
    → length rgs + 3 ≤ f
    → IoListed st
        (st.ram ∷ [])
        []
        (λ a. io_total a rgs)
        (suc (length rgs))
        (init_io_sections f rgs st)
unfolding init_io_sections Option.bind
init_io_sections-IoListed f rgs st total l y once nil g lt =
    let q = get_ram-Paged st total l y once nil f (omega arith) in
    let d =
      add_io-IoListed f rgs q.final (st.ram ∷ []) (q.page ∷ []) g (omega arith) q.pos q.ledger in
    rw (q.ends) (record {
      final = d.final;
      ends = d.ends;
      io = d.io;
      ledger = d.ledger;
      ram = λ a. omega (arith, d.ram a, q.ram a);
      bytes = λ a. omega (arith, d.bytes a, q.empty a);
      longer = omega (arith, d.longer);
    })
