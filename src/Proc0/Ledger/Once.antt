-- ===== src/Proc0/Ledger/Once.antt =====
-- `main` of proc0/main.c on any list of regions: how often an address is given away is bounded by
-- how often the regions hold it.
use omb.Base.{
  ℕ, zero, suc, ◌+◌, ◌*◌, ◌≤◌, ◌≡◌, refl, true, Option, some, List, [], ◌∷◌, arith, length,
  Bool-cases, inl, inr,
}
use mathlib.Core.Option
use omb.Space.Init.{Region}
use omb.Proc0.{Pages, Store}
use omb.Proc0.SetUp.{FirstMessage, is_ram, init_sections}
use omb.Proc0.Main.{Answer, Request, main}
use omb.Proc0.Ledger.{holds, free, Ledger}
use omb.Proc0.Ledger.Ready.{ram_total, io_total, RegionsFit, any_ram}
use omb.Proc0.Ledger.RamRegions.{init_ram_sections-Adds}
use omb.Proc0.Ledger.IoRegions.{init_io_sections-IoListed}
use omb.Proc0.Ledger.Procs.{started_by, init_procs-Begun}
use omb.Proc0.Ledger.Requests.{AllInRange, granted_by, main_loop-Served}

-- How often the regions of a list hold an address.
abbrev pub total : ℕ → List Region → ℕ
total a [] = 0
total a (r ∷ rs) = holds a r.start r.len + total a rs

total_sum : (a : ℕ) (rs : List Region) → total a rs ≡ ram_total a rs + io_total a rs
total_sum a [] = omega arith
total_sum a (r ∷ rs) = elim (Bool-cases (is_ram r.type)) [
  | inl e ↦ rw e (omega (arith, total_sum a rs))
  | inr e ↦ rw e (omega (arith, total_sum a rs))
]

total_nil : (rs : List Region) → RegionsFit rs → total 0 rs ≡ 0
total_nil [] g = refl
total_nil (r ∷ rs) g = ground (arith, total_nil rs g.1, g.0.0)

-- The lists that the set-up leaves.
record SetUp (rgs : List Region) (r : Option Store) : Type 0 where
  pub final : Store
  pub ends : r ≡ some final
  pub ram : List ℕ
  pub io : List ℕ
  pub one : length ram ≡ 1
  pub few : length io ≤ suc (length rgs)
  pub ledger : Ledger final ram io
  pub bytes : (a : ℕ) → free a final.pages ram + free a final.pages io ≤ total a rgs

-- Regions that process 0 can use: those of memory do not overlap.
pub record Usable (rgs : List Region) : Type 0 where
  pub fit : RegionsFit rgs
  pub memory : any_ram rgs ≡ true
  pub few : length rgs ≤ 511
  pub once : (a : ℕ) → ram_total a rgs ≤ 1

init_sections-SetUp :
    (f : ℕ) (rgs : List Region) (pages : Pages)
    → length rgs + 2 ≤ f
    → Usable rgs
    → SetUp rgs (init_sections (suc f) rgs (record { ram = 0; io = 0; pages = pages }))
unfolding init_sections Option.bind
init_sections-SetUp f rgs pages lt u =
    let d =
      init_ram_sections-Adds f rgs (record { ram = 0; io = 0; pages = pages }) u.fit u.memory u.few
        (ground arith) in
    let nil : ram_total 0 rgs ≡ 0 = omega (arith, total_nil rgs u.fit, total_sum 0 rgs) in
    let x =
      init_io_sections-IoListed (suc f) rgs d.final (λ a. ram_total a rgs) d.listed d.roomy u.once
        nil u.fit (omega arith) in
    rw (d.ends) (record {
      final = x.final;
      ends = x.ends;
      ram = d.final.ram ∷ [];
      io = x.io;
      one = refl;
      few = omega (arith, x.longer);
      ledger = x.ledger;
      bytes = λ a. omega (arith, x.ram a, x.bytes a, d.listed.bytes a, total_sum a rgs);
    })

-- What `main` must give.
pub record GivenOnce (rgs : List Region) (r : Option (Store × List FirstMessage × List Answer))
    : Type 0 where
  pub final : Store
  pub sent : List FirstMessage
  pub answers : List Answer
  pub ends : r ≡ some (final, sent, answers)
  pub bytes : (a : ℕ) → started_by a sent + granted_by a answers ≤ total a rgs

-- If there are at most 511 regions and one of them is memory, none starts at nil or reaches the
-- end of the 32-bit addresses, those of memory have two pages or more and do not overlap, the
-- ranges of the messages end in the 32-bit addresses, and the fuel is at least 4 and twice the
-- number of regions and messages, then `main` of process 0 ends, and the pages that the new
-- processes start with and the ranges that it accepts for the requests together hold each address
-- at most as often as the regions do.
pub main-GivenOnce :
    (f : ℕ) (rgs : List Region) (texts : List ℕ) (ms : List Request) (pages : Pages)
    → Usable rgs
    → AllInRange ms
    → 4 + 2 * (length rgs + length ms) ≤ f
    → GivenOnce rgs (main f rgs texts ms pages)
unfolding main
main-GivenOnce zero rgs texts ms pages u r lt = absurd (omega arith)
main-GivenOnce (suc f) rgs texts ms pages u r lt =
    let s = init_sections-SetUp f rgs pages (omega arith) u in
    let b = init_procs-Begun (suc f) s.ram s.io (omega (arith, s.one)) texts s.final s.ledger in
    let d =
      main_loop-Served (suc f) ms b.outcome.0 s.ram s.io (omega (arith, s.one, s.few)) r b.ledger in
    rw (main, s.ends, b.ends, d.ends)
      (record {
        final = d.outcome.0;
        sent = b.outcome.1;
        answers = d.outcome.1;
        ends = refl;
        bytes = λ a. omega (arith, s.bytes a, b.bytes a, d.bytes a);
      })
