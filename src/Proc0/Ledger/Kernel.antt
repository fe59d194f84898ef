-- ===== src/Proc0/Ledger/Kernel.antt =====
-- `init_memory` of kern/mem.c and `main` of proc0/main.c: the regions of the board go through both.
use omb.Base.{
  ℕ, zero, suc, ◌+◌, ◌*◌, ◌^◌, ◌<◌, ◌≤◌, ◌≡◌, refl, Bool, true, false, not, ◌&&◌, ◌||◌, Option,
  some, List, [], ◌∷◌, arith, ltb, leb, length, Bool-cases, inl, inr,
}
use omb.Space.Init.{Region, Layout, regions}
use omb.Proc0.{Pages, Store}
use omb.Proc0.SetUp.{FirstMessage, is_ram}
use omb.Proc0.Main.{Answer, Request, main}
use omb.Proc0.Ledger.{holds}
use omb.Proc0.Ledger.Ready.{ram_total, RegionsFit}
use omb.Proc0.Ledger.Once.{total, Usable, main-GivenOnce}
use omb.Proc0.Ledger.Procs.{started_by}
use omb.Proc0.Ledger.Requests.{AllInRange, granted_by}

-- A linker script that puts the kernel into the memory, at 2 GiB or above, with two pages or more
-- on each side.
pub record Placed (l : Layout) : Type 0 where
  pub low : 0x80000000 ≤ l.ram_start
  pub ahead : l.ram_start + 8192 ≤ l.kernel_start
  pub inside : l.kernel_start ≤ l.kernel_end
  pub behind : l.kernel_end + 8192 ≤ l.ram_end
  pub high : l.ram_end < 2 ^ 32

-- Tests on a list of regions of registers: none starts at nil or reaches the end of the addresses.
abbrev registers_fit : List Region → Bool
registers_fit [] = true
registers_fit (r ∷ rs) =
    ltb 0 r.start && ltb (r.start + r.len) (2 ^ 32) && not (is_ram r.type) && registers_fit rs

registers_fit_lem : (rs : List Region) → registers_fit rs ≡ true → RegionsFit rs
registers_fit_lem [] e = tt
registers_fit_lem (r ∷ rs) e =
    let io : is_ram r.type ≡ false = ground (arith, e) in
    (
      (ground (arith, e), ground (arith, e), λ m. absurd (ground (arith, io, m))),
      registers_fit_lem rs (ground (arith, e)),
    )

-- The regions behind the two of memory.
abbrev drop_two : List Region → List Region
drop_two (r ∷ s ∷ rs) = rs
drop_two rs = []

abbrev registers : Layout → List Region
unfolding regions
registers l = drop_two (regions l)

fits : (l : Layout) → Placed l → RegionsFit (regions l)
unfolding regions
fits l p = (
  (
    omega (arith, p.low),
    omega (arith, p.low, p.ahead, p.inside, p.behind, p.high),
    λ e. omega (arith, p.ahead),
  ),
  (
    (
      omega (arith, p.low, p.ahead, p.inside),
      omega (arith, p.behind, p.high),
      λ e. omega (arith, p.behind),
    ),
    registers_fit_lem (registers l) refl,
  ),
)

regions-Usable : (l : Layout) → Placed l → Usable (regions l)
unfolding regions
regions-Usable l p = record {
  fit = fits l p;
  memory = refl;
  few = omega arith;
  once = λ a. ground (arith, p.ahead, p.inside, p.behind);
}

abbrev drop_at : ℕ → List Region → List Region
drop_at i [] = []
drop_at zero (r ∷ rs) = rs
drop_at (suc i) (r ∷ rs) = r ∷ drop_at i rs

-- The registers of GPIO3, which are listed twice.
abbrev pub gpio3 : ℕ → ℕ
gpio3 a = holds a 0x481AE000 0x1000

-- Tests on a list of regions: none overlaps another, and all end at or below a bound.
abbrev apart_from : Region → List Region → Bool
apart_from r [] = true
apart_from r (s ∷ ss) =
    (leb (r.start + r.len) s.start || leb (s.start + s.len) r.start) && apart_from r ss

abbrev all_apart : List Region → Bool
all_apart [] = true
all_apart (r ∷ rs) = apart_from r rs && all_apart rs

abbrev all_end_by : ℕ → List Region → Bool
all_end_by b [] = true
all_end_by b (r ∷ rs) = leb (r.start + r.len) b && all_end_by b rs

outside_total :
    (a : ℕ) (r : Region) (rs : List Region)
    → apart_from r rs ≡ true
    → holds a r.start r.len ≡ 1
    → total a rs ≡ 0
outside_total a r [] e h = refl
outside_total a r (s ∷ ss) e h =
    let none_of : holds a s.start s.len ≡ 0 = ground (arith, e, h) in
    omega (arith, none_of, outside_total a r ss (ground (arith, e)) h)

apart_total : (a : ℕ) (rs : List Region) → all_apart rs ≡ true → total a rs ≤ 1
apart_total a [] e = omega arith
apart_total a (r ∷ rs) e =
    ground (arith, apart_total a rs (ground (arith, e)), outside_total a r rs (ground (arith, e)))

above_total : (a b : ℕ) (rs : List Region) → all_end_by b rs ≡ true → b ≤ a → total a rs ≡ 0
above_total a b [] e h = refl
above_total a b (r ∷ rs) e h =
    let none_of : holds a r.start r.len ≡ 0 = ground (arith, e, h) in
    omega (arith, none_of, above_total a b rs (ground (arith, e)) h)

-- The regions of registers, each once.
abbrev each_once : Layout → List Region
unfolding regions
each_once l = drop_at 6 (registers l)

regions_sum :
    (l : Layout) (a : ℕ)
    → total a (regions l) ≡ ram_total a (regions l) + total a (each_once l) + gpio3 a
unfolding regions
regions_sum l a = omega arith

ram_low : (l : Layout) → Placed l → (a : ℕ) → a < 0x80000000 → ram_total a (regions l) ≡ 0
unfolding regions
ram_low l p a h = ground (arith, p.low, p.ahead, p.inside)

gpio3_high : (a : ℕ) → 0x80000000 ≤ a → gpio3 a ≡ 0
gpio3_high a h = ground arith

total-regions : (l : Layout) → Placed l → (a : ℕ) → total a (regions l) ≤ 1 + gpio3 a
unfolding regions
total-regions l p a = elim (Bool-cases (ltb a 0x80000000)) [
  | inl e ↦
      omega (
        arith,
        regions_sum l a,
        ram_low l p a (ground (arith, e)),
        apart_total a (each_once l) refl,
      )
  | inr e ↦
      let high : 0x80000000 ≤ a = ground (arith, e) in
      omega (
        arith,
        regions_sum l a,
        Usable.once (regions-Usable l p) a,
        above_total a 0x80000000 (each_once l) refl high,
        gpio3_high a high,
      )
]

-- What process 0 gives away of the board.
pub record BoardGiven (r : Option (Store × List FirstMessage × List Answer)) : Type 0 where
  pub final : Store
  pub sent : List FirstMessage
  pub answers : List Answer
  pub ends : r ≡ some (final, sent, answers)
  pub once : (a : ℕ) → gpio3 a ≡ 0 → started_by a sent + granted_by a answers ≤ 1
  pub twice : (a : ℕ) → started_by a sent + granted_by a answers ≤ 2

-- If the memory starts at 2 GiB or above, ends below 4 GiB, and has two pages or more on each
-- side of the kernel, the ranges of the messages end in the 32-bit addresses, and the fuel is at
-- least 26 and twice their number, then `main` of process 0, on the regions that the kernel
-- lists, ends. The pages that the new processes start with and the ranges that it accepts for the
-- requests together hold each address at most once, but for the registers of GPIO3, whose
-- addresses they hold at most twice.
pub main-regions :
    (f : ℕ) (l : Layout) (texts : List ℕ) (ms : List Request) (pages : Pages)
    → Placed l
    → AllInRange ms
    → 26 + 2 * length ms ≤ f
    → BoardGiven (main f (regions l) texts ms pages)
unfolding regions
main-regions f l texts ms pages p r lt =
    let g = main-GivenOnce f (regions l) texts ms pages (regions-Usable l p) r (omega arith) in
    record {
      final = g.final;
      sent = g.sent;
      answers = g.answers;
      ends = g.ends;
      once = λ a z. omega (arith, g.bytes a, total-regions l p a, z);
      twice = λ a. ground (arith, g.bytes a, total-regions l p a);
    }
