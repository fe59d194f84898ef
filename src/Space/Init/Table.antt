-- ===== src/Space/Init/Table.antt =====
-- The table that `init_memory` of am335x/kern/mem.c leaves.
use omb.Base.{
  ℕ, ◌-◌, ◌*◌, ◌/◌, ◌^◌, ◌<◌, ◌≤◌, ◌≡◌, ◌∙◌, refl, ap, fun_ext, Bool, true, false, ◌&&◌, Option,
  some, List, [], ◌∷◌, arith, has, if◌then◌else◌, ltb, leb, ◌==◌, ◌+◌,
}
use mathlib.Core.Option
use omb.Space.{Memory, l1_fault, ap_rw_rw, ap_rw_no}
use omb.Space.Sections.{section_entry, sections, imap_lem}
use omb.Space.Init.{Layout, Region, Mapping, mappings, regions, imap_all, init_memory}

-- The sections with registers that processes may use.
abbrev shared : List ℕ
shared = 0x44E ∷ 0x474 ∷ 0x478 ∷ 0x480 ∷ 0x481 ∷ []

-- What the table must hold: those sections, that of the interrupt controller for the kernel alone,
-- the memory, and nothing else.
abbrev pub board_entry : Layout → ℕ → ℕ
board_entry l j =
    if has j shared
    then section_entry j ap_rw_rw false
    else if j == 0x482
    then section_entry j ap_rw_no false
    else if leb (l.ram_start / 2 ^ 20) j && ltb (2 ^ 20 * j) l.ram_end
    then section_entry j ap_rw_rw true
    else l1_fault

-- The table after the calls of `imap`, one after the other.
abbrev after_calls : List Mapping → Memory → Memory
after_calls [] ttb = ttb
after_calls (c ∷ cs) ttb = after_calls cs (λ j.
    if leb (c.start / 2 ^ 20) j && ltb j (c.start / 2 ^ 20 + sections c.start c.end)
    then section_entry j c.ap c.cachable
    else ttb j)

abbrev AllLow : List Mapping → Type 0
AllLow [] = Unit
AllLow (c ∷ cs) = ((c.start < 2 ^ 32) × (c.end ≤ 2 ^ 32 - 2 ^ 20) × (c.ap < 4)) × AllLow cs

imap_all-after_calls :
    (cs : List Mapping) (ttb : Memory) → AllLow cs → imap_all cs ttb ≡ some (after_calls cs ttb)
unfolding imap_all Option.bind
imap_all-after_calls [] ttb a = refl
imap_all-after_calls (c ∷ cs) ttb a =
    let m = imap_lem ttb c.start c.end c.ap c.cachable a.0.0 a.0.1 a.0.2 in
    ap (λ (o : Option Memory). Option.bind o (imap_all cs)) (m.ends ∙ ap some (fun_ext m.entries))
    ∙ imap_all-after_calls cs _ a.1

abbrev all_low : List Mapping → Bool
all_low [] = true
all_low (c ∷ cs) = (ltb c.start (2 ^ 32) && leb c.end (2 ^ 32 - 2 ^ 20) && ltb c.ap 4) && all_low cs

AllLow-all_low : (cs : List Mapping) → all_low cs ≡ true → AllLow cs
AllLow-all_low [] e = tt
AllLow-all_low (c ∷ cs) e = (
  (ground (arith, e), ground (arith, e), ground (arith, e)),
  AllLow-all_low cs (ground (arith, e)),
)

-- The mappings behind the first one, that of the memory.
abbrev behind : List Mapping → List Mapping
behind [] = []
behind (c ∷ cs) = cs

abbrev devices : Layout → List Mapping
unfolding mappings
devices l = behind (mappings l)

-- What `init_memory` must give.
pub record SetUp (l : Layout) (r : Option (Memory × List Region)) : Type 0 where
  pub table : Memory
  pub ends : r ≡ some (table, regions l)
  pub entries : (j : ℕ) → j < 4096 → table j ≡ board_entry l j

module _ (l : Layout) (ttb : Memory) (low : 0x80000000 ≤ l.ram_start) (up : l.ram_start ≤ l.ram_end)
    (high : l.ram_end ≤ 2 ^ 32 - 2 ^ 20) where
  abbrev cleared : Memory
  cleared i = if ltb i 4096 then l1_fault else ttb i

  calls_low : AllLow (mappings l)
  unfolding mappings
  calls_low = ((omega arith, high, omega arith), AllLow-all_low (devices l) refl)

  entries_lem : (j : ℕ) → j < 4096 → after_calls (mappings l) cleared j ≡ board_entry l j
  unfolding mappings
  entries_lem j h = ground arith

  -- If the memory starts at 2 GiB or above and ends at most 1 MiB below 4 GiB, then `init_memory`
  -- ends with the listed regions and a table that maps, each to itself: the five sections with
  -- registers for processes, without caching, B set, and with access 3, for the processes too;
  -- the section of the interrupt controller, without caching and with access 1, for the kernel
  -- alone; the sections of the memory, with caching, TEX 7 and C set, and with access 3; and no
  -- other section.
  pub init_memory-SetUp : SetUp l (init_memory l ttb)
  unfolding init_memory
  init_memory-SetUp = record {
    table = after_calls (mappings l) cleared;
    ends =
        ap (Option.map (λ (t : Memory). (t, regions l)))
          (imap_all-after_calls (mappings l) cleared calls_low);
    entries = entries_lem;
  }
