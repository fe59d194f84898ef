-- ===== src/Proc0.antt =====
-- am335x/proc0/main.c: the process that hands out memory. It keeps two lists of sections, of free
-- memory (`ram`) and of device registers (`io`). A list is a chain of pages that each start with a
-- holder: the next page and a table of sections. The heap `Pages` gives the holder at an address;
-- an address is a number and nil is 0. Registers have 32 bits.
use omb.Base.{
  ℕ, zero, suc, ◌+◌, ◌-◌, ◌*◌, ◌/◌, ◌%◌, ◌^◌, Bool, true, false, not, ◌&&◌, ◌||◌, Option, none,
  some, List, [], ◌∷◌, ltb, leb, ◌==◌, if◌then◌else◌, update, replicate, bit_or,
}
use omb.Space.Init.{RegionType, Region, region_ram, region_io}
use omb.Space.{page_size, page_align, addr_read, addr_write, addr_give, addr_cache}
use mathlib.Core.Option
pub mod Ram
pub mod Add
pub mod SetUp
pub mod Main
pub mod Requests
pub mod Ledger

-- struct section
pub record Section : Type 0 where
  pub start : ℕ
  pub len : ℕ

-- struct section_holder; `nsections` is the length of the table.
pub record Holder : Type 0 where
  pub next : ℕ
  pub sections : List Section

abbrev pub Pages : Type 0
Pages = ℕ → Holder

-- The static variables and the pages they lead to.
pub record Store : Type 0 where
  pub ram : ℕ
  pub io : ℕ
  pub pages : Pages

-- (PAGE_SIZE - sizeof(struct section_holder)) / sizeof(struct section)
abbrev pub nsections : ℕ
nsections = (page_size - 8) / 8

-- The search of `get_ram` in one table: the table after it, and the address.
unfoldable pub take_ram : ℕ → List Section → Option (List Section × ℕ)
take_ram len [] = none
take_ram len (s ∷ ss) =
    let rest = take_ram len ss in
    if leb len s.len
    then some (record s { len = s.len - len } ∷ ss, (s.start + (s.len - len)) % 2 ^ 32)
    else Option.map (λ (r : List Section × ℕ). (s ∷ r.0, r.1)) rest

-- A round of `get_ram`: what it found in the table of the holder at `h`, else what is found in the
-- holders behind.
unfoldable pub ram_found :
    Pages → ℕ → Option (List Section × ℕ) → Option (Pages × ℕ) → Option (Pages × ℕ)
ram_found ps h none behind = behind
ram_found ps h (some (ss, addr)) behind = some (update ps h (record (ps h) { sections = ss }), addr)

-- The loop of `get_ram` from the holder `h` on; on fuel, `none` where the chain is not ended.
unfoldable pub get_ram_loop : ℕ → ℕ → Pages → ℕ → Option (Pages × ℕ)
unfolding ram_found take_ram
get_ram_loop zero len ps h = none
get_ram_loop (suc f) len ps h =
    let behind = get_ram_loop f len ps (ps h).next in
    if h == 0 then some (ps, 0) else ram_found ps h (take_ram len (ps h).sections) behind

-- get_ram(len): the store after the call, and the address, 0 for nil.
unfoldable pub get_ram : ℕ → ℕ → Store → Option (Store × ℕ)
unfolding get_ram_loop
get_ram f len st =
    Option.map (λ (r : Pages × ℕ). (record st { pages = r.0 }, r.1))
      (get_ram_loop f len st.pages st.ram)

-- The search of `addr_add` in one table: the first empty section is set.
unfoldable pub put_section : (start len : ℕ) → List Section → Option (List Section)
put_section start len [] = none
put_section start len (s ∷ ss) =
    let rest = put_section start len ss in
    if s.len == 0
    then some (record { start = start; len = len } ∷ ss)
    else Option.map (λ (r : List Section). s ∷ r) rest

-- A page that `addr_add` or `init_*_sections` clears for a holder.
unfoldable pub empty_holder : Holder
empty_holder = record { next = 0; sections = replicate nsections (record { start = 0; len = 0 }) }

-- The link to the page `page` behind the holder `h`; for nil nothing else is written.
unfoldable pub add_holder : ℕ → Store → ℕ → Store
unfolding empty_holder
add_holder h st page =
    let linked = record st { pages = update st.pages h (record (st.pages h) { next = page }) } in
    if page == 0 then linked else record linked { pages = update linked.pages page empty_holder }

unfoldable pub set_sections : Store → ℕ → List Section → Store
set_sections st h ss = record st {
  pages = update st.pages h (record (st.pages h) { sections = ss });
}

-- addr_add(holder, start, len)
unfoldable pub addr_add : ℕ → (holder start len : ℕ) → Store → Option Store
unfolding put_section get_ram add_holder set_sections
addr_add zero holder start len st = none
addr_add (suc f) holder start len st = elim (holder == 0) [
  | true ↦ some st
  | false ↦ elim (put_section start len (st.pages holder).sections) [
    | some ss ↦ some (set_sections st holder ss)
    | none ↦ elim ((st.pages holder).next == 0) [
      | false ↦ addr_add f (st.pages holder).next start len st
      | true ↦ elim (get_ram f page_size st) [
        | none ↦ none
        | some (st', page) ↦ elim (page == 0) [
          | true ↦ some (add_holder holder st' page)
          | false ↦ addr_add f page start len (add_holder holder st' page)
        ]
      ]
    ]
  ]
]

-- The tests of `get_io` on a section, on 32 bits.
unfoldable pub io_holds : (addr len : ℕ) → Section → Bool
io_holds addr len s = leb s.start addr && leb ((addr + len) % 2 ^ 32) ((s.start + s.len) % 2 ^ 32)

-- The first section of a table that holds the range: its index.
unfoldable pub find_io : (addr len : ℕ) → ℕ → List Section → Option (ℕ × Section)
unfolding io_holds
find_io addr len i [] = none
find_io addr len i (s ∷ ss) =
    let rest = find_io addr len (i + 1) ss in if io_holds addr len s then some (i, s) else rest

-- `s->len = addr - s->start` on section `i` of a table.
unfoldable pub cut_section : (i addr : ℕ) → List Section → List Section
cut_section i addr [] = []
cut_section zero addr (s ∷ ss) = record s { len = (addr + 2 ^ 32 - s.start) % 2 ^ 32 } ∷ ss
cut_section (suc i) addr (s ∷ ss) = s ∷ cut_section i addr ss

-- What `get_io` does with the section it found: the rest behind the range is added as a section of
-- its own, and the section is cut off before the range.
unfoldable pub take_io : ℕ → (addr len : ℕ) → Store → (h i : ℕ) → Section → Option (Store × ℕ)
unfolding addr_add cut_section set_sections
take_io f addr len st h i s =
    Option.map (λ (t : Store). (set_sections t h (cut_section i addr (t.pages h).sections), addr))
      (if ltb ((addr + len) % 2 ^ 32) ((s.start + s.len) % 2 ^ 32)
        then addr_add f st.io ((addr + len) % 2 ^ 32)
            ((s.start + s.len + 2 * 2 ^ 32 - addr - len) % 2 ^ 32) st
        else some st)

unfoldable pub get_io_loop : ℕ → (addr len : ℕ) → Store → ℕ → Option (Store × ℕ)
unfolding find_io take_io
get_io_loop zero addr len st h = none
get_io_loop (suc f) addr len st h = elim (h == 0) [
  | true ↦ some (st, 0)
  | false ↦ elim (find_io addr len 0 (st.pages h).sections) [
    | none ↦ get_io_loop f addr len st (st.pages h).next
    | some (i, s) ↦ take_io f addr len st h i s
  ]
]

-- get_io(addr, len)
unfoldable pub get_io : ℕ → (addr len : ℕ) → Store → Option (Store × ℕ)
unfolding get_io_loop
get_io f addr len st = get_io_loop f addr len st st.io
