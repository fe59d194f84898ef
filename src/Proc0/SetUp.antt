-- ===== src/Proc0/SetUp.antt =====
-- The set-up of proc0/main.c: the lists from the regions of the kernel page, and the processes that
-- it creates.
use omb.Base.{
  ℕ, ◌+◌, ◌-◌, ◌%◌, ◌^◌, Bool, true, false, Option, none, some, List, [], ◌∷◌, ◌==◌, if◌then◌else◌,
  update,
}
use omb.Space.Init.{RegionType, Region, region_ram, region_io}
use omb.Space.{page_size}
use mathlib.Core.Option
use omb.Proc0.{Store, addr_add, empty_holder, get_ram}

abbrev pub is_ram : RegionType → Bool
is_ram region_ram = true
is_ram region_io = false

-- A page at `page` that becomes the first holder of a list.
unfoldable pub clear_holder : ℕ → Store → Store
unfolding empty_holder
clear_holder page st = record st { pages = update st.pages page empty_holder }

-- A region in the loop of `init_ram_sections`: the first one gives the first page of holders.
unfoldable pub add_ram : ℕ → Region → Store → Option Store
unfolding addr_add clear_holder
add_ram f r st =
    if st.ram == 0
    then addr_add f r.start ((r.start + page_size) % 2 ^ 32)
        ((r.len + (2 ^ 32 - page_size)) % 2 ^ 32)
        (clear_holder r.start (record st { ram = r.start }))
    else addr_add f st.ram r.start r.len st

-- The loop of `init_ram_sections`, which stops at a region that starts at 0.
unfoldable pub init_ram_sections : ℕ → List Region → Store → Option Store
unfolding add_ram
init_ram_sections f [] st = some st
init_ram_sections f (r ∷ rs) st =
    if r.start == 0
    then some st
    else if is_ram r.type
    then Option.bind (add_ram f r st) (init_ram_sections f rs)
    else init_ram_sections f rs st

-- The loop of `init_io_sections`.
unfoldable pub add_io : ℕ → List Region → Store → Option Store
unfolding addr_add
add_io f [] st = some st
add_io f (r ∷ rs) st =
    if r.start == 0
    then some st
    else if is_ram r.type
    then add_io f rs st
    else Option.bind (addr_add f st.io r.start r.len st) (add_io f rs)

-- The first page of the io list, taken from the memory; what page 0 would be written is undefined.
unfoldable pub io_page : Store × ℕ → Store
unfolding clear_holder
io_page (st, page) = clear_holder page (record st { io = page })

unfoldable pub init_io_sections : ℕ → List Region → Store → Option Store
unfolding get_ram io_page add_io
init_io_sections f rs st = Option.bind (Option.map io_page (get_ram f page_size st)) (add_io f rs)

unfoldable pub init_sections : ℕ → List Region → Store → Option Store
unfolding init_ram_sections init_io_sections
init_sections f rs st = Option.bind (init_ram_sections f rs st) (init_io_sections f rs)

-- The three pages that `init_procs` takes for a process, and the registers that it sends.
pub record FirstMessage : Type 0 where
  pub page : ℕ
  pub space : ℕ
  pub pc : ℕ
  pub sp : ℕ

-- The three calls of `get_ram` for a process whose text is at `text` in the loaded image.
unfoldable pub new_process : ℕ → (text : ℕ) → Store → Option (Store × FirstMessage)
unfolding get_ram
new_process f text st = elim (get_ram f page_size st) [
  | none ↦ none
  | some (st1, page) ↦ elim (get_ram f page_size st1) [
    | none ↦ none
    | some (st2, space) ↦ elim (get_ram f page_size st2) [
      | none ↦ none
      | some (st3, stack) ↦ some (
        st3,
        record {
          page = page;
          space = space;
          pc = (0x82006000 + text) % 2 ^ 32;
          sp = (stack + page_size) % 2 ^ 32;
        },
      )
    ]
  ]
]

-- The loop of `init_procs` over the table of the programs, which ends with nil: the processes to
-- create, each with the message that is then sent to it.
unfoldable pub init_procs : ℕ → List ℕ → Store → Option (Store × List FirstMessage)
unfolding new_process
init_procs f [] st = some (st, [])
init_procs f (text ∷ texts) st = elim (new_process f text st) [
  | none ↦ none
  | some (st', m) ↦
      Option.map (λ (r : Store × List FirstMessage). (r.0, m ∷ r.1)) (init_procs f texts st')
]
