-- ===== src/Space.antt =====
-- am335x/kern/mem.c: the translation tables of an address space. Memory is the family of its
-- 32-bit words by byte address; a table is read and written at `tab + 4 * index`.
pub mod Entry
pub mod Mapping
pub mod Sections
pub mod Init
use omb.Base.{
  ℕ, zero, suc, ◌+◌, ◌-◌, ◌*◌, ◌/◌, ◌%◌, ◌^◌, ◌≡◌, Bool, true, false, not, ◌&&◌, bit_and, bit_or,
  ltb, leb, ◌==◌, Option, none, some, if◌then◌else◌, update,
}

abbrev pub Memory : Type 0
Memory = ℕ → ℕ

-- am335x/include/mach.h
abbrev pub page_size : ℕ
page_size = 4096

abbrev pub page_mask : ℕ
page_mask = 0xfffff000

unfoldable pub page_align : ℕ → ℕ
page_align x = bit_and ((x + page_size - 1) % 2 ^ 32) page_mask

-- include/c.h
abbrev pub addr_give : ℕ
addr_give = 0

abbrev pub addr_take : ℕ
addr_take = 1

abbrev pub addr_read : ℕ
addr_read = 2

abbrev pub addr_write : ℕ
addr_write = 4

abbrev pub addr_cache : ℕ
addr_cache = 8

abbrev pub ap_rw_no : ℕ
ap_rw_no = 1

abbrev pub ap_rw_ro : ℕ
ap_rw_ro = 2

abbrev pub ap_rw_rw : ℕ
ap_rw_rw = 3

abbrev pub l1_fault : ℕ
l1_fault = 0

abbrev pub l1_coarse : ℕ
l1_coarse = 1

abbrev pub l1_section : ℕ
l1_section = 2

abbrev pub l2_fault : ℕ
l2_fault = 0

abbrev pub l2_small : ℕ
l2_small = 2

-- ~L1_TYPE
abbrev pub l1_base : ℕ
l1_base = 0xfffffffc

unfoldable pub l1x : ℕ → ℕ
l1x va = va / 2 ^ 20

unfoldable pub l2x : ℕ → ℕ
l2x va = bit_and (va / 2 ^ 12) (2 ^ 8 - 1)

abbrev pub flag_set : ℕ → ℕ → Bool
flag_set flags f = not (bit_and flags f == 0)

-- The loop of `imap`: one section of a megabyte a round, until `x` reaches `end`. `none` is a
-- loop that goes on, since `x` wraps before it reaches an `end` in the last megabyte.
unfoldable pub imap_loop : ℕ → Memory → (x end mask : ℕ) → Option Memory
unfolding l1x
imap_loop zero ttb x end mask = none
imap_loop (suc f) ttb x end mask = elim (ltb x end) [
  | true ↦ imap_loop f (update ttb (l1x x) (bit_or x mask)) ((x + 2 ^ 20) % 2 ^ 32) end mask
  | false ↦ some ttb
]

-- `mask` of `imap`
unfoldable pub imap_bits : ℕ → Bool → ℕ
imap_bits ap cachable =
    let mask : ℕ = bit_or (ap * 2 ^ 10) l1_section in
    if cachable
    then bit_or mask (bit_or (bit_or (7 * 2 ^ 12) (1 * 2 ^ 3)) (0 * 2 ^ 2))
    else bit_or mask (bit_or (bit_or (0 * 2 ^ 12) (0 * 2 ^ 3)) (1 * 2 ^ 2))

-- imap(start, end, ap, cachable) on the kernel's table `ttb`, by index; the table has 4096
-- entries, which is the fuel.
unfoldable pub imap : Memory → (start end ap : ℕ) → Bool → Option Memory
unfolding imap_loop imap_bits
imap ttb start end ap cachable =
    imap_loop 4097 ttb (bit_and start 0xfff00000) end (imap_bits ap cachable)

-- The entry that `l2_map` writes.
unfoldable pub l2_entry : (pa ap cachable : ℕ) → ℕ
l2_entry pa ap cachable =
    let tex = if cachable == 0 then 0 else 7 in
    let b = if cachable == 0 then 1 else 0 in
    bit_or
      (bit_or (bit_or (bit_or (bit_or pa l2_small) (tex * 2 ^ 6)) (ap * 2 ^ 4)) (cachable * 2 ^ 3))
      (b * 2 ^ 2)

unfoldable pub l2_map : Memory → (tab pa va ap cachable : ℕ) → Memory
unfolding l2_entry l2x
l2_map m tab pa va ap cachable = update m (tab + 4 * l2x va) (l2_entry pa ap cachable)

-- memset(tab, 0, PAGE_SIZE)
unfoldable pub clear_page : Memory → ℕ → Memory
clear_page m tab a = if leb tab a && ltb a (tab + page_size) then 0 else m a

-- The end of `space_map`, once the table is known.
unfoldable pub map_in : Memory → (tab pa va flags : ℕ) → Memory
unfolding l2_map
map_in m tab pa va flags =
    let c = if flag_set flags addr_cache then 1 else 0 in
    let ap = if flag_set flags addr_write then ap_rw_rw else ap_rw_ro in l2_map m tab pa va ap c

-- space_map(space, pa, va, flags, get_page, arg); `page` is what `get_page(arg)` returns.
unfoldable pub space_map : Memory → (space pa va flags page : ℕ) → Memory × Bool
unfolding l1x map_in clear_page
space_map m space pa va flags page =
    let slot = space + 4 * l1x va in
    if m slot == l1_fault
    then (if page == 0
        then (m, false)
        else (let m' = update (clear_page m page) slot (bit_or page l1_coarse) in
            (map_in m' page pa va flags, true)))
    else (map_in m (bit_and (m slot) l1_base) pa va flags, true)

unfoldable pub flags_from_map : ℕ → ℕ
flags_from_map v =
    let f : ℕ = addr_read in
    let f' = if bit_and (v / 2 ^ 4) 3 == ap_rw_rw then bit_or f addr_write else f in
    if bit_and (v / 2 ^ 2) 1 == 1 then bit_or f' addr_cache else f'

-- space_find(space, va, flags): the address, and what it stores through `flags` (`none` where it
-- returns before it stores).
unfoldable pub space_find_flags : Memory → (space va flags : ℕ) → ℕ × ℕ
unfolding l1x l2x flags_from_map
space_find_flags m space va flags =
    let tab = bit_and (m (space + 4 * l1x va)) l1_base in
    if tab == 0
    then (0, flags)
    else (let pa = m (tab + 4 * l2x va) in (bit_and pa page_mask, flags_from_map pa))

unfoldable pub space_find : Memory → (space va : ℕ) → ℕ
unfolding space_find_flags
space_find m space va = (space_find_flags m space va 0).0

unfoldable pub space_unmap : Memory → (space va : ℕ) → Memory
unfolding l1x l2x
space_unmap m space va =
    let tab = bit_and (m (space + 4 * l1x va)) l1_base in
    if tab == 0 then m else update m (tab + 4 * l2x va) l2_fault
