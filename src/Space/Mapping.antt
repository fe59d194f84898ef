-- ===== src/Space/Mapping.antt =====
-- `space_map`, `space_find` and `space_unmap` of mem.c against each other.
use omb.Base.{
  ℕ, ◌+◌, ◌*◌, ◌^◌, ◌<◌, ◌≡◌, refl, ap, ◌∙◌, ◌≢◌, Bool, true, false, bit_and, bit_or, arith,
  if◌then◌else◌, ◌==◌, ◌⊎◌, sym, subst, fun_ext, leb, ltb, ◌&&◌, update, update_self, update_ne,
}
use omb.Space.{
  Memory, page_mask, addr_read, addr_write, addr_cache, ap_rw_rw, ap_rw_ro, flag_set, l1_base,
  l1_fault, l1_coarse, l1x, l2x, l2_entry, l2_map, clear_page, map_in, space_map, flags_from_map,
  space_find_flags, space_unmap,
}
use omb.Space.Entry.{l2_entry-address, l2_entry-flags, l1_base_lem, coarse_lem}

-- The first-level entry of an address.
abbrev pub slot : (space va : ℕ) → ℕ
slot space va = space + 4 * l1x va

-- The second-level table of an address is the page `t`, not the page 0.
abbrev pub TableAt : Memory → (space va t : ℕ) → Type 0
TableAt m space va t = (m (slot space va) ≡ 4096 * t + 1) × (0 < t) × (t < 2 ^ 20)

-- The second-level entry of an address in the table `t`.
abbrev pub cell : (t va : ℕ) → ℕ
cell t va = 4096 * t + 4 * l2x va

table_of :
    (m : Memory) (space va t : ℕ)
    → TableAt m space va t
    → bit_and (m (slot space va)) l1_base ≡ 4096 * t
table_of m space va t h = ap (λ (x : ℕ). bit_and x l1_base) h.0 ∙ l1_base_lem t h.2

-- Where the table is known, `space_find` reads its entry,
pub space_find-cell :
    (m : Memory) (space va t flags : ℕ)
    → TableAt m space va t
    → space_find_flags m space va flags
      ≡ (bit_and (m (cell t va)) page_mask, flags_from_map (m (cell t va)))
unfolding space_find_flags
space_find-cell m space va t flags h =
    let nz : (4096 * t == 0) ≡ false = ground arith in rw (table_of m space va t h, nz)

-- and `space_unmap` clears it.
pub space_unmap-cell :
    (m : Memory) (space va t : ℕ)
    → TableAt m space va t
    → space_unmap m space va ≡ update m (cell t va) 0
unfolding space_unmap
space_unmap-cell m space va t h =
    let nz : (4096 * t == 0) ≡ false = ground arith in rw (table_of m space va t h, nz)

abbrev pub access : ℕ → ℕ
access flags = if flag_set flags addr_write then ap_rw_rw else ap_rw_ro

abbrev pub caching : ℕ → ℕ
caching flags = if flag_set flags addr_cache then 1 else 0

-- `space_map` into a table that is there writes the entry.
pub space_map-cell :
    (m : Memory) (space va t pa flags page : ℕ)
    → TableAt m space va t
    → space_map m space pa va flags page
      ≡ (update m (cell t va) (l2_entry pa (access flags) (caching flags)), true)
unfolding space_map map_in l2_map
space_map-cell m space va t pa flags page h =
    let nf : (m (slot space va) == l1_fault) ≡ false = ground arith in
    rw (nf, table_of m space va t h)

-- What a lookup must give for a page `q` that was mapped with `flags`. The caching comes back
-- inverted.
abbrev pub found : (q flags : ℕ) → ℕ × ℕ
found q flags = (
  4096 * q,
  addr_read
      + (if flag_set flags addr_write then addr_write else 0)
      + (if flag_set flags addr_cache then 0 else addr_cache),
)

-- Mapping the page `q` at `va`, through the table `t`.
pub record Mapped (m : Memory) (space va t q flags : ℕ) (r : Memory × Bool) : Type 0 where
  pub done : r.1 ≡ true
  pub table : TableAt r.0 space va t
  pub lookup : (f : ℕ) → space_find_flags r.0 space va f ≡ found q flags
  pub others : (a : ℕ) → a ≢ cell t va → r.0 a ≡ m a
  pub cleared : (f : ℕ) → space_find_flags (space_unmap r.0 space va) space va f ≡ (0, addr_read)

access_cases : (flags : ℕ) → (access flags ≡ ap_rw_ro) ⊎ (access flags ≡ ap_rw_rw)
access_cases flags = ground arith

caching_cases : (flags : ℕ) → (caching flags ≡ 0) ⊎ (caching flags ≡ 1)
caching_cases flags = ground arith

pub read_back :
    (q flags : ℕ)
    → q < 2 ^ 20
    → let e = l2_entry (4096 * q) (access flags) (caching flags) in
      (bit_and e page_mask, flags_from_map e) ≡ found q flags
read_back q flags h =
    rw
      (
        l2_entry-address q (access flags) (caching flags) h (access_cases flags)
            (caching_cases flags),
        l2_entry-flags q (access flags) (caching flags) (access_cases flags) (caching_cases flags),
      )
      (ap (λ (x : ℕ). (4096 * q, x)) (ground arith))

module _ (m : Memory) (space va t q flags : ℕ) (at : TableAt m space va t) (h : q < 2 ^ 20)
    (apart : cell t va ≢ slot space va) where
  abbrev mapped : Memory
  mapped = update m (cell t va) (l2_entry (4096 * q) (access flags) (caching flags))

  mapped-TableAt : TableAt mapped space va t
  mapped-TableAt = (update_ne m (cell t va) (slot space va) _ apart ∙ at.0, at.1, at.2)

  entry-Mapped : Mapped m space va t q flags (mapped, true)
  unfolding flags_from_map
  entry-Mapped = record {
    done = refl;
    table = mapped-TableAt;
    lookup = λ f.
        space_find-cell mapped space va t f mapped-TableAt
        ∙ ap (λ (e : ℕ). (bit_and e page_mask, flags_from_map e)) (update_self m (cell t va) _)
        ∙ read_back q flags h;
    others = λ a ne. update_ne m (cell t va) a _ (λ e. ne (sym e));
    cleared = λ f.
        ap (λ (n : Memory). space_find_flags n space va f)
          (space_unmap-cell mapped space va t mapped-TableAt)
        ∙ space_find-cell (update mapped (cell t va) 0) space va t f
            (update_ne mapped (cell t va) (slot space va) _ apart ∙ mapped-TableAt.0, at.1, at.2)
        ∙ ap (λ (e : ℕ). (bit_and e page_mask, flags_from_map e))
            (update_self mapped (cell t va) 0);
  }

  -- If `va` has a second-level table, which is not at 0, lies in the 32-bit addresses and has its
  -- entry for `va` apart from the first-level entry, then `space_map` of the page `q` succeeds,
  -- keeps the table and changes no other word than the entry for `va`; `space_find` then gives
  -- `q`, its access right and the opposite of its caching, and after `space_unmap` it gives no
  -- page.
  pub space_map_existing :
      (page : ℕ) → Mapped m space va t q flags (space_map m space (4096 * q) va flags page)
  space_map_existing page = rw (space_map-cell m space va t (4096 * q) flags page at) entry-Mapped

-- Without a table, `space_map` fails and changes nothing where it gets no page for one.
pub space_map_no_page :
    (m : Memory) (space va pa flags : ℕ)
    → m (slot space va) ≡ l1_fault
    → space_map m space pa va flags 0 ≡ (m, false)
unfolding space_map
space_map_no_page m space va pa flags e = rw e

-- What `space_map` makes of the memory for a new table.
abbrev with_table : Memory → (space va t : ℕ) → Memory
with_table m space va t =
    update (clear_page m (4096 * t)) (slot space va) (bit_or (4096 * t) l1_coarse)

-- The memory with the page `t` cleared and linked as the second-level table of `va`.
abbrev pub fresh_table : Memory → (space va t : ℕ) → Memory
fresh_table m space va t a =
    if slot space va == a
    then 4096 * t + 1
    else (if leb (4096 * t) a && ltb a (4096 * t + 4096) then 0 else m a)

with_table_lem : (m : Memory) (space va t : ℕ) → with_table m space va t ≡ fresh_table m space va t
unfolding clear_page
with_table_lem m space va t = fun_ext (λ a. ground (arith, coarse_lem t))

module _ (m : Memory) (space va t q flags : ℕ) (fault : m (slot space va) ≡ l1_fault) (pos : 0 < t)
    (h : q < 2 ^ 20) (g : t < 2 ^ 20) (apart : cell t va ≢ slot space va) where
  with_table-TableAt : TableAt (with_table m space va t) space va t
  with_table-TableAt =
      (update_self (clear_page m (4096 * t)) (slot space va) _ ∙ coarse_lem t, pos, g)

  -- If the first-level entry of `va` is a fault, and the page that `get_page` gives for a table
  -- is not 0, lies in the 32-bit addresses and has its entry for `va` apart from the first-level
  -- entry, then `space_map` of the page `q` succeeds. In the memory, the first-level entry is
  -- then that of the table at that page, the other words of the page are 0 apart from the entry
  -- for `va`, and all that are outside it are as before; `space_find` then gives `q`, its access
  -- right and the opposite of its caching, and after `space_unmap` it gives no page.
  pub space_map_fresh :
      Mapped
        (fresh_table m space va t)
        space
        va
        t
        q
        flags
        (space_map m space (4096 * q) va flags (4096 * t))
  unfolding space_map map_in l2_map
  space_map_fresh =
      let nz : (4096 * t == 0) ≡ false = ground arith in
      subst
        (λ (n : Memory).
          Mapped n space va t q flags (space_map m space (4096 * q) va flags (4096 * t)))
        (with_table_lem m space va t)
        (rw (fault, nz)
          (entry-Mapped (with_table m space va t) space va t q flags with_table-TableAt h apart))
