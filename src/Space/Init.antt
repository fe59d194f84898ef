-- ===== src/Space/Init.antt =====
-- `init_memory` of mem.c: the kernel's own mappings and the regions that it tells process 0 of.
pub mod Table
use omb.Base.{ℕ, ◌-◌, Bool, true, false, Option, some, List, [], ◌∷◌, ltb, if◌then◌else◌}
use omb.Space.{Memory, imap, ap_rw_no, ap_rw_rw, l1_fault}
use mathlib.Core.Option

-- enum region_type, struct region
pub data RegionType : Type 0 where
  region_ram : RegionType
  region_io : RegionType

pub record Region : Type 0 where
  pub type : RegionType
  pub start : ℕ
  pub len : ℕ

-- A call of `imap`.
pub record Mapping : Type 0 where
  pub start : ℕ
  pub end : ℕ
  pub ap : ℕ
  pub cachable : Bool

-- The symbols of the linker script.
pub record Layout : Type 0 where
  pub ram_start : ℕ
  pub ram_end : ℕ
  pub kernel_start : ℕ
  pub kernel_end : ℕ

abbrev device : (start end : ℕ) → Mapping
device start end = record { start = start; end = end; ap = ap_rw_rw; cachable = false }

abbrev private_device : (start end : ℕ) → Mapping
private_device start end = record { start = start; end = end; ap = ap_rw_no; cachable = false }

abbrev io_region : (start end : ℕ) → Region
io_region start end = record { type = region_io; start = start; len = end - start }

-- The calls of `imap` in their order.
unfoldable pub mappings : Layout → List Mapping
mappings l =
    record { start = l.ram_start; end = l.ram_end; ap = ap_rw_rw; cachable = true }
    ∷ private_device 0x44E09000 0x44E0A000
    ∷ private_device 0x44E35000 0x44E36000
    ∷ private_device 0x48040000 0x48041000
    ∷ private_device 0x48200000 0x48201000
    ∷ device 0x47400000 0x47404000
    ∷ device 0x44E31000 0x44E32000
    ∷ device 0x44E09000 0x44E0A000
    ∷ device 0x44E07000 0x44E08000
    ∷ device 0x4804c000 0x4804d000
    ∷ device 0x481ac000 0x481ad000
    ∷ device 0x481AE000 0x481AF000
    ∷ device 0x48060000 0x48061000
    ∷ device 0x47810000 0x47820000
    ∷ []

-- The regions in their order, with the lengths as they are for a layout in ascending order.
unfoldable pub regions : Layout → List Region
regions l =
    record { type = region_ram; start = l.ram_start; len = l.kernel_start - l.ram_start }
    ∷ record { type = region_ram; start = l.kernel_end; len = l.ram_end - l.kernel_end }
    ∷ io_region 0x47400000 0x47404000
    ∷ io_region 0x44E31000 0x44E32000
    ∷ io_region 0x44E09000 0x44E0A000
    ∷ io_region 0x44E07000 0x44E08000
    ∷ io_region 0x4804c000 0x4804d000
    ∷ io_region 0x481ac000 0x481ad000
    ∷ io_region 0x481AE000 0x481AF000
    ∷ io_region 0x481AE000 0x481AF000
    ∷ io_region 0x47810000 0x47820000
    ∷ []

unfoldable pub imap_all : List Mapping → Memory → Option Memory
unfolding imap
imap_all [] ttb = some ttb
imap_all (c ∷ cs) ttb = Option.bind (imap ttb c.start c.end c.ap c.cachable) (imap_all cs)

-- init_memory(): the table that `mmu_load_ttb` is given, if the loops end, and the kernel page.
unfoldable pub init_memory : Layout → Memory → Option (Memory × List Region)
unfolding imap_all mappings regions
init_memory l ttb =
    Option.map (λ (t : Memory). (t, regions l))
      (imap_all (mappings l) (λ i. if ltb i 4096 then l1_fault else ttb i))
