-- ===== src/Space/Entry.antt =====
-- The entries that mem.c writes, as sums of their fields, and what is read back from them.
use omb.Base.{
  ℕ, ◌+◌, ◌-◌, ◌*◌, ◌/◌, ◌%◌, ◌^◌, ◌<◌, ◌≡◌, refl, ap, ap₂, ◌∙◌, bit_and, bit_or, arith,
  if◌then◌else◌, ◌==◌, ◌⊎◌, inl, inr,
}
use omb.Base.Bits.{bit_or_fields, bit_and-low_mask, bit_and_fields, bit_and-zero}
use omb.Space.{
  l2x, l2_entry, flags_from_map, page_mask, addr_read, addr_write, addr_cache, ap_rw_rw, ap_rw_ro,
  l2_small, l1_base, l1_coarse,
}

-- Which second-level entry an address uses.
pub l2x_lem : (va : ℕ) → l2x va ≡ va / 2 ^ 12 % 2 ^ 8
unfolding l2x
l2x_lem va =
    ap (λ (x : ℕ). bit_and x (2 ^ 8 - 1)) (split (va / 2 ^ 12))
    ∙ bit_and-low_mask 8 (va / 2 ^ 12 / 2 ^ 8) (va / 2 ^ 12 % 2 ^ 8) (omega arith)
  where
    split : (x : ℕ) → x ≡ 2 ^ 8 * (x / 2 ^ 8) + x % 2 ^ 8
    split x = omega arith

-- Masking with PAGE_MASK leaves the page.
pub page_mask_lem : (q r : ℕ) → q < 2 ^ 20 → r < 4096 → bit_and (4096 * q + r) page_mask ≡ 4096 * q
page_mask_lem q r h g =
    let mask : 2 ^ 12 * (2 ^ 20 - 1) + 0 ≡ page_mask = omega arith in
    omega (
      arith,
      ap (bit_and (4096 * q + r)) mask,
      bit_and_fields 12 q r (2 ^ 20 - 1) 0 g (omega arith),
      bit_and-zero r,
      ap (λ (t : ℕ). bit_and t (2 ^ 20 - 1)) (whole q),
      bit_and-low_mask 20 0 q h,
    )
  where
    whole : (q : ℕ) → 2 ^ 20 * 0 + q ≡ q
    whole q = omega arith

-- The entry of a page, its fields added up.
abbrev pub entry_sum : (q acc cachable : ℕ) → ℕ
entry_sum q acc c = 4096 * q + (l2_small + acc * 16 + c * 8 + (if c == 0 then 4 else 7 * 64))

or_step :
    (q a r m n : ℕ)
    → a ≡ 4096 * q + r
    → r < 4096
    → m < 4096
    → bit_or r m ≡ n
    → bit_or a m ≡ 4096 * q + n
or_step q a r m n e h g k =
    ap (λ (t : ℕ). bit_or t m) e ∙ bit_or_fields 12 q r m h g ∙ ap (λ (t : ℕ). 4096 * q + t) k

-- The values of a page's entry for each access and caching that `space_map` uses.
-- The four `|` behind `pa | L2_SMALL`.
or_chain :
    (q b c d e r s t u : ℕ)
    → (b < 4096) × (c < 4096) × (d < 4096) × (e < 4096)
    → (r < 4096) × (s < 4096) × (t < 4096)
    → bit_or 2 b ≡ r
    → bit_or r c ≡ s
    → bit_or s d ≡ t
    → bit_or t e ≡ u
    → bit_or (bit_or (bit_or (bit_or (bit_or (4096 * q) 2) b) c) d) e ≡ 4096 * q + u
or_chain q b c d e r s t u (hb, hc, hd, he) (hr, hs, ht) eb ec ed ee =
    or_step q _ t e u
      (or_step q _ s d t
        (or_step q _ r c s
          (or_step q _ 2 b r
            (or_step q (4096 * q) 0 2 2 (omega arith) (omega arith) (omega arith) refl)
            (omega arith) hb eb)
          hr hc ec)
        hs hd ed)
      ht he ee

l2_entry_lem :
    (q acc c : ℕ)
    → (acc ≡ ap_rw_ro) ⊎ (acc ≡ ap_rw_rw)
    → (c ≡ 0) ⊎ (c ≡ 1)
    → l2_entry (4096 * q) acc c ≡ entry_sum q acc c
unfolding l2_entry
l2_entry_lem q acc c (inl a) (inl b) =
    rw (a, b) (or_chain q 0 32 0 4 2 34 34 38 (omega arith) (omega arith) refl refl refl refl)
l2_entry_lem q acc c (inl a) (inr b) =
    rw (a, b)
      (or_chain q 448 32 8 0 450 482 490 490 (omega arith) (omega arith) refl refl refl refl)
l2_entry_lem q acc c (inr a) (inl b) =
    rw (a, b) (or_chain q 0 48 0 4 2 50 50 54 (omega arith) (omega arith) refl refl refl refl)
l2_entry_lem q acc c (inr a) (inr b) =
    rw (a, b)
      (or_chain q 448 48 8 0 450 498 506 506 (omega arith) (omega arith) refl refl refl refl)

entry_small :
    (acc c : ℕ)
    → (acc ≡ ap_rw_ro) ⊎ (acc ≡ ap_rw_rw)
    → (c ≡ 0) ⊎ (c ≡ 1)
    → l2_small + acc * 16 + c * 8 + (if c == 0 then 4 else 7 * 64) < 4096
entry_small acc c a b = ground arith

-- For a page of the 32-bit addresses and an entry that `l2_map` writes for it, with the access
-- AP_RW_RO or AP_RW_RW and caching 0 or 1, the entry masked by PAGE_MASK is the address of the
-- page.
pub l2_entry-address :
    (q acc c : ℕ)
    → q < 2 ^ 20
    → (acc ≡ ap_rw_ro) ⊎ (acc ≡ ap_rw_rw)
    → (c ≡ 0) ⊎ (c ≡ 1)
    → bit_and (l2_entry (4096 * q) acc c) page_mask ≡ 4096 * q
l2_entry-address q acc c h a b =
    rw (l2_entry_lem q acc c a b) (page_mask_lem q _ h (entry_small acc c a b))

and_three : (x : ℕ) → bit_and x 3 ≡ x % 4
and_three x =
    let e : x ≡ 2 ^ 2 * (x / 4) + x % 4 = omega arith in
    ap (λ (t : ℕ). bit_and t 3) e ∙ bit_and-low_mask 2 (x / 4) (x % 4) (omega arith)

pub and_one : (x : ℕ) → bit_and x 1 ≡ x % 2
and_one x =
    let e : x ≡ 2 ^ 1 * (x / 2) + x % 2 = omega arith in
    ap (λ (t : ℕ). bit_and t 1) e ∙ bit_and-low_mask 1 (x / 2) (x % 2) (omega arith)

-- The address of a second-level table in its first-level entry, `tab | L1_COARSE`.
pub l1_base_lem : (t : ℕ) → t < 2 ^ 20 → bit_and (4096 * t + 1) l1_base ≡ 4096 * t
l1_base_lem t h =
    let a : 4096 * t + 1 ≡ 2 ^ 2 * (1024 * t) + 1 = omega arith in
    let b : l1_base ≡ 2 ^ 2 * (2 ^ 30 - 1) + 0 = refl in
    let c : 1024 * t ≡ 2 ^ 30 * 0 + 1024 * t = omega arith in
    omega (
      arith,
      ap₂ bit_and a b,
      bit_and_fields 2 (1024 * t) 1 (2 ^ 30 - 1) 0 (omega arith) (omega arith),
      bit_and-zero 1,
      ap (λ (x : ℕ). bit_and x (2 ^ 30 - 1)) c,
      bit_and-low_mask 30 0 (1024 * t) (omega arith),
    )

pub coarse_lem : (t : ℕ) → bit_or (4096 * t) l1_coarse ≡ 4096 * t + 1
coarse_lem t = or_step t (4096 * t) 0 1 1 (omega arith) (omega arith) (omega arith) refl

-- For an entry that `l2_map` writes, with the access AP_RW_RO or AP_RW_RW and caching 0 or 1,
-- `flags_from_map` gives ADDR_read, with ADDR_write for AP_RW_RW, and with ADDR_cache exactly
-- where the page is not cached.
pub l2_entry-flags :
    (q acc c : ℕ)
    → (acc ≡ ap_rw_ro) ⊎ (acc ≡ ap_rw_rw)
    → (c ≡ 0) ⊎ (c ≡ 1)
    → flags_from_map (l2_entry (4096 * q) acc c)
      ≡ addr_read + (if acc == ap_rw_rw then addr_write else 0) + (if c == 0 then addr_cache else 0)
unfolding flags_from_map
l2_entry-flags q acc c a b = rw (l2_entry_lem q acc c a b, and_three, and_one) (ground arith)
