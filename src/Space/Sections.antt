-- ===== src/Space/Sections.antt =====
-- `imap` of mem.c: which sections the kernel's table maps.
use omb.Base.{
  ℕ, zero, suc, ◌+◌, ◌-◌, ◌*◌, ◌/◌, ◌%◌, ◌^◌, ◌<◌, ◌≤◌, ◌≡◌, refl, Bool, true, false, Option, some,
  arith, if◌then◌else◌, ltb, leb, ◌&&◌, bit_or, bit_and, ap, update, ◌∙◌,
}
use omb.Base.Bits.{bit_and_fields, bit_or_fields, zero-bit_or, bit_and-zero, bit_and-low_mask}
use omb.Space.{Memory, l1x, imap_loop, imap, imap_bits}

-- The table that the loop leaves when `n` sections from section `s` on are below `end`.
abbrev mapped_by : (ttb : Memory) (s n mask : ℕ) → Memory
mapped_by ttb s n mask j = if leb s j && ltb j (s + n) then bit_or (2 ^ 20 * j) mask else ttb j

record MappedBy (ttb : Memory) (s n mask : ℕ) (r : Option Memory) : Type 0 where
  table : Memory
  ends : r ≡ some table
  entries : (j : ℕ) → table j ≡ mapped_by ttb s n mask j

entry :
    (n s : ℕ) (ttb : Memory) (mask j : ℕ)
    → mapped_by (update ttb s (bit_or (2 ^ 20 * s) mask)) (s + 1) n mask j
      ≡ mapped_by ttb s (suc n) mask j
entry n s ttb mask j = ground arith

grow :
    (n s : ℕ) (ttb : Memory) (mask : ℕ) {r : Option Memory}
    → MappedBy (update ttb s (bit_or (2 ^ 20 * s) mask)) (s + 1) n mask r
    → MappedBy ttb s (suc n) mask r
grow n s ttb mask m = record {
  table = MappedBy.table m;
  ends = MappedBy.ends m;
  entries = λ j. MappedBy.entries m j ∙ entry n s ttb mask j;
}

imap_from :
    (n f s : ℕ) (ttb : Memory) (end mask : ℕ)
    → n < f
    → end ≤ 2 ^ 20 * (s + n)
    → (0 < n → 2 ^ 20 * (s + n) < end + 2 ^ 20)
    → end ≤ 2 ^ 32 - 2 ^ 20
    → MappedBy ttb s n mask (imap_loop f ttb (2 ^ 20 * s) end mask)
unfolding imap_loop l1x
imap_from n zero s ttb end mask a b c d = absurd (omega arith)
imap_from zero (suc f) s ttb end mask a b c d =
    let stop : ltb (2 ^ 20 * s) end ≡ false = ground arith in
    rw (imap_loop, stop) (record { table = ttb; ends = refl; entries = λ j. ground arith })
imap_from (suc n) (suc f) s ttb end mask a b c d =
    let go : ltb (2 ^ 20 * s) end ≡ true = ground (arith, c (omega arith)) in
    let next : (2 ^ 20 * s + 2 ^ 20) % 2 ^ 32 ≡ 2 ^ 20 * (s + 1) = omega (arith, c (omega arith)) in
    let here : 2 ^ 20 * s / 2 ^ 20 ≡ s = omega arith in
    rw (imap_loop, go, next, here)
      (grow n s ttb mask (
        imap_from n f (s + 1) (update ttb s (bit_or (2 ^ 20 * s) mask)) end mask (omega arith)
          (omega (arith, c (omega arith))) (λ p. omega (arith, c (omega arith))) d))

section_mask_lem :
    (q r : ℕ) → q < 2 ^ 12 → r < 2 ^ 20 → bit_and (2 ^ 20 * q + r) 0xfff00000 ≡ 2 ^ 20 * q
section_mask_lem q r h g =
    let mask : 2 ^ 20 * (2 ^ 12 - 1) + 0 ≡ 0xfff00000 = omega arith in
    omega (
      arith,
      ap (bit_and (2 ^ 20 * q + r)) mask,
      bit_and_fields 20 q r (2 ^ 12 - 1) 0 g (omega arith),
      bit_and-zero r,
      ap (λ (t : ℕ). bit_and t (2 ^ 12 - 1)) (whole q),
      bit_and-low_mask 12 0 q h,
    )
  where
    whole : (q : ℕ) → 2 ^ 12 * 0 + q ≡ q
    whole q = omega arith

-- The number of rounds: the sections from that of `start` to that of the last byte below `end`.
abbrev pub sections : (start end : ℕ) → ℕ
sections start end = (end + (2 ^ 20 - 1)) / 2 ^ 20 - start / 2 ^ 20

-- The entry that maps section `j` to itself: section type 2, the access in bits 10 and 11, and TEX
-- 7 with C set where the section is cached, or B set where it is not.
abbrev pub section_entry : (j acc : ℕ) → Bool → ℕ
section_entry j acc cachable =
    2 ^ 20 * j + (2 + 2 ^ 10 * acc + (if cachable then 7 * 2 ^ 12 + 2 ^ 3 else 2 ^ 2))

-- What `imap` must give: the `n` sections from `s` on are mapped, and no other entry changes.
pub record Imapped (ttb : Memory) (s n acc : ℕ) (cachable : Bool) (r : Option Memory) : Type 0 where
  pub table : Memory
  pub ends : r ≡ some table
  pub entries :
      (j : ℕ) → table j ≡ (if leb s j && ltb j (s + n) then section_entry j acc cachable else ttb j)

imap_bits_lem :
    (acc : ℕ) (cachable : Bool)
    → acc < 4
    → imap_bits acc cachable ≡ 2 + 2 ^ 10 * acc + (if cachable then 7 * 2 ^ 12 + 2 ^ 3 else 2 ^ 2)
unfolding imap_bits
imap_bits_lem zero true h = refl
imap_bits_lem zero false h = refl
imap_bits_lem (suc zero) true h = refl
imap_bits_lem (suc zero) false h = refl
imap_bits_lem (suc (suc zero)) true h = refl
imap_bits_lem (suc (suc zero)) false h = refl
imap_bits_lem (suc (suc (suc zero))) true h = refl
imap_bits_lem (suc (suc (suc zero))) false h = refl
imap_bits_lem (suc (suc (suc (suc acc)))) cachable h = absurd (omega arith)

section_entry_lem :
    (j acc : ℕ) (cachable : Bool)
    → acc < 4
    → bit_or (2 ^ 20 * j) (imap_bits acc cachable) ≡ section_entry j acc cachable
section_entry_lem j acc cachable h =
    let bits = imap_bits_lem acc cachable h in
    let low : imap_bits acc cachable < 2 ^ 20 = ground (arith, bits) in
    let place : 2 ^ 20 * j ≡ 2 ^ 20 * j + 0 = omega arith in
    omega (
      arith,
      bits,
      ap (λ (x : ℕ). bit_or x (imap_bits acc cachable)) place,
      bit_or_fields 20 j 0 (imap_bits acc cachable) (omega arith) low,
      zero-bit_or (imap_bits acc cachable),
    )

MappedBy-Imapped :
    (ttb : Memory) (s n acc : ℕ) (cachable : Bool) {r : Option Memory}
    → acc < 4
    → MappedBy ttb s n (imap_bits acc cachable) r
    → Imapped ttb s n acc cachable r
MappedBy-Imapped ttb s n acc cachable h m = record {
  table = m.table;
  ends = m.ends;
  entries = λ j. m.entries j ∙ rw (section_entry_lem j acc cachable h) refl;
}

-- For `start` below 2^32, `end` at most 2^32 - 2^20 and an access below 4, `imap` ends, and it
-- maps exactly the sections from that of `start` up to that of the last byte below `end`: each
-- gets the entry that maps it to itself, a section with the access in bits 10 and 11, and with
-- TEX 7 and C set where caching is asked for and B set where it is not, and every other entry is
-- left alone.
pub imap_lem :
    (ttb : Memory) (start end acc : ℕ) (cachable : Bool)
    → start < 2 ^ 32
    → end ≤ 2 ^ 32 - 2 ^ 20
    → acc < 4
    → Imapped ttb
        (start / 2 ^ 20)
        (sections start end)
        acc
        cachable
        (imap ttb start end acc cachable)
unfolding imap
imap_lem ttb start end acc cachable h g few =
    let s : ℕ = start / 2 ^ 20 in
    let split : start ≡ 2 ^ 20 * s + start % 2 ^ 20 = omega arith in
    let from : bit_and start 0xfff00000 ≡ 2 ^ 20 * s =
      ap (λ (t : ℕ). bit_and t 0xfff00000) split
      ∙ section_mask_lem s (start % 2 ^ 20) (omega arith) (omega arith) in
    MappedBy-Imapped ttb s (sections start end) acc cachable few (
      rw from (
        imap_from (sections start end) 4097 s ttb end (imap_bits acc cachable) (omega arith)
          (omega arith) (λ p. omega arith) g))
