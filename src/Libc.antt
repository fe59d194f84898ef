-- ===== src/Libc.antt =====
-- lib/libc/util.c: `memcpy` and `memset`. An array is the family of its elements, and the two
-- loops write one element a round.
use omb.Base.{ℕ, zero, suc, ◌+◌, ◌≡◌, arith, ltb, leb, ◌&&◌, if◌then◌else◌, update}

copy_from : ℕ → ℕ → (dst src : ℕ → ℕ) → ℕ → ℕ
copy_from zero i dst src = dst
copy_from (suc len) i dst src = copy_from len (i + 1) (update dst i (src i)) src

-- memcpy(dst, src, len) between arrays that do not overlap.
unfoldable pub memcpy : (dst src : ℕ → ℕ) → ℕ → ℕ → ℕ
unfolding copy_from
memcpy dst src len = copy_from len 0 dst src

set_from : ℕ → ℕ → (ℕ → ℕ) → ℕ → ℕ → ℕ
set_from zero i d v = d
set_from (suc n) i d v = set_from n (i + 1) (update d i v) v

-- memset(dst, v, len)
unfoldable pub memset : (ℕ → ℕ) → ℕ → ℕ → ℕ → ℕ
unfolding set_from
memset d v len = set_from len 0 d v

copy_from_lem :
    (n i j : ℕ) (dst src : ℕ → ℕ)
    → copy_from n i dst src j ≡ (if leb i j && ltb j (i + n) then src j else dst j)
unfolding copy_from
copy_from_lem zero i j dst src = ground arith
copy_from_lem (suc n) i j dst src =
    ground (arith, copy_from_lem n (i + 1) j (update dst i (src i)) src)

set_from_lem :
    (n i j : ℕ) (d : ℕ → ℕ) (v : ℕ)
    → set_from n i d v j ≡ (if leb i j && ltb j (i + n) then v else d j)
unfolding set_from
set_from_lem zero i j d v = ground arith
set_from_lem (suc n) i j d v = ground (arith, set_from_lem n (i + 1) j (update d i v) v)

-- `memcpy` between arrays that do not overlap copies the first `len` elements and leaves the
-- others.
pub memcpy_lem :
    (dst src : ℕ → ℕ) (len j : ℕ) → memcpy dst src len j ≡ (if ltb j len then src j else dst j)
unfolding memcpy
memcpy_lem dst src len j = ground (arith, copy_from_lem len 0 j dst src)

-- `memset` sets the first `len` elements and leaves the others.
pub memset_lem : (d : ℕ → ℕ) (v len j : ℕ) → memset d v len j ≡ (if ltb j len then v else d j)
unfolding memset
memset_lem d v len j = ground (arith, set_from_lem len 0 j d v)
