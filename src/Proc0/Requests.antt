-- ===== src/Proc0/Requests.antt =====
-- `handle_addr_request` of proc0/main.c: which memory a request is answered with.
use omb.Base.{
  ℕ, ◌+◌, ◌-◌, ◌*◌, ◌/◌, ◌%◌, ◌^◌, ◌<◌, ◌≡◌, ◌∙◌, ap, false, Option, some, List, arith, ◌==◌,
  if◌then◌else◌, length, bit_and,
}
use omb.Space.{page_align, page_mask}
use omb.Space.Entry.{page_mask_lem}
use omb.Proc0.{Store, Pages}
use omb.Proc0.Main.{Answer, refuse, accept, answer_request, handle_addr_request}
use omb.Proc0.Ram.{Chain, AllFit, Given, get_ram_lem}

-- The least multiple of a page that is not below `len`.
abbrev pub whole_pages : ℕ → ℕ
whole_pages len = 4096 * ((len + 4095) / 4096)

pub page_align_lem : (len : ℕ) → len + 4095 < 2 ^ 32 → page_align len ≡ whole_pages len
unfolding page_align
page_align_lem len h =
    let x : ℕ = (len + 4095) / 4096 in
    let split : (len + 4096 - 1) % 2 ^ 32 ≡ 4096 * x + (len + 4095) % 4096 = omega arith in
    ap (λ (t : ℕ). bit_and t page_mask) split
    ∙ page_mask_lem x ((len + 4095) % 4096) (omega arith) (omega arith)

-- The answer to a request of memory.
pub record Answered (len : ℕ) (st : Store) (hs : List ℕ) (r : Option (Store × Answer))
    : Type 0 where
  pub outcome : Pages × ℕ
  pub block : Given (whole_pages len) st.pages hs (some outcome)
  pub ends :
      r
      ≡ some (
        record st { pages = outcome.0 },
        if outcome.1 == 0 then refuse else accept outcome.1 (whole_pages len) 14,
      )

answered :
    (n : ℕ) (st : Store) (a : ℕ)
    → answer_request n 14 (st, a) ≡ (st, if a == 0 then refuse else accept a n 14)
unfolding answer_request
answered n st a = ground arith

-- If `ram` leads through the holders `hs` to nil, the sections of each end in the 32-bit
-- addresses, and `len` is positive and at least a page below 2^32, then a request of `len` bytes
-- of memory is answered. The length is `len` rounded up to whole pages; the request is refused if
-- no section has room for it, or if the block found is at 0, and otherwise the last bytes of that
-- length of the first section with room are taken off the section and accepted with the flags for
-- reading, writing and caching.
pub handle_addr_request_lem :
    (f len : ℕ) (st : Store) (hs : List ℕ)
    → 0 < len
    → len + 4095 < 2 ^ 32
    → length hs < f
    → Chain st.pages st.ram hs
    → AllFit st.pages hs
    → Answered len st hs (handle_addr_request f 0 len st)
unfolding handle_addr_request
handle_addr_request_lem f len st hs p h a c g =
    let n = whole_pages len in
    let some_page : (whole_pages len == 0) ≡ false = ground arith in
    let m = get_ram_lem f n st hs a (omega arith) c g in
    rw (page_align_lem len h, some_page, m.ends)
      (record {
        outcome = m.outcome;
        block = m.block;
        ends = ap some (answered n (record st { pages = m.outcome.0 }) m.outcome.1);
      })
