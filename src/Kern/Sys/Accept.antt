-- ===== src/Kern/Sys/Accept.antt =====
-- `sys_addr_accept` of kern/sys.c.
pub mod Moving
pub mod Moves
use omb.Base.{
  ℕ, zero, suc, ◌+◌, ◌*◌, ◌^◌, ◌<◌, ◌≤◌, ◌≡◌, ◌≢◌, ◌⊎◌, refl, ap, subst, Bool, true, false, Option,
  none, some, arith, Bool-cases, inl, inr, ltb, ◌%◌, ◌/◌, ◌==◌, ◌∙◌, sym,
}
use omb.Space.Entry.{and_one}
use omb.Space.Mapping.{slot, space_map_no_page}
use omb.Space.{l1_fault, Memory, page_size, space_find, space_unmap}
use omb.Kern.State.{Kernel, returned, err}
use omb.Kern.Sys.{get_page, accept_page, accept_loop, accepted, accept_from, takes, offer_matches}

accept_page-ends :
    (r : Memory × Bool) (from vf : ℕ) (rest : Memory → Option (Memory × ℕ))
    → ((m : Memory) → rest m ≢ none)
    → accept_page r from vf rest ≢ none
accept_page-ends (m, false) from vf rest h = cc
accept_page-ends (m, true) from vf rest h = h (space_unmap m from vf)

-- The loop ends if the counter cannot wrap.
pub accept_loop-ends :
    (f : ℕ) (m : Memory) (from vf to vt arg len flags l : ℕ)
    → len + page_size ≤ 2 ^ 32
    → len ≤ l + f * page_size
    → accept_loop (suc f) m from vf to vt arg len flags l ≢ none
unfolding accept_loop
accept_loop-ends zero m from vf to vt arg len flags l fits enough =
    let done : ltb l len ≡ false = ground arith in rw (accept_loop, done) (cc)
accept_loop-ends (suc f) m from vf to vt arg len flags l fits enough =
    elim (Bool-cases (ltb l len)) [
      | inr e ↦ rw (accept_loop, e) (cc)
      | inl e ↦
          rw (accept_loop, e)
            (accept_page-ends _ from _ _ (λ m'.
              accept_loop-ends f m' from vf to vt arg len flags ((l + page_size) % 2 ^ 32) fits
                (ground arith)))
    ]

no_table :
    (f : ℕ) (m : Memory) (from vf to vt arg len flags : ℕ)
    → 0 < len
    → vt < 2 ^ 32
    → m (slot to vt) ≡ l1_fault
    → accept_loop (suc f) m from vf to vt arg len flags 0 ≡ some (m, err)
unfolding accept_loop get_page
no_table f m from vf to vt arg len flags pos low fault =
    let on : ltb 0 len ≡ true = ground arith in
    let place : (vt + 0) % 2 ^ 32 ≡ vt = omega arith in
    rw
      (
        accept_loop,
        on,
        place,
        space_map_no_page m to vt (space_find m from ((vf + 0) % 2 ^ 32)) flags fault,
      )
      refl

-- The space and the address that the pages go to: those of the process that takes them.
abbrev pub into_by : Kernel → (u p start : ℕ) → Bool → ℕ × ℕ
into_by k u p start true = ((k.procs u).space, start)
into_by k u p start false = ((k.procs p).space, (k.procs p).addr_offer.start)

abbrev pub into : Kernel → (u p start flags : ℕ) → ℕ × ℕ
into k u p start flags = into_by k u p start (takes flags)

-- Why the handler refuses, by its own tests.
abbrev Denied : Kernel → (u p start len flags : ℕ) → Type 0
Denied k u p start len flags =
    (offer_matches k u p len flags ≡ false)
    ⊎ (takes flags ≡ takes (k.procs p).addr_offer.flags)
    ⊎ ((0 < len)
        × ((into k u p start flags).1 < 2 ^ 32)
        × (k.memory (slot (into k u p start flags).0 (into k u p start flags).1) ≡ l1_fault))

accept_from-Denied :
    (k : Kernel) (u p start len flags : ℕ)
    → Denied k u p start len flags
    → accept_from u p start len flags k ≡ (k, returned err)
unfolding accept_from
accept_from-Denied k u p start len flags (inl e) = rw e refl
accept_from-Denied k u p start len flags (inr (inl e)) =
    elim (Bool-cases (offer_matches k u p len flags)) [
      | inr d ↦ rw d refl
      | inl d ↦
          rw (d, e)
            (elim (Bool-cases (takes (k.procs p).addr_offer.flags)) [
              | inl t ↦ rw t refl
              | inr t ↦ rw t refl
            ])
    ]
accept_from-Denied k u p start len flags (inr (inr (pos, low, fault))) =
    elim (Bool-cases (offer_matches k u p len flags)) [
      | inr d ↦ rw d refl
      | inl d ↦ elim (Bool-cases (takes flags)) [
        | inl t ↦ elim (Bool-cases (takes (k.procs p).addr_offer.flags)) [
          | inl o ↦ rw (d, t, o) refl
          | inr o ↦
              rw (d, t, o)
                (ap (accepted k) (
                  no_table _ k.memory (k.procs p).space (k.procs p).addr_offer.start
                    (k.procs u).space start u len flags pos (at true t).0 (at true t).1))
        ]
        | inr t ↦ elim (Bool-cases (takes (k.procs p).addr_offer.flags)) [
          | inr o ↦ rw (d, t, o) refl
          | inl o ↦
              rw (d, t, o)
                (ap (accepted k) (
                  no_table _ k.memory (k.procs u).space start (k.procs p).space
                    (k.procs p).addr_offer.start p len flags pos (at false t).0 (at false t).1))
        ]
      ]
    ]
  where
    at :
        (b : Bool)
        → takes flags ≡ b
        → ((into_by k u p start b).1 < 2 ^ 32)
          × (k.memory (slot (into_by k u p start b).0 (into_by k u p start b).1) ≡ l1_fault)
    at b t =
        subst
          (λ (c : Bool).
            ((into_by k u p start c).1 < 2 ^ 32)
            × (k.memory (slot (into_by k u p start c).0 (into_by k u p start c).1) ≡ l1_fault))
          t (low, fault)

takes_lem : (flags : ℕ) → takes flags ≡ (flags % 2 == 1)
takes_lem flags = rw (and_one flags) (ground arith)

-- Why `sys_addr_accept` refuses: the offer is to another process or about another length or other
-- rights, both sides would give or both take, or the side that takes has no table for its address.
pub data Refused (k : Kernel) (u p start len flags : ℕ) : Type 0 where
  other_taker : (k.procs u).pid ≢ (k.procs p).addr_offer.to → Refused k u p start len flags
  other_length : len ≢ (k.procs p).addr_offer.len → Refused k u p start len flags
  other_rights : flags / 2 ≢ (k.procs p).addr_offer.flags / 2 → Refused k u p start len flags
  same_side : flags % 2 ≡ (k.procs p).addr_offer.flags % 2 → Refused k u p start len flags
  no_table_here :
      0 < len
      → flags % 2 ≡ 1
      → start < 2 ^ 32
      → k.memory (slot (k.procs u).space start) ≡ l1_fault
      → Refused k u p start len flags
  no_table_there :
      0 < len
      → flags % 2 ≡ 0
      → (k.procs p).addr_offer.start < 2 ^ 32
      → k.memory (slot (k.procs p).space (k.procs p).addr_offer.start) ≡ l1_fault
      → Refused k u p start len flags

Denied-Refused :
    (k : Kernel) (u p start len flags : ℕ)
    → Refused k u p start len flags
    → Denied k u p start len flags
Denied-Refused k u p start len flags (other_taker h) = inl (ground arith)
Denied-Refused k u p start len flags (other_length h) = inl (ground arith)
Denied-Refused k u p start len flags (other_rights h) = inl (ground arith)
Denied-Refused k u p start len flags (same_side e) = inr (
    inl (takes_lem flags ∙ ap (λ (b : ℕ). b == 1) e ∙ sym (takes_lem (k.procs p).addr_offer.flags)))
Denied-Refused k u p start len flags (no_table_here pos t low fault) =
    let taking : takes flags ≡ true = takes_lem flags ∙ ground arith in
    let there =
      subst
        (λ (b : Bool).
          ((into_by k u p start b).1 < 2 ^ 32)
          × (k.memory (slot (into_by k u p start b).0 (into_by k u p start b).1) ≡ l1_fault))
        (sym taking) (low, fault) in
    inr (inr (pos, there.0, there.1))
Denied-Refused k u p start len flags (no_table_there pos t low fault) =
    let giving : takes flags ≡ false = takes_lem flags ∙ ground arith in
    let there =
      subst
        (λ (b : Bool).
          ((into_by k u p start b).1 < 2 ^ 32)
          × (k.memory (slot (into_by k u p start b).0 (into_by k u p start b).1) ≡ l1_fault))
        (sym giving) (low, fault) in
    inr (inr (pos, there.0, there.1))

-- An offer is refused with ERR and nothing changes in each of these cases: the caller's pid is
-- not that which the offer is to; the length is not that of the offer; the flags without the
-- lowest bit are not those of the offer; the lowest bit, which says who takes, is that of the
-- offer; or the length is positive and the process that takes, the caller if its lowest bit is
-- set and the offerer if it is clear, has a fault as the first-level entry of the first address
-- of its range, which is below 2^32.
pub accept_from-Refused :
    (k : Kernel) (u p start len flags : ℕ)
    → Refused k u p start len flags
    → accept_from u p start len flags k ≡ (k, returned err)
accept_from-Refused k u p start len flags r =
    accept_from-Denied k u p start len flags (Denied-Refused k u p start len flags r)
