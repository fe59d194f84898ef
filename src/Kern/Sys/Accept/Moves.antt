-- ===== src/Kern/Sys/Accept/Moves.antt =====
-- The pages of an offer that `sys_addr_accept` hands over.
use omb.Base.{
  ℕ, zero, suc, ◌+◌, ◌*◌, ◌/◌, ◌^◌, ◌<◌, ◌≤◌, ◌≡◌, ◌≢◌, ◌∙◌, ap, sym, Bool, true, false, not,
  if◌then◌else◌, Option, some, arith,
}
use omb.Space.{Memory, space_find, space_find_flags}
use omb.Space.Mapping.{TableAt, cell, found, space_find-cell}
use omb.Kern.State.{Kernel, Outcome, returned, ok}
use omb.Kern.Sys.{accept_loop, accept_fuel, accepted, accept_from, takes, offer_matches}
use omb.Kern.Sys.Accept.{into_by}
use omb.Kern.Sys.Accept.Moving.{
  place, Tabled, Apart, Rest, looked_up, page_of, read_entry, finds, loop_from,
}

-- What `sys_addr_accept` must do with the `n` pages: the receiver finds the giver's pages, with the
-- rights and the caching of `flags`, the giver finds none, and no other word changes.
pub record Moved (from vf to vt : ℕ) (gt rt : ℕ → ℕ) (n : ℕ) (m : Memory) (flags : ℕ)
    (r : Option (Memory × ℕ)) : Type 0 where
  pub memory : Memory
  pub ends : r ≡ some (memory, ok)
  pub handed : (i : ℕ) → i < n → space_find memory to (place vt i) ≡ space_find m from (place vf i)
  pub rights : (i f : ℕ) → i < n → (space_find_flags memory to (place vt i) f).1 ≡ (found 0 flags).1
  pub left : (i : ℕ) → i < n → space_find memory from (place vf i) ≡ 0
  pub others :
      (a : ℕ)
      → ((i : ℕ) → i < n → (cell (gt i) (place vf i) ≢ a) × (cell (rt i) (place vt i) ≢ a))
      → memory a ≡ m a

module _ (from vf to vt : ℕ) (gt rt : ℕ → ℕ) (n : ℕ) (m : Memory) (flags : ℕ)
    (apart : Apart from vf to vt gt rt n) (tables : Tabled from vf to vt gt rt n m)
    (words : (i : ℕ) → i < n → m (cell (gt i) (place vf i)) < 2 ^ 32) where
  module _ (m' : Memory) (r : Rest from vf to vt gt rt n m flags 0 m') where
    table_from : (i : ℕ) → i < n → TableAt m' from (place vf i) (gt i)
    table_from i h = (
      r.others _ (λ j a b. (apart.give_slot j i b h, apart.take_slot j i b h))
          ∙ (tables.tables_from i h).0,
      (tables.tables_from i h).1,
      (tables.tables_from i h).2,
    )

    table_to : (i : ℕ) → i < n → TableAt m' to (place vt i) (rt i)
    table_to i h = (
      r.others _ (λ j a b. (apart.give_slot_to j i b h, apart.take_slot_to j i b h))
          ∙ (tables.tables_to i h).0,
      (tables.tables_to i h).1,
      (tables.tables_to i h).2,
    )

    received_entry :
        (i f : ℕ)
        → i < n
        → space_find_flags m' to (place vt i) f ≡ found (m (cell (gt i) (place vf i)) / 4096) flags
    received_entry i f h =
        space_find-cell m' to (place vt i) (rt i) f (table_to i h)
        ∙ ap looked_up (r.taken i (omega arith) h)
        ∙ read_entry flags (m (cell (gt i) (place vf i))) (words i h)

    found_before :
        (i : ℕ)
        → i < n
        → space_find m from (place vf i) ≡ 4096 * (m (cell (gt i) (place vf i)) / 4096)
    found_before i h =
        finds from vf to vt gt rt n apart m i h tables
        ∙ page_of (m (cell (gt i) (place vf i))) (words i h)

    left_none : (i : ℕ) → i < n → space_find m' from (place vf i) ≡ 0
    unfolding space_find
    left_none i h =
        ap (λ (x : ℕ × ℕ). x.0)
          (space_find-cell m' from (place vf i) (gt i) 0 (table_from i h)
            ∙ ap looked_up (r.given i (omega arith) h))

    received_page : (i : ℕ) → i < n → space_find m' to (place vt i) ≡ space_find m from (place vf i)
    unfolding space_find
    received_page i h = ap (λ (x : ℕ × ℕ). x.0) (received_entry i 0 h) ∙ sym (found_before i h)

  pub accept_loop-Moved :
      (f arg : ℕ)
      → n < f
      → 4096 * n + 4096 ≤ 2 ^ 32
      → Moved from vf to vt gt rt n m flags (accept_loop f m from vf to vt arg (4096 * n) flags 0)
  accept_loop-Moved zero arg lt fits = absurd (omega arith)
  accept_loop-Moved (suc f) arg lt fits =
      let r =
        loop_from from vf to vt gt rt n apart n f 0 m arg flags (omega arith) (omega arith) fits
          tables in
      record {
        memory = r.memory;
        ends = r.ends;
        handed = received_page r.memory r.rest;
        rights = λ i g h. ap (λ (x : ℕ × ℕ). x.1) (received_entry r.memory r.rest i g h);
        left = left_none r.memory r.rest;
        others = λ a out. r.rest.others a (λ j p q. out j q);
      }

-- The space and the address that the pages come from.
abbrev pub out_of_by : Kernel → (u p start : ℕ) → Bool → ℕ × ℕ
out_of_by k u p start true = ((k.procs p).space, (k.procs p).addr_offer.start)
out_of_by k u p start false = ((k.procs u).space, start)

-- What `sys_addr_accept` must do with an offer that it takes.
pub record Handed (k : Kernel) (u p start n flags : ℕ) (b : Bool) (gt rt : ℕ → ℕ)
    (r : Kernel × Outcome) : Type 0 where
  pub moved :
      Moved
        (out_of_by k u p start b).0
        (out_of_by k u p start b).1
        (into_by k u p start b).0
        (into_by k u p start b).1
        gt
        rt
        n
        k.memory
        flags
        (accept_loop accept_fuel k.memory
          (out_of_by k u p start b).0
          (out_of_by k u p start b).1
          (into_by k u p start b).0
          (into_by k u p start b).1
          (if b then u else p)
          (4096 * n)
          flags
          0)
  pub result : r ≡ (record k { memory = moved.memory }, returned ok)

-- If an offer is to the caller and about the same length, `n` pages, and the same rights, and one
-- side takes where the other gives, both spaces have second-level tables for all pages, each
-- entry is apart from the others and from the first-level entries, and the giver's are words,
-- then `sys_addr_accept` returns OK. The receiver finds at each page of its range the page that
-- the giver found at that of its own, with the access right and the opposite of the caching that
-- the caller asked for, the giver finds none, and nothing else of the kernel changes.
pub accept_from-Handed :
    (k : Kernel) (u p start n flags : ℕ) (b : Bool) (gt rt : ℕ → ℕ)
    → offer_matches k u p (4096 * n) flags ≡ true
    → takes flags ≡ b
    → takes (k.procs p).addr_offer.flags ≡ not b
    → n < 2 ^ 20
    → Apart
        (out_of_by k u p start b).0
        (out_of_by k u p start b).1
        (into_by k u p start b).0
        (into_by k u p start b).1
        gt
        rt
        n
    → Tabled
        (out_of_by k u p start b).0
        (out_of_by k u p start b).1
        (into_by k u p start b).0
        (into_by k u p start b).1
        gt
        rt
        n
        k.memory
    → ((i : ℕ) → i < n → k.memory (cell (gt i) (place (out_of_by k u p start b).1 i)) < 2 ^ 32)
    → Handed k u p start n flags b gt rt (accept_from u p start (4096 * n) flags k)
unfolding accept_from
accept_from-Handed k u p start n flags true gt rt d t o small a tb w =
    let m =
      accept_loop-Moved _ _ _ _ gt rt n k.memory flags a tb w accept_fuel u (omega arith)
        (omega arith) in
    rw (d, t, o) (record { moved = m; result = ap (accepted k) m.ends })
accept_from-Handed k u p start n flags false gt rt d t o small a tb w =
    let m =
      accept_loop-Moved _ _ _ _ gt rt n k.memory flags a tb w accept_fuel p (omega arith)
        (omega arith) in
    rw (d, t, o) (record { moved = m; result = ap (accepted k) m.ends })
