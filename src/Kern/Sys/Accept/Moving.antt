-- ===== src/Kern/Sys/Accept/Moving.antt =====
-- The loop of `sys_addr_accept` moves pages from one address space to another.
use omb.Base.{
  ℕ, zero, suc, ◌+◌, ◌*◌, ◌/◌, ◌%◌, ◌^◌, ◌<◌, ◌≤◌, ◌≡◌, ◌≢◌, ◌∙◌, refl, ap, sym, subst, Bool, true,
  false, Option, some, arith, ◌==◌, ==_iff, Bool-cases, inl, inr, ltb, bit_and, update, update_self,
  update_ne,
}
use omb.Space.{Memory, page_size, page_mask, l2_entry, space_find, space_map, flags_from_map}
use omb.Space.Entry.{page_mask_lem}
use omb.Space.Mapping.{
  slot, TableAt, cell, access, caching, found, read_back, space_find-cell, space_unmap-cell,
  space_map-cell,
}
use omb.Kern.State.{ok}
use omb.Kern.Sys.{get_page, accept_page, accept_loop}

-- The address of page `i` of a range.
abbrev pub place : (start i : ℕ) → ℕ
place start i = (start + 4096 * i) % 2 ^ 32

-- The entry that the receiver gets for one of the giver, and what an entry is read as.
abbrev pub entry : (flags x : ℕ) → ℕ
entry flags x = l2_entry (bit_and x page_mask) (access flags) (caching flags)

abbrev pub looked_up : ℕ → ℕ × ℕ
looked_up e = (bit_and e page_mask, flags_from_map e)

pub page_of : (x : ℕ) → x < 2 ^ 32 → bit_and x page_mask ≡ 4096 * (x / 4096)
page_of x h =
    let split : x ≡ 4096 * (x / 4096) + x % 4096 = omega arith in
    ap (λ (y : ℕ). bit_and y page_mask) split
    ∙ page_mask_lem (x / 4096) (x % 4096) (omega arith) (omega arith)

pub read_entry : (flags x : ℕ) → x < 2 ^ 32 → looked_up (entry flags x) ≡ found (x / 4096) flags
read_entry flags x h =
    ap (λ (pa : ℕ). looked_up (l2_entry pa (access flags) (caching flags))) (page_of x h)
    ∙ read_back (x / 4096) flags (omega arith)

-- The giver's space and range are `from` and `vf`, with the tables `gt`; the receiver's `to` and
-- `vt`, with the tables `rt`.
module _ (from vf to vt : ℕ) (gt rt : ℕ → ℕ) (n : ℕ) where
  abbrev pub give : ℕ → ℕ
  give i = cell (gt i) (place vf i)

  abbrev pub take : ℕ → ℕ
  take i = cell (rt i) (place vt i)

  -- Both sides have tables for each page.
  pub record Tabled (m : Memory) : Type 0 where
    pub tables_from : (i : ℕ) → i < n → TableAt m from (place vf i) (gt i)
    pub tables_to : (i : ℕ) → i < n → TableAt m to (place vt i) (rt i)

  -- No entry of the range is another one, or lies in a first-level table.
  pub record Apart : Type 0 where
    pub give_give : (i j : ℕ) → i < j → j < n → give i ≢ give j
    pub take_take : (i j : ℕ) → i < j → j < n → take i ≢ take j
    pub give_take : (i j : ℕ) → i < n → j < n → give i ≢ take j
    pub give_slot : (i j : ℕ) → i < n → j < n → give i ≢ slot from (place vf j)
    pub give_slot_to : (i j : ℕ) → i < n → j < n → give i ≢ slot to (place vt j)
    pub take_slot : (i j : ℕ) → i < n → j < n → take i ≢ slot from (place vf j)
    pub take_slot_to : (i j : ℕ) → i < n → j < n → take i ≢ slot to (place vt j)

  -- The memory after the pages from `i` on have been moved.
  pub record Rest (m : Memory) (flags i : ℕ) (m' : Memory) : Type 0 where
    pub taken : (j : ℕ) → i ≤ j → j < n → m' (take j) ≡ entry flags (m (give j))
    pub given : (j : ℕ) → i ≤ j → j < n → m' (give j) ≡ 0
    pub others : (a : ℕ) → ((j : ℕ) → i ≤ j → j < n → (give j ≢ a) × (take j ≢ a)) → m' a ≡ m a

  pub record RestEnds (m : Memory) (flags i : ℕ) (r : Option (Memory × ℕ)) : Type 0 where
    pub memory : Memory
    pub ends : r ≡ some (memory, ok)
    pub rest : Rest m flags i memory

  -- The memory after a round.
  abbrev moved : Memory → (flags i : ℕ) → Memory
  moved m flags i = update (update m (take i) (entry flags (m (give i)))) (give i) 0

  module _ (apart : Apart) where
    untouched : (m : Memory) (flags i a : ℕ) → give i ≢ a → take i ≢ a → moved m flags i a ≡ m a
    untouched m flags i a g t =
        update_ne (update m (take i) _) (give i) a 0 g ∙ update_ne m (take i) a _ t

    moved-Tabled : (m : Memory) (flags i : ℕ) → i < n → Tabled m → Tabled (moved m flags i)
    moved-Tabled m flags i h t = record {
      tables_from = λ j p. (
        untouched m flags i _ (apart.give_slot i j h p) (apart.take_slot i j h p)
            ∙ (t.tables_from j p).0,
        (t.tables_from j p).1,
        (t.tables_from j p).2,
      );
      tables_to = λ j p. (
        untouched m flags i _ (apart.give_slot_to i j h p) (apart.take_slot_to i j h p)
            ∙ (t.tables_to j p).0,
        (t.tables_to j p).1,
        (t.tables_to j p).2,
      );
    }

    pub finds :
        (m : Memory) (i : ℕ)
        → i < n
        → Tabled m
        → space_find m from (place vf i) ≡ bit_and (m (give i)) page_mask
    unfolding space_find
    finds m i h t =
        ap (λ (x : ℕ × ℕ). x.0) (space_find-cell m from (place vf i) (gt i) 0 (t.tables_from i h))

    -- What a round does.
    map_unmap :
        (m : Memory) (flags i page : ℕ) (rest : Memory → Option (Memory × ℕ))
        → i < n
        → Tabled m
        → accept_page
            (space_map m to (space_find m from (place vf i)) (place vt i) flags page)
            from
            (place vf i)
            rest
          ≡ rest (moved m flags i)
    map_unmap m flags i page rest h t =
        let mapped = update m (take i) (entry flags (m (give i))) in
        let still : TableAt mapped from (place vf i) (gt i) = (
          update_ne m (take i) _ _ (apart.take_slot i i h h) ∙ (t.tables_from i h).0,
          (t.tables_from i h).1,
          (t.tables_from i h).2,
        ) in
        ap
          (λ (pa : ℕ).
            accept_page (space_map m to pa (place vt i) flags page) from (place vf i) rest)
          (finds m i h t)
        ∙ ap (λ (r : Memory × Bool). accept_page r from (place vf i) rest)
            (space_map-cell m to (place vt i) (rt i) (bit_and (m (give i)) page_mask) flags page
              (t.tables_to i h))
        ∙ ap rest (space_unmap-cell mapped from (place vf i) (gt i) still)

    module _ (m : Memory) (flags i : ℕ) (m' : Memory) (h : i < n)
        (r : Rest (moved m flags i) flags (suc i) m') where
      taken_now : m' (take i) ≡ entry flags (m (give i))
      taken_now =
          r.others (take i)
            (λ j p q. (apart.give_take j i q h, λ e. apart.take_take i j p q (sym e)))
          ∙ update_ne (update m (take i) _) (give i) (take i) 0 (apart.give_take i i h h)
          ∙ update_self m (take i) _

      given_now : m' (give i) ≡ 0
      given_now =
          r.others (give i)
            (λ j p q. (λ e. apart.give_give i j p q (sym e), λ e. apart.give_take i j h q (sym e)))
          ∙ update_self (update m (take i) _) (give i) 0

      taken_later : (j : ℕ) → i < j → j < n → m' (take j) ≡ entry flags (m (give j))
      taken_later j a b =
          r.taken j a b
          ∙ ap (entry flags) (
              untouched m flags i (give j) (apart.give_give i j a b)
                (λ e. apart.give_take j i b h (sym e)))

      moved-Rest : Rest m flags i m'
      moved-Rest = record {
        taken = λ j a b. elim (Bool-cases (i == j)) [
          | inl e ↦
              subst (λ (k : ℕ). m' (take k) ≡ entry flags (m (give k))) ((==_iff i j).0 e) taken_now
          | inr e ↦ taken_later j (ground (arith, e)) b
        ];
        given = λ j a b. elim (Bool-cases (i == j)) [
          | inl e ↦ subst (λ (k : ℕ). m' (give k) ≡ 0) ((==_iff i j).0 e) given_now
          | inr e ↦ r.given j (ground (arith, e)) b
        ];
        others = λ a out.
            r.others a (λ j p q. out j (omega arith) q)
            ∙ untouched m flags i a (out i (omega arith) h).0 (out i (omega arith) h).1;
      }

    round :
        (f i : ℕ) (m : Memory) (arg flags : ℕ)
        → i < n
        → 4096 * n + 4096 ≤ 2 ^ 32
        → Tabled m
        → accept_loop (suc f) m from vf to vt arg (4096 * n) flags (4096 * i)
          ≡ accept_loop f (moved m flags i) from vf to vt arg (4096 * n) flags (4096 * suc i)
    unfolding accept_loop
    round f i m arg flags h fits t =
        let more : ltb (4096 * i) (4096 * n) ≡ true = ground arith in
        let next : (4096 * i + page_size) % 2 ^ 32 ≡ 4096 * suc i = omega arith in
        rw (accept_loop, more)
          (map_unmap m flags i (get_page arg) _ h t
            ∙ ap (λ (l : ℕ). accept_loop f (moved m flags i) from vf to vt arg (4096 * n) flags l)
                next)

    pub loop_from :
        (k f i : ℕ) (m : Memory) (arg flags : ℕ)
        → k ≤ f
        → i + k ≡ n
        → 4096 * n + 4096 ≤ 2 ^ 32
        → Tabled m
        → RestEnds m flags i (accept_loop (suc f) m from vf to vt arg (4096 * n) flags (4096 * i))
    unfolding accept_loop
    loop_from zero f i m arg flags lt e fits t =
        let done : ltb (4096 * i) (4096 * n) ≡ false = ground (arith, e) in
        rw (accept_loop, done)
          (record {
            memory = m;
            ends = refl;
            rest = record {
              taken = λ j a b. absurd (omega arith);
              given = λ j a b. absurd (omega arith);
              others = λ a out. refl;
            };
          })
    loop_from (suc k) zero i m arg flags lt e fits t = absurd (omega arith)
    loop_from (suc k) (suc f) i m arg flags lt e fits t =
        let h : i < n = omega arith in
        let r =
          loop_from k f (suc i) (moved m flags i) arg flags (omega arith) (omega arith) fits
            (moved-Tabled m flags i h t) in
        record {
          memory = r.memory;
          ends = round (suc f) i m arg flags h fits t ∙ r.ends;
          rest = moved-Rest m flags i r.memory h r.rest;
        }
