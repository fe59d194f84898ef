-- ===== src/Proc0/Ledger/Io.antt =====
-- `get_io` takes the range of device registers that it gives away off the list: the section it
-- lies in is cut in two.
use omb.Base.{
  ℕ, zero, suc, ◌+◌, ◌-◌, ◌*◌, ◌%◌, ◌^◌, ◌<◌, ◌≤◌, ◌≡◌, refl, sym, subst, true, ◌&&◌, Option, none,
  some, List, [], ◌∷◌, arith, has, leb, ltb, length, Bool-cases, inl, inr,
}
use omb.Proc0.{Section, Pages, Store, set_sections, io_holds, find_io, cut_section, take_io}
use omb.Proc0.Ram.{Chain, Fits}
use omb.Proc0.Ledger.{holds, covers, Ledger, Spent}
use omb.Proc0.Ledger.Ram.{block}
use omb.Proc0.Ledger.Table.{section_at, set_sections-Tabled}
use omb.Proc0.Ledger.Place.{Added, AllFit-at}
use omb.Proc0.Ledger.Add.{addr_add-AddEnds}

-- What the search in a table finds.
pub record Found (addr len : ℕ) (ss : List Section) (i : ℕ) (s : Section) : Type 0 where
  pub there : section_at i ss ≡ some s
  pub around : s.start ≤ addr
  pub inside : (addr + len) % 2 ^ 32 ≤ (s.start + s.len) % 2 ^ 32

-- The search from the index `j` on.
pub data Search (addr len j : ℕ) (ss : List Section) : Option (ℕ × Section) → Type 0 where
  nowhere : Search addr len j ss none
  found :
      (d i : ℕ) (s : Section)
      → i ≡ j + d
      → Found addr len ss d s
      → Search addr len j ss (some (i, s))

search_behind :
    (addr len j : ℕ) (t : Section) (ss : List Section) (o : Option (ℕ × Section))
    → Search addr len (j + 1) ss o
    → Search addr len j (t ∷ ss) o
search_behind addr len j t ss _ nowhere = nowhere
search_behind addr len j t ss _ (found d i s e f) =
    found (suc d) i s (omega arith)
      (record { there = f.there; around = f.around; inside = f.inside })

pub find_io-Search :
    (addr len j : ℕ) (ss : List Section) → Search addr len j ss (find_io addr len j ss)
unfolding find_io io_holds
find_io-Search addr len j [] = nowhere
find_io-Search addr len j (t ∷ ss) =
    elim (Bool-cases
      (leb t.start addr && leb ((addr + len) % 2 ^ 32) ((t.start + t.len) % 2 ^ 32))) [
        | inl b ↦ rw b (
            found 0 j t (omega arith)
              (record { there = refl; around = ground arith; inside = ground arith }))
        | inr b ↦ rw b (
            search_behind addr len j t ss (find_io addr len (j + 1) ss)
              (find_io-Search addr len (j + 1) ss))
      ]

pub Found-of :
    (addr len : ℕ) (ss : List Section) (i : ℕ) (s : Section) (o : Option (ℕ × Section))
    → Search addr len 0 ss o
    → o ≡ some (i, s)
    → Found addr len ss i s
Found-of addr len ss i s _ nowhere q = cc
Found-of addr len ss i s _ (found d k t e f) q =
    let index : k ≡ i = cc in
    let section : t ≡ s = cc in
    let place : d ≡ i = omega (arith, e, index) in
    subst (λ (x : Section). Found addr len ss i x) section
      (subst (λ (n : ℕ). Found addr len ss n t) place f)

section_at-Fits :
    (i : ℕ) (ss : List Section) (s : Section)
    → section_at i ss ≡ some s
    → Fits ss
    → s.start + s.len ≤ 2 ^ 32
section_at-Fits i [] s e f = cc
section_at-Fits zero (t ∷ ss) s e f =
    let same : t ≡ s = cc in subst (λ (x : Section). x.start + x.len ≤ 2 ^ 32) same f.0
section_at-Fits (suc i) (t ∷ ss) s e f = section_at-Fits i ss s e f.1

-- The table after `s->len = addr - s->start`.
module _ (addr : ℕ) (s : Section) (low : s.start ≤ addr) (high : addr < s.start + s.len)
    (fits : s.start + s.len ≤ 2 ^ 32) where
  cut_len : (addr + 2 ^ 32 - s.start) % 2 ^ 32 ≡ addr - s.start
  cut_len = omega arith

  cut_section-covers :
      (a i : ℕ) (ss : List Section)
      → section_at i ss ≡ some s
      → covers a (cut_section i addr ss) + holds a s.start s.len
        ≡ covers a ss + holds a s.start (addr - s.start)
  unfolding cut_section
  cut_section-covers a i [] e = cc
  cut_section-covers a zero (t ∷ ss) e = let same : t ≡ s = cc in rw (same, cut_len) (omega arith)
  cut_section-covers a (suc i) (t ∷ ss) e = omega (arith, cut_section-covers a i ss e)

  cut_section-Fits :
      (i : ℕ) (ss : List Section)
      → section_at i ss ≡ some s
      → Fits ss
      → Fits (cut_section i addr ss)
  unfolding cut_section
  cut_section-Fits i [] e f = cc
  cut_section-Fits zero (t ∷ ss) e f =
      let same : t ≡ s = cc in rw same (rw cut_len (omega arith), f.1)
  cut_section-Fits (suc i) (t ∷ ss) e f = (f.0, cut_section-Fits i ss e f.1)

-- What `get_io` must give: it ends, and gives away the range or nothing.
pub record IoEnds (st : Store) (rs is : List ℕ) (len : ℕ) (r : Option (Store × ℕ)) : Type 0 where
  pub outcome : Store × ℕ
  pub ends : r ≡ some outcome
  pub spent : Spent st rs is (λ a. block a outcome.1 len) outcome.0

Added-nothing : (st : Store) (rs is : List ℕ) (e : ℕ) → Ledger st rs is → Added st rs is e 0 st
Added-nothing st rs is e l = record {
  io = is;
  ledger = l;
  ram = λ a. omega arith;
  bytes = λ a. omega arith;
  fate = inl (λ a. ground arith);
  stays = λ h i s m q pos. q;
  grown = λ h m. m;
  head = refl;
  longer = omega arith;
}

io_pos : (ps : Pages) (h k : ℕ) (is : List ℕ) → Chain ps h is → has k is ≡ true → 0 < h
io_pos ps h k _ Chain.end m = cc
io_pos ps _ k _ (Chain.link h pos c) m = pos

block_le : (a addr len : ℕ) → block a addr len ≤ holds a addr len
block_le a addr len = ground arith

-- A range that is cut into three.
pieces :
    (a start x len y addr n : ℕ)
    → addr ≡ start + x
    → n ≡ x + len + y
    → holds a start n ≡ holds a start x + holds a addr len + holds a (addr + len) y
pieces a start x len y addr n p q = rw (p, q) (ground arith)

module _ (addr len : ℕ) (pos : 0 < len) (below : addr + len < 2 ^ 32) (st : Store) (rs is : List ℕ)
    (l : Ledger st rs is) (h i : ℕ) (s : Section) (m : has h is ≡ true)
    (f : Found addr len (st.pages h).sections i s) where
  abbrev rest : ℕ
  rest = s.start + s.len - (addr + len)

  fits : s.start + s.len ≤ 2 ^ 32
  fits = section_at-Fits i (st.pages h).sections s f.there (AllFit-at st.pages is h l.io_fits m)

  inside : addr + len ≤ s.start + s.len
  inside = ground (arith, fits, f.inside, f.around)

  cut-Spent :
      (t : Store)
      → Added st rs is (addr + len) rest t
      → Spent st rs is
          (λ a. block a addr len)
          (set_sections t h (cut_section i addr (t.pages h).sections))
  cut-Spent t d =
      let high : addr < s.start + s.len = omega (arith, inside) in
      let there = d.stays h i s m f.there (omega (arith, f.around, inside)) in
      let fit =
        cut_section-Fits addr s f.around high fits i (t.pages h).sections there
          (AllFit-at t.pages d.io h d.ledger.io_fits (d.grown h m)) in
      let x =
        set_sections-Tabled t rs h (cut_section i addr (t.pages h).sections) fit d.io d.ledger
          (d.grown h m) in
      record {
        io = d.io;
        ledger = x.ledger;
        bytes = λ a. omega (
          arith,
          x.ram a,
          d.ram a,
          x.io a,
          cut_section-covers addr s f.around high fits a i (t.pages h).sections there,
          d.bytes a,
          pieces a s.start (addr - s.start) len rest addr s.len (omega (arith, f.around))
              (omega (arith, inside, f.around)),
          block_le a addr len,
        );
        longer = d.longer;
      }

  pub take_io-IoEnds :
      (n : ℕ) → length rs + length is < n → IoEnds st rs is len (take_io n addr len st h i s)
  unfolding take_io
  take_io-IoEnds n lt =
      elim (Bool-cases (ltb ((addr + len) % 2 ^ 32) ((s.start + s.len) % 2 ^ 32))) [
        | inl b ↦
            let from : (addr + len) % 2 ^ 32 ≡ addr + len = omega arith in
            let size : (s.start + s.len + 2 * 2 ^ 32 - addr - len) % 2 ^ 32 ≡ rest =
              omega (arith, inside, fits, pos) in
            let e =
              addr_add-AddEnds (addr + len) rest (omega (arith, inside, fits)) n st rs is lt
                (io_pos st.pages st.io h is l.io_chain m) l in
            rw (b, from, size, e.ends)
              (record { outcome = _; ends = refl; spent = cut-Spent e.final e.added })
        | inr b ↦
            let none_left : rest ≡ 0 = ground (arith, f.inside, fits, inside) in
            let d =
              subst (λ (n : ℕ). Added st rs is (addr + len) n st) (sym none_left)
                (Added-nothing st rs is (addr + len) l) in
            rw b (record { outcome = _; ends = refl; spent = cut-Spent st d })
      ]
