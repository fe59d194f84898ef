-- ===== src/Proc0/Ram.antt =====
-- `get_ram` of proc0/main.c: the block it hands out is taken off the end of a free section.
use omb.Base.{
  ℕ, zero, suc, ◌+◌, ◌-◌, ◌%◌, ◌^◌, ◌<◌, ◌≤◌, ◌≡◌, refl, ap, false, Option, none, some, List, [],
  ◌∷◌, ◌++◌, arith, leb, ◌==◌, Bool-cases, inl, inr, update, length,
}
use mathlib.Core.Option
use omb.Proc0.{Section, Pages, Store, take_ram, ram_found, get_ram_loop, get_ram}

-- The bytes in a table of sections.
abbrev pub total : List Section → ℕ
total [] = 0
total (s ∷ ss) = s.len + total ss

-- No section of a table has room for `len` bytes.
abbrev pub NoRoom : ℕ → List Section → Type 0
NoRoom len [] = Unit
NoRoom len (s ∷ ss) = (s.len < len) × NoRoom len ss

-- Sections that end at or before the end of the 32-bit addresses.
abbrev pub Fits : List Section → Type 0
Fits [] = Unit
Fits (s ∷ ss) = (s.start + s.len ≤ 2 ^ 32) × Fits ss

-- The table after `len` bytes at `addr` left it: the first section with room is shortened by its
-- last `len` bytes, which are the block.
pub record Split (len : ℕ) (ss : List Section) (r : List Section × ℕ) : Type 0 where
  pub ahead : List Section
  pub section : Section
  pub behind : List Section
  pub before : ss ≡ ahead ++ section ∷ behind
  pub first : NoRoom len ahead
  pub room : len ≤ section.len
  pub after : r.0 ≡ ahead ++ record section { len = section.len - len } ∷ behind
  pub block : r.1 + len ≡ section.start + section.len

-- What a search in a table gives.
pub data Taken (len : ℕ) (ss : List Section) : Option (List Section × ℕ) → Type 0 where
  nothing : NoRoom len ss → Taken len ss none
  taken : (r : List Section × ℕ) → Split len ss r → Taken len ss (some r)

here :
    (len : ℕ) (s : Section) (ss : List Section)
    → 0 < len
    → s.start + s.len ≤ 2 ^ 32
    → len ≤ s.len
    → Split len (s ∷ ss) (record s { len = s.len - len } ∷ ss, (s.start + (s.len - len)) % 2 ^ 32)
here len s ss p h g = record {
  ahead = [];
  section = s;
  behind = ss;
  before = refl;
  first = tt;
  room = g;
  after = refl;
  block = omega arith;
}

skip :
    (len : ℕ) (s : Section) (ss : List Section) (o : Option (List Section × ℕ))
    → s.len < len
    → Taken len ss o
    → Taken len (s ∷ ss) (Option.map (λ (r : List Section × ℕ). (s ∷ r.0, r.1)) o)
skip len s ss _ h (nothing n) = nothing (h, n)
skip len s ss _ h (taken r t) =
    taken (s ∷ r.0, r.1)
      (record {
        ahead = s ∷ Split.ahead t;
        section = Split.section t;
        behind = Split.behind t;
        before = ap (λ (xs : List Section). s ∷ xs) (Split.before t);
        first = (h, Split.first t);
        room = Split.room t;
        after = ap (λ (xs : List Section). s ∷ xs) (Split.after t);
        block = Split.block t;
      })

pub take_ram_lem :
    (len : ℕ) (ss : List Section) → 0 < len → Fits ss → Taken len ss (take_ram len ss)
unfolding take_ram
take_ram_lem len [] p f = nothing tt
take_ram_lem len (s ∷ ss) p f = elim (Bool-cases (leb len s.len)) [
  | inl b ↦ rw b (taken _ (here len s ss p f.0 (ground arith)))
  | inr b ↦ rw b (skip len s ss (take_ram len ss) (ground arith) (take_ram_lem len ss p f.1))
]

-- A chain of holders from the address `h` on, which ends at nil.
pub data Chain (ps : Pages) : ℕ → List ℕ → Type 0 where
  end : Chain ps 0 []
  link : (h : ℕ) {hs : List ℕ} → 0 < h → Chain ps (ps h).next hs → Chain ps h (h ∷ hs)

abbrev pub AllFit : Pages → List ℕ → Type 0
AllFit ps [] = Unit
AllFit ps (h ∷ hs) = Fits (ps h).sections × AllFit ps hs

abbrev pub AllFull : ℕ → Pages → List ℕ → Type 0
AllFull len ps [] = Unit
AllFull len ps (h ∷ hs) = NoRoom len (ps h).sections × AllFull len ps hs

-- What `get_ram` gives on a chain of holders.
pub data Given (len : ℕ) (ps : Pages) : List ℕ → Option (Pages × ℕ) → Type 0 where
  refused : {hs : List ℕ} → AllFull len ps hs → Given len ps hs (some (ps, 0))
  given :
      (ahead : List ℕ) (h : ℕ) (behind : List ℕ) (r : List Section × ℕ)
      → AllFull len ps ahead
      → Split len (ps h).sections r
      → Given len ps
          (ahead ++ h ∷ behind)
          (some (update ps h (record (ps h) { sections = r.0 }), r.1))

found :
    (len : ℕ) (ps : Pages) (h : ℕ) (hs : List ℕ) (o : Option (List Section × ℕ))
    (b : Option (Pages × ℕ))
    → Taken len (ps h).sections o
    → Given len ps hs b
    → Given len ps (h ∷ hs) (ram_found ps h o b)
unfolding ram_found
found len ps h _ _ _ (nothing n) (refused f) = refused (n, f)
found len ps h _ _ _ (nothing n) (given ahead k behind r f s) =
    given (h ∷ ahead) k behind r (n, f) s
found len ps h hs _ b (taken r s) g = given [] h hs r tt s

get_ram_from :
    (hs : List ℕ) (f len : ℕ) (ps : Pages) (h : ℕ)
    → length hs < f
    → 0 < len
    → Chain ps h hs
    → AllFit ps hs
    → Given len ps hs (get_ram_loop f len ps h)
unfolding get_ram_loop
get_ram_from [] zero len ps h a p c g = absurd (omega arith)
get_ram_from [] (suc f) len ps _ a p end g = refused tt
get_ram_from (k ∷ hs) zero len ps h a p c g = absurd (omega arith)
get_ram_from (k ∷ hs) (suc f) len ps _ a p (link _ q c) g =
    let no : (k == 0) ≡ false = ground arith in
    rw (get_ram_loop, no)
      (found len ps k hs (take_ram len (ps k).sections) (get_ram_loop f len ps (ps k).next)
        (take_ram_lem len (ps k).sections p g.0)
        (get_ram_from hs f len ps (ps k).next (omega arith) p c g.1))

-- The outcome of `get_ram`: the pages, which may have changed in one table, and the address.
pub record RamGiven (len : ℕ) (st : Store) (hs : List ℕ) (r : Option (Store × ℕ)) : Type 0 where
  pub outcome : Pages × ℕ
  pub ends : r ≡ some (record st { pages = outcome.0 }, outcome.1)
  pub block : Given len st.pages hs (some outcome)

given_store :
    (len : ℕ) (st : Store) (hs : List ℕ) (o : Option (Pages × ℕ))
    → Given len st.pages hs o
    → RamGiven len st hs (Option.map (λ (r : Pages × ℕ). (record st { pages = r.0 }, r.1)) o)
given_store len st hs none h = elim h [ ]
given_store len st hs (some x) h = record { outcome = x; ends = refl; block = h }

-- If `ram` leads through the holders `hs` to nil, the sections of each end in the 32-bit
-- addresses, and `len` is positive, then `get_ram(len)` ends. Either no section has room for
-- `len` bytes and it returns nil with the pages unchanged, or it returns the last `len` bytes of
-- the first section with room, which is shortened by them, and no other section changes.
pub get_ram_lem :
    (f len : ℕ) (st : Store) (hs : List ℕ)
    → length hs < f
    → 0 < len
    → Chain st.pages st.ram hs
    → AllFit st.pages hs
    → RamGiven len st hs (get_ram f len st)
unfolding get_ram
get_ram_lem f len st hs a p c g =
    let h = get_ram_from hs f len st.pages st.ram a p c g in
    given_store len st hs (get_ram_loop f len st.pages st.ram) h
