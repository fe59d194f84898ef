-- ===== src/Proc0/Add.antt =====
-- `addr_add` of proc0/main.c: a section that is given back takes the first empty place.
use omb.Base.{
  ℕ, zero, suc, ◌<◌, ◌≡◌, refl, ap, Bool, true, false, ◌||◌, Option, none, some, List, [], ◌∷◌,
  ◌++◌, arith, ◌==◌, Bool-cases, Option-cases, inl, inr, length, subst,
}
use mathlib.Core.Option
use omb.Proc0.{Section, Pages, Store, put_section, set_sections, addr_add}
use omb.Proc0.Ram.{Chain}

-- Whether a place of a table is empty, and whether one of the tables of a chain has such a place.
abbrev pub any_empty : List Section → Bool
any_empty [] = false
any_empty (s ∷ ss) = (s.len == 0) || any_empty ss

abbrev pub has_empty : Pages → List ℕ → Bool
has_empty ps [] = false
has_empty ps (h ∷ hs) = any_empty (ps h).sections || has_empty ps hs

-- The table `r` is `ss` with its first empty place filled.
pub record Placed (start len : ℕ) (ss r : List Section) : Type 0 where
  pub ahead : List Section
  pub section : Section
  pub behind : List Section
  pub before : ss ≡ ahead ++ section ∷ behind
  pub first : any_empty ahead ≡ false
  pub empty : section.len ≡ 0
  pub after : r ≡ ahead ++ record { start = start; len = len } ∷ behind

-- What the search in a table gives.
pub data Put (start len : ℕ) (ss : List Section) : Option (List Section) → Type 0 where
  full : any_empty ss ≡ false → Put start len ss none
  put : (r : List Section) → Placed start len ss r → Put start len ss (some r)

-- What `addr_add` must give on the chain `hs`: the first empty place of all its tables is filled.
pub record Filled (start len : ℕ) (st : Store) (hs : List ℕ) (r : Option Store) : Type 0 where
  pub ahead : List ℕ
  pub holder : ℕ
  pub behind : List ℕ
  pub before : hs ≡ ahead ++ holder ∷ behind
  pub first : has_empty st.pages ahead ≡ false
  pub table : List Section
  pub placed : Placed start len (st.pages holder).sections table
  pub ends : r ≡ some (set_sections st holder table)

module _ (start len : ℕ) where
  place_behind :
      (s : Section) (ss : List Section) (o : Option (List Section))
      → (s.len == 0) ≡ false
      → Put start len ss o
      → Put start len (s ∷ ss) (Option.map (λ (r : List Section). s ∷ r) o)
  place_behind s ss _ u (full f) = full (ground (arith, f))
  place_behind s ss _ u (put r p) = put (s ∷ r) (record {
    ahead = s ∷ p.ahead;
    section = p.section;
    behind = p.behind;
    before = ap (λ (xs : List Section). s ∷ xs) p.before;
    first = ground (arith, p.first);
    empty = p.empty;
    after = ap (λ (xs : List Section). s ∷ xs) p.after;
  })

  pub put_section-Put : (ss : List Section) → Put start len ss (put_section start len ss)
  unfolding put_section
  put_section-Put [] = full refl
  put_section-Put (s ∷ ss) = elim (Bool-cases (s.len == 0)) [
    | inl b ↦ rw b (
        put _ (record {
          ahead = [];
          section = s;
          behind = ss;
          before = refl;
          first = refl;
          empty = ground arith;
          after = refl;
        }))
    | inr b ↦ rw b (place_behind s ss (put_section start len ss) b (put_section-Put ss))
  ]

  pub full_of :
      (ss : List Section) (o : Option (List Section))
      → Put start len ss o
      → o ≡ none
      → any_empty ss ≡ false
  full_of ss _ (full f) e = f
  full_of ss _ (put r p) e = cc

  pub Placed-of :
      (ss r : List Section) (o : Option (List Section))
      → Put start len ss o
      → o ≡ some r
      → Placed start len ss r
  Placed-of ss r _ (full f) e = cc
  Placed-of ss r _ (put x p) e =
      let same : x ≡ r = cc in subst (λ (y : List Section). Placed start len ss y) same p

  behind_full :
      (st : Store) (h : ℕ) (hs : List ℕ) (r : Option Store)
      → any_empty (st.pages h).sections ≡ false
      → Filled start len st hs r
      → Filled start len st (h ∷ hs) r
  behind_full st h hs r f a = record {
    ahead = h ∷ a.ahead;
    holder = a.holder;
    behind = a.behind;
    before = ap (λ (xs : List ℕ). h ∷ xs) a.before;
    first = ground (arith, a.first);
    table = a.table;
    placed = a.placed;
    ends = a.ends;
  }

-- The next page of a chain that goes on is not nil.
goes_on :
    (ps : Pages) (n : ℕ) (hs : List ℕ) → Chain ps n hs → has_empty ps hs ≡ true → (n == 0) ≡ false
goes_on ps n _ Chain.end e = cc
goes_on ps n _ (Chain.link _ pos c) e = ground arith

-- If the address `h` leads through the holders `hs` to nil, and one of their tables has an empty
-- section, then with fuel beyond their number `addr_add` ends, and it sets the first empty
-- section of all to `start` and `len` and changes nothing else.
pub addr_add_lem :
    (hs : List ℕ) (f h start len : ℕ) (st : Store)
    → length hs < f
    → Chain st.pages h hs
    → has_empty st.pages hs ≡ true
    → Filled start len st hs (addr_add f h start len st)
unfolding addr_add
addr_add_lem hs zero h start len st lt c e = absurd (omega arith)
addr_add_lem [] (suc f) h start len st lt c e = cc
addr_add_lem (k ∷ hs) (suc f) _ start len st lt (Chain.link _ pos c) e =
    let there : (k == 0) ≡ false = ground arith in
    let search = put_section-Put start len (st.pages k).sections in
    elim (Option-cases (put_section start len (st.pages k).sections)) [
      | inl n ↦
          let f_k = full_of start len (st.pages k).sections _ search n in
          let rest : has_empty st.pages hs ≡ true = ground (arith, f_k) in
          let on = goes_on st.pages (st.pages k).next hs c rest in
          rw (addr_add, there, n, on)
            (behind_full start len st k hs _ f_k
              (addr_add_lem hs f (st.pages k).next start len st (omega arith) c rest))
      | inr (r, s) ↦
          rw (addr_add, there, s)
            (record {
              ahead = [];
              holder = k;
              behind = hs;
              before = refl;
              first = refl;
              table = r;
              placed = Placed-of start len (st.pages k).sections r _ search s;
              ends = refl;
            })
    ]
