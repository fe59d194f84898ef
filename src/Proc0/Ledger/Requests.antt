-- ===== src/Proc0/Ledger/Requests.antt =====
-- The requests at process 0: how often an address is given away is bounded by how often its two
-- lists hold it.
use omb.Base.{
  ℕ, zero, suc, ◌+◌, ◌*◌, ◌^◌, ◌<◌, ◌≤◌, ◌≡◌, refl, sym, subst, true, false, Option, some, List, [],
  ◌∷◌, arith, has, ◌==◌, length, Bool-cases, Option-cases, inl, inr,
}
use omb.Proc0.{Store, find_io, get_io_loop, get_io}
use omb.Proc0.Main.{
  Answer, refuse, accept, answer_request, handle_addr_request, handle_message, message_addr,
  Request, main_loop,
}
use omb.Proc0.Ram.{Chain}
use omb.Proc0.Ledger.{holds, free, Ledger, Spent}
use omb.Proc0.Ledger.Ram.{block, get_ram-RamSpent, RamSpent-Spent}
use omb.Proc0.Ledger.Io.{find_io-Search, Found-of, IoEnds, take_io-IoEnds}
use omb.Proc0.Requests.{whole_pages, page_align_lem}

Spent-nothing : (st : Store) (rs is : List ℕ) → Ledger st rs is → Spent st rs is (λ a. 0) st
Spent-nothing st rs is l = record {
  io = is;
  ledger = l;
  bytes = λ a. omega arith;
  longer = omega arith;
}

module _ (addr len : ℕ) (pos : 0 < len) (below : addr + len < 2 ^ 32) (st : Store) (rs is : List ℕ)
    (l : Ledger st rs is) where
  -- The loop over the holders `ys`, from the first of them on.
  get_io_from :
      (ys : List ℕ) (n h : ℕ)
      → length rs + length is + length ys < n
      → ((k : ℕ) → has k ys ≡ true → has k is ≡ true)
      → Chain st.pages h ys
      → IoEnds st rs is len (get_io_loop n addr len st h)
  unfolding get_io_loop
  get_io_from ys zero h lt sub c = absurd (omega arith)
  get_io_from [] (suc n) _ lt sub Chain.end = record {
    outcome = (st, 0);
    ends = refl;
    spent = Spent-nothing st rs is l;
  }
  get_io_from (k ∷ ys) (suc n) _ lt sub (Chain.link _ p c) =
      let there : (k == 0) ≡ false = ground (arith, p) in
      elim (Option-cases (find_io addr len 0 (st.pages k).sections)) [
        | inl e ↦
            rw (get_io_loop, there, e)
              (get_io_from ys n (st.pages k).next (omega arith) (λ j m. sub j (ground (arith, m)))
                c)
        | inr ((i, s), e) ↦
            let f =
              Found-of addr len (st.pages k).sections i s _
                (find_io-Search addr len 0 (st.pages k).sections) e in
            rw (get_io_loop, there, e)
              (take_io-IoEnds addr len pos below st rs is l k i s (sub k (ground arith)) f n
                (omega arith))
      ]

  -- If the two lists of process 0 are in order, `len` is positive and `addr + len` is below 2^32,
  -- then with fuel beyond the holders of memory and twice those of registers `get_io(addr, len)`
  -- ends and leaves the lists in order. If it returns an address that is not nil, then the `len`
  -- addresses from it on and what the lists hold after it together hold each address at most as
  -- often as the lists did before it, and otherwise the lists alone do.
  pub get_io-IoEnds :
      (n : ℕ) → length rs + 2 * length is < n → IoEnds st rs is len (get_io n addr len st)
  unfolding get_io
  get_io-IoEnds n lt = get_io_from is n st.io (omega arith) (λ k m. m) l.io_chain

-- The addresses that an answer gives away.
abbrev pub granted : ℕ → Answer → ℕ
granted a refuse = 0
granted a (accept addr len flags) = holds a addr len

-- The range asked for ends in the 32-bit addresses, also when it is rounded up to whole pages.
abbrev pub InRange : Request → Type 0
InRange m = (m.len + 4095 < 2 ^ 32) × (m.addr + whole_pages m.len < 2 ^ 32)

-- What the handler of a message must give.
pub record Handled (st : Store) (rs is : List ℕ) (r : Option (Store × Answer)) : Type 0 where
  pub outcome : Store × Answer
  pub ends : r ≡ some outcome
  pub spent : Spent st rs is (λ a. granted a outcome.1) outcome.0

granted_block :
    (a len flags : ℕ) (r : Store × ℕ) → granted a (answer_request len flags r).1 ≡ block a r.1 len
unfolding answer_request
granted_block a len flags (st, addr) = elim (Bool-cases (addr == 0)) [
  | inl e ↦ rw e refl
  | inr e ↦ rw e refl
]

answer_store : (len flags : ℕ) (r : Store × ℕ) → (answer_request len flags r).0 ≡ r.0
unfolding answer_request
answer_store len flags (st, addr) = elim (Bool-cases (addr == 0)) [
  | inl e ↦ rw e refl
  | inr e ↦ rw e refl
]

answered :
    (st : Store) (rs is : List ℕ) (len flags : ℕ) (r : Store × ℕ)
    → Spent st rs is (λ a. block a r.1 len) r.0
    → Handled st rs is (some (answer_request len flags r))
answered st rs is len flags r s = record {
  outcome = answer_request len flags r;
  ends = refl;
  spent =
      subst (Spent st rs is (λ a. granted a (answer_request len flags r).1))
        (sym (answer_store len flags r))
        (record {
          io = s.io;
          ledger = s.ledger;
          bytes = λ a. omega (arith, granted_block a len flags r, s.bytes a);
          longer = s.longer;
        });
}

Handled-refuse :
    (st : Store) (rs is : List ℕ) → Ledger st rs is → Handled st rs is (some (st, refuse))
Handled-refuse st rs is l = record {
  outcome = (st, refuse);
  ends = refl;
  spent = Spent-nothing st rs is l;
}

handle_addr_request-Handled :
    (f addr len : ℕ) (st : Store) (rs is : List ℕ)
    → length rs + 2 * length is < f
    → len + 4095 < 2 ^ 32
    → addr + whole_pages len < 2 ^ 32
    → Ledger st rs is
    → Handled st rs is (handle_addr_request f addr len st)
unfolding handle_addr_request
handle_addr_request-Handled f addr len st rs is lt small below l =
    elim (Bool-cases (whole_pages len == 0)) [
      | inl z ↦ rw (page_align_lem len small, z) (Handled-refuse st rs is l)
      | inr z ↦ elim (Bool-cases (addr == 0)) [
        | inl e ↦
            let (ps, page, ends, s) =
              get_ram-RamSpent f (whole_pages len) st rs is l (omega arith) (ground arith) in
            rw (page_align_lem len small, z, e, ends)
              (answered st rs is (whole_pages len) _ (record st { pages = ps }, page)
                (RamSpent-Spent st rs is (whole_pages len) ps page l s))
        | inr e ↦
            let g = get_io-IoEnds addr (whole_pages len) (ground arith) below st rs is l f lt in
            rw (page_align_lem len small, z, e, g.ends)
              (answered st rs is (whole_pages len) _ g.outcome g.spent)
      ]
    ]

handle_message-Handled :
    (f : ℕ) (m : Request) (st : Store) (rs is : List ℕ)
    → length rs + 2 * length is < f
    → InRange m
    → Ledger st rs is
    → Handled st rs is (handle_message f m.type m.addr m.len st)
unfolding handle_message
handle_message-Handled f m st rs is lt r l = elim (Bool-cases (m.type == message_addr)) [
  | inl e ↦ rw e (handle_addr_request-Handled f m.addr m.len st rs is lt r.0 r.1 l)
  | inr e ↦ rw e (Handled-refuse st rs is l)
]

abbrev pub AllInRange : List Request → Type 0
AllInRange [] = Unit
AllInRange (m ∷ ms) = InRange m × AllInRange ms

-- How often the answers give away an address.
abbrev pub granted_by : ℕ → List Answer → ℕ
granted_by a [] = 0
granted_by a (x ∷ xs) = granted a x + granted_by a xs

-- What the loop must give.
pub record Served (st : Store) (rs is : List ℕ) (r : Option (Store × List Answer)) : Type 0 where
  pub outcome : Store × List Answer
  pub ends : r ≡ some outcome
  pub io : List ℕ
  pub ledger : Ledger outcome.0 rs io
  pub bytes :
      (a : ℕ)
      → free a outcome.0.pages rs + free a outcome.0.pages io + granted_by a outcome.1
        ≤ free a st.pages rs + free a st.pages is

-- If the two lists of process 0 are in order, the ranges of the messages end in the 32-bit
-- addresses, and the fuel is beyond the holders of memory and twice the sum of those of registers
-- and the messages, then the loop of `main` ends on these messages, leaves the lists in order,
-- and what the lists hold after it and the ranges it accepted together hold each address at most
-- as often as the lists did before it. In order: they end and share no holder, their sections end
-- in the 32-bit addresses, the memory holds no address twice and none of a holder.
pub main_loop-Served :
    (f : ℕ) (ms : List Request) (st : Store) (rs is : List ℕ)
    → length rs + 2 * (length is + length ms) < f
    → AllInRange ms
    → Ledger st rs is
    → Served st rs is (main_loop f ms st)
unfolding main_loop
main_loop-Served f [] st rs is lt r l = record {
  outcome = (st, []);
  ends = refl;
  io = is;
  ledger = l;
  bytes = λ a. omega arith;
}
main_loop-Served f (m ∷ ms) st rs is lt r l =
    let h = handle_message-Handled f m st rs is (omega arith) r.0 l in
    let s =
      main_loop-Served f ms h.outcome.0 rs h.spent.io (omega (arith, h.spent.longer)) r.1
        h.spent.ledger in
    rw (main_loop, h.ends, s.ends)
      (record {
        outcome = _;
        ends = refl;
        io = s.io;
        ledger = s.ledger;
        bytes = λ a. omega (arith, s.bytes a, h.spent.bytes a);
      })
