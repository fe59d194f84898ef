-- ===== src/Tests/Handing.antt =====
-- `sys_addr_accept` applied at two address spaces with a table each and an offer of two pages.
use omb.Base.{
  ℕ, zero, suc, ◌^◌, ◌<◌, ◌≡◌, ◌≢◌, refl, Bool, true, not, ◌&&◌, if◌then◌else◌, ◌==◌, arith, [],
  ◌∷◌,
}
use omb.Space.{Memory, l1x, l2x, page_align}
use omb.Kern.State.{returned, err}
use omb.Proc0.{Store, get_io, set_sections, cut_section}
use omb.Proc0.Main.{handle_addr_request}
use omb.Server.{uart_request, offer_call}
use omb.Server.Together.{Accepted, offered, uart_request-err}
use omb.Space.Mapping.{cell, slot, TableAt}
use omb.Kern.State.{Kernel}
use omb.Kern.Sys.{accept_from, syscall, sys_addr_accept}
use omb.Kern.Sys.Accept.Moving.{Tabled, Apart, place}
use omb.Kern.Sys.Accept.Moves.{Handed, accept_from-Handed}
use omb.Tests.{listening}

-- The giver's space is at 0x20000, with a table in page 5, the receiver's at 0x10000, with one in
-- page 6; the pages 7 and 8 are mapped at 0x5000.
abbrev giving : Memory
giving a =
    if a == 0x20000
    then 0x5001
    else if a == 0x10004
    then 0x6001
    else if a == 0x5014
    then 0x7032
    else if a == 0x5018
    then 0x8032
    else 0

-- Process 1 offers the two pages to process 0.
abbrev offering_two : Kernel
offering_two = record listening {
  procs = λ i. record (listening.procs i) {
    space = if i == 1 then 0x20000 else 0x10000;
    addr_offer = record { start = 0x5000; len = 8192; flags = 6; to = 0 };
  };
  memory = giving;
}

abbrev Two : (ℕ → Type 0) → Type 0
Two P = P 0 × P 1

two_cases : (P : ℕ → Type 0) → Two P → (i : ℕ) → i < 2 → P i
two_cases P p zero h = p.0
two_cases P p (suc zero) h = p.1
two_cases P p (suc (suc i)) h = absurd (omega arith)

abbrev Each : (ℕ → ℕ → Type 0) → Type 0
Each P = Two (λ i. Two (P i))

each_pair : (P : ℕ → ℕ → Type 0) → Each P → (i j : ℕ) → i < 2 → j < 2 → P i j
each_pair P p i j g h =
    two_cases (λ k. P k j) (two_cases (λ k. P 0 k) p.0 j h, two_cases (λ k. P 1 k) p.1 j h) i g

abbrev give_at : ℕ → ℕ
unfolding l2x
give_at i = cell 5 (place 0x5000 i)

abbrev take_at : ℕ → ℕ
unfolding l2x
take_at i = cell 6 (place 0x100000 i)

differ : (a b : ℕ) → not (a == b) ≡ true → a ≢ b
differ a b h e = absurd (ground (arith, h, e))

abbrev all_differ : (f g : ℕ → ℕ) → Bool
all_differ f g = not (f 0 == g 0) && not (f 0 == g 1) && not (f 1 == g 0) && not (f 1 == g 1)

pairs_differ : (f g : ℕ → ℕ) → all_differ f g ≡ true → (i j : ℕ) → i < 2 → j < 2 → f i ≢ g j
pairs_differ f g h i j p q =
    each_pair (λ a b. f a ≢ g b)
      (
        (differ (f 0) (g 0) (ground (arith, h)), differ (f 0) (g 1) (ground (arith, h))),
        (differ (f 1) (g 0) (ground (arith, h)), differ (f 1) (g 1) (ground (arith, h))),
      )
      i j p q

steps_differ : (f : ℕ → ℕ) → not (f 0 == f 1) ≡ true → (i j : ℕ) → i < j → j < 2 → f i ≢ f j
steps_differ f h i j p q =
    each_pair (λ a b. a < b → f a ≢ f b)
      (
        (λ x. absurd (omega arith), λ x. differ (f 0) (f 1) h),
        (λ x. absurd (omega arith), λ x. absurd (omega arith)),
      )
      i j (omega arith) q p

pages-Apart : Apart 0x20000 0x5000 0x10000 0x100000 (λ i. 5) (λ i. 6) 2
unfolding l1x l2x
pages-Apart = record {
  give_give = steps_differ give_at refl;
  take_take = steps_differ take_at refl;
  give_take = pairs_differ give_at take_at refl;
  give_slot = pairs_differ give_at (λ j. slot 0x20000 (place 0x5000 j)) refl;
  give_slot_to = pairs_differ give_at (λ j. slot 0x10000 (place 0x100000 j)) refl;
  take_slot = pairs_differ take_at (λ j. slot 0x20000 (place 0x5000 j)) refl;
  take_slot_to = pairs_differ take_at (λ j. slot 0x10000 (place 0x100000 j)) refl;
}

pages-Tabled : Tabled 0x20000 0x5000 0x10000 0x100000 (λ i. 5) (λ i. 6) 2 giving
unfolding l1x
pages-Tabled = record {
  tables_from =
      two_cases (λ i. TableAt giving 0x20000 (place 0x5000 i) 5)
        ((refl, omega arith, omega arith), (refl, omega arith, omega arith));
  tables_to =
      two_cases (λ i. TableAt giving 0x10000 (place 0x100000 i) 6)
        ((refl, omega arith, omega arith), (refl, omega arith, omega arith));
}

pages_words : (i : ℕ) → i < 2 → giving (cell 5 (place 0x5000 i)) < 2 ^ 32
unfolding l2x
pages_words = two_cases (λ i. giving (cell 5 (place 0x5000 i)) < 2 ^ 32) (omega arith, omega arith)

accept_from-Handed_example :
    Handed offering_two 0 1 0x100000 2 7 true
      (λ i. 5)
      (λ i. 6)
      (accept_from 0 1 0x100000 8192 7 offering_two)
accept_from-Handed_example =
    accept_from-Handed offering_two 0 1 0x100000 2 7 true (λ i. 5) (λ i. 6) refl refl refl
      (omega arith) pages-Apart pages-Tabled pages_words

-- The registers of UART0 are free.
abbrev uart_free : Store
uart_free = record {
  ram = 0;
  io = 8192;
  pages = λ h. record { next = 0; sections = record { start = 0x44e09000; len = 4096 } ∷ [] };
}

abbrev uart_taken : Store
unfolding set_sections cut_section
uart_taken = set_sections uart_free 8192 (cut_section 0 0x44e09000 (uart_free.pages 8192).sections)

uart-Accepted : Accepted 3 0x44e09000 4096 6 uart_free uart_taken
unfolding handle_addr_request uart_request page_align get_io set_sections cut_section
uart-Accepted = refl

uart_request-err_example :
    syscall (sys_addr_accept 1 0x44e09000 4096 6) 0 (syscall offer_call 1 listening).0
    ≡ (offered listening 1, returned err)
uart_request-err_example =
    uart_request-err listening 1 refl (omega arith) 3 0x44e09000 4096 6 uart_free uart_taken
      uart-Accepted refl
