-- ===== src/Tests/Parts.antt =====
-- Theorems applied at concrete inputs: memory, the board, strings, the lists of process 0.
use omb.Base.{
  ℕ, ◌-◌, ◌*◌, ◌/◌, ◌^◌, ◌≡◌, ◌≢◌, refl, false, none, some, [], ◌∷◌, arith, ltb, ◌==◌,
  if◌then◌else◌, update,
}
use omb.Board.Timer.{Timer}
use omb.Board.Intc.{
  Intc, irq_handler, init_intc, Registered, add_handlers, add_handlers-Registered, init_intc_lem,
}
use omb.Space.{Memory, l1x, l2x, imap, space_map, addr_write}
use omb.Space.Mapping.{Mapped, slot, cell, fresh_table, space_map_existing, space_map_fresh}
use omb.Space.Sections.{Imapped, imap_lem, sections}
use omb.Text.{strtol, Chars, strcmp, strlcpy, printint}
use omb.Text.Compare.{Ends, Compared, strcmp_lem}
use omb.Text.Copy.{Copied, strlcpy_lem}
use omb.Text.Parse.{printint-strtol}
use omb.Proc0.Requests.{Answered, handle_addr_request_lem}
use omb.Proc0.{Store, get_ram}
use omb.Proc0.Main.{handle_addr_request}
use omb.Proc0.Ram.{Chain, RamGiven, get_ram_lem}
use omb.Kern.Links.{Links}
use omb.Kern.Links.Seg.{Holds}

abbrev counting : ℕ → ℕ
counting i = i

abbrev sevens : ℕ → ℕ
sevens i = 7

abbrev timer_off : Timer
timer_off = record { irqstatus = 0; irqenable_set = 0; tclr = 0; tcrr = 0; timer2_clk = 0 }

abbrev reset_intc : Intc ℕ
reset_intc = record {
  sysconfig = 0;
  control = 0;
  mir = λ i. 0;
  mir_clear = λ i. 0;
  mir_set = λ i. 0;
  ilr = λ i. 0;
  handlers = λ i. none;
}

-- Three calls, two of them for the line of the timer.
add_handlers-Registered_example :
    Registered reset_intc
      ((68, 5) ∷ (72, 6) ∷ (68, 7) ∷ [])
      (add_handlers ((68, 5) ∷ (72, 6) ∷ (68, 7) ∷ []) reset_intc)
add_handlers-Registered_example =
    add_handlers-Registered ((68, 5) ∷ (72, 6) ∷ (68, 7) ∷ []) reset_intc
      (omega arith, (omega arith, (omega arith, tt)))

init_intc_lem_example :
    let c' = init_intc reset_intc in
    (c'.mir (68 / 32) ≡ 0xffffffff)
    × (c'.ilr 68 ≡ 252)
    × (c'.control ≡ 1)
    × (irq_handler 68 c' ≡ irq_handler 68 reset_intc)
init_intc_lem_example = init_intc_lem reset_intc 68 (omega arith)

-- An address space at 16384 whose slot 0 has its table at 32768.
abbrev space_memory : Memory
space_memory = update (λ a. 0) 16384 32769

table_apart : cell 8 0 ≢ slot 16384 0
unfolding l1x l2x
table_apart = ground arith

space_map_existing_example :
    Mapped space_memory 16384 0 8 5 addr_write
      (space_map space_memory 16384 (4096 * 5) 0 addr_write 0)
unfolding l1x
space_map_existing_example =
    space_map_existing space_memory 16384 0 8 5 addr_write (refl, omega arith, omega arith)
      (omega arith) table_apart 0

abbrev empty_memory : Memory
empty_memory a = 0

space_map_fresh_example :
    Mapped
      (fresh_table empty_memory 16384 0 8)
      16384
      0
      8
      5
      addr_write
      (space_map empty_memory 16384 (4096 * 5) 0 addr_write (4096 * 8))
space_map_fresh_example =
    space_map_fresh empty_memory 16384 0 8 5 addr_write refl (omega arith) (omega arith)
      (omega arith) table_apart

imap_lem_example :
    Imapped empty_memory
      (0x48000000 / 2 ^ 20)
      (sections 0x48000000 0x48201000)
      1
      false
      (imap empty_memory 0x48000000 0x48201000 1 false)
imap_lem_example =
    imap_lem empty_memory 0x48000000 0x48201000 1 false (omega arith) (omega arith) (omega arith)

abbrev ab : Chars
ab i = if i == 0 then 97 else if i == 1 then 98 else 0

ab-Ends : Ends ab 2
ab-Ends = record { ending = refl; before = λ i h. ground arith }

strcmp_lem_example : Compared ab ab 2 2 (strcmp 3 ab ab)
strcmp_lem_example = strcmp_lem ab ab 2 2 3 ab-Ends ab-Ends (omega arith) (omega arith)

strlcpy_lem_example : Copied sevens ab 0 (if ltb 2 2 then 2 else 2 - 1) (strlcpy 3 sevens ab 2)
strlcpy_lem_example = strlcpy_lem sevens ab 2 2 3 ab-Ends (omega arith) (omega arith) (omega arith)

-- One page of holders with a section of two pages.
abbrev two_free : Store
two_free = record {
  ram = 4096;
  io = 0;
  pages = λ h. record { next = 0; sections = record { start = 8192; len = 8192 } ∷ [] };
}

get_ram_lem_example : RamGiven 4096 two_free (4096 ∷ []) (get_ram 2 4096 two_free)
get_ram_lem_example =
    get_ram_lem 2 4096 two_free (4096 ∷ []) (omega arith) (omega arith)
      (Chain.link 4096 (omega arith) Chain.end) ((omega arith, tt), tt)

abbrev two_linked : Links
two_linked = record { root = some 4; next = λ i. if i == 4 then some 6 else none }

two_linked-Holds : Holds two_linked (4 ∷ 6 ∷ [])
two_linked-Holds = record { chain = (refl, (refl, refl)); distinct = (refl, (refl, tt)) }

handle_addr_request_lem_example :
    Answered 100 two_free (4096 ∷ []) (handle_addr_request 2 0 100 two_free)
handle_addr_request_lem_example =
    handle_addr_request_lem 2 100 two_free (4096 ∷ []) (omega arith) (omega arith) (omega arith)
      (Chain.link 4096 (omega arith) Chain.end) ((omega arith, tt), tt)

printint-strtol_example :
    let (s, d) = printint sevens 0 32 255 10 in strtol 33 (update s d 0) 10 ≡ some 255
printint-strtol_example = printint-strtol sevens 255 33 (omega arith) (omega arith)

-- One page of holders with a section in use and an empty one.
abbrev one_empty : Store
one_empty = record two_free {
  pages = λ h. record {
    next = 0;
    sections = record { start = 8192; len = 8192 } ∷ record { start = 0; len = 0 } ∷ [];
  };
}
