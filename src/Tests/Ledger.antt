-- ===== src/Tests/Ledger.antt =====
-- The lists of process 0, applied at the regions of the board and at lists of one page each.
use omb.Base.{ℕ, ◌≡◌, refl, Option, none, some, List, [], ◌∷◌, arith, ◌==◌, if◌then◌else◌}
use mathlib.Core.Option
use omb.Space.Init.{init_memory, Layout, Region, region_ram, region_io, regions}
use omb.Space.Init.Table.{SetUp, init_memory-SetUp}
use omb.Proc0.{Pages, Store, addr_add, get_io}
use omb.Proc0.Main.{Request, Answer, accept, main, main_loop}
use omb.Proc0.SetUp.{FirstMessage}
use omb.Proc0.Ram.{Chain}
use omb.Proc0.Ledger.{Ledger}
use omb.Proc0.Ledger.Add.{AddEnds, addr_add-AddEnds}
use omb.Proc0.Ledger.Io.{IoEnds}
use omb.Proc0.Ledger.Requests.{Served, get_io-IoEnds, main_loop-Served}
use omb.Proc0.Ledger.Once.{GivenOnce, main-GivenOnce}
use omb.Proc0.Ledger.Kernel.{BoardGiven, main-regions}

-- A page of memory at 4096 with a section, and a page of registers at 8192 with two.
abbrev two_lists : Store
two_lists = record {
  ram = 4096;
  io = 8192;
  pages = λ h. record {
    next = 0;
    sections =
        if h == 4096
        then record { start = 65536; len = 32768 } ∷ []
        else record { start = 0x48000000; len = 0x3000 }
          ∷ record { start = 0x4A000000; len = 0x1000 }
          ∷ [];
  };
}

two_lists-Ledger : Ledger two_lists (4096 ∷ []) (8192 ∷ [])
two_lists-Ledger = record {
  ram_chain = Chain.link 4096 (omega arith) Chain.end;
  io_chain = Chain.link 8192 (omega arith) Chain.end;
  ram_fits = ((omega arith, tt), tt);
  io_fits = ((omega arith, (omega arith, tt)), tt);
  ram_distinct = (refl, tt);
  io_distinct = (refl, tt);
  apart = λ h m. ground (arith, m);
  kept = λ h m. ground (arith, m);
  once = λ a. ground arith;
}

-- The table of the registers is full, so the range takes a page of the memory.
addr_add-AddEnds_example :
    AddEnds two_lists
      (4096 ∷ [])
      (8192 ∷ [])
      0x4B000000
      4096
      (addr_add 3 8192 0x4B000000 4096 two_lists)
addr_add-AddEnds_example =
    addr_add-AddEnds 0x4B000000 4096 (omega arith) 3 two_lists (4096 ∷ []) (8192 ∷ []) (omega arith)
      (omega arith) two_lists-Ledger

-- The page in the middle of the first section, whose rest takes a page of the memory.
get_io-IoEnds_example :
    IoEnds two_lists (4096 ∷ []) (8192 ∷ []) 4096 (get_io 4 0x48001000 4096 two_lists)
get_io-IoEnds_example =
    get_io-IoEnds 0x48001000 4096 (omega arith) (omega arith) two_lists (4096 ∷ []) (8192 ∷ [])
      two_lists-Ledger 4 (omega arith)

abbrev ask : (addr len : ℕ) → Request
ask addr len = record { type = 0; addr = addr; len = len }

-- Two requests of the same page of registers, and one of memory.
abbrev asks : ℕ → List Request
asks addr = ask addr 4096 ∷ ask addr 4096 ∷ ask 0 100 ∷ []

main_loop-Served_example :
    Served two_lists (4096 ∷ []) (8192 ∷ []) (main_loop 10 (asks 0x48001000) two_lists)
main_loop-Served_example =
    main_loop-Served 10 (asks 0x48001000) two_lists (4096 ∷ []) (8192 ∷ []) (omega arith)
      ((omega arith, omega arith), ((omega arith, omega arith), ((omega arith, omega arith), tt)))
      two_lists-Ledger

abbrev two_regions : List Region
two_regions =
    record { type = region_io; start = 0x48000000; len = 0x3000 }
    ∷ record { type = region_ram; start = 65536; len = 0x20000 }
    ∷ []

abbrev no_pages : Pages
no_pages h = record { next = 0; sections = [] }

main-GivenOnce_example :
    GivenOnce two_regions (main 20 two_regions (0x1000 ∷ []) (asks 0x48001000) no_pages)
main-GivenOnce_example =
    main-GivenOnce 20 two_regions (0x1000 ∷ []) (asks 0x48001000) no_pages
      (record {
        fit = (
          (omega arith, omega arith, λ e. absurd (cc)),
          ((omega arith, omega arith, λ e. omega arith), tt),
        );
        memory = refl;
        few = omega arith;
        once = λ a. ground arith;
      })
      ((omega arith, omega arith), ((omega arith, omega arith), ((omega arith, omega arith), tt)))
      (omega arith)

abbrev board : Layout
board = record {
  ram_start = 0x80000000;
  ram_end = 0xA0000000;
  kernel_start = 0x82000000;
  kernel_end = 0x82006000;
}

main-regions_example : BoardGiven (main 40 (regions board) (0x1000 ∷ []) (asks 0x48001000) no_pages)
main-regions_example =
    main-regions 40 board (0x1000 ∷ []) (asks 0x48001000) no_pages
      (record {
        low = omega arith;
        ahead = omega arith;
        inside = omega arith;
        behind = omega arith;
        high = omega arith;
      })
      ((omega arith, omega arith), ((omega arith, omega arith), ((omega arith, omega arith), tt)))
      (omega arith)

abbrev answers : Option (Store × List FirstMessage × List Answer) → List Answer
answers none = []
answers (some (st, sent, given)) = given

-- The registers of GPIO3 are listed twice, so they are given away to two processes.
gpio3_twice :
    answers (main 40 (regions board) [] (asks 0x481AE000) no_pages)
    ≡ accept 0x481AE000 4096 6 ∷ accept 0x481AE000 4096 6 ∷ accept 0x81FFE000 4096 14 ∷ []
unfolding main regions Option.bind omb.Space.page_align
gpio3_twice = refl

init_memory-SetUp_example : SetUp board (init_memory board (λ i. 7))
init_memory-SetUp_example =
    init_memory-SetUp board (λ i. 7) (omega arith) (omega arith) (omega arith)
