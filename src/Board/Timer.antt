-- ===== src/Board/Timer.antt =====
-- am335x/kern/timer.c: the registers that it writes, and the system tick.
use omb.Base.{
  ℕ, zero, suc, true, false, Option, none, some, List, [], ◌∷◌, ◌++◌, ◌==◌, bit_and, ◌+◌, ◌-◌, ◌*◌,
  ◌%◌, ◌^◌, ◌<◌, ◌≡◌, arith,
}

-- `struct timer` and `struct cm_dpll`, the registers that the code writes.
pub record Timer : Type 0 where
  pub irqstatus : ℕ
  pub irqenable_set : ℕ
  pub tclr : ℕ
  pub tcrr : ℕ
  pub timer2_clk : ℕ

-- 32 ticks of the 32 kHz clock to a millisecond, in `uint32_t`.
unfoldable pub ms_to_ticks : ℕ → ℕ
ms_to_ticks ms = (ms * 32) % 2 ^ 32

-- The counter is set to overflow after the ticks, and started.
unfoldable pub set_systick : ℕ → Timer → Timer
unfolding ms_to_ticks
set_systick ms t = record t { tcrr = (2 ^ 32 + 0xffffffff - ms_to_ticks ms) % 2 ^ 32; tclr = 1 }

-- The register writes of `init_timers`; `intc_add_handler` is in Board/Intc.
unfoldable pub init_timers : Timer → Timer
init_timers t = record t { timer2_clk = 2; irqenable_set = 2 }

-- The first write of `systick_handler`.
unfoldable pub clear_irq : Timer → Timer
clear_irq t = record t { irqstatus = 2 }

-- `struct watchdog`: what `wwps` holds at each of its reads, how many reads there were, and what
-- was written to `wspr`.
pub record Watchdog : Type 0 where
  pub wwps : ℕ → ℕ
  pub reads : ℕ
  pub wspr : List ℕ

-- A write of `wspr`, and the loop that waits while bit 4 of `wwps` is set.
unfoldable pub wait_posted : ℕ → Watchdog → Option Watchdog
wait_posted zero w = none
wait_posted (suc f) w =
    let w' = record w { reads = w.reads + 1 } in
    elim (bit_and (w.wwps w.reads) 16 == 0) [ true ↦ some w' | false ↦ wait_posted f w' ]

unfoldable pub write_wspr : ℕ → (v : ℕ) → Watchdog → Option Watchdog
unfolding wait_posted
write_wspr f v w = wait_posted f (record w { wspr = w.wspr ++ v ∷ [] })

-- init_watchdog()
unfoldable pub init_watchdog : ℕ → Watchdog → Option Watchdog
unfolding write_wspr
init_watchdog f w = elim (write_wspr f 0xaaaa w) [ none ↦ none | some v ↦ write_wspr f 0x5555 v ]

-- For less than 2^27 milliseconds, `set_systick` starts the counter at the value from which it
-- overflows after 32 ticks for each millisecond and one more.
pub set_systick-ticks :
    (ms : ℕ) (t : Timer)
    → ms < 2 ^ 27
    → ((set_systick ms t).tcrr + 32 * ms + 1 ≡ 2 ^ 32) × ((set_systick ms t).tclr ≡ 1)
unfolding set_systick
set_systick-ticks ms t h = omega arith
