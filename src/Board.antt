-- ===== src/Board.antt =====
-- The machine dependent kernel, am335x/kern/: the system tick and the interrupt controller.
pub mod Timer
pub mod Uart
pub mod Intc
