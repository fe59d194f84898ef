-- ===== src/Server/Together.antt =====
-- The request of the serial port's process at process 0 and in the kernel: its offer, the answer of
-- process 0, and `sys_addr_accept`.
use omb.Base.{
  ℕ, ◌≡◌, ◌≢◌, refl, ap, sym, Bool, true, false, if◌then◌else◌, Option, none, some, ◌==◌, arith,
}
use mathlib.Core.Option
use omb.Space.{page_align, l1_fault}
use omb.Space.Mapping.{slot}
use omb.Kern.State.{Kernel, AddrOffer, returned, ok, err, set_proc}
use omb.Kern.Proc.{find_proc}
use omb.Kern.Sys.{sys_addr_accept, syscall, offer_matches}
use omb.Kern.Sys.Accept.{no_table_there, accept_from-Refused}
use omb.Proc0.{Store, get_io}
use omb.Proc0.Main.{Answer, refuse, accept, answer_request, handle_addr_request}
use omb.Server.{uart_request, offer_call}

abbrev replied : Store → Answer → Bool → Store × Answer
replied st x b = if b then (st, refuse) else (st, x)

same_answer :
    (st st' : Store) (x y : Answer) (b : Bool) → replied st x b ≡ (st', y) → y ≢ refuse → x ≡ y
same_answer st st' x y true e h = absurd (h (sym (ap (λ (r : Store × Answer). r.1) e)))
same_answer st st' x y false e h = ap (λ (r : Store × Answer). r.1) e

answered_with :
    (len flags : ℕ) (r : Store × ℕ) (st' : Store) (a l g : ℕ)
    → answer_request len flags r ≡ (st', accept a l g)
    → (l ≡ len) × (g ≡ flags)
unfolding answer_request
answered_with len flags (st, b) st' a l g e =
    let same = same_answer st st' (accept b len flags) (accept a l g) (b == 0) e (λ c. cc) in
    (cc, cc)

mapped_with :
    (o : Option (Store × ℕ)) (st' : Store) (a l g : ℕ)
    → Option.map (answer_request 4096 6) o ≡ some (st', accept a l g)
    → (l ≡ 4096) × (g ≡ 6)
mapped_with none st' a l g e = cc
mapped_with (some r) st' a l g e = answered_with 4096 6 r st' a l g (cc)

-- What process 0 accepts.
accepts_with :
    (f : ℕ) (st st' : Store) (a len flags : ℕ)
    → handle_addr_request f uart_request.addr uart_request.len st ≡ some (st', accept a len flags)
    → (len ≡ 4096) × (flags ≡ 6)
unfolding handle_addr_request uart_request page_align
accepts_with f st st' a len flags e = mapped_with (get_io f 0x44e09000 4096 st) st' a len flags e

-- Process 0 accepts `len` bytes at `a` with `flags` for the request.
abbrev pub Accepted : (f a len flags : ℕ) → (st st' : Store) → Type 0
Accepted f a len flags st st' =
    handle_addr_request f uart_request.addr uart_request.len st ≡ some (st', accept a len flags)

-- The kernel after the offer of the process `s`.
abbrev pub offered : Kernel → (s : ℕ) → Kernel
offered k s =
    set_proc k s (record (k.procs s) {
      addr_offer = record { start = 0xa0000; len = 4096; flags = 7; to = 0 };
    })

offer_lem : (k : Kernel) (s : ℕ) → syscall offer_call s k ≡ (offered k s, returned ok)
unfolding syscall offer_call uart_request find_proc page_align
offer_lem k s = refl

module _ (k : Kernel) (s : ℕ) (pid : (k.procs 0).pid ≡ 0) (apart : s ≢ 0) where
  offer_of :
      ((offered k s).procs s).addr_offer ≡ record { start = 0xa0000; len = 4096; flags = 7; to = 0 }
  offer_of = ground arith

  acceptor : ((offered k s).procs 0).pid ≡ 0
  acceptor = ground (arith, pid, apart)

  space_of : ((offered k s).procs s).space ≡ (k.procs s).space
  space_of = ground arith

  acceptor_space : ((offered k s).procs 0).space ≡ (k.procs 0).space
  acceptor_space = ground (arith, apart)

  matches : offer_matches (offered k s) 0 s 4096 6 ≡ true
  matches = rw (offer_of, acceptor) refl

  -- Process 0 has pid 0, and process `s`, another, makes the offer of the serial port's process.
  -- If `handle_addr_request` of process 0 accepts the request of that process with some
  -- arguments, and the space of `s` has no second-level table at 0xa0000, then `sys_addr_accept`
  -- with these arguments, of process 0, returns ERR, and the kernel is as the offer left it.
  pub uart_request-err :
      (f a len flags : ℕ) (st st' : Store)
      → Accepted f a len flags st st'
      → k.memory (slot (k.procs s).space 0xa0000) ≡ l1_fault
      → syscall (sys_addr_accept s a len flags) 0 (syscall offer_call s k).0
        ≡ (offered k s, returned err)
  unfolding syscall find_proc
  uart_request-err f a len flags st st' e fault =
      let (l, g) = accepts_with f st st' a len flags e in
      let place_of : ((offered k s).procs s).addr_offer.start ≡ 0xa0000 =
        ap (λ (o : AddrOffer). o.start) offer_of in
      let no_table : k.memory
            (slot ((offered k s).procs s).space ((offered k s).procs s).addr_offer.start)
          ≡ l1_fault =
        rw (place_of, space_of) fault in
      rw (offer_lem k s, l, g)
        (accept_from-Refused (offered k s) 0 s a 4096 6
          (no_table_there (omega arith) refl (omega (arith, place_of)) no_table))
