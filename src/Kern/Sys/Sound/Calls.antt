-- ===== src/Kern/Sys/Sound/Calls.antt =====
-- The system calls, what follows a switch, and the system tick: what each does to the lists.
use omb.Base.{
  ℕ, ◌+◌, ◌^◌, ◌<◌, ◌≤◌, ◌≡◌, ◌≢◌, refl, true, not, ◌&&◌, Option, none, some, List, [], ◌∷◌, ◌++◌,
  arith, Bool-cases, inl, inr,
}
use omb.Board.Timer.{Timer, clear_irq}
use omb.Space.{Memory, page_size, clear_page}
use omb.Kern.State.{
  AddrOffer, pid_all, Label, cleared, at_proc_start, at_proc0_start, in_ksend, in_krecv, in_kreply,
  in_start_reply, in_kreply_recv, in_systick, by_syscall, by_proc_start, is_dead, max_procs, Kernel,
  set_proc, Outcome, returned, idle, err,
}
use omb.Kern.Proc.{find_proc}
use omb.Kern.Sys.{
  Call, sys_send, sys_recv, sys_reply, sys_reply_recv, sys_get_proc_page, sys_get_kernel_page,
  sys_proc_create, sys_addr_offer, sys_addr_accept, syscall, accept_from, accepted, offer_matches,
  takes, Proc0, resume_at, resume, systick_handler,
}
use omb.Kern.Sys.Accept.{accept_loop-ends}
use omb.Kern.Sys.Sound.{Steady, Sound, Calm, Steady-Calm, Kept, Next, Next-stays, started}
use omb.Kern.Sys.Sound.Schedule.{schedule-Sound}
use omb.Kern.Sys.Sound.Send.{ksend-Next}
use omb.Kern.Sys.Sound.Receive.{krecv-Next}
use omb.Kern.Sys.Sound.Reply.{kreply-Sound, kreply_recv-Sound}
use omb.Kern.Sys.Sound.Create.{created-Kept}

-- A change of memory and of the timer.
abbrev pub elsewhere : Kernel → Memory → Timer → Kernel
elsewhere k m t = record k { memory = m; timer = t }

pub elsewhere-Steady :
    (k : Kernel) (m : Memory) (t : Timer) {xs : List ℕ} {ns q : ℕ → List ℕ}
    → Steady k xs ns q
    → Steady (elsewhere k m t) xs ns q
elsewhere-Steady k m t {xs} {ns} {q} s =
    Steady-Calm k (elsewhere k m t) xs ns q
      (record {
        waiting = λ i. refl;
        waiting_on = λ i. refl;
        sends = λ i. refl;
        deads = λ i. refl;
        begun = λ i h. h;
        list_next = refl;
        list_proc = refl;
        alive = refl;
        nextpid = refl;
      })
      s.present s

elsewhere-Sound :
    (k : Kernel) (m : Memory) (t : Timer) {xs : List ℕ} {ns q : ℕ → List ℕ}
    → Sound k xs ns q
    → Sound (elsewhere k m t) xs ns q
elsewhere-Sound k m t s = record { steady = elsewhere-Steady k m t s.steady; busy = s.busy }

module _ (k : Kernel) (u : ℕ) (xs : List ℕ) (ns q : ℕ → List ℕ) (s : Sound k xs ns q) where
  accepted-Kept : (r : Option (Memory × ℕ)) → r ≢ none → Kept (accepted k r) xs ns q
  accepted-Kept none h = absurd (h refl)
  accepted-Kept (some (m, v)) h = (elsewhere-Sound k m k.timer s, cc)

  accept-Kept :
      (p start len flags : ℕ)
      → len + page_size ≤ 2 ^ 32
      → Kept (accept_from u p start len flags k) xs ns q
  unfolding accept_from
  accept-Kept p start len flags fits =
      let o = (k.procs p).addr_offer in
      elim (Bool-cases (offer_matches k u p len flags)) [
        | inr e ↦ rw e (s, cc)
        | inl e ↦ rw e (elim (Bool-cases (not (takes flags) && takes o.flags)) [
          | inl d ↦ rw d (
              accepted-Kept _
                (accept_loop-ends _ k.memory _ _ _ _ _ len flags 0 fits (omega arith)))
          | inr d ↦ rw d (elim (Bool-cases (takes flags && not (takes o.flags))) [
            | inl g ↦ rw g (
                accepted-Kept _
                  (accept_loop-ends _ k.memory _ _ _ _ _ len flags 0 fits (omega arith)))
            | inr g ↦ rw g (s, cc)
          ])
        ])
      ]

  offer-Calm : (o : AddrOffer) → Calm k (set_proc k u (record (k.procs u) { addr_offer = o }))
  offer-Calm o = record {
    waiting = λ i. ground arith;
    waiting_on = λ i. ground arith;
    sends = λ i. ground arith;
    deads = λ i. ground arith;
    begun = λ i h. ground (arith, h);
    list_next = refl;
    list_proc = refl;
    alive = refl;
    nextpid = refl;
  }

  offer-Sound :
      (o : AddrOffer) → Sound (set_proc k u (record (k.procs u) { addr_offer = o })) xs ns q
  offer-Sound o = record {
    steady =
        Steady-Calm k (set_proc k u (record (k.procs u) { addr_offer = o })) xs ns q (offer-Calm o)
          (λ v e. ground (arith, s.steady.present v e)) s.steady;
    busy = λ v e. ground (arith, s.busy v e);
  }

-- What the callers of the kernel must see to, since it does not: that a pid names a slot, that
-- the next slot is free when a process is made, and that a range does not end within the last
-- page of the address space.
abbrev pub Allowed : Call → Kernel → Type 0
Allowed (sys_send pid) k = pid < max_procs
Allowed (sys_recv pid) k = Unit
Allowed (sys_reply pid ret) k = pid < max_procs
Allowed (sys_reply_recv pid ret rpid) k = pid < max_procs
Allowed sys_get_proc_page k = Unit
Allowed sys_get_kernel_page k = Unit
Allowed (sys_proc_create page space_page) k = is_dead (k.procs k.nextpid).state ≡ true
Allowed (sys_addr_offer pid start len flags) k = pid < max_procs
Allowed (sys_addr_accept pid start len flags) k = (pid < max_procs) × (len + page_size ≤ 2 ^ 32)

module _ (k : Kernel) (u : ℕ) (xs : List ℕ) (ns q : ℕ → List ℕ) (s : Sound k xs ns q)
    (up : k.up ≡ some u) where
  abbrev stay : (r : Kernel × Outcome) → Kept r xs ns q → Next k q r
  stay r kept = Next-stays k r xs ns q kept

  pub syscall-Next : (c : Call) → Allowed c k → Next k q (syscall c u k)
  unfolding syscall find_proc
  syscall-Next (sys_send pid) a = ksend-Next k u pid xs ns q s up
  syscall-Next (sys_recv pid) a = krecv-Next by_syscall k u pid xs ns q s up
  syscall-Next (sys_reply pid ret) a =
      stay _ (kreply-Sound u pid ret k in_kreply (returned err) refl (cc) s)
  syscall-Next (sys_reply_recv pid ret rpid) a = stay _ (kreply_recv-Sound u pid ret k rpid s up)
  syscall-Next sys_get_proc_page a = stay _ (s, cc)
  syscall-Next sys_get_kernel_page a = stay _ (s, cc)
  syscall-Next (sys_proc_create page space_page) a =
      let m = clear_page k.memory space_page in
      Next-stays k _ (xs ++ k.nextpid ∷ []) ns q (
        created-Kept (elsewhere k m k.timer) space_page page xs ns q (elsewhere-Sound k m k.timer s)
          a)
  syscall-Next (sys_addr_offer pid start len flags) a = stay _ (offer-Sound k u xs ns q s _, cc)
  syscall-Next (sys_addr_accept pid start len flags) a =
      stay _ (accept-Kept k u xs ns q s pid start len flags a.1)

  resume_at-Next : (z : Proc0) (l : Label) → started l ≡ true → Next k q (resume_at z l u k)
  unfolding resume_at
  resume_at-Next z cleared go = absurd (ground arith)
  resume_at-Next z at_proc_start go = krecv-Next by_proc_start k u pid_all xs ns q s up
  resume_at-Next z at_proc0_start go = stay _ (s, cc)
  resume_at-Next z in_ksend go = stay _ (s, cc)
  resume_at-Next z (in_krecv c pid) go = krecv-Next c k u pid xs ns q s up
  resume_at-Next z in_kreply go = stay _ (s, cc)
  resume_at-Next z (in_start_reply pc sp) go = stay _ (s, cc)
  resume_at-Next z (in_kreply_recv pid) go = krecv-Next by_syscall k u pid xs ns q s up
  resume_at-Next z in_systick go = stay _ (s, cc)

pub resume-Next :
    (z : Proc0) (k : Kernel) (xs : List ℕ) (ns q : ℕ → List ℕ)
    → Sound k xs ns q
    → Next k q (resume z k)
unfolding resume
resume-Next z k xs ns q s = from_up k.up refl
  where
    from_up :
        (o : Option ℕ)
        → k.up ≡ o
        → Next k q (elim o [ none ↦ (k, idle) | some u ↦ resume_at z (k.procs u).label u k ])
    from_up none e = Next-stays k (k, idle) xs ns q (s, cc)
    from_up (some u) e =
        resume_at-Next k u xs ns q s e z (k.procs u).label (s.steady.begun u (s.steady.present u e))

pub tick-Next :
    (k : Kernel) (xs : List ℕ) (ns q : ℕ → List ℕ) → Sound k xs ns q → Next k q (systick_handler k)
unfolding systick_handler
tick-Next k xs ns q s = Next-stays k _ xs ns q (
    schedule-Sound in_systick none (elsewhere k k.memory (clear_irq k.timer)) xs ns q refl
      (λ v e. cc) (elsewhere-Steady k k.memory (clear_irq k.timer) s.steady))
