-- ===== src/Board/Intc.antt =====
-- am335x/kern/trap.c: the interrupt controller and the dispatch of interrupts to handlers.
use omb.Base.{
  ℕ, ◌*◌, ◌/◌, ◌%◌, ◌^◌, ◌<◌, ◌≡◌, refl, Option, some, arith, update, zero, suc, ◌==◌,
  if◌then◌else◌, ltb, none, some, true, List, [], ◌∷◌, ap, ◌∙◌,
}
use mathlib.Core.Option

abbrev pub nirq : ℕ
nirq = 128

-- The registers of `struct intc` that are written, each write kept as the last value of its
-- register, and the table of handlers, which are named by numbers of type `H`.
pub record Intc (H : Type 0) : Type 0 where
  pub sysconfig : ℕ
  pub control : ℕ
  pub mir : ℕ → ℕ
  pub mir_clear : ℕ → ℕ
  pub mir_set : ℕ → ℕ
  pub ilr : ℕ → ℕ
  pub handlers : ℕ → Option H

-- The loops of `init_intc`.
unfoldable pub mask_sets : ℕ → (ℕ → ℕ) → ℕ → ℕ
mask_sets zero mir = mir
mask_sets (suc i) mir = update (mask_sets i mir) i 0xffffffff

unfoldable pub lowest_priority : ℕ → (ℕ → ℕ) → ℕ → ℕ
lowest_priority zero ilr = ilr
lowest_priority (suc i) ilr = update (lowest_priority i ilr) i (63 * 2 ^ 2)

masked : (n i : ℕ) (mir : ℕ → ℕ) → i < n → mask_sets n mir i ≡ 0xffffffff
unfolding mask_sets
masked zero i mir h = absurd (omega arith)
masked (suc n) i mir h = ground (arith, masked n i mir)

lowest : (n i : ℕ) (ilr : ℕ → ℕ) → i < n → lowest_priority n ilr i ≡ 252
unfolding lowest_priority
lowest zero i ilr h = absurd (omega arith)
lowest (suc n) i ilr h = ground (arith, lowest n i ilr)

-- How `trap` ends: it returns from the interrupt's handler, or it stops for good.
pub data Trapped (H : Type 0) : Type 0 where
  handled : Option H → Trapped H
  stopped : Trapped H

-- ABORT_INTERRUPT of trap.h
abbrev pub abort_interrupt : ℕ
abort_interrupt = 0

-- What `f` gives for the last of the calls for which it gives anything.
abbrev pub last_of {ℓ ℓ'} : {A : Type ℓ} {B : Type ℓ'} → (A → Option B) → List A → Option B
last_of f [] = none
last_of f (x ∷ calls) = elim (last_of f calls) [ none ↦ f x | some b ↦ some b ]

abbrev pub or_else {ℓ} : {B : Type ℓ} → Option B → B → B
or_else none old = old
or_else (some b) old = b

or_else_lem {ℓ} :
    {B : Type ℓ} (o g : Option B) (old : B)
    → or_else o (or_else g old) ≡ or_else (elim o [ none ↦ g | some b ↦ some b ]) old
or_else_lem none g old = refl
or_else_lem (some b) g old = refl

module _ {H : Type 0} where
  unfoldable pub mask_intr : ℕ → Intc H → Intc H
  mask_intr irqn c =
      let mfield = irqn / 32 in
      let mask = 2 ^ (irqn % 32) in record c { mir_set = update c.mir_set mfield mask }

  unfoldable pub unmask_intr : ℕ → Intc H → Intc H
  unmask_intr irqn c =
      let mfield = irqn / 32 in
      let mask = 2 ^ (irqn % 32) in record c { mir_clear = update c.mir_clear mfield mask }

  -- `none` is a line past the end of the table of handlers, where C writes behind the table.
  unfoldable pub intc_add_handler : ℕ → H → Intc H → Option (Intc H)
  unfolding unmask_intr
  intc_add_handler irqn func c =
      if ltb irqn nirq
      then some (unmask_intr irqn (record c { handlers = update c.handlers irqn (some func) }))
      else none

  unfoldable pub intc_reset : Intc H → Intc H
  intc_reset c = record c { control = 1 }

  -- The handler that `irq_handler` calls for the active interrupt, one of the 128 lines, or nil
  -- ("no handler").
  unfoldable pub irq_handler : ℕ → Intc H → Option H
  irq_handler irq c = c.handlers irq

  -- trap(pc, type), with the active interrupt; the messages are left out.
  unfoldable pub trap : (type irq : ℕ) → Intc H → Trapped H
  unfolding irq_handler
  trap type irq c = if type == abort_interrupt then handled (irq_handler irq c) else stopped

  unfoldable pub init_intc : Intc H → Intc H
  unfolding mask_sets lowest_priority
  init_intc c = record c {
    sysconfig = 1;
    mir = mask_sets 4 c.mir;
    ilr = lowest_priority nirq c.ilr;
    control = 1;
  }

  -- Several calls of `intc_add_handler`, one after the other.
  abbrev pub add_handlers : List (ℕ × H) → Intc H → Option (Intc H)
  add_handlers [] c = some c
  add_handlers ((irqn, func) ∷ calls) c =
      Option.bind (intc_add_handler irqn func c) (add_handlers calls)

  -- The handler that a call gives the line `irq`, and what it writes to the register `set`.
  abbrev pub handler_for : ℕ → ℕ × H → Option (Option H)
  handler_for irq (irqn, func) = if irqn == irq then some (some func) else none

  abbrev pub unmasks : ℕ → ℕ × H → Option ℕ
  unmasks set (irqn, func) = if irqn / 32 == set then some (2 ^ (irqn % 32)) else none

  -- What the calls must give.
  pub record Registered (c : Intc H) (calls : List (ℕ × H)) (r : Option (Intc H)) : Type 0 where
    pub after : Intc H
    pub ends : r ≡ some after
    pub handlers :
        (type irq : ℕ)
        → type ≡ abort_interrupt
        → irq < 128
        → trap type irq after ≡ handled (or_else (last_of (handler_for irq) calls) (c.handlers irq))
    pub unmasked :
        (set : ℕ) → after.mir_clear set ≡ or_else (last_of (unmasks set) calls) (c.mir_clear set)

  abbrev AllLines : List (ℕ × H) → Type 0
  AllLines [] = Unit
  AllLines ((irqn, func) ∷ calls) = (irqn < 128) × AllLines calls

  -- After any calls of `intc_add_handler`, one after the other, for lines below 128, `trap` of an
  -- interrupt runs for each of the 128 lines the handler of the last call for that line, or what
  -- it ran before if there was none; and each register that unmasks a set of 32 lines was last
  -- written with the bit of the line of the last call for that set, or is as before.
  pub add_handlers-Registered :
      (calls : List (ℕ × H)) (c : Intc H)
      → AllLines calls
      → Registered c calls (add_handlers calls c)
  unfolding intc_add_handler unmask_intr trap irq_handler Option.bind
  add_handlers-Registered [] c low = record {
    after = c;
    ends = refl;
    handlers = λ type irq e lt. rw e refl;
    unmasked = λ set. refl;
  }
  add_handlers-Registered ((irqn, func) ∷ calls) c low =
      let inside : ltb irqn nirq ≡ true = ground (arith, low.0) in
      let here : (irq : ℕ)
          → update c.handlers irqn (some func) irq
            ≡ or_else (handler_for irq (irqn, func)) (c.handlers irq) =
        λ irq. ground arith in
      let written : (set : ℕ)
          → update c.mir_clear (irqn / 32) (2 ^ (irqn % 32)) set
            ≡ or_else (unmasks set (irqn, func)) (c.mir_clear set) =
        λ set. ground arith in
      let rest =
        add_handlers-Registered calls
          (unmask_intr irqn (record c { handlers = update c.handlers irqn (some func) })) low.1 in
      rw inside (record {
        after = rest.after;
        ends = rest.ends;
        handlers = λ type irq e lt.
            rest.handlers type irq e lt
            ∙ ap (λ (h : Option H). handled h)
                (ap (or_else (last_of (handler_for irq) calls)) (here irq)
                  ∙ or_else_lem (last_of (handler_for irq) calls) (handler_for irq (irqn, func))
                      (c.handlers irq));
        unmasked = λ set.
            rest.unmasked set
            ∙ ap (or_else (last_of (unmasks set) calls)) (written set)
            ∙ or_else_lem (last_of (unmasks set) calls) (unmasks set (irqn, func))
                (c.mir_clear set);
      })

  -- For each of the 128 lines, `init_intc` masks the set that the line is in, gives the line the
  -- lowest priority, 252, writes 1 to the control register, and leaves the line's handler as it
  -- was.
  pub init_intc_lem :
      (c : Intc H) (irq : ℕ)
      → irq < 128
      → let c' = init_intc c in
        (c'.mir (irq / 32) ≡ 0xffffffff)
        × (c'.ilr irq ≡ 252)
        × (c'.control ≡ 1)
        × (irq_handler irq c' ≡ irq_handler irq c)
  unfolding init_intc irq_handler
  init_intc_lem c irq h =
      (masked 4 (irq / 32) c.mir (omega arith), lowest 128 irq c.ilr h, refl, refl)
