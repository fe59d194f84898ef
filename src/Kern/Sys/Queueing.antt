-- ===== src/Kern/Sys/Queueing.antt =====
-- `ksend` and `krecv` on the waiting list of the receiver.
use omb.Base.{
  false, ℕ, ◌≡◌, refl, ap, sym, Bool, ◌∙◌, ◌≢◌, true, Option, none, some, List, [], ◌∷◌, ◌++◌, inl,
  inr, ◌⊎◌, arith, Bool-cases, if◌then◌else◌,
}
use omb.Kern.State.{
  send, oncpu, is_dead, is_recv, Label, in_ksend, Kernel, set_proc, set_state, max_proc_lists,
  Outcome, returned, switched, err,
}
use omb.Kern.Proc.{park, dispatch, dispatch_found, schedule, next_proc, find_free, proc_list_add}
use omb.Kern.Proc.Waiting.{Waits, Queued, proc_list_add_lem}
use omb.Kern.Sys.{hand_over, ksend}

-- The waiting lists depend on three fields.
pub Waits-same :
    (k k' : Kernel) (l : ℕ) (ns ps : List ℕ)
    → (k'.procs l).waiting ≡ (k.procs l).waiting
    → k'.list_next ≡ k.list_next
    → k'.list_proc ≡ k.list_proc
    → Waits k l ns ps
    → Waits k' l ns ps
Waits-same k k' l ns ps a b c w = record {
  holds = rw (a, b) w.holds;
  below = w.below;
  names = rw c w.names;
}

-- The parts of the kernel that a change of states and labels leaves alone.
pub record Unmoved (k k' : Kernel) : Type 0 where
  pub waiting : (i : ℕ) → (k'.procs i).waiting ≡ (k.procs i).waiting
  pub waiting_on : (i : ℕ) → (k'.procs i).waiting_on ≡ (k.procs i).waiting_on
  pub pid : (i : ℕ) → (k'.procs i).pid ≡ (k.procs i).pid
  pub page : (i : ℕ) → (k'.procs i).page ≡ (k.procs i).page
  pub pages : k'.pages ≡ k.pages
  pub list_next : k'.list_next ≡ k.list_next
  pub list_proc : k'.list_proc ≡ k.list_proc
  pub alive : k'.alive ≡ k.alive

park-Unmoved : (l : Label) (k : Kernel) → Unmoved k (park l k)
unfolding park
park-Unmoved l k = record {
  waiting = λ i. ground arith;
  waiting_on = λ i. ground arith;
  pid = λ i. ground arith;
  page = λ i. ground arith;
  pages = ground arith;
  list_next = ground arith;
  list_proc = ground arith;
  alive = ground arith;
}

dispatch-Unmoved : (n : Option ℕ) (k : Kernel) → Unmoved k (dispatch n k).0
unfolding dispatch
dispatch-Unmoved none k = record {
  waiting = λ i. refl;
  waiting_on = λ i. refl;
  pid = λ i. refl;
  page = λ i. refl;
  pages = refl;
  list_next = refl;
  list_proc = refl;
  alive = refl;
}
dispatch-Unmoved (some v) k = record {
  waiting = λ i. ground arith;
  waiting_on = λ i. ground arith;
  pid = λ i. ground arith;
  page = λ i. ground arith;
  pages = refl;
  list_next = refl;
  list_proc = refl;
  alive = refl;
}

trans : {a b c : Kernel} → Unmoved a b → Unmoved b c → Unmoved a c
trans p q = record {
  waiting = λ i. q.waiting i ∙ p.waiting i;
  waiting_on = λ i. q.waiting_on i ∙ p.waiting_on i;
  pid = λ i. q.pid i ∙ p.pid i;
  page = λ i. q.page i ∙ p.page i;
  pages = q.pages ∙ p.pages;
  list_next = q.list_next ∙ p.list_next;
  list_proc = q.list_proc ∙ p.list_proc;
  alive = q.alive ∙ p.alive;
}

found-Unmoved : (r : Option (Option ℕ)) (k : Kernel) → Unmoved k (dispatch_found r k).0
found-Unmoved none k = record {
  waiting = λ i. refl;
  waiting_on = λ i. refl;
  pid = λ i. refl;
  page = λ i. refl;
  pages = refl;
  list_next = refl;
  list_proc = refl;
  alive = refl;
}
found-Unmoved (some n) k = dispatch-Unmoved n k

-- `schedule` changes no list, no message and no identity.
pub schedule-Unmoved : (l : Label) (n : Option ℕ) (k : Kernel) → Unmoved k (schedule l n k).0
unfolding schedule
schedule-Unmoved l (some n) k = trans (park-Unmoved l k) (dispatch-Unmoved (some n) (park l k))
schedule-Unmoved l none k =
    trans (park-Unmoved l k) (found-Unmoved (next_proc (park l k)) (park l k))

pub Waits-Unmoved :
    {k k' : Kernel} (l : ℕ) (ns ps : List ℕ) → Unmoved k k' → Waits k l ns ps → Waits k' l ns ps
Waits-Unmoved {k} {k'} l ns ps m w = Waits-same k k' l ns ps (m.waiting l) m.list_next m.list_proc w

-- `ksend(p)` by `u`, once its entry is in the list of `p`.
pub record Sent (k : Kernel) (u p : ℕ) (ps : List ℕ) (k' : Kernel) (o : Outcome) : Type 0 where
  pub entries : List ℕ
  pub waits : Waits k' p entries (ps ++ u ∷ [])
  pub waiting_on : (k'.procs u).waiting_on ≡ some p
  pub pid : (i : ℕ) → (k'.procs i).pid ≡ (k.procs i).pid
  pub page : (i : ℕ) → (k'.procs i).page ≡ (k.procs i).page
  pub pages : k'.pages ≡ k.pages

-- `ksend(p)` by `u`, where it switches to `p`.
pub record Handed (k : Kernel) (u p : ℕ) (k' : Kernel) (o : Outcome) : Type 0 where
  pub outcome : o ≡ switched
  pub up : k'.up ≡ some p
  pub receiver : (k'.procs p).state ≡ oncpu
  pub label : (k'.procs p).label ≡ (k.procs p).label
  pub sender : (k'.procs u).state ≡ send
  pub sender_label : (k'.procs u).label ≡ in_ksend

abbrev pub waiting_for : Kernel → (u p : ℕ) → Kernel
waiting_for k u p = set_proc k u (record (k.procs u) { waiting_on = some p })

abbrev is_stored : Option (Kernel × Bool) → Bool
is_stored none = false
is_stored (some (k, b)) = b

-- An entry that could be added was free.
free_of_add :
    (k : Kernel) (u p : ℕ) {after : Kernel}
    → proc_list_add p u k ≡ some (after, true)
    → find_free max_proc_lists 0 k.list_proc ≢ none
unfolding proc_list_add
free_of_add k u p h e =
    let refused : proc_list_add p u k ≡ some (k, false) = rw (proc_list_add, e) refl in
    let no : false ≡ true = ap is_stored (sym refused ∙ h) in absurd (ground arith)

module _ (k : Kernel) (u p : ℕ) (ns ps : List ℕ) (w : Waits k p ns ps) where
  pub waiting_for-Waits : Waits (waiting_for k u p) p ns ps
  waiting_for-Waits = Waits-same k (waiting_for k u p) p ns ps (ground arith) refl refl w

  module _ (q : Queued (waiting_for k u p) p u ns ps (proc_list_add p u (waiting_for k u p))) where
    -- What the entry leaves alone in each process, seen from `k`.
    abbrev asleep : Kernel
    asleep = set_state q.after u send

    asleep_pid : (i : ℕ) → (asleep.procs i).pid ≡ (k.procs i).pid
    asleep_pid i = ground (arith, q.same i, q.same u)

    asleep_page : (i : ℕ) → (asleep.procs i).page ≡ (k.procs i).page
    asleep_page i = ground (arith, q.same i, q.same u)

    asleep_waiting_on : (asleep.procs u).waiting_on ≡ some p
    asleep_waiting_on = ground (arith, q.same u)

    asleep_state : u ≢ p → (asleep.procs p).state ≡ (k.procs p).state
    asleep_state ne = ground (arith, q.same p)

    asleep_label : u ≢ p → (asleep.procs p).label ≡ (k.procs p).label
    asleep_label ne = ground (arith, q.same p)

    asleep-Waits : Waits asleep p (ns ++ q.entry ∷ []) (ps ++ u ∷ [])
    asleep-Waits =
        Waits-same q.after asleep p (ns ++ q.entry ∷ []) (ps ++ u ∷ []) (ground arith) refl refl
          q.waits

    Handed-queued :
        is_recv (k.procs p).state ≡ true
        → u ≢ p
        → k.up ≡ some u
        → let (k', o) = hand_over p asleep in Handed k u p k' o
    unfolding schedule park dispatch
    Handed-queued r ne e =
        rw (asleep_state ne, r, q.up_same, e)
          (record {
            outcome = refl;
            up = refl;
            receiver = ground arith;
            label = ground (arith, asleep_label ne);
            sender = ground arith;
            sender_label = ground arith;
          })

    Sent-queued : let (k', o) = hand_over p asleep in Sent k u p ps k' o
    Sent-queued =
        let m =
          schedule-Unmoved in_ksend (if is_recv (asleep.procs p).state then some p else none)
            asleep in
        record {
          entries = ns ++ q.entry ∷ [];
          waits = Waits-Unmoved p (ns ++ q.entry ∷ []) (ps ++ u ∷ []) m asleep-Waits;
          waiting_on = m.waiting_on u ∙ asleep_waiting_on;
          pid = λ i. m.pid i ∙ asleep_pid i;
          page = λ i. m.page i ∙ asleep_page i;
          pages = m.pages ∙ q.pages_same;
        }

  -- If the waiting list of `p` holds the processes `ps`, then `ksend(p)` of `u` does one of three
  -- things. If `p` is dead it returns ERR and changes nothing. If `p` is not dead and no entry of
  -- `proc_lists` is free, it returns ERR and has only set `waiting_on` of `u`. If `p` is not dead
  -- and an entry is free, it puts `u` last on the waiting list of `p` with `waiting_on` of `u`
  -- set, and keeps the pids, the pages and what is in them.
  pub ksend_lem :
      (is_dead (k.procs p).state ≡ true) × (ksend u p k ≡ (k, returned err))
      ⊎ ((is_dead (k.procs p).state ≡ false)
          × (find_free max_proc_lists 0 k.list_proc ≡ none)
          × (ksend u p k ≡ (waiting_for k u p, returned err)))
      ⊎ ((is_dead (k.procs p).state ≡ false)
          × (find_free max_proc_lists 0 k.list_proc ≢ none)
          × (let (k', o) = ksend u p k in Sent k u p ps k' o))
  unfolding ksend
  ksend_lem = elim (Bool-cases (is_dead (k.procs p).state)) [
    | inl d ↦ inl (d, rw (ksend, d))
    | inr d ↦ inr (elim (proc_list_add_lem (waiting_for k u p) p u ns ps waiting_for-Waits) [
      | inl (e, f) ↦ inl (d, f, rw (ksend, d, e))
      | inr q ↦
          inr (d, free_of_add (waiting_for k u p) u p q.ends, rw (ksend, d, q.ends) (Sent-queued q))
    ])
  ]

  -- If `u` runs, the waiting list of another process `p` holds the processes `ps`, `p` is in
  -- PROC_recv, and an entry of `proc_lists` is free, then `ksend(p)` of `u` puts `u` last on that
  -- list and switches to `p`, which is PROC_oncpu at the label that it had; `u` is in PROC_send,
  -- at its label in `ksend`.
  pub ksend_switches :
      (e : ℕ)
      → is_recv (k.procs p).state ≡ true
      → u ≢ p
      → k.up ≡ some u
      → find_free max_proc_lists 0 k.list_proc ≡ some e
      → let (k', o) = ksend u p k in Sent k u p ps k' o × Handed k u p k' o
  unfolding ksend
  ksend_switches e r ne up free =
      let alive : is_dead (k.procs p).state ≡ false = ground arith in
      elim (proc_list_add_lem (waiting_for k u p) p u ns ps waiting_for-Waits) [
        | inl (_, f) ↦ absurd (ground arith)
        | inr q ↦ rw (ksend, alive, q.ends) (Sent-queued q, Handed-queued q r ne up)
      ]
