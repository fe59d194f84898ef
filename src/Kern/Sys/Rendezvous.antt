-- ===== src/Kern/Sys/Rendezvous.antt =====
-- A message from a sender to a receiver and the reply: `krecv`, `kreply`, and the whole exchange.
use omb.Base.{
  ℕ, ◌≡◌, refl, sym, ap, ◌∙◌, ◌≢◌, ◌<◌, Bool, true, false, Option, none, some, List, [], ◌∷◌, arith,
  update_self,
}
use omb.Libc.{memcpy_lem}
use omb.Kern.Links.Take.{choose, others}
use omb.Kern.State.{
  ProcState, reply, recv, oncpu, by_syscall, Label, in_ksend, in_krecv, in_kreply, in_kreply_recv,
  Kernel, ProcPage, set_state, page_of, max_proc_lists, Outcome, returned, switched, err,
  message_len,
}
use omb.Kern.Proc.{park, dispatch, schedule, find_free, find_proc}
use omb.Kern.Proc.Waiting.{Waits, Dequeued, pid_is, proc_list_remove_lem}
use omb.Kern.Sys.{
  ksend, pass_message, answer, may_reply, kreply, received, krecv, syscall, sys_send, sys_reply,
  Proc0, resume_at, resume,
}
use omb.Kern.Proc.Schedule.{parked}
use omb.Kern.Sys.Queueing.{Sent, Handed, ksend_switches, Waits-same, Unmoved, schedule-Unmoved}

-- The message in the page `b` is the one that the page `a` had.
abbrev pub Delivered : ProcPage → ProcPage → Type 0
Delivered a b = (i : ℕ) → i < message_len → b.m_in i ≡ a.m_out i

-- `u` has the message of `w`, whose turn it is no more.
pub record Received (k : Kernel) (u w : ℕ) (ps : List ℕ) (k' : Kernel) (o : Outcome) : Type 0 where
  pub outcome : o ≡ returned (k.procs w).pid
  pub up : k'.up ≡ k.up
  pub message : Delivered (page_of k w) (page_of k' u)
  pub state : (k'.procs w).state ≡ reply
  pub waiting_on : (k'.procs w).waiting_on ≡ (k.procs w).waiting_on
  pub label : (k'.procs w).label ≡ (k.procs w).label
  pub others_same : (i : ℕ) → i ≢ w → (k'.procs i).state ≡ (k.procs i).state
  pub entries : List ℕ
  pub waits : Waits k' u entries ps

pass_message-Delivered :
    (w u : ℕ) (k : Kernel) → Delivered (page_of k w) (page_of (pass_message w u k) u)
unfolding pass_message
pass_message-Delivered w u k i h =
    ground (arith, memcpy_lem (page_of k u).m_in (page_of k w).m_out message_len i)

page_of-set_state :
    (k : Kernel) (i : ℕ) (s : ProcState) (u : ℕ) → page_of (set_state k i s) u ≡ page_of k u
page_of-set_state k i s u = ground arith

page_of-Dequeued :
    {k : Kernel} {l : ℕ} {hit : ℕ → Bool} {ns ps : List ℕ} {r : Option (Kernel × Option ℕ)}
    (d : Dequeued k l hit ns ps r) (i : ℕ)
    → page_of d.after i ≡ page_of k i
page_of-Dequeued d i = ground (arith, d.same i, d.pages_same)

module _ (k : Kernel) (u pid : ℕ) (ns ps : List ℕ) (w : Waits k u ns ps) where
  -- If the waiting list of `u` holds the processes `ps`, and `s` is the first of them with the
  -- pid, or the last of them if none has it, then `krecv(pid)` of `u` returns the pid of `s` with
  -- the 64 bytes of its message in the page of `u`; `s` is then in PROC_reply and off the list,
  -- which holds the others in order, and no other process changes its state.
  pub krecv_lem :
      (s : ℕ)
      → choose (pid_is k pid) ps ≡ some s
      → let (k', o) = krecv by_syscall u pid k in Received k u s (others (pid_is k pid) ps) k' o
  unfolding krecv received pass_message
  krecv_lem s c =
      let d = proc_list_remove_lem k u pid ns ps w in
      let k' = pass_message s u d.after in
      rw (d.ends, c)
        (record {
          outcome = ground (arith, d.same s);
          up = d.up_same;
          message = λ i h.
              ap (λ (g : ProcPage). g.m_in i) (page_of-set_state k' s reply u)
              ∙ pass_message-Delivered s u d.after i h
              ∙ ap (λ (g : ProcPage). g.m_out i) (page_of-Dequeued d s);
          state = ground arith;
          waiting_on = ground (arith, d.same s);
          label = ground (arith, d.same s);
          others_same = λ i ne. ground (arith, d.same i);
          entries = d.left;
          waits =
              Waits-same d.after (set_state k' s reply) u d.left (others (pid_is k pid) ps)
                (ground arith) refl refl d.waits;
        })

-- The pid that a process in PROC_recv waits for, by its label.
abbrev pub listens : Label → Option ℕ
listens (in_krecv by_syscall pid) = some pid
listens (in_kreply_recv pid) = some pid
listens _ = none

resume_listening :
    (z : Proc0) (l : Label) (u pid : ℕ) (k : Kernel)
    → listens l ≡ some pid
    → resume_at z l u k ≡ krecv by_syscall u pid k
unfolding resume_at
resume_listening z (in_krecv by_syscall q) u pid k e = ground arith
resume_listening z (in_kreply_recv q) u pid k e = ground arith
resume_listening z _ u pid k e = cc

resume_up :
    (z : Proc0) (k : Kernel) (u : ℕ)
    → k.up ≡ some u
    → resume z k ≡ resume_at z (k.procs u).label u k
unfolding resume
resume_up z k u e = ground arith

emptied : {k : Kernel} {p : ℕ} (ns : List ℕ) → Waits k p ns [] → Waits k p [] []
emptied [] w = w
emptied (n ∷ ns) w = absurd w.names

-- The receiver `p` has the message of the sender `u`, and the sender waits for the reply.
pub record Exchanged (k : Kernel) (u p : ℕ) (k' : Kernel) (o : Outcome) : Type 0 where
  pub outcome : o ≡ returned (k.procs u).pid
  pub up : k'.up ≡ some p
  pub message : Delivered (page_of k u) (page_of k' p)
  pub receiver : (k'.procs p).state ≡ oncpu
  pub sender : (k'.procs u).state ≡ reply
  pub waiting_on : (k'.procs u).waiting_on ≡ some p
  pub label : (k'.procs u).label ≡ in_ksend
  pub no_more : Waits k' p [] []

module _ (z : Proc0) (k : Kernel) (u p pid : ℕ) (up : k.up ≡ some u) (ne : u ≢ p)
    (waits : (k.procs p).state ≡ recv) (at : listens (k.procs p).label ≡ some pid)
    (nobody : Waits k p [] []) where
  Sent-Exchanged :
      (k' : Kernel) (o : Outcome)
      → Sent k u p [] k' o × Handed k u p k' o
      → let (k'', o') = resume z k' in (o ≡ switched) × Exchanged k u p k'' o'
  Sent-Exchanged k' o (s, h) =
      let same : page_of k' u ≡ page_of k u = ground (arith, s.page u, s.pages) in
      let r = krecv_lem k' p pid s.entries (u ∷ []) s.waits u refl in
      rw
        (
          resume_up z k' p h.up,
          resume_listening z (k'.procs p).label p pid k' (ap listens h.label ∙ at),
        )
        (
          h.outcome,
          record {
            outcome = r.outcome ∙ ap returned (s.pid u);
            up = r.up ∙ h.up;
            message = λ i lt. r.message i lt ∙ ap (λ (g : ProcPage). g.m_out i) same;
            receiver = r.others_same p (λ q. ne (sym q)) ∙ h.receiver;
            sender = r.state;
            waiting_on = r.waiting_on ∙ s.waiting_on;
            label = r.label ∙ h.sender_label;
            no_more = emptied r.entries r.waits;
          },
        )

  -- If `u` runs, another process `p` is in PROC_recv at a label of `recv` or `reply_recv`, nobody
  -- is on the waiting list of `p`, and an entry of `proc_lists` is free, then the system call
  -- `send(p)` switches to `p`; what `p` then does returns the pid of `u`, with the 64 bytes of
  -- the message of `u` in the page of `p`; `p` runs, `u` is in PROC_reply, waiting on `p`, at its
  -- label in `ksend`, and nobody is on the waiting list of `p`.
  pub send_delivers :
      (e : ℕ)
      → find_free max_proc_lists 0 k.list_proc ≡ some e
      → let (k', o) = syscall (sys_send p) u k in
        let (k'', o') = resume z k' in (o ≡ switched) × Exchanged k u p k'' o'
  unfolding syscall find_proc
  send_delivers e free =
      Sent-Exchanged (ksend u p k).0 (ksend u p k).1
        (ksend_switches k u p [] [] nobody e (ground arith) ne up free)

-- The client `p` has the server's message and result, and runs.
pub record Replied (k : Kernel) (u p ret : ℕ) (k' : Kernel) (o : Outcome) : Type 0 where
  pub outcome : o ≡ returned ret
  pub up : k'.up ≡ some p
  pub message : Delivered (page_of k u) (page_of k' p)
  pub client : (k'.procs p).state ≡ oncpu
  pub server : (k'.procs u).state ≡ parked (k.procs u).state

schedule_parts :
    (l : Label) (k : Kernel) (u p : ℕ)
    → u ≢ p
    → k.up ≡ some u
    → let (k', o) = schedule l (some p) k in
      (o ≡ switched)
      × (k'.up ≡ some p)
      × ((k'.procs p).state ≡ oncpu)
      × ((k'.procs p).label ≡ (k.procs p).label)
      × ((k'.procs u).state ≡ parked (k.procs u).state)
unfolding schedule park dispatch
schedule_parts l k u p ne up = rw up (refl, refl, ground arith, ground arith, ground arith)

-- The switch from `u` to `p`.
record Switched (l : Label) (k : Kernel) (u p : ℕ) (k' : Kernel) (o : Outcome) : Type 0 where
  outcome : o ≡ switched
  up : k'.up ≡ some p
  running : (k'.procs p).state ≡ oncpu
  label : (k'.procs p).label ≡ (k.procs p).label
  rest : (k'.procs u).state ≡ parked (k.procs u).state
  moved : Unmoved k k'

switch_to :
    (l : Label) (k : Kernel) (u p : ℕ)
    → u ≢ p
    → k.up ≡ some u
    → let (k', o) = schedule l (some p) k in Switched l k u p k' o
switch_to l k u p ne up = record {
  outcome = to_p.0;
  up = to_p.1;
  running = to_p.2;
  label = to_p.3;
  rest = to_p.4;
  moved = schedule-Unmoved l (some p) k;
}
  where
    to_p :
        let (k', o) = schedule l (some p) k in
        (o ≡ switched)
        × (k'.up ≡ some p)
        × ((k'.procs p).state ≡ oncpu)
        × ((k'.procs p).label ≡ (k.procs p).label)
        × ((k'.procs u).state ≡ parked (k.procs u).state)
    to_p = schedule_parts l k u p ne up

module _ (z : Proc0) (k : Kernel) (u p ret : ℕ) (up : k.up ≡ some u) (ne : u ≢ p) where
  reply_allowed :
      (k.procs p).state ≡ reply → (k.procs p).waiting_on ≡ some u → may_reply k u p ≡ true
  reply_allowed s w = ground arith

  answer_up : (answer u p ret k).up ≡ some u
  unfolding answer pass_message
  answer_up = up

  answer_ret : (page_of (answer u p ret k) p).m_ret ≡ ret
  unfolding answer pass_message
  answer_ret = ground arith

  answer_message : Delivered (page_of k u) (page_of (answer u p ret k) p)
  unfolding answer
  answer_message i h =
      ap (λ (g : ProcPage). g.m_in i)
        (update_self (pass_message u p k).pages ((pass_message u p k).procs p).page _)
      ∙ pass_message-Delivered u p k i h

  answer_label : ((answer u p ret k).procs p).label ≡ (k.procs p).label
  unfolding answer pass_message
  answer_label = refl

  answer_state : ((answer u p ret k).procs u).state ≡ (k.procs u).state
  unfolding answer pass_message
  answer_state = refl

  page_of-Unmoved : (a b : Kernel) → Unmoved a b → page_of b p ≡ page_of a p
  page_of-Unmoved a b m = ground (arith, m.page p, m.pages)

  Switched-Replied :
      (k' : Kernel) (o : Outcome)
      → Switched in_kreply (answer u p ret k) u p k' o
      → (k.procs p).label ≡ in_ksend
      → let (k'', o') = resume z k' in (o ≡ switched) × Replied k u p ret k'' o'
  unfolding resume_at
  Switched-Replied k' o s l =
      let same = page_of-Unmoved (answer u p ret k) k' s.moved in
      rw (resume_up z k' p s.up, s.label ∙ answer_label ∙ l)
        (
          s.outcome,
          record {
            outcome = ap returned (ap (λ (g : ProcPage). g.m_ret) same ∙ answer_ret);
            up = s.up;
            message = λ i h. ap (λ (g : ProcPage). g.m_in i) same ∙ answer_message i h;
            client = s.running;
            server = s.rest ∙ ap parked answer_state;
          },
        )

  -- `reply` to a process that does not wait for a reply from the caller fails and changes nothing.
  pub reply_refused : (may_reply k u p ≡ false) → syscall (sys_reply p ret) u k ≡ (k, returned err)
  unfolding syscall find_proc kreply
  reply_refused e = rw e

  -- If `u` runs, and another process `p` is in PROC_reply, waiting on `u`, at its label in
  -- `ksend`, then the system call `reply(p, ret)` switches to `p`, whose `send` returns `ret`
  -- with the 64 bytes of the message of `u` in the page of `p`; `p` runs, and `u` is ready if it
  -- was running.
  pub reply_returns :
      (k.procs p).state ≡ reply
      → (k.procs p).waiting_on ≡ some u
      → (k.procs p).label ≡ in_ksend
      → let (k', o) = syscall (sys_reply p ret) u k in
        let (k'', o') = resume z k' in (o ≡ switched) × Replied k u p ret k'' o'
  unfolding syscall find_proc kreply
  reply_returns s w l =
      rw (reply_allowed s w)
        (Switched-Replied _ _ (switch_to in_kreply (answer u p ret k) u p ne answer_up) l)
