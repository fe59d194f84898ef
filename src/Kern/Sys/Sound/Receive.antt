-- ===== src/Kern/Sys/Sound/Receive.antt =====
-- A process that receives: what `krecv` does to the waiting lists.
use omb.Base.{
  ℕ, ◌≡◌, refl, ap, ◌∙◌, sym, subst, fun_ext, ◌<◌, not, none, some, List, arith, Option-cases, inl,
  inr, if◌then◌else◌, ◌==◌, update,
}
use omb.Kern.Links.Take.{choose, others}
use omb.Kern.State.{
  recv, is_dead, is_send, Caller, by_syscall, by_proc_start, in_krecv, in_start_reply, ok, page_of,
  dropped, Kernel, set_state, max_procs,
}
use omb.Kern.Proc.{schedule, proc_list_remove}
use omb.Kern.Proc.Waiting.{Waits, Dequeued, pid_is, proc_list_remove_lem}
use omb.Kern.Sys.{word_at, pass_message, received, found_sender, krecv}
use omb.Kern.Sys.Queueing.{Waits-same}
use omb.Kern.Sys.Sound.{Queues, Steady, Sound, Kept, Alive-same, Next, leaves, stays}
use omb.Kern.Sys.Sound.Schedule.{schedule-Sound}
use omb.Kern.Sys.Sound.Reply.{kreply-Sound}
use omb.Kern.Sys.Sound.Taken.{
  nobody_chosen, after-Waits, after_apart, taken, chosen_blocked, taken_state, taken_dead,
  taken-Queues,
}

module _ (k : Kernel) (u pid : ℕ) (xs : List ℕ) (ns q : ℕ → List ℕ) (s : Sound k xs ns q)
    (up : k.up ≡ some u)
    (d : Dequeued k u (pid_is k pid) (ns u) (q u) (proc_list_remove u pid k)) where
  -- Nobody to receive from.
  module _ (c : choose (pid_is k pid) (q u) ≡ none) where
    abbrev sleeping : Kernel
    sleeping = set_state d.after u recv

    unqueued : update q u (others (pid_is k pid) (q u)) ≡ q
    unqueued =
        let none_here = nobody_chosen (pid_is k pid) (q u) c in
        fun_ext (λ i. ground (arith, none_here, ap q))

    sleeping_state :
        (i : ℕ) → (sleeping.procs i).state ≡ (if u == i then recv else (k.procs i).state)
    sleeping_state i = ground (arith, d.same i)

    sleeping_dead : (i : ℕ) → is_dead (sleeping.procs i).state ≡ is_dead (k.procs i).state
    sleeping_dead i = ground (arith, sleeping_state i, s.busy u up)

    sleeping_send : (i : ℕ) → is_send (sleeping.procs i).state ≡ is_send (k.procs i).state
    sleeping_send i = ground (arith, sleeping_state i, s.busy u up)

    sleeping_waiting_on : (i : ℕ) → (sleeping.procs i).waiting_on ≡ (k.procs i).waiting_on
    sleeping_waiting_on i = ground (arith, d.same i, d.same u)

    sleeping-Queues : Queues sleeping (update ns u d.left) q
    sleeping-Queues =
        let w = s.steady.queues in
        record {
          waits = λ l.
              subst (λ (r : ℕ → List ℕ). Waits sleeping l (update ns u d.left l) (r l)) unqueued
                (Waits-same d.after sleeping l _ _ (ground arith) refl refl
                  (after-Waits k u pid ns q w (s.busy u up) d l));
          apart = after_apart k u pid ns q w (s.busy u up) d;
          blocked = λ l i h.
              (sleeping_send i ∙ (w.blocked l i h).0, sleeping_waiting_on i ∙ (w.blocked l i h).1);
          in_queue = λ i h.
              let f = w.in_queue i (sym (sleeping_send i) ∙ h) in
              (f.0, sleeping_waiting_on i ∙ f.1, f.2);
          once = w.once;
          nobody = λ l h. w.nobody l (sym (sleeping_dead l) ∙ h);
        }

    sleeping-Steady : Steady sleeping xs (update ns u d.left) q
    sleeping-Steady = record {
      queues = sleeping-Queues;
      alive = Alive-same k sleeping xs d.alive_same s.steady.alive;
      live = λ i. s.steady.live i ∙ ap not (sym (sleeping_dead i));
      slot = subst (λ n. n < max_procs) (sym d.nextpid_same) s.steady.slot;
      present = λ i e. sleeping_dead i ∙ s.steady.present i (sym d.up_same ∙ e);
      begun =
          λ i h. ground (arith, d.same i, d.same u, s.steady.begun i (sym (sleeping_dead i) ∙ h));
    }

    idled : (l : Caller) → Kept (schedule (in_krecv l pid) none sleeping) xs (update ns u d.left) q
    idled l =
        schedule-Sound (in_krecv l pid) none sleeping xs (update ns u d.left) q refl (λ v e. cc)
          sleeping-Steady

    asleep-Next : (l : Caller) → Next k q (found_sender l u pid (some (d.after, none)) k)
    asleep-Next l = record {
      all = xs;
      entries = update ns u d.left;
      queue = q;
      sound = (idled l).0;
      ends = (idled l).1;
      move = stays refl;
    }

  module _ (w : ℕ) (c : choose (pid_is k pid) (q u) ≡ some w) where
    abbrev served : Kernel
    served = taken k u pid ns q s.steady.queues (s.busy u up) d w c

    abbrev fewer : ℕ → List ℕ
    fewer = update q u (others (pid_is k pid) (q u))

    served_dead : (i : ℕ) → is_dead (served.procs i).state ≡ is_dead (k.procs i).state
    served_dead = taken_dead k u pid ns q s.steady.queues (s.busy u up) d w c

    served_up : (i : ℕ) → served.up ≡ some i → k.up ≡ some i
    unfolding pass_message
    served_up i e = sym d.up_same ∙ e

    served-Sound : Sound served xs (update ns u d.left) fewer
    unfolding pass_message
    served-Sound = record {
      steady = record {
        queues = taken-Queues k u pid ns q s.steady.queues (s.busy u up) d w c;
        alive = Alive-same k served xs d.alive_same s.steady.alive;
        live = λ i. s.steady.live i ∙ ap not (sym (served_dead i));
        slot = subst (λ n. n < max_procs) (sym d.nextpid_same) s.steady.slot;
        present = λ i e. served_dead i ∙ s.steady.present i (served_up i e);
        begun =
            λ i h. ground (arith, d.same i, d.same w, s.steady.begun i (sym (served_dead i) ∙ h));
      };
      busy = λ i e.
          let runs = s.busy i (served_up i e) in
          let b = chosen_blocked k u pid ns q s.steady.queues (s.busy u up) d w c in
          ground (
            arith,
            taken_state k u pid ns q s.steady.queues (s.busy u up) d w c i,
            b.0,
            ap (λ (j : ℕ). (k.procs j).state),
          );
    }

    received-Sound : (l : Caller) → Kept (received l u w served) xs (update ns u d.left) fewer
    unfolding received
    received-Sound by_syscall = (served-Sound, cc)
    received-Sound by_proc_start =
        let pc = word_at (page_of served u).m_in 4 in
        let sp = word_at (page_of served u).m_in 8 in
        kreply-Sound u w ok served (in_start_reply pc sp) (dropped pc sp) refl (cc) served-Sound

    taken-Next : (l : Caller) → Next k q (found_sender l u pid (some (d.after, some w)) k)
    taken-Next l = record {
      all = xs;
      entries = update ns u d.left;
      queue = fewer;
      sound = (received-Sound l).0;
      ends = (received-Sound l).1;
      move = leaves u w pid up c refl;
    }

-- `krecv` keeps the kernel sound: nothing leaves a list, or the chosen sender leaves that of `u`.
pub krecv-Next :
    (l : Caller) (k : Kernel) (u pid : ℕ) (xs : List ℕ) (ns q : ℕ → List ℕ)
    → Sound k xs ns q
    → k.up ≡ some u
    → Next k q (krecv l u pid k)
unfolding krecv
krecv-Next l k u pid xs ns q s up =
    let d = proc_list_remove_lem k u pid (ns u) (q u) (s.steady.queues.waits u) in
    elim (Option-cases (choose (pid_is k pid) (q u))) [
      | inl e ↦ rw (krecv, d.ends, e) (asleep-Next k u pid xs ns q s up d e l)
      | inr (w, e) ↦ rw (krecv, d.ends, e) (taken-Next k u pid xs ns q s up d w e l)
    ]
