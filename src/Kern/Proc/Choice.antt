-- ===== src/Kern/Proc/Choice.antt =====
-- `next_proc` of kern/proc.c against round robin.
use omb.Base.{
  ℕ, zero, suc, ◌+◌, ◌<◌, ◌≤◌, ◌≡◌, Bool, true, false, Option, none, some, List, [], ◌∷◌, ◌++◌,
  arith, has, length, if◌then◌else◌, same_ptr, is_nil,
}
use omb.Kern.Links.{Links}
use omb.Kern.Links.Seg.{Seg, Holds, Seg-front, Seg-back, Distinct-apart}
use omb.Kern.Proc.{ready_at, scan, scan_fuel, next_proc_in}

-- The first process of a list that is ready.
unfoldable pub first_ready : (ℕ → Bool) → List ℕ → Option ℕ
first_ready rdy [] = none
first_ready rdy (x ∷ xs) = if rdy x then some x else first_ready rdy xs

-- The loop's test at `p`, and the loop from there.
abbrev arrive : ℕ → (ℕ → Bool) → Links → (up p : Option ℕ) → Option (Option ℕ)
arrive f rdy s up p = elim (same_ptr p up) [
  | true ↦ some (if ready_at rdy p then p else none)
  | false ↦ scan f rdy s up p
]

module _ (rdy : ℕ → Bool) (s : Links) where
  -- Up to the running process.
  arrive_at_up :
      (f : ℕ) (h : Option ℕ) (u : ℕ) (xs : List ℕ)
      → Seg s.next h xs (some u)
      → has u xs ≡ false
      → length xs < f
      → arrive f rdy s (some u) h ≡ some (first_ready rdy (xs ++ u ∷ []))
  unfolding scan first_ready
  arrive_at_up zero h u xs c o lt = absurd (omega arith)
  arrive_at_up (suc f) h u [] c o lt = ground arith
  arrive_at_up (suc f) h u (x ∷ xs) c o lt = ground (arith, arrive_at_up f (s.next x) u xs c.1)

  -- Past the end of the list and on from its front.
  arrive_at_end :
      (f : ℕ) (h : Option ℕ) (u : ℕ) (front back : List ℕ)
      → Seg s.next h back none
      → has u back ≡ false
      → Seg s.next s.root front (some u)
      → has u front ≡ false
      → length back + length front + 1 < f
      → arrive f rdy s (some u) h ≡ some (first_ready rdy (back ++ front ++ u ∷ []))
  unfolding scan first_ready
  arrive_at_end zero h u front back c o d q lt = absurd (omega arith)
  arrive_at_end (suc f) h u front [] c o d q lt =
      rw (c, scan) (arrive_at_up f s.root u front d q (omega arith))
  arrive_at_end (suc f) h u front (x ∷ back) c o d q lt =
      ground (arith, arrive_at_end f (s.next x) u front back c.1)

  -- With no running process the loop ends behind the last one.
  arrive_idle :
      (f : ℕ) (h : Option ℕ) (xs : List ℕ)
      → Seg s.next h xs none
      → length xs < f
      → arrive f rdy s none h ≡ some (first_ready rdy xs)
  unfolding scan first_ready
  arrive_idle zero h xs c lt = absurd (omega arith)
  arrive_idle (suc f) h [] c lt = ground arith
  arrive_idle (suc f) h (x ∷ xs) c lt = ground (arith, arrive_idle f (s.next x) xs c.1)

  -- A list without `u` does not start at `u`.
  head-ne :
      (nx : ℕ → Option ℕ) (h : Option ℕ) (u : ℕ) (xs : List ℕ)
      → Seg nx h xs none
      → has u xs ≡ false
      → same_ptr h (some u) ≡ false
  head-ne nx h u [] c o = rw c
  head-ne nx h u (x ∷ xs) c o = rw c.0 (ground arith)

  root-ne-nil :
      (front back : List ℕ) (u : ℕ)
      → Seg s.next s.root (front ++ u ∷ back) none
      → is_nil s.root ≡ false
  root-ne-nil [] back u c = rw c.0
  root-ne-nil (x ∷ front) back u c = rw c.0

  -- Where the loop's test does not end it, to arrive is to go on.
  scan_of_arrive :
      (f : ℕ) (up p : Option ℕ) {r : Option (Option ℕ)}
      → same_ptr p up ≡ false
      → arrive f rdy s up p ≡ r
      → scan f rdy s up p ≡ r
  scan_of_arrive f up p e a = ground arith

  scan_idle :
      (f x : ℕ) (xs : List ℕ)
      → Holds s (x ∷ xs)
      → length (x ∷ xs) < f
      → scan f rdy s none s.root ≡ some (first_ready rdy (x ∷ xs))
  scan_idle f x xs h lt =
      scan_of_arrive f none s.root (ground arith) (arrive_idle f s.root (x ∷ xs) h.chain lt)

  scan_lem :
      (f : ℕ) (u : ℕ) (front back : List ℕ)
      → Holds s (front ++ u ∷ back)
      → length back + length front + 1 < f
      → scan f rdy s (some u) (s.next u) ≡ some (first_ready rdy (back ++ front ++ u ∷ []))
  scan_lem f u front back h lt =
      let apart = Distinct-apart front back u h.distinct in
      let rest = Seg-back s.next none u back s.root front h.chain in
      let e = head-ne s.next (s.next u) u back rest apart.1 in
      scan_of_arrive f (some u) (s.next u) e (
        arrive_at_end f (s.next u) u front back rest apart.1
          (Seg-front s.next none u back s.root front h.chain) apart.0 lt)

  -- If the list of all processes is `front`, `u`, `back` with at most 512 elements and `u` runs,
  -- then the search of `next_proc` ends with the first ready process in the order `back`,
  -- `front`, `u`, or nil if none is ready.
  pub next_proc_in_running :
      (u : ℕ) (front back : List ℕ)
      → Holds s (front ++ u ∷ back)
      → length front + length back < 512
      → next_proc_in rdy s (some u) ≡ some (first_ready rdy (back ++ front ++ u ∷ []))
  unfolding next_proc_in
  next_proc_in_running u front back h lt =
      rw (root-ne-nil front back u h.chain) (scan_lem scan_fuel u front back h (omega arith))

  -- While no process runs, it returns the first ready process of the list, or nil.
  pub next_proc_in_idle :
      (xs : List ℕ)
      → Holds s xs
      → length xs ≤ 512
      → next_proc_in rdy s none ≡ some (first_ready rdy xs)
  unfolding next_proc_in first_ready
  next_proc_in_idle [] h lt = rw h.chain
  next_proc_in_idle (x ∷ xs) h lt =
      rw (root-ne-nil [] xs x h.chain) (scan_idle scan_fuel x xs h (omega arith))
