-- ===== src/Liveness/Visit.antt =====
-- One parent of a block in the loop of src/ir/analyzers/live_range_analyzer.cc.
use katara.Prelude.{
  ℕ, suc, ◌+◌, ◌≤◌, ◌<◌, ◌≡◌, refl, arith, false, not, ◌&&◌, ◌==◌, List, length, inl, inr,
  Bool-cases, if◌then◌else◌, ltb, lt→ltb,
}
use katara.Prelude.Result.{ok}
use katara.Interference.Sets.{mem, add, mem-add}
use katara.Liveness.Ranges.{
  BlockLiveRanges, FuncLiveRanges, get_entry_set, get_exit_set, get_block_live_ranges,
  put_block_live_ranges,
}
use katara.Liveness.Updates.{enters, leaves}
use katara.Liveness.Growth.{lacking, Grows, Grown}
use katara.Liveness.Flow.{
  Ranged, Ordered, Settled, total, total-put, get-put, entry_at, exit_at, entry_at-put, exit_at-put,
  entry_at-ok, exit_at-ok,
}

-- The queue after a parent `p` whose ranges were `old`.
unfoldable pub queued : ℕ → BlockLiveRanges → BlockLiveRanges → List ℕ → List ℕ
unfolding get_entry_set add
queued p old new queue =
    if ltb (length (get_entry_set old)) (length (get_entry_set new)) then add p queue else queue

ltb_same : (n : ℕ) → ltb n n ≡ false
ltb_same n = ground arith

queued-same :
    (p : ℕ) (old new : BlockLiveRanges) (queue : List ℕ)
    → get_entry_set new ≡ get_entry_set old
    → queued p old new queue ≡ queue
unfolding queued
queued-same p old new queue e = rw (e, ltb_same (length (get_entry_set old))) refl

queued-more :
    (p : ℕ) (old new : BlockLiveRanges) (queue : List ℕ)
    → length (get_entry_set old) < length (get_entry_set new)
    → queued p old new queue ≡ add p queue
unfolding queued
queued-more p old new queue h = rw (lt→ltb _ _ h) refl

length-add : (x : ℕ) (xs : List ℕ) → length (add x xs) ≤ suc (length xs)
unfolding add
length-add x xs = ground arith

module _ (us vs : List ℕ) (ranges : FuncLiveRanges) (p : ℕ) (old new : BlockLiveRanges)
    (queue : List ℕ) (here : get_block_live_ranges ranges p ≡ ok old)
    (g : Grown us vs old new) where
  unfoldable pub next : FuncLiveRanges
  next = put_block_live_ranges ranges p new

  exit-kept : (q a : ℕ) → (mem a (exit_at ranges q) && not (mem a (exit_at next q))) ≡ false
  unfolding next leaves
  exit-kept q a = elim (Bool-cases (p == q)) [
    | inl e ↦
        rw (exit_at-put ranges p old new q a here, e, exit_at-ok ranges p q old here e)
          (g.at_exit a)
    | inr e ↦ rw (exit_at-put ranges p old new q a here, e) (ground arith)
  ]

  entry-same :
      (n a : ℕ)
      → get_entry_set new ≡ get_entry_set old
      → mem a (entry_at next n) ≡ mem a (entry_at ranges n)
  unfolding next
  entry-same n a s = elim (Bool-cases (p == n)) [
    | inl e ↦
        rw (entry_at-put ranges p old new n a here, e, entry_at-ok ranges p n old here e, s) refl
    | inr e ↦ rw (entry_at-put ranges p old new n a here, e) refl
  ]

  entry-other : (n a : ℕ) → (p == n) ≡ false → mem a (entry_at next n) ≡ mem a (entry_at ranges n)
  unfolding next
  entry-other n a e = rw (entry_at-put ranges p old new n a here, e) refl

  pub Settled-kept :
      (n q : ℕ) → Settled queue ranges n q → Settled (queued p old new queue) next n q
  unfolding Grows
  Settled-kept n q s = elim g.grows [
    | inl same ↦
        rw (queued-same p old new queue same)
          (λ a. ground (arith, s a, entry-same n a same, exit-kept q a))
    | inr (more, fewer) ↦
        rw (queued-more p old new queue more)
          (λ a. ground (arith, s a, mem-add n p queue, entry-other n a, exit-kept q a))
  ]

  -- The values `vs`, which the block `n` has at its entry, are now at the exit of its parent.
  pub Settled-new :
      (n : ℕ)
      → ((a : ℕ) → mem a (entry_at ranges n) ≡ mem a vs)
      → Settled (queued p old new queue) next n p
  unfolding Grows next leaves
  Settled-new n e =
      let there : (a : ℕ)
          → mem a (exit_at (put_block_live_ranges ranges p new) p) ≡ mem a (get_exit_set new) =
        λ a. rw (exit_at-put ranges p old new p a here) (ground arith) in
      elim g.grows [
        | inl same ↦
            rw (queued-same p old new queue same)
              (λ a. ground (arith, entry-same n a same, e a, there a, g.through a))
        | inr (more, fewer) ↦
            rw (queued-more p old new queue more)
              (λ a. ground (arith, mem-add n p queue, entry-other n a, e a, there a, g.through a))
      ]

  pub total-fewer : total us next + length (queued p old new queue) ≤ total us ranges + length queue
  unfolding Grows next
  total-fewer = elim g.grows [
    | inl same ↦
        let k : lacking us (λ a. mem a (get_entry_set new))
            ≡ lacking us (λ a. mem a (get_entry_set old)) =
          rw same refl in
        rw (queued-same p old new queue same) (omega (arith, total-put us ranges p old new here))
    | inr (more, fewer) ↦
        rw (queued-more p old new queue more)
          (omega (arith, length-add p queue, total-put us ranges p old new here))
  ]

  pub Ranged-kept : (n : ℕ) → Ranged ranges n → Ranged next n
  unfolding next
  Ranged-kept n (l, e) = elim (Bool-cases (p == n)) [
    | inl h ↦ (new, rw (get-put ranges p old new n here, h) refl)
    | inr h ↦ (l, rw (get-put ranges p old new n here, h) e)
  ]

  pub Ordered-next :
      Ordered us ranges → ((a : ℕ) → (mem a vs && not (mem a us)) ≡ false) → Ordered us next
  unfolding next enters
  Ordered-next o inside = record {
    is_distinct = λ n l e. elim (Bool-cases (p == n)) [
      | inl h ↦ ground (arith, get-put ranges p old new n here, g.is_distinct)
      | inr h ↦ o.is_distinct n l (ground (arith, get-put ranges p old new n here))
    ];
    inside = λ n a. elim (Bool-cases (p == n)) [
      | inl h ↦
          let was : (mem a (get_entry_set old) && not (mem a us)) ≡ false =
            rw (← entry_at-ok ranges p p old here (ground arith)) (o.inside p a) in
          rw (entry_at-put ranges p old new n a here, h) (ground (arith, g.inside a, inside a))
      | inr h ↦ rw (entry_at-put ranges p old new n a here, h) (o.inside n a)
    ];
  }
