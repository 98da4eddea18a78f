-- ===== src/Scheduler/Prefills/Batch.antt =====
-- The batch of prefills that the scheduler makes.
use mo_link.Prelude.{
  ℕ, suc, ◌+◌, ◌≤◌, elem, length, length-append, Bool, false, ◌≡◌, refl, inl, inr, Bool-cases,
  Option, List, [], ◌∷◌, Result, ok, raise, arith,
}
use mo_link.Scheduler.{Vllm, Scheduler}
use mo_link.Scheduler.Sweep.{
  scheduled, Decision, stop, on_fly, postpone, discard, schedule, failed_assertion, Sweep, begin,
  sweep, put_back, apply_decision,
}
use mo_link.Scheduler.Sweep.Invariant.{OrAssertion, Ends, Continues, sweep_induct}
use mo_link.Scheduler.Sweep.Conserved.{total, sweep-weight}
use mo_link.Scheduler.Sweep.OnFly.{ids_of, IsExclusive, Exclusive, sweep-Exclusive}
use mo_link.Scheduler.Prefills.{PrefillOutputs, prefill_decision, after_prefills, schedule_prefills}

module _ {v : Vllm} (sch : Scheduler v) (chunking : Bool) where
  -- A request is only scheduled below the limit, and when it is not on the fly.
  prefill_decision-schedule :
      (s : Sweep v) (g : v.Group) (prefill : Bool) (chunk tokens : ℕ) (loras : Option (List ℕ))
      (m : v.Mem)
      → prefill_decision sch chunking s g ≡ schedule prefill chunk tokens loras m
      → (elem (v.request_id g) s.requests_on_fly ≡ false)
        × (suc s.num_scheduled ≤ sch.schedule_limit)
  unfolding prefill_decision
  prefill_decision-schedule s g prefill chunk tokens loras m h = ground arith

  abbrev Limited : Sweep v → List v.Group → Type 0
  Limited s rest =
      (s.num_scheduled ≡ length s.seq_groups) × (length s.seq_groups ≤ sch.schedule_limit)

  apply_decision-Limited :
      (d : Decision v) (s : Sweep v) (g : v.Group) (gs : List v.Group)
      → Limited s (g ∷ gs)
      → ((prefill : Bool) (chunk tokens : ℕ) (loras : Option (List ℕ)) (m : v.Mem)
          → d ≡ schedule prefill chunk tokens loras m
          → suc s.num_scheduled ≤ sch.schedule_limit)
      → OrAssertion (Continues Limited gs g) (apply_decision d s g)
  unfolding apply_decision
  apply_decision-Limited (stop m) s g gs h below = h
  apply_decision-Limited (on_fly m) s g gs h below = h
  apply_decision-Limited (postpone m) s g gs h below = h
  apply_decision-Limited (discard m) s g gs h below = h
  apply_decision-Limited (schedule prefill chunk tokens loras m) s g gs h below =
      let longer = length-append s.seq_groups (scheduled g chunk prefill ∷ []) in
      (
        omega (arith, h.0, longer),
        omega (arith, h.0, longer, below prefill chunk tokens loras m refl),
      )
  apply_decision-Limited failed_assertion s g gs h below = refl

  abbrev prefills_loop : Option (List ℕ) → Result (Sweep v × List v.Group)
  prefills_loop loras =
      sweep (prefill_decision sch chunking) (λ m. (v.passed_delay m).1) sch.waiting
        (begin sch.mem sch.requests_on_fly loras)

  abbrev pub Conserves : (v.Group → ℕ) → PrefillOutputs v × Scheduler v → Type 0
  Conserves w (out, s) =
      total (λ e. w e.seq_group) out.seq_groups + total w out.ignored_seq_groups + total w s.waiting
      ≡ total w sch.waiting

  abbrev pub IsBatch : PrefillOutputs v × Scheduler v → Type 0
  IsBatch (out, s) =
      IsExclusive sch.requests_on_fly (ids_of v out.seq_groups) s.requests_on_fly
      × (length out.seq_groups ≤ sch.schedule_limit)

  after_prefills-Conserves :
      (w : v.Group → ℕ) (r : Result (Sweep v × List v.Group))
      → OrAssertion
          (Ends (λ t rest.
            total (λ e. w e.seq_group) t.seq_groups + total w t.ignored + total w (put_back t rest)
            ≡ total w sch.waiting))
          r
      → OrAssertion (Conserves w) (after_prefills sch chunking r)
  unfolding after_prefills
  after_prefills-Conserves w (ok (t, rest)) h = h
  after_prefills-Conserves w (raise e) h = h

  after_prefills-IsBatch :
      (r : Result (Sweep v × List v.Group))
      → OrAssertion (Ends (Exclusive sch.requests_on_fly)) r
      → OrAssertion (Ends Limited) r
      → OrAssertion IsBatch (after_prefills sch chunking r)
  unfolding after_prefills
  after_prefills-IsBatch (ok (t, rest)) exclusive limited = (exclusive, limited.1)
  after_prefills-IsBatch (raise e) exclusive limited = exclusive

  -- No group of the waiting queue is lost or doubled: whatever weight the groups have, those of the
  -- batch, the ignored ones and the queue afterwards weigh as much as the queue before. Or else one
  -- of the assertions fails.
  pub schedule_prefills-Conserves :
      (loras : Option (List ℕ)) (w : v.Group → ℕ)
      → OrAssertion (Conserves w) (schedule_prefills sch chunking loras)
  unfolding schedule_prefills
  schedule_prefills-Conserves loras w = elim (Bool-cases (v.is_spent sch.mem)) [
    | inl spent ↦ rw spent (omega arith)
    | inr left ↦ rw left (
        after_prefills-Conserves w (prefills_loop loras) (
          sweep-weight w (prefill_decision sch chunking) (λ m. (v.passed_delay m).1) sch.waiting
            sch.mem sch.requests_on_fly loras))
  ]

  prefills_loop-Limited :
      (loras : Option (List ℕ)) → OrAssertion (Ends Limited) (prefills_loop loras)
  unfolding begin
  prefills_loop-Limited loras =
      sweep_induct (prefill_decision sch chunking) (λ m. (v.passed_delay m).1) Limited
        (λ s g rest h.
          apply_decision-Limited (prefill_decision sch chunking s g) s g rest h
            (λ prefill chunk tokens used m e.
              (prefill_decision-schedule s g prefill chunk tokens used m e).1))
        (λ s h. h) sch.waiting (begin sch.mem sch.requests_on_fly loras) (refl, omega arith)

  -- The batch has at most as many groups as the limit for a micro batch, no request twice and none
  -- that was on the fly, and those on the fly afterwards are those before and the batch's. Or else
  -- one of the assertions fails.
  pub schedule_prefills-IsBatch :
      (loras : Option (List ℕ)) → OrAssertion IsBatch (schedule_prefills sch chunking loras)
  unfolding schedule_prefills elem
  schedule_prefills-IsBatch loras = elim (Bool-cases (v.is_spent sch.mem)) [
    | inl spent ↦ rw spent (
      record {
        unique = tt;
        fresh = λ r e. ground (arith, e);
        marked = λ r. refl;
        still_set = λ u. u;
      },
      omega arith,
    )
    | inr left ↦ rw left (
        after_prefills-IsBatch (prefills_loop loras)
          (sweep-Exclusive sch.requests_on_fly (prefill_decision sch chunking)
            (λ m. (v.passed_delay m).1) sch.waiting sch.mem loras
            (λ s g prefill chunk tokens used m e.
              (prefill_decision-schedule s g prefill chunk tokens used m e).0))
          (prefills_loop-Limited loras))
  ]
