-- ===== src/Scheduler/Running/Batch.antt =====
-- The batch of running groups that the scheduler makes.
use mo_link.Prelude.{
  ℕ, zero, suc, ◌+◌, ◌≤◌, ◌<◌, elem, ltb, leb, eqb, length, length-append, Bool, true, false, ◌&&◌,
  ◌≡◌, refl, ap, sym, ◌∙◌, subst, Option, List, [], ◌∷◌, Result, ok, raise, arith, if◌then◌else◌,
}
use mo_link.Scheduler.{Vllm, Scheduler, add_id, Status}
use mo_link.Scheduler.Sweep.{scheduled}
use mo_link.Scheduler.Sweep.Invariant.{
  OrAssertion, OrAssertion-map, OrAssertion-if, OrAssertion-split, OrAssertion-both,
  OrAssertion-bind,
}
use mo_link.Scheduler.Sweep.Conserved.{total, total-append}
use mo_link.Scheduler.Sweep.OnFly.{ids_of, ids-snoc, IsExclusive, extend-IsExclusive}
use mo_link.Scheduler.Running.{
  Running, make_room, accept, settle, run_group, round, round_on, run_loop, start_running,
}
use mo_link.Scheduler.Running.Room.{
  weight, AreFinished, Kept, Roomy, make_room-Roomy, Placed, run_group-Placed,
}

module _ {v : Vllm} (sch : Scheduler v) (chunking : Bool) where
  -- The groups that are scheduled so far.
  abbrev Batch : Running v → Type 0
  Batch s =
      IsExclusive sch.requests_on_fly (ids_of v s.seq_groups) s.requests_on_fly
      × (s.num_scheduled ≡ length s.seq_groups)
      × (length s.seq_groups ≤ sch.schedule_limit)
      × AreFinished v s.freed

  Batch-Kept : (s s' : Running v) → Kept (λ g. 0) s s' → Batch s → Batch s'
  Batch-Kept s s' (groups, ids, num, finished) (exclusive, counted, limited, freed) = (
    subst (λ b. IsExclusive sch.requests_on_fly b s'.requests_on_fly) (ap (ids_of v) (sym groups))
        (subst (λ after. IsExclusive sch.requests_on_fly (ids_of v s.seq_groups) after) (sym ids)
          exclusive),
    num ∙ counted ∙ ap length (sym groups),
    subst (λ l. length l ≤ sch.schedule_limit) (sym groups) limited,
    finished freed,
  )

  accept-Batch :
      (g : v.Group) (tokens : ℕ) (s : Running v)
      → elem (v.request_id g) s.requests_on_fly ≡ false
      → suc s.num_scheduled ≤ sch.schedule_limit
      → Batch s
      → Batch (accept chunking g tokens s)
  unfolding accept
  accept-Batch g tokens s free below (exclusive, counted, limited, freed) =
      let prefill = v.is_prefill (v.append_slots g chunking s.mem).1 g in
      let e = scheduled g (if prefill then tokens else 1) prefill in
      let longer = length-append s.seq_groups (e ∷ []) in
      (
        subst (λ b. IsExclusive sch.requests_on_fly b (add_id (v.request_id g) s.requests_on_fly))
            (sym (ids-snoc v s.seq_groups e))
            (extend-IsExclusive sch.requests_on_fly (ids_of v s.seq_groups) s.requests_on_fly
              (v.request_id g) exclusive free),
        ap suc counted ∙ sym (longer ∙ omega arith),
        subst (λ n. n ≤ sch.schedule_limit) (sym longer) (omega (arith, counted, below)),
        freed,
      )

  settle-Batch :
      (g : v.Group) (tokens : ℕ) (s : Running v) (r : Bool × Running v)
      → elem (v.request_id g) s.requests_on_fly ≡ false
      → suc s.num_scheduled ≤ sch.schedule_limit
      → Batch s
      → Kept (λ g. 0) s r.1
      → Batch (settle chunking g tokens r)
  unfolding settle
  settle-Batch g tokens s (true, s') free below batch kept =
      accept-Batch g tokens s' (ap (elem (v.request_id g)) kept.1 ∙ free)
        (omega (arith, kept.2, below)) (Batch-Kept s s' kept batch)
  settle-Batch g tokens s (false, s') free below batch kept = Batch-Kept s s' kept batch

  run_group-Batch :
      (g : v.Group) (tokens : ℕ) (s : Running v)
      → elem (v.request_id g) s.requests_on_fly ≡ false
      → suc s.num_scheduled ≤ sch.schedule_limit
      → Batch s
      → OrAssertion Batch (run_group chunking g tokens s)
  unfolding run_group
  run_group-Batch g tokens s free below batch =
      OrAssertion-if Batch (v.use_async_output_proc && ltb v.max_model_len (v.first_len s.mem g)) _
        _ batch
        (OrAssertion-bind (Roomy (λ g'. 0) g s) Batch
          (make_room chunking (suc (length s.queue)) g tokens s)
          (λ r. ok (settle chunking g tokens r))
          (make_room-Roomy (λ g'. 0) chunking (suc (length s.queue)) g tokens s (omega arith))
          (λ r roomy. settle-Batch g tokens s r free below batch roomy.2))

  module _ (w : v.Group → ℕ) where
    -- A round that ends the loop changes nothing, any other one shortens the queue.
    abbrev Goes : Running v → Bool × Running v → Type 0
    Goes s (true, s') = (weight w s' ≡ weight w s) × Batch s' × (length s'.queue < length s.queue)
    Goes s (false, s') = s' ≡ s

    round-Goes :
        (s : Running v) (g : v.Group) (rest : List v.Group)
        → s.queue ≡ g ∷ rest
        → Batch s
        → OrAssertion (Goes s) (round sch chunking s g rest)
    unfolding round
    round-Goes s g rest e batch =
        let s₁ = record s { queue = rest } in
        let tokens = (v.num_new_tokens s.mem g Status.running chunking).0 in
        let lighter : weight w s ≡ weight w s₁ + w g = omega (arith, ap (total w) e) in
        let shorter : length rest < length s.queue = omega (arith, ap length e) in
        OrAssertion-split (Goes s) (chunking && leb sch.decode_token_limit_in_chunk s.num_tokens) _
          _ (λ full. refl)
          (λ more.
            OrAssertion-split (Goes s) (leb sch.schedule_limit s.num_scheduled) _ _ (λ full. refl)
              (λ below.
                OrAssertion-split (Goes s) (elem (v.request_id g) s.requests_on_fly) _ _
                  (λ busy. (
                    omega (arith, lighter, total-append w s.reserve_queue (g ∷ [])),
                    batch,
                    shorter,
                  ))
                  (λ free. OrAssertion-if (Goes s) (eqb tokens 0) _ _ refl (
                    OrAssertion-bind (λ s'. Placed w g s₁ s' × Batch s') (Goes s)
                      (run_group chunking g tokens s₁) (λ s'. ok (true, s'))
                      (OrAssertion-both (Placed w g s₁) Batch (run_group chunking g tokens s₁)
                        (run_group-Placed w chunking g tokens s₁)
                        (run_group-Batch g tokens s₁ free (ground arith) batch))
                      (λ s' (placed, batch').
                        (placed.0 ∙ sym lighter, batch', omega (arith, placed.1, shorter)))))))

    round_on-Goes :
        (s : Running v) (queue : List v.Group)
        → s.queue ≡ queue
        → Batch s
        → OrAssertion (Goes s) (round_on sch chunking s queue)
    unfolding round_on
    round_on-Goes s [] e batch = refl
    round_on-Goes s (g ∷ rest) e batch = round-Goes s g rest e batch

    -- Where the loop ends: with all groups, a batch, and its condition false.
    abbrev pub Ended : Running v → Running v → Type 0
    Ended s s' =
        (weight w s' ≡ weight w s) × Batch s' × (round_on sch chunking s' s'.queue ≡ ok (false, s'))

    Ended-trans : (s s' s'' : Running v) → weight w s' ≡ weight w s → Ended s' s'' → Ended s s''
    Ended-trans s s' s'' e (weights, batch, ended) = (weights ∙ e, batch, ended)

    loop_from :
        (fuel : ℕ) (s : Running v) (r : Result (Bool × Running v))
        → round_on sch chunking s s.queue ≡ r
        → length s.queue ≤ suc fuel
        → Batch s
        → OrAssertion (Goes s) r
        → ((s' : Running v)
            → length s'.queue ≤ fuel
            → Batch s'
            → OrAssertion (Ended s') (run_loop sch chunking fuel s'))
        → OrAssertion (Ended s) (elim r [
          | raise e ↦ raise e
          | ok (false, s') ↦ ok s'
          | ok (true, s') ↦ run_loop sch chunking fuel s'
        ])
    loop_from fuel s (raise e) is_r enough batch goes rest = goes
    loop_from fuel s (ok (false, s')) is_r enough batch goes rest =
        subst (Ended s) (sym goes) (refl, batch, is_r ∙ ap (λ t. ok (false, t)) goes)
    loop_from fuel s (ok (true, s')) is_r enough batch (weights, batch', shorter) rest =
        OrAssertion-map (Ended s') (Ended s) (run_loop sch chunking fuel s')
          (λ s'' h. Ended-trans s s' s'' weights h)
          (rest s' (omega (arith, shorter, enough)) batch')

    nil_of_length : (queue : List v.Group) → length queue ≤ 0 → queue ≡ []
    nil_of_length [] h = refl
    nil_of_length (g ∷ gs) h = absurd (omega arith)

    -- As many rounds as the queue has groups are enough.
    pub run_loop-Ended :
        (fuel : ℕ) (s : Running v)
        → length s.queue ≤ fuel
        → Batch s
        → OrAssertion (Ended s) (run_loop sch chunking fuel s)
    unfolding run_loop round_on
    run_loop-Ended zero s enough batch =
        (refl, batch, ap (round_on sch chunking s) (nil_of_length s.queue enough))
    run_loop-Ended (suc fuel) s enough batch =
        loop_from fuel s (round_on sch chunking s s.queue) refl enough batch
          (round_on-Goes s s.queue refl batch) (run_loop-Ended fuel)

  pub start-Batch : (loras : Option (List ℕ)) → Batch (start_running sch loras)
  unfolding start_running elem
  start-Batch loras = (
    record {
      unique = tt;
      fresh = λ r e. ground (arith, e);
      marked = λ r. refl;
      still_set = λ u. u;
    },
    refl,
    omega arith,
    tt,
  )

  -- The loop of `_schedule_running` ends because its condition says so, with the first group or an
  -- empty queue: as many rounds as the running queue has groups are enough. Or else an assertion fails.
  pub run_loop-stops :
      (loras : Option (List ℕ))
      → OrAssertion
          (λ s. round_on sch chunking s s.queue ≡ ok (false, s))
          (run_loop sch chunking (length sch.running) (start_running sch loras))
  unfolding start_running
  run_loop-stops loras =
      OrAssertion-map (Ended (λ g. 0) (start_running sch loras))
        (λ s. round_on sch chunking s s.queue ≡ ok (false, s))
        (run_loop sch chunking (length sch.running) (start_running sch loras)) (λ s h. h.2)
        (run_loop-Ended (λ g. 0) (length sch.running) (start_running sch loras) (omega arith)
          (start-Batch loras))
