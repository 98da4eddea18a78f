-- ===== src/Scheduler/Running/Room.antt =====
-- The preemption that makes room for a group, and what it does to the other groups.
use mo_link.Prelude.{
  ℕ, zero, suc, ◌+◌, ◌≤◌, ◌<◌, ltb, length, Bool, true, false, ◌&&◌, ◌≡◌, refl, ap, ◌∙◌, List, [],
  ◌∷◌, ◌++◌, Result, ok, arith, if◌then◌else◌,
}
use mo_link.Scheduler.{Vllm, PreemptionMode}
use mo_link.Scheduler.Sweep.{scheduled}
use mo_link.Scheduler.Sweep.Invariant.{
  OrAssertion, OrAssertion-map, OrAssertion-if, OrAssertion-split, OrAssertion-bind,
}
use mo_link.Scheduler.Sweep.Conserved.{total, total-append}
use mo_link.Scheduler.Running.{
  Running, pop_last, victim, put_aside, evict, after_victim, give_back, make_room, accept, settle,
  run_group,
}

pop_last-total :
    {A : Type 0} (w : A → ℕ) (x : A) (xs : List A)
    → (total w (pop_last x xs).0 + w (pop_last x xs).1 ≡ w x + total w xs)
      × (length (pop_last x xs).0 ≡ length xs)
pop_last-total w x [] = (omega arith, refl)
pop_last-total w x (y ∷ ys) =
    let (weights, lengths) = pop_last-total w y ys in (omega (arith, weights), ap suc lengths)

-- Groups that the scheduler may free: each was finished when the output callback of a preemption had
-- run, which only happens with asynchronous output processing.
abbrev pub AreFinished : (v : Vllm) → List v.Group → Type 0
AreFinished v [] = Unit
AreFinished v (g ∷ gs) =
    (v.use_async_output_proc ≡ true)
    × ((m : v.Mem) × (v.is_finished (v.output_proc_callback (v.request_id g) m) g ≡ true))
    × AreFinished v gs

AreFinished-append :
    (v : Vllm) (gs hs : List v.Group)
    → AreFinished v gs
    → AreFinished v hs
    → AreFinished v (gs ++ hs)
AreFinished-append v [] hs h k = k
AreFinished-append v (g ∷ gs) hs (on, finished, h) k =
    (on, finished, AreFinished-append v gs hs h k)

module _ {v : Vllm} (w : v.Group → ℕ) where
  abbrev pub weight : Running v → ℕ
  weight s =
      total w s.queue
      + total w s.reserve_queue
      + total w s.preempted
      + total w s.swapped_out
      + total w s.async_stopped
      + total w s.freed
      + total (λ e. w e.seq_group) s.seq_groups

  -- What is scheduled has not changed, and what was freed was finished.
  abbrev pub Kept : Running v → Running v → Type 0
  Kept s s' =
      (s'.seq_groups ≡ s.seq_groups)
      × (s'.requests_on_fly ≡ s.requests_on_fly)
      × (s'.num_scheduled ≡ s.num_scheduled)
      × (AreFinished v s.freed → AreFinished v s'.freed)

  abbrev Aside : v.Group → Running v → Running v → Type 0
  Aside g s s' = (weight s' ≡ weight s + w g) × (s'.queue ≡ s.queue) × Kept s s'

  put_aside-Aside :
      (g : v.Group) (r : PreemptionMode × v.Mem) (s : Running v) → Aside g s (put_aside g r s)
  unfolding put_aside
  put_aside-Aside g (PreemptionMode.recompute, m) s =
      (omega (arith, total-append w s.preempted (g ∷ [])), refl, (refl, refl, refl, λ u. u))
  put_aside-Aside g (PreemptionMode.swap, m) s =
      (omega (arith, total-append w s.swapped_out (g ∷ [])), refl, (refl, refl, refl, λ u. u))

  evict-Aside : (g : v.Group) (s : Running v) → OrAssertion (Aside g s) (evict g s)
  unfolding evict
  evict-Aside g s =
      let m = v.output_proc_callback (v.request_id g) s.mem in
      OrAssertion-split (Aside g s) v.use_async_output_proc _ _
        (λ on.
          OrAssertion-if (Aside g s) v.has_output_proc_callback _ _
            (OrAssertion-split (Aside g s) (v.is_finished m g) _ _
              (λ finished. (
                omega (arith, total-append w s.freed (g ∷ [])),
                refl,
                (
                  refl,
                  refl,
                  refl,
                  λ u. AreFinished-append v s.freed (g ∷ []) u (on, (s.mem, finished), tt),
                ),
              ))
              (λ unfinished. put_aside-Aside g (v.preempt g m) s))
            refl)
        (λ off. put_aside-Aside g (v.preempt g s.mem) s)

  -- What the preemption leaves: whether there is room, and the other groups elsewhere.
  abbrev pub Roomy : v.Group → Running v → Bool × Running v → Type 0
  Roomy g s (room, s') =
      (weight s' + (if room then w g else 0) ≡ weight s + w g)
      × (length s'.queue ≤ length s.queue)
      × Kept s s'

  Roomy-trans :
      (g : v.Group) (s s₂ : Running v) (r : Bool × Running v)
      → weight s₂ ≡ weight s
      → length s₂.queue ≤ length s.queue
      → Kept s s₂
      → Roomy g s₂ r
      → Roomy g s r
  Roomy-trans g s s₂ (room, s') weights shorter kept (weights', shorter', kept') = (
    weights' ∙ ap (λ n. n + w g) weights,
    omega (arith, shorter, shorter'),
    (kept'.0 ∙ kept.0, kept'.1 ∙ kept.1, kept'.2 ∙ kept.2, λ u. kept'.3 (kept.3 u)),
  )

  after_victim-Roomy :
      (again : Running v → Result (Bool × Running v)) (g : v.Group) (s : Running v)
      (q : List v.Group)
      → s.queue ≡ q
      → ((s₂ : Running v) → length s₂.queue < length q → OrAssertion (Roomy g s₂) (again s₂))
      → OrAssertion (Roomy g s) (after_victim again s (victim g q))
  unfolding after_victim
  after_victim-Roomy again g s [] e rest =
      OrAssertion-bind (Aside g (record s { queue = [] })) (Roomy g s)
        (evict g (record s { queue = [] })) (λ s₂. ok (false, s₂))
        (evict-Aside g (record s { queue = [] }))
        (λ s₂ (weights, same, kept).
          (omega (arith, weights, ap (total w) e), omega (arith, ap length same), kept))
  after_victim-Roomy again g s (x ∷ xs) e rest =
      let (weights, lengths) = pop_last-total w x xs in
      let s₁ = record s { queue = (pop_last x xs).0 } in
      OrAssertion-bind (Aside (pop_last x xs).1 s₁) (Roomy g s) (evict (pop_last x xs).1 s₁) again
        (evict-Aside (pop_last x xs).1 s₁)
        (λ s₂ (weights', same, kept).
          OrAssertion-map (Roomy g s₂) (Roomy g s) (again s₂)
            (λ r h.
              Roomy-trans g s s₂ r (omega (arith, weights', weights, ap (total w) e))
                (omega (arith, ap length same, lengths, ap length e)) kept h)
            (rest s₂ (omega (arith, ap length same, lengths))))

  pub make_room-Roomy :
      (chunking : Bool) (fuel : ℕ) (g : v.Group) (tokens : ℕ) (s : Running v)
      → length s.queue < fuel
      → OrAssertion (Roomy g s) (make_room chunking fuel g tokens s)
  unfolding make_room give_back
  make_room-Roomy chunking zero g tokens s enough = absurd (omega arith)
  make_room-Roomy chunking (suc fuel) g tokens s enough =
      OrAssertion-if (Roomy g s) (v.can_append_slots s.mem g chunking) _ _
        (refl, omega arith, (refl, refl, refl, λ u. u))
        (after_victim-Roomy (λ s₂. make_room chunking fuel g tokens s₂) g (give_back g tokens s)
          s.queue refl
          (λ s₂ shorter.
            make_room-Roomy chunking fuel g tokens s₂ (omega (arith, shorter, enough))))

  settle-weight :
      (chunking : Bool) (g : v.Group) (tokens : ℕ) (r : Bool × Running v)
      → (weight (settle chunking g tokens r) ≡ weight r.1 + (if r.0 then w g else 0))
        × ((settle chunking g tokens r).queue ≡ r.1.queue)
  unfolding settle accept
  settle-weight chunking g tokens (true, s) =
      let prefill = v.is_prefill (v.append_slots g chunking s.mem).1 g in
      let others =
        total w s.queue
        + total w s.reserve_queue
        + total w s.preempted
        + total w s.swapped_out
        + total w s.async_stopped
        + total w s.freed in
      (
        ap (λ n. others + n)
              (total-append (λ e. w e.seq_group) s.seq_groups
                (scheduled g (if prefill then tokens else 1) prefill ∷ []))
            ∙ omega arith,
        refl,
      )
  settle-weight chunking g tokens (false, s) = (omega arith, refl)

  -- A group that has left the queue is then in one of the other places.
  abbrev pub Placed : v.Group → Running v → Running v → Type 0
  Placed g s s' = (weight s' ≡ weight s + w g) × (length s'.queue ≤ length s.queue)

  pub run_group-Placed :
      (chunking : Bool) (g : v.Group) (tokens : ℕ) (s : Running v)
      → OrAssertion (Placed g s) (run_group chunking g tokens s)
  unfolding run_group
  run_group-Placed chunking g tokens s =
      OrAssertion-if (Placed g s)
        (v.use_async_output_proc && ltb v.max_model_len (v.first_len s.mem g)) _ _
        (omega (arith, total-append w s.async_stopped (g ∷ [])), omega arith)
        (OrAssertion-bind (Roomy g s) (Placed g s)
          (make_room chunking (suc (length s.queue)) g tokens s)
          (λ r. ok (settle chunking g tokens r))
          (make_room-Roomy chunking (suc (length s.queue)) g tokens s (omega arith))
          (λ (room, s') (weights, shorter, kept).
            let (settled, same) = settle-weight chunking g tokens (room, s') in
            (settled ∙ weights, omega (arith, ap length same, shorter))))
