-- ===== src/Scheduler/Swapped/Batch.antt =====
-- The batch of groups that the scheduler swaps in.
use mo_link.Prelude.{
  ℕ, ◌+◌, String, eq_iff, elem, Unique, Bool, true, false, ◌≡◌, refl, ap, sym, ◌∙◌, inl, inr,
  Bool-cases, Option, List, [], ◌∷◌, ◌++◌, Result, ok, raise, arith, if◌then◌else◌,
}
use mo_link.Scheduler.{Vllm, Scheduler}
use mo_link.Scheduler.Sweep.{schedule, Sweep, Scheduled, begin, sweep, put_back}
use mo_link.Scheduler.Sweep.Invariant.{OrAssertion, Ends}
use mo_link.Scheduler.Sweep.Conserved.{total, sweep-weight}
use mo_link.Scheduler.Sweep.OnFly.{ids_of, IsExclusive, Exclusive, sweep-Exclusive}
use mo_link.Scheduler.Swapped.{
  SwappedInOutputs, select, swapped_decision, after_swapped, schedule_swapped,
}

elem-append :
    (r : String) (xs ys : List String) → elem r (xs ++ ys) ≡ (if elem r xs then true else elem r ys)
unfolding elem
elem-append r [] ys = refl
elem-append r (x ∷ xs) ys = ground (arith, elem-append r xs ys)

Unique-middle :
    (xs ys : List String) (r : String)
    → Unique (xs ++ ys)
    → elem r (xs ++ ys) ≡ false
    → Unique (xs ++ r ∷ ys)
unfolding elem
Unique-middle [] ys r u h = (h, u)
Unique-middle (x ∷ xs) ys r u h = ground (
  arith,
  eq_iff x r,
  eq_iff r x,
  elem-append x xs ys,
  elem-append x xs (r ∷ ys),
  Unique-middle xs ys r u.1,
)

module _ {v : Vllm} where
  abbrev pub prefills_first : List (Scheduled v) → List String
  prefills_first es = ids_of v (select v true es) ++ ids_of v (select v false es)

  elem-prefills_first :
      (r : String) (es : List (Scheduled v)) → elem r (prefills_first es) ≡ elem r (ids_of v es)
  unfolding select elem
  elem-prefills_first r [] = refl
  elem-prefills_first r (e ∷ es) = elim (Bool-cases e.is_prefill) [
    | inl prefill ↦ rw (prefill, elem-prefills_first r es)
    | inr decode ↦ rw decode (
        ground (
          arith,
          elem-prefills_first r es,
          elem-append r (ids_of v (select v true es)) (ids_of v (select v false es)),
          elem-append r (ids_of v (select v true es))
              (v.request_id e.seq_group ∷ ids_of v (select v false es)),
        ))
  ]

  Unique-prefills_first :
      (es : List (Scheduled v)) → Unique (ids_of v es) → Unique (prefills_first es)
  unfolding select elem
  Unique-prefills_first [] u = tt
  Unique-prefills_first (e ∷ es) u =
      let new = elem-prefills_first (v.request_id e.seq_group) es ∙ u.0 in
      elim (Bool-cases e.is_prefill) [
        | inl prefill ↦ rw prefill (new, Unique-prefills_first es u.1)
        | inr decode ↦ rw decode (
            Unique-middle (ids_of v (select v true es)) (ids_of v (select v false es))
              (v.request_id e.seq_group) (Unique-prefills_first es u.1) new)
      ]

  pub total-select :
      (w : Scheduled v → ℕ) (es : List (Scheduled v))
      → total w (select v true es) + total w (select v false es) ≡ total w es
  unfolding select
  total-select w [] = omega arith
  total-select w (e ∷ es) = elim (Bool-cases e.is_prefill) [
    | inl prefill ↦ rw prefill (omega (arith, total-select w es))
    | inr decode ↦ rw decode (omega (arith, total-select w es))
  ]

module _ {v : Vllm} (sch : Scheduler v) (chunking : Bool) where
  swapped_decision-schedule :
      (s : Sweep v) (g : v.Group) (prefill : Bool) (chunk tokens : ℕ) (loras : Option (List ℕ))
      (m : v.Mem)
      → swapped_decision sch chunking s g ≡ schedule prefill chunk tokens loras m
      → elem (v.request_id g) s.requests_on_fly ≡ false
  unfolding swapped_decision
  swapped_decision-schedule s g prefill chunk tokens loras m h = ground arith

  abbrev swapped_loop : Option (List ℕ) → Result (Sweep v × List v.Group)
  swapped_loop loras =
      sweep (swapped_decision sch chunking) (λ m. m) sch.swapped
        (begin sch.mem sch.requests_on_fly loras)

  abbrev pub Conserves : (v.Group → ℕ) → SwappedInOutputs v × Scheduler v → Type 0
  Conserves w (out, s) =
      total (λ e. w e.seq_group) out.prefill_seq_groups
        + total (λ e. w e.seq_group) out.decode_seq_groups
        + total w out.infeasible_seq_groups
        + total w s.swapped
      ≡ total w sch.swapped

  abbrev pub IsBatch : SwappedInOutputs v × Scheduler v → Type 0
  IsBatch (out, s) =
      IsExclusive sch.requests_on_fly
        (ids_of v out.prefill_seq_groups ++ ids_of v out.decode_seq_groups) s.requests_on_fly

  after_swapped-Conserves :
      (w : v.Group → ℕ) (r : Result (Sweep v × List v.Group))
      → OrAssertion
          (Ends (λ t rest.
            total (λ e. w e.seq_group) t.seq_groups + total w t.ignored + total w (put_back t rest)
            ≡ total w sch.swapped))
          r
      → OrAssertion (Conserves w) (after_swapped sch chunking r)
  unfolding after_swapped
  after_swapped-Conserves w (ok (t, rest)) h =
      omega (arith, h, total-select (λ e. w e.seq_group) t.seq_groups)
  after_swapped-Conserves w (raise e) h = h

  pub prefills_first-IsExclusive :
      (es : List (Scheduled v)) (after : List String)
      → IsExclusive sch.requests_on_fly (ids_of v es) after
      → IsExclusive sch.requests_on_fly (prefills_first es) after
  prefills_first-IsExclusive es after h = record {
    unique = Unique-prefills_first es h.unique;
    fresh = λ r e. h.fresh r (sym (elem-prefills_first r es) ∙ e);
    marked = λ r.
        h.marked r
        ∙ ap (λ b. if b then true else elem r sch.requests_on_fly) (sym (elem-prefills_first r es));
    still_set = h.still_set;
  }

  after_swapped-IsBatch :
      (r : Result (Sweep v × List v.Group))
      → OrAssertion (Ends (Exclusive sch.requests_on_fly)) r
      → OrAssertion IsBatch (after_swapped sch chunking r)
  unfolding after_swapped
  after_swapped-IsBatch (ok (t, rest)) h =
      prefills_first-IsExclusive t.seq_groups t.requests_on_fly h
  after_swapped-IsBatch (raise e) h = h

  -- No group of the swapped queue is lost or doubled, whatever weight the groups have. Or else one
  -- of the assertions fails.
  pub schedule_swapped-Conserves :
      (loras : Option (List ℕ)) (w : v.Group → ℕ)
      → OrAssertion (Conserves w) (schedule_swapped sch chunking loras)
  unfolding schedule_swapped
  schedule_swapped-Conserves loras w = after_swapped-Conserves w (swapped_loop loras) (
      sweep-weight w (swapped_decision sch chunking) (λ m. m) sch.swapped sch.mem
        sch.requests_on_fly loras)

  -- The prefills and decodes that are swapped in have no request twice and none that was on the fly,
  -- and those on the fly afterwards are those before and the batch's. Or else one of the assertions
  -- fails.
  pub schedule_swapped-IsBatch :
      (loras : Option (List ℕ)) → OrAssertion IsBatch (schedule_swapped sch chunking loras)
  unfolding schedule_swapped
  schedule_swapped-IsBatch loras = after_swapped-IsBatch (swapped_loop loras) (
      sweep-Exclusive sch.requests_on_fly (swapped_decision sch chunking) (λ m. m) sch.swapped
        sch.mem loras swapped_decision-schedule)
