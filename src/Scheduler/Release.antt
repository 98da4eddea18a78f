-- ===== src/Scheduler/Release.antt =====
-- The end of a micro batch: the engine frees its requests.
use mo_link.Prelude.{
  ℕ, String, ◌==◌, eq_iff, elem, Unique, Bool, false, ◌≡◌, refl, ◌∙◌, inl, inr, Bool-cases, Option,
  List, [], ◌∷◌, Result, ok, raise, arith, if◌then◌else◌,
}
use mo_link.Scheduler.{
  Vllm, Scheduler, remove_id, mark_seq_as_schedule_free, mark_all_as_schedule_free,
}
use mo_link.Scheduler.Sweep.Invariant.{OrAssertion}
use mo_link.Scheduler.Sweep.OnFly.{ids_of, IsExclusive}
use mo_link.Scheduler.Prefills.{PrefillOutputs, schedule_prefills}
use mo_link.Scheduler.Prefills.Batch.{IsBatch, schedule_prefills-IsBatch}

elem-remove_id :
    (q r : String) (xs : List String)
    → Unique xs
    → elem q (remove_id r xs) ≡ (if r == q then false else elem q xs)
unfolding elem remove_id
elem-remove_id q r [] u = ground arith
elem-remove_id q r (x ∷ xs) u =
    ground (arith, eq_iff x r, eq_iff r q, eq_iff x q, elem-remove_id q r xs u.1)

remove_id-Unique : (r : String) (xs : List String) → Unique xs → Unique (remove_id r xs)
unfolding elem remove_id
remove_id-Unique r [] u = tt
remove_id-Unique r (x ∷ xs) u =
    ground (arith, eq_iff x r, eq_iff r x, elem-remove_id x r xs u.1, remove_id-Unique r xs u.1)

module _ {v : Vllm} where
  pub elem-mark :
      (s : Scheduler v) (q r : String)
      → Unique s.requests_on_fly
      → (elem q (mark_seq_as_schedule_free s r).requests_on_fly
          ≡ (if r == q then false else elem q s.requests_on_fly))
        × Unique (mark_seq_as_schedule_free s r).requests_on_fly
  unfolding mark_seq_as_schedule_free
  elem-mark s q r u = elim (Bool-cases (elem r s.requests_on_fly)) [
    | inl e ↦ rw e (elem-remove_id q r s.requests_on_fly u, remove_id-Unique r s.requests_on_fly u)
    | inr e ↦ rw e (ground (arith, eq_iff r q), u)
  ]

  pub elem-mark_all :
      (rs : List String) (s : Scheduler v) (q : String)
      → Unique s.requests_on_fly
      → elem q (mark_all_as_schedule_free s rs).requests_on_fly
        ≡ (if elem q rs then false else elem q s.requests_on_fly)
  unfolding mark_all_as_schedule_free elem
  elem-mark_all [] s q u = refl
  elem-mark_all (r ∷ rs) s q u =
      let (e, u') = elem-mark s q r u in
      elem-mark_all rs (mark_seq_as_schedule_free s r) q u' ∙ ground (arith, e)

  freed :
      (before batch : List String) (s : Scheduler v)
      → Unique before
      → IsExclusive before batch s.requests_on_fly
      → (q : String) → elem q (mark_all_as_schedule_free s batch).requests_on_fly ≡ elem q before
  freed before batch s u h q =
      elem-mark_all batch s q (h.still_set u) ∙ ground (arith, h.marked q, h.fresh q)

  abbrev pub Restores : Scheduler v → PrefillOutputs v × Scheduler v → Type 0
  Restores sch (out, s) =
      (q : String)
      → elem q (mark_all_as_schedule_free s (ids_of v out.seq_groups)).requests_on_fly
        ≡ elem q sch.requests_on_fly

  batch-Restores :
      (sch : Scheduler v) (chunking : Bool) (r : Result (PrefillOutputs v × Scheduler v))
      → Unique sch.requests_on_fly
      → OrAssertion (IsBatch sch chunking) r
      → OrAssertion (Restores sch) r
  batch-Restores sch chunking (ok (out, s)) u h =
      freed sch.requests_on_fly (ids_of v out.seq_groups) s u h.0
  batch-Restores sch chunking (raise e) u h = h

  -- When a batch of prefills has been made and then freed, the requests on the fly are those from
  -- before: no other batch loses one, and none stays behind.
  pub schedule_prefills-Restores :
      (sch : Scheduler v) (chunking : Bool) (loras : Option (List ℕ))
      → Unique sch.requests_on_fly
      → OrAssertion (Restores sch) (schedule_prefills sch chunking loras)
  schedule_prefills-Restores sch chunking loras u =
      batch-Restores sch chunking (schedule_prefills sch chunking loras) u
        (schedule_prefills-IsBatch sch chunking loras)
