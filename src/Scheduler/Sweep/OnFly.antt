-- ===== src/Scheduler/Sweep/OnFly.antt =====
-- No request is scheduled while another batch, or the same one, has it.
use mo_link.Prelude.{
  Bool, ℕ, String, ◌==◌, eq_iff, elem, Unique, true, false, ◌≡◌, refl, ap, sym, subst, Option, List,
  [], ◌∷◌, ◌++◌, map, arith, if◌then◌else◌,
}
use mo_link.Scheduler.{Vllm, add_id}
use mo_link.Scheduler.Sweep.{
  scheduled, Scheduled, Decision, Sweep, stop, on_fly, postpone, discard, schedule,
  failed_assertion, apply_decision, sweep, begin,
}
use mo_link.Scheduler.Sweep.Invariant.{OrAssertion, Ends, Continues, sweep_induct}

pub elem-add_id :
    (r x : String) (xs : List String) → elem r (add_id x xs) ≡ (if x == r then true else elem r xs)
unfolding add_id elem
elem-add_id r x xs = ground (arith, eq_iff x r)

add_id-Unique : (x : String) (xs : List String) → Unique xs → Unique (add_id x xs)
unfolding add_id
add_id-Unique x xs u = ground arith

elem-snoc :
    (r y : String) (xs : List String) → elem r (xs ++ y ∷ []) ≡ (if y == r then true else elem r xs)
unfolding elem
elem-snoc r y [] = refl
elem-snoc r y (x ∷ xs) = ground (arith, elem-snoc r y xs)

Unique-snoc :
    (xs : List String) (y : String) → Unique xs → elem y xs ≡ false → Unique (xs ++ y ∷ [])
unfolding elem
Unique-snoc [] y u h = (refl, tt)
Unique-snoc (x ∷ xs) y u h =
    ground (arith, elem-snoc x y xs, eq_iff x y, eq_iff y x, Unique-snoc xs y u.1)

-- The requests of a batch.
abbrev pub ids_of : (v : Vllm) → List (Scheduled v) → List String
ids_of v groups = map (λ e. v.request_id e.seq_group) groups

pub ids-snoc :
    (v : Vllm) (groups : List (Scheduled v)) (e : Scheduled v)
    → ids_of v (groups ++ e ∷ []) ≡ ids_of v groups ++ v.request_id e.seq_group ∷ []
ids-snoc v [] e = refl
ids-snoc v (d ∷ groups) e = ap (◌∷◌ (v.request_id d.seq_group)) (ids-snoc v groups e)

-- A batch and the requests on the fly after it: the batch has no request twice, none that was on the
-- fly before, and its requests are now on the fly with those.
pub record IsExclusive (before : List String) (batch : List String) (after : List String)
    : Type 0 where
  pub unique : Unique batch
  pub fresh : (r : String) → elem r batch ≡ true → elem r before ≡ false
  pub marked : (r : String) → elem r after ≡ (if elem r batch then true else elem r before)
  pub still_set : Unique before → Unique after

pub extend-IsExclusive :
    (before batch after : List String) (r : String)
    → IsExclusive before batch after
    → elem r after ≡ false
    → IsExclusive before (batch ++ r ∷ []) (add_id r after)
extend-IsExclusive before batch after r h free = record {
  unique = Unique-snoc batch r h.unique (ground (arith, h.marked r));
  fresh = λ q e. ground (arith, h.marked r, h.fresh q, eq_iff r q, elem-snoc q r batch);
  marked = λ q. ground (arith, h.marked q, elem-add_id q r after, elem-snoc q r batch);
  still_set = λ u. add_id-Unique r after (h.still_set u);
}

module _ {v : Vllm} (before : List String) where
  abbrev pub Exclusive : Sweep v → List v.Group → Type 0
  Exclusive s rest = IsExclusive before (ids_of v s.seq_groups) s.requests_on_fly

  apply_decision-Exclusive :
      (d : Decision v) (s : Sweep v) (g : v.Group) (gs : List v.Group)
      → Exclusive s (g ∷ gs)
      → ((prefill : Bool) (chunk tokens : ℕ) (loras : Option (List ℕ)) (m : v.Mem)
          → d ≡ schedule prefill chunk tokens loras m
          → elem (v.request_id g) s.requests_on_fly ≡ false)
      → OrAssertion (Continues Exclusive gs g) (apply_decision d s g)
  unfolding apply_decision
  apply_decision-Exclusive (stop m) s g gs h free = h
  apply_decision-Exclusive (on_fly m) s g gs h free = h
  apply_decision-Exclusive (postpone m) s g gs h free = h
  apply_decision-Exclusive (discard m) s g gs h free = h
  apply_decision-Exclusive (schedule prefill chunk tokens loras m) s g gs h free =
      subst (λ b. IsExclusive before b (add_id (v.request_id g) s.requests_on_fly))
        (sym (ids-snoc v s.seq_groups (scheduled g chunk prefill)))
        (extend-IsExclusive before (ids_of v s.seq_groups) s.requests_on_fly (v.request_id g) h
          (free prefill chunk tokens loras m refl))
  apply_decision-Exclusive failed_assertion s g gs h free = refl

  -- For a decision that takes no request on the fly.
  pub sweep-Exclusive :
      (decide : Sweep v → v.Group → Decision v) (leave : v.Mem → v.Mem) (gs : List v.Group)
      (mem : v.Mem) (loras : Option (List ℕ))
      → ((s : Sweep v) (g : v.Group) (prefill : Bool) (chunk tokens : ℕ) (used : Option (List ℕ))
            (m : v.Mem)
          → decide s g ≡ schedule prefill chunk tokens used m
          → elem (v.request_id g) s.requests_on_fly ≡ false)
      → OrAssertion (Ends Exclusive) (sweep decide leave gs (begin mem before loras))
  unfolding begin elem
  sweep-Exclusive decide leave gs mem loras free =
      sweep_induct decide leave Exclusive
        (λ s g rest h. apply_decision-Exclusive (decide s g) s g rest h (free s g)) (λ s h. h) gs
        (begin mem before loras)
        (record {
          unique = tt;
          fresh = λ r e. ground (arith, e);
          marked = λ r. refl;
          still_set = λ u. u;
        })
