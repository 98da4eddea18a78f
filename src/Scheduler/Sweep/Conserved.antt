-- ===== src/Scheduler/Sweep/Conserved.antt =====
-- Where the groups of the queue go.
use mo_link.Prelude.{
  ℕ, ◌+◌, ◌≡◌, refl, sym, ◌∙◌, String, Option, List, [], ◌∷◌, ◌++◌, Result, ok, raise, arith,
}
use mo_link.Scheduler.{Vllm, extendleft}
use mo_link.Scheduler.Sweep.{
  scheduled, Decision, Sweep, stop, on_fly, postpone, discard, schedule, failed_assertion,
  apply_decision, sweep, begin, put_back,
}
use mo_link.Scheduler.Sweep.Invariant.{OrAssertion, Ends, Continues, sweep_induct}

-- The total weight of a list.
abbrev pub total {ℓ} : {A : Type ℓ} → (A → ℕ) → List A → ℕ
total w [] = 0
total w (x ∷ xs) = w x + total w xs

pub total-append :
    {A : Type 0} (w : A → ℕ) (xs ys : List A) → total w (xs ++ ys) ≡ total w xs + total w ys
total-append w [] ys = omega arith
total-append w (x ∷ xs) ys = omega (arith, total-append w xs ys)

pub total-extendleft :
    {A : Type 0} (w : A → ℕ) (queue xs : List A)
    → total w (extendleft queue xs) ≡ total w queue + total w xs
unfolding extendleft
total-extendleft w queue [] = omega arith
total-extendleft w queue (x ∷ xs) = omega (arith, total-extendleft w (x ∷ queue) xs)

module _ {v : Vllm} (w : v.Group → ℕ) where
  -- The groups that have left the queue for good.
  abbrev pub taken : Sweep v → ℕ
  taken s = total (λ e. w e.seq_group) s.seq_groups + total w s.ignored

  -- The weight of all groups that the loop knows.
  abbrev weight : Sweep v → List v.Group → ℕ
  weight s rest = taken s + total w s.leftover + total w s.reserve_queue + total w rest

  apply_decision-weight :
      (n : ℕ) (d : Decision v) (s : Sweep v) (g : v.Group) (gs : List v.Group)
      → weight s (g ∷ gs) ≡ n
      → OrAssertion (Continues (λ t rest. weight t rest ≡ n) gs g) (apply_decision d s g)
  unfolding apply_decision
  apply_decision-weight n (stop m) s g gs h = h
  apply_decision-weight n (on_fly m) s g gs h =
      omega (arith, h, total-append w s.reserve_queue (g ∷ []))
  apply_decision-weight n (postpone m) s g gs h = omega (arith, h)
  apply_decision-weight n (discard m) s g gs h = omega (arith, h, total-append w s.ignored (g ∷ []))
  apply_decision-weight n (schedule prefill chunk tokens loras m) s g gs h =
      omega
        (arith, h, total-append (λ e. w e.seq_group) s.seq_groups (scheduled g chunk prefill ∷ []))
  apply_decision-weight n failed_assertion s g gs h = refl

  weight-put_back :
      (s : Sweep v) (rest : List v.Group) → weight s rest ≡ taken s + total w (put_back s rest)
  unfolding put_back
  weight-put_back s rest = omega (
    arith,
    total-extendleft w (s.reserve_queue ++ rest) s.leftover,
    total-append w s.reserve_queue rest,
  )

  after_sweep :
      (n : ℕ) (r : Result (Sweep v × List v.Group))
      → OrAssertion (Ends (λ t rest. weight t rest ≡ n)) r
      → OrAssertion (Ends (λ t rest. taken t + total w (put_back t rest) ≡ n)) r
  after_sweep n (ok (t, rest)) h = sym (weight-put_back t rest) ∙ h
  after_sweep n (raise e) h = h

  -- Nothing is lost and nothing is doubled, whatever is decided for the groups.
  pub sweep-weight :
      (decide : Sweep v → v.Group → Decision v) (leave : v.Mem → v.Mem) (gs : List v.Group)
      (mem : v.Mem) (ids : List String) (loras : Option (List ℕ))
      → OrAssertion
          (Ends (λ t rest. taken t + total w (put_back t rest) ≡ total w gs))
          (sweep decide leave gs (begin mem ids loras))
  unfolding begin
  sweep-weight decide leave gs mem ids loras =
      after_sweep (total w gs) (sweep decide leave gs (begin mem ids loras)) (
        sweep_induct decide leave (λ t rest. weight t rest ≡ total w gs)
          (λ t g rest h. apply_decision-weight (total w gs) (decide t g) t g rest h) (λ t h. h) gs
          (begin mem ids loras) (omega arith))
