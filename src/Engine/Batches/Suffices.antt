-- ===== src/Engine/Batches/Suffices.antt =====
-- The batches together take every request.
use mo_link.Prelude.{
  ℕ, zero, suc, ◌+◌, ◌-◌, ◌*◌, ◌/◌, ◌≤◌, ◌<◌, leb, true, false, ◌≡◌, refl, ap, inl, inr, Bool-cases,
  some, Bool, Result, ok, arith, if◌then◌else◌,
}
use mo_link.Scheduler.{Vllm}
use mo_link.Engine.Latency.{Floats, decode_profile, culculate_compute_latency}
use mo_link.Engine.Latency.Profiled.{expected, compute_latency_lem}
use mo_link.Engine.Batches.{
  Engine, num_requests, with_limit, fills, with_estimate, try_batches, culculate_batch_num_default,
}

enough : (n b : ℕ) → 0 < b → n < b * (n / b + 1)
enough n b h = grind arith

module _ {v : Vllm} {fl : Floats} where
  -- A batch number with its limit, found by the loop.
  abbrev Found : ℕ → Engine v fl → ℕ → Result (ℕ × Engine v fl) → Type 0
  Found n e low r =
      (b : ℕ) × (r ≡ ok (b, with_limit e (n / b + 1))) × (low ≤ b) × (b ≤ e.max_batch_num)

  Found-if :
      (n b : ℕ) (e : Engine v fl) (fits : Bool) (rest : Result (ℕ × Engine v fl))
      → b ≤ e.max_batch_num
      → (fits ≡ false → Found n e b rest)
      → Found n e b (if fits then ok (b, with_limit e (n / b + 1)) else rest)
  Found-if n b e true rest h k = (b, refl, omega arith, h)
  Found-if n b e false rest h k = k refl

  module _ (measured : ℕ → fl.F) (sizes n : ℕ) (some_size : 1 ≤ sizes) where
    estimated :
        (e : Engine v fl) (b rounds : ℕ)
        → e.decode_table ≡ decode_profile fl measured sizes
        → try_batches n (suc rounds) b e ≡ (
            if fills e b (n / b) (expected fl measured sizes (n / b))
            then ok (b, with_limit e (n / b + 1))
            else try_batches n rounds (suc b) (with_limit e (n / b + 1)))
    unfolding try_batches with_estimate with_limit
    estimated e b rounds table =
        let known : culculate_compute_latency fl e.decode_table (n / b)
            ≡ ok (some (expected fl measured sizes (n / b))) =
          rw table (compute_latency_lem fl measured sizes (n / b) some_size) in
        ap
          (λ r. with_estimate r (λ latency.
            if fills e b (n / b) latency
            then ok (b, with_limit e (n / b + 1))
            else try_batches n rounds (suc b) (with_limit e (n / b + 1))))
          known

    try_batches-Found :
        (rounds b : ℕ) (e : Engine v fl)
        → e.decode_table ≡ decode_profile fl measured sizes
        → b + rounds ≡ e.max_batch_num
        → Found n e b (try_batches n (suc rounds) b e)
    unfolding try_batches with_limit
    try_batches-Found zero b e table h =
        let e' = with_limit e (n / b + 1) in
        let last : e.max_batch_num ≡ b = omega (arith, h) in
        rw (estimated e b 0 table) (
          Found-if n b e (fills e b (n / b) (expected fl measured sizes (n / b)))
            (ok (e.max_batch_num, e')) (omega arith)
            (λ _. (b, ap (λ k. ok (k, e')) last, omega arith, omega arith)))
    try_batches-Found (suc rounds) b e table h =
        let e' = with_limit e (n / b + 1) in
        rw (estimated e b (suc rounds) table) (
          Found-if n b e (fills e b (n / b) (expected fl measured sizes (n / b)))
            (try_batches n (suc rounds) (suc b) e') (omega arith)
            (λ _.
              let (c, found, low, high) = try_batches-Found rounds (suc b) e' table (omega arith) in
              (c, found, omega arith, high)))

  pub culculate_batch_num_default-Suffices :
      (measured : ℕ → fl.F) (sizes : ℕ) (e : Engine v fl)
      → 1 ≤ sizes
      → e.decode_table ≡ decode_profile fl measured sizes
      → 3 ≤ e.max_batch_num
      → (b : ℕ) × (culculate_batch_num_default e
          ≡ ok (b, if leb (num_requests e) 2 then e else with_limit e (num_requests e / b + 1)))
        × (1 ≤ b)
        × (b ≤ e.max_batch_num)
        × (if leb (num_requests e) 2
            then num_requests e ≤ b
            else num_requests e < b * (num_requests e / b + 1))
  unfolding culculate_batch_num_default
  culculate_batch_num_default-Suffices measured sizes e some_size table allowed =
      let n = num_requests e in
      elim (Bool-cases (leb n 2)) [
        | inl few ↦ elim (Bool-cases (leb n 1)) [
          | inl one ↦ (1, rw (few, one), omega arith, omega arith, rw few (ground (arith, one)))
          | inr two ↦ (2, rw (few, two), omega arith, omega arith, rw few (ground (arith, few)))
        ]
        | inr many ↦
            let (b, found, low, high) =
              try_batches-Found measured sizes n some_size (e.max_batch_num - 3) 3 e table
                (omega arith) in
            let rounds : e.max_batch_num - 2 ≡ suc (e.max_batch_num - 3) = omega (arith, allowed) in
            let more : leb n 1 ≡ false = ground (arith, many) in
            (
              b,
              rw (more, many, rounds, found),
              omega arith,
              high,
              rw many (enough n b (omega arith)),
            )
      ]
