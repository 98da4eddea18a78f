-- ===== src/Engine/Latency/Profiled.antt =====
-- The estimate from a full table.
use mo_link.Prelude.{
  ℕ, zero, suc, ◌+◌, ◌-◌, ◌≤◌, ◌<◌, pos, sorted, insert_sorted, leb, eqb, ◌&&◌, false, ◌≡◌, refl,
  ap, inl, inr, Bool-cases, some, ◌∷◌, map, ok, arith, if◌then◌else◌,
}
use mo_link.Engine.Latency.{
  Floats, count_from, get_latency, neighbours, decode_profile, interpolate, between,
  culculate_compute_latency,
}

sorted-count_from : (start n : ℕ) → sorted (λ n. pos n) (count_from start n) ≡ count_from start n
unfolding count_from sorted insert_sorted
sorted-count_from start zero = refl
sorted-count_from start (suc zero) = refl
sorted-count_from start (suc (suc n)) = rw (sorted-count_from (suc start) (suc n)) (ground arith)

neighbours-inside :
    (start n batch_size : ℕ)
    → start < batch_size
    → batch_size < start + n
    → neighbours batch_size (count_from start n) ≡ (batch_size - 1, batch_size)
unfolding count_from neighbours
neighbours-inside start zero b h k = absurd (omega arith)
neighbours-inside start (suc zero) b h k = absurd (omega arith)
neighbours-inside start (suc (suc n)) b h k =
    ground (arith, neighbours-inside (suc start) (suc n) b)

neighbours-outside :
    (start n batch_size : ℕ)
    → start + n ≤ batch_size
    → neighbours batch_size (count_from start n) ≡ (1, 1)
unfolding count_from neighbours
neighbours-outside start zero b h = refl
neighbours-outside start (suc zero) b h = refl
neighbours-outside start (suc (suc n)) b h =
    ground (arith, neighbours-outside (suc start) (suc n) b)

neighbours-below :
    (start n batch_size : ℕ)
    → batch_size < start
    → neighbours batch_size (count_from start n) ≡ (1, 1)
unfolding count_from neighbours
neighbours-below start zero b h = refl
neighbours-below start (suc zero) b h = refl
neighbours-below start (suc (suc n)) b h = ground (arith, neighbours-below (suc start) (suc n) b)

keys-profile :
    {A : Type 0} (measured : ℕ → A) (start n : ℕ)
    → map (λ (e : ℕ × A). e.0) (map (λ k. (k, measured k)) (count_from start n))
      ≡ count_from start n
unfolding count_from
keys-profile {A} measured start zero = refl
keys-profile {A} measured start (suc n) = ap (◌∷◌ start) (keys-profile measured (suc start) n)

get_latency-profile :
    {A : Type 0} (measured : ℕ → A) (start n k : ℕ)
    → start ≤ k
    → k < start + n
    → get_latency k (map (λ k. (k, measured k)) (count_from start n)) ≡ some (measured k)
unfolding count_from get_latency
get_latency-profile measured start zero k h l = absurd (omega arith)
get_latency-profile measured start (suc n) k h l = elim (Bool-cases (eqb start k)) [
  | inl e ↦ let same : start ≡ k = ground (arith, e) in rw (e, same)
  | inr e ↦ rw e (get_latency-profile measured (suc start) n k (ground (arith, e)) (omega arith))
]

-- The sorted keys of the full table.
profile-keys :
    {A : Type 0} (measured : ℕ → A) (sizes : ℕ)
    → sorted
        (λ n. pos n)
        (map (λ (e : ℕ × A). e.0) (map (λ k. (k, measured k)) (count_from 1 sizes)))
      ≡ count_from 1 sizes
profile-keys measured sizes = rw (keys-profile measured 1 sizes) (sorted-count_from 1 sizes)

module _ (fl : Floats) (measured : ℕ → fl.F) (sizes : ℕ) where
  -- What is known of a batch of this size: for a size that was profiled, the step from the
  -- size below.
  abbrev pub expected : ℕ → fl.F
  expected batch_size =
      if leb 2 batch_size && leb batch_size sizes
      then interpolate fl batch_size (batch_size - 1) batch_size (measured (batch_size - 1))
          (measured batch_size)
      else measured 1

  profiled :
      (k : ℕ)
      → 1 ≤ k
      → k ≤ sizes
      → get_latency k (decode_profile fl measured sizes) ≡ some (measured k)
  unfolding decode_profile
  profiled k h l = get_latency-profile measured 1 sizes k h (omega arith)

  inside-IsExpected :
      (b : ℕ)
      → 2 ≤ b
      → b ≤ sizes
      → culculate_compute_latency fl (decode_profile fl measured sizes) b ≡ ok (some (expected b))
  unfolding culculate_compute_latency decode_profile between
  inside-IsExpected b h l =
      rw (profile-keys measured sizes, neighbours-inside 1 sizes b (omega arith) (omega arith))
        (ground (arith, profiled (b - 1) (omega arith) (omega arith), profiled b (omega arith) l))

  outside-IsExpected :
      (b : ℕ)
      → 1 ≤ sizes
      → (leb 2 b && leb b sizes) ≡ false
      → neighbours b (count_from 1 sizes) ≡ (1, 1)
      → culculate_compute_latency fl (decode_profile fl measured sizes) b ≡ ok (some (expected b))
  unfolding culculate_compute_latency decode_profile between
  outside-IsExpected b h e alone =
      rw (profile-keys measured sizes, alone) (ground (arith, e, profiled 1 (omega arith) h))

  one-IsExpected :
      1 ≤ sizes
      → culculate_compute_latency fl (decode_profile fl measured sizes) 1 ≡ ok (some (expected 1))
  unfolding culculate_compute_latency
  one-IsExpected h = ground (arith, profiled 1 (omega arith) h)

  -- From the table of the profile run, the estimate for a batch of a size that was profiled is the
  -- line through its own latency and that of the size below, and the estimate for any larger batch,
  -- or for an empty one, is the latency of a single request. It never fails.
  pub compute_latency_lem :
      (batch_size : ℕ)
      → 1 ≤ sizes
      → culculate_compute_latency fl (decode_profile fl measured sizes) batch_size
        ≡ ok (some (expected batch_size))
  compute_latency_lem batch_size h = elim (Bool-cases (eqb batch_size 1)) [
    | inl one ↦ let same : batch_size ≡ 1 = ground (arith, one) in rw same (one-IsExpected h)
    | inr other ↦ elim (Bool-cases (leb 2 batch_size && leb batch_size sizes)) [
      | inl e ↦ inside-IsExpected batch_size (ground (arith, e)) (ground (arith, e))
      | inr e ↦ outside-IsExpected batch_size h e (elim (Bool-cases (leb batch_size sizes)) [
        | inr above ↦ neighbours-outside 1 sizes batch_size (ground (arith, above))
        | inl small ↦ neighbours-below 1 sizes batch_size (ground (arith, e, small, other))
      ])
    ]
  ]
