-- ===== src/Ports/Search.antt =====
-- What the search for a free port finds.
use mo_link.Prelude.{
  ℕ, zero, suc, ◌+◌, ◌-◌, ◌≤◌, ◌<◌, ltb, eqb, Bool, true, false, ◌≡◌, refl, ap, ◌∙◌, ◌⊎◌, inl, inr,
  Bool-cases, Result, ok, raise, value_error, runtime_error, arith,
}
use mo_link.Ports.{tcp, udp, unknown, search, find_free_port}

eqb→eq : (a b : ℕ) → eqb a b ≡ true → a ≡ b
eqb→eq a b h = ground arith

module _ (is_free : ℕ → Bool) where
  -- The first free port of those from `start` to 65535.
  abbrev pub IsFirst : ℕ → ℕ → Type 0
  IsFirst start port =
      (start ≤ port)
      × (port ≤ 65535)
      × (is_free port ≡ true)
      × ((k : ℕ) → start ≤ k → k < port → is_free k ≡ false)

  abbrev pub NoneFree : ℕ → Type 0
  NoneFree start = (k : ℕ) → start ≤ k → k ≤ 65535 → is_free k ≡ false

  abbrev pub Finds : ℕ → Result ℕ → Type 0
  Finds start r =
      ((port : ℕ) × (r ≡ ok port) × IsFirst start port)
      ⊎ ((r ≡ raise runtime_error) × NoneFree start)

  below_or_at :
      (start k : ℕ)
      → is_free start ≡ false
      → (start + 1 ≤ k → is_free k ≡ false)
      → start ≤ k
      → is_free k ≡ false
  below_or_at start k busy rest h = elim (Bool-cases (eqb k start)) [
    | inl same ↦ ap is_free (eqb→eq k start same) ∙ busy
    | inr other ↦ rest (ground arith)
  ]

  search-Finds :
      (fuel start : ℕ)
      → fuel + start ≡ 65536
      → start ≤ 65535
      → Finds start (search is_free fuel start)
  unfolding search
  search-Finds zero start e h = absurd (omega arith)
  search-Finds (suc fuel) start e h = elim (Bool-cases (is_free start)) [
    | inl free ↦
        inl (start, rw free refl, (omega arith, h, free, λ k from below. absurd (omega arith)))
    | inr busy ↦ elim (Bool-cases (ltb 65535 (start + 1))) [
      | inl last ↦ inr (
        rw (busy, last) refl,
        λ k from below. below_or_at start k busy (λ later. absurd (ground arith)) from,
      )
      | inr more ↦
          let next : start + 1 ≤ 65535 = ground arith in
          elim (search-Finds fuel (start + 1) (omega arith) next) [
            | inl (port, finds, (from, below, free, first)) ↦ inl (
              port,
              rw (busy, more) finds,
              (
                omega (arith, from),
                below,
                free,
                λ k from' before. below_or_at start k busy (λ later. first k later before) from',
              ),
            )
            | inr (fails, none_free) ↦ inr (
              rw (busy, more) fails,
              λ k from' below. below_or_at start k busy (λ later. none_free k later below) from',
            )
          ]
    ]
  ]

  -- From a port that exists, and for TCP or UDP, the search ends: with the first free port from there
  -- on, or, where every one of these up to the last is taken, with the RuntimeError. Another protocol
  -- is refused.
  pub find_free_port-Finds :
      (start_port : ℕ)
      → start_port ≤ 65535
      → Finds start_port (find_free_port is_free start_port tcp)
        × Finds start_port (find_free_port is_free start_port udp)
        × (find_free_port is_free start_port unknown ≡ raise value_error)
  unfolding find_free_port
  find_free_port-Finds start_port h =
      let found = search-Finds (65536 - start_port) start_port (omega (arith, h)) h in
      (found, found, refl)
