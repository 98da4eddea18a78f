-- ===== src/Engine/Loop/Restarts.antt =====
-- Which contexts a round starts.
use mo_link.Prelude.{
  is_in, ℕ, zero, suc, ◌+◌, ◌-◌, ◌≤◌, ◌<◌, Bool, true, false, ◌||◌, ◌&&◌, ltb, leb, eqb, length,
  length-append, set, List, [], ◌∷◌, ◌++◌, Result, ok, ◌≡◌, refl, ap, ◌∙◌, inl, inr, Bool-cases,
  arith, if◌then◌else◌,
}
use mo_link.Engine.Latency.{count_from}
use mo_link.Engine.Loop.{BatchNumbers, Loop, grow, restart, poll, poll_from, loop_round}
use mo_link.Engine.Loop.Counting.{length-count_from}
use mo_link.Engine.Loop.Running.{IsRunning, any_of_running, grow-IsRunning}
use mo_link.Engine.Loop.Rounds.{begin-IsRunning}

is_in-append : (i : ℕ) (xs ys : List ℕ) → is_in i (xs ++ ys) ≡ (is_in i xs || is_in i ys)
is_in-append i [] ys = refl
is_in-append i (x ∷ xs) ys = ground (arith, is_in-append i xs ys)

is_in-count_from :
    (i start n : ℕ) → is_in i (count_from start n) ≡ (leb start i && ltb i (start + n))
unfolding count_from
is_in-count_from i start zero = ground arith
is_in-count_from i start (suc n) = ground (arith, is_in-count_from i (suc start) n)

-- The contexts from `idx` on, of `n` ones, whose task is done, below the number of batches.
abbrev restarted : (ℕ → Bool) → ℕ → ℕ → ℕ → ℕ → Bool
restarted done batch_num idx n i = leb idx i && ltb i (idx + n) && done i && ltb i batch_num

module _ (numbers : BatchNumbers) where
  -- A context after the first does not change the number of batches.
  after_poll : (ℕ → Bool) → ℕ → Loop numbers → Loop numbers
  after_poll done idx l =
      if leb l.batch_num idx
      then record l { has_requests_in_progress = set l.has_requests_in_progress idx false }
      else if done idx
      then record l {
        requests_in_progress = set l.requests_in_progress idx idx;
        has_requests_in_progress = set l.has_requests_in_progress idx true;
        started = l.started ++ idx ∷ [];
      }
      else l

  restart-suc :
      (k : ℕ) (l : Loop numbers)
      → restart numbers (suc k) l
        ≡ ok (record l {
          requests_in_progress = set l.requests_in_progress (suc k) (suc k);
          has_requests_in_progress = set l.has_requests_in_progress (suc k) true;
          started = l.started ++ suc k ∷ [];
        })
  unfolding restart
  restart-suc k l = ground arith

  poll-suc :
      (done : ℕ → Bool) (k : ℕ) (l : Loop numbers)
      → poll numbers done (suc k) l ≡ ok (after_poll done (suc k) l)
  unfolding poll after_poll
  poll-suc done k l = elim (Bool-cases (leb l.batch_num (suc k))) [
    | inl e ↦ rw e
    | inr e ↦ elim (Bool-cases (done (suc k))) [
      | inl d ↦ rw (e, d) (restart-suc k l)
      | inr d ↦ rw (e, d)
    ]
  ]

  after_poll-batch_num :
      (done : ℕ → Bool) (idx : ℕ) (l : Loop numbers)
      → (after_poll done idx l).batch_num ≡ l.batch_num
  unfolding after_poll
  after_poll-batch_num done idx l = elim (Bool-cases (leb l.batch_num idx)) [
    | inl e ↦ rw e
    | inr e ↦ elim (Bool-cases (done idx)) [ inl d ↦ rw (e, d) | inr d ↦ rw (e, d) ]
  ]

  appended :
      (done : ℕ → Bool) (idx i : ℕ) (l : Loop numbers)
      → leb l.batch_num idx ≡ false
      → done idx ≡ true
      → is_in i (l.started ++ idx ∷ [])
        ≡ (is_in i l.started || (eqb idx i && done i && ltb i l.batch_num))
  appended done idx i l e d = elim (Bool-cases (eqb idx i)) [
    | inl same ↦
        let p : idx ≡ i = ground (arith, same) in
        ground (arith, is_in-append i l.started (idx ∷ []), e, d, ap done p)
    | inr other ↦ ground (arith, is_in-append i l.started (idx ∷ []), other)
  ]

  left_out :
      (done : ℕ → Bool) (idx i : ℕ) (l : Loop numbers)
      → done idx ≡ false
      → is_in i l.started ≡ (is_in i l.started || (eqb idx i && done i && ltb i l.batch_num))
  left_out done idx i l d = elim (Bool-cases (eqb idx i)) [
    | inl same ↦ let p : idx ≡ i = ground (arith, same) in ground (arith, d, ap done p)
    | inr other ↦ ground (arith, other)
  ]

  after_poll-started :
      (done : ℕ → Bool) (idx i : ℕ) (l : Loop numbers)
      → is_in i (after_poll done idx l).started
        ≡ (is_in i l.started || (eqb idx i && done i && ltb i l.batch_num))
  unfolding after_poll
  after_poll-started done idx i l = elim (Bool-cases (leb l.batch_num idx)) [
    | inl e ↦ rw e (ground (arith, e))
    | inr e ↦ elim (Bool-cases (done idx)) [
      | inl d ↦ rw (e, d) (appended done idx i l e d)
      | inr d ↦ rw (e, d) (left_out done idx i l d)
    ]
  ]

  Restarts : (ℕ → Bool) → ℕ → ℕ → Loop numbers → Result (Loop numbers) → Type 0
  Restarts done idx n l r =
      (l' : Loop numbers) × (r ≡ ok l')
      × (l'.batch_num ≡ l.batch_num)
      × ((i : ℕ) → is_in i l'.started ≡ (is_in i l.started || restarted done l.batch_num idx n i))

  poll_from-suc :
      (done : ℕ → Bool) (k n : ℕ) (l : Loop numbers)
      → Restarts done (suc k) n l (poll_from numbers done (suc k) n l)
  unfolding poll_from Restarts
  poll_from-suc done k zero l = (l, refl, refl, λ i. ground arith)
  poll_from-suc done k (suc n) l =
      let m = after_poll done (suc k) l in
      let (l', e, batch, h) = poll_from-suc done (suc k) n m in
      let same = after_poll-batch_num done (suc k) l in
      (
        l',
        rw (poll-suc done k l) e,
        batch ∙ same,
        λ i. ground (arith, h i, after_poll-started done (suc k) i l, same),
      )

  first_poll :
      (done : ℕ → Bool) (l : Loop numbers)
      → IsRunning numbers l
      → (l' : Loop numbers) × (poll numbers done 0 l ≡ ok l')
        × (1 ≤ l'.batch_num)
        × ((i : ℕ) → is_in i l'.started ≡ (is_in i l.started || (eqb 0 i && done i)))
  unfolding poll restart
  first_poll done l h =
      let positive : leb l.batch_num 0 ≡ false = ground (arith, h.positive) in
      elim (Bool-cases (done 0)) [
        | inr d ↦ (l, rw (positive, d), h.positive, λ i. left_alone d i)
        | inl d ↦
            let (b, s, found, low, high, ready) = numbers.ready_bounds l.engine h.ready in
            (
              record l {
                requests_in_progress = set l.requests_in_progress 0 0;
                has_requests_in_progress = set l.has_requests_in_progress 0 true;
                started = l.started ++ 0 ∷ [];
                batch_num = b;
                engine = s;
              },
              rw (positive, d, found),
              low,
              λ i. joined d i,
            )
      ]
    where
      left_alone :
          done 0 ≡ false → (i : ℕ) → is_in i l.started ≡ (is_in i l.started || (eqb 0 i && done i))
      left_alone d zero = ground (arith, d)
      left_alone d (suc i) = ground arith

      joined :
          done 0 ≡ true
          → (i : ℕ) → is_in i (l.started ++ 0 ∷ []) ≡ (is_in i l.started || (eqb 0 i && done i))
      joined d zero = ground (arith, d, is_in-append 0 l.started (0 ∷ []))
      joined d (suc i) = ground (arith, is_in-append (suc i) l.started (0 ∷ []))

  polled :
      (done : ℕ → Bool) (n : ℕ) (l : Loop numbers)
      → IsRunning numbers l
      → (l' : Loop numbers) × (poll_from numbers done 0 (suc n) l ≡ ok l')
        × ((i : ℕ)
            → is_in i l'.started ≡ (is_in i l.started || restarted done l'.batch_num 0 (suc n) i))
  unfolding poll_from Restarts
  polled done n l h =
      let (m, e, low, first) = first_poll done l h in
      let (l', e', batch, others) = poll_from-suc done 0 n m in
      (l', rw e e', λ i. ground (arith, first i, others i, batch, low))

  -- Which contexts the round starts, against the tasks and the number of batches before it and the
  -- number after it.
  abbrev pub StartsIn : (ℕ → Bool) → Loop numbers → Loop numbers → ℕ → Type 0
  StartsIn done l l' i =
      (i < length l.requests_in_progress → is_in i l'.started ≡ (done i && ltb i l'.batch_num))
      × (length l.requests_in_progress ≤ i → i < l.batch_num → is_in i l'.started ≡ true)
      × (length l.requests_in_progress ≤ i → l.batch_num ≤ i → is_in i l'.started ≡ false)

  -- A round starts a step for a context that has a task exactly when that task is done and the
  -- context is below the new number of batches, and for one that has none exactly when it is
  -- below the number of batches of before.
  pub loop_round-StartsIn :
      (done : ℕ → Bool) (l : Loop numbers)
      → IsRunning numbers l
      → (l' : Loop numbers) × (loop_round numbers done l ≡ ok l') × ((i : ℕ) → StartsIn done l l' i)
  unfolding loop_round grow
  loop_round-StartsIn done l h =
      let m : Loop numbers = record l { started = [] } in
      let n = length l.requests_in_progress in
      let k = l.batch_num - n in
      let equal : eqb n (length l.has_requests_in_progress) ≡ true = ground (arith, h.counted) in
      let size : length (grow numbers m).requests_in_progress ≡ suc (n + k - 1) = omega (
        arith,
        length-append l.requests_in_progress (count_from n k),
        length-count_from n k,
        h.positive,
      ) in
      let (l', e, starts) =
        polled done (n + k - 1) (grow numbers m)
          (grow-IsRunning numbers m (begin-IsRunning numbers l h)) in
      (
        l',
        rw (any_of_running numbers l h, equal, size) e,
        λ i.
            let all = starts i in
            let added = is_in-count_from i n k in
            (
              λ a. ground (arith, all, added, a),
              λ a b. ground (arith, all, added, a, b),
              λ a b. ground (arith, all, added, a, b),
            ),
      )
