-- ===== src/Engine/Loop/Running.antt =====
-- What holds in every round, and after it.
use mo_link.Prelude.{
  ℕ, zero, suc, ◌+◌, ◌-◌, ◌≤◌, ◌<◌, Bool, true, false, leb, eqb, length, length-append, length-set,
  length-replicate, get_elem?, replicate, set, All, some, List, [], ◌∷◌, ◌++◌, Result, ok, raise,
  ◌>>=◌, ◌≡◌, refl, sym, ap, subst, ◌∙◌, arith, if◌then◌else◌,
}
use mo_link.Engine.Latency.{count_from}
use mo_link.Engine.Loop.{BatchNumbers, Loop, any_of, grow, restart, poll, poll_from}
use mo_link.Engine.Loop.Counting.{
  length-count_from, All-append, All-count_from, extend_in_order, set_in_order,
}

module _ (numbers : BatchNumbers) where
  -- The list of tasks has one task for each context from 0 on, and no more than the engine has
  -- contexts; the two lists are as long as each other; and the first entry says that requests are
  -- in progress.
  pub record IsRunning (l : Loop numbers) : Type 0 where
    pub counted : length l.has_requests_in_progress ≡ length l.requests_in_progress
    pub in_order : l.requests_in_progress ≡ count_from 0 (length l.requests_in_progress)
    pub within : length l.requests_in_progress ≤ numbers.contexts
    pub positive : 1 ≤ l.batch_num
    pub bounded : l.batch_num ≤ numbers.contexts
    pub first_set : get_elem? l.has_requests_in_progress 0 ≡ some true
    pub ready : numbers.IsReady l.engine
    pub in_range : All (λ i. i < numbers.contexts) l.started

  any_of_first : (bs : List Bool) → get_elem? bs 0 ≡ some true → any_of bs ≡ true
  unfolding any_of
  any_of_first [] h = cc
  any_of_first (b ∷ bs) h = ground arith

  -- The engine only waits for requests where no entry says that they are in progress.
  pub any_of_running : (l : Loop numbers) → IsRunning l → any_of l.has_requests_in_progress ≡ true
  any_of_running l h = any_of_first l.has_requests_in_progress h.first_set

  set_first :
      (bs : List Bool) (i : ℕ) (b : Bool)
      → get_elem? bs 0 ≡ some true
      → (i ≡ 0 → b ≡ true)
      → get_elem? (set bs i b) 0 ≡ some true
  set_first [] i b h k = h
  set_first (c ∷ bs) zero b h k = ap some (k refl)
  set_first (c ∷ bs) (suc i) b h k = h

  append_first :
      (bs cs : List Bool) → get_elem? bs 0 ≡ some true → get_elem? (bs ++ cs) 0 ≡ some true
  append_first [] cs h = cc
  append_first (b ∷ bs) cs h = h

  pub grow-IsRunning : (l : Loop numbers) → IsRunning l → IsRunning (grow numbers l)
  unfolding grow
  grow-IsRunning l h =
      let n = length l.requests_in_progress in
      let added = count_from n (l.batch_num - n) in
      let sum = length-append l.requests_in_progress added in
      let size = length-count_from n (l.batch_num - n) in
      record {
        counted = omega (
          arith,
          h.counted,
          sum,
          size,
          length-append l.has_requests_in_progress (replicate (l.batch_num - n) true),
          length-replicate (l.batch_num - n) true,
        );
        in_order = extend_in_order l.requests_in_progress (l.batch_num - n) h.in_order;
        within = omega (arith, h.within, h.bounded, sum, size);
        positive = h.positive;
        bounded = h.bounded;
        first_set = append_first l.has_requests_in_progress _ h.first_set;
        ready = h.ready;
        in_range =
            All-append (λ i. i < numbers.contexts) l.started added h.in_range
              (All-count_from n (l.batch_num - n) numbers.contexts
                (omega (arith, h.within, h.bounded)));
      }

  -- A round, or a part of one, ends, and the loop is as it was with as many tasks.
  abbrev pub Keeps : ℕ → Result (Loop numbers) → Type 0
  Keeps n (ok l) = IsRunning l × (length l.requests_in_progress ≡ n)
  Keeps n (raise e) = ⊥

  Keeps-bind :
      (n : ℕ) (r : Result (Loop numbers)) (f : Loop numbers → Result (Loop numbers))
      → Keeps n r
      → ((l : Loop numbers) → IsRunning l → length l.requests_in_progress ≡ n → Keeps n (f l))
      → Keeps n (r >>= f)
  Keeps-bind n (ok l) f h k = k l h.0 h.1
  Keeps-bind n (raise e) f h k = absurd h

  Keeps-if :
      (n : ℕ) (b : Bool) (x y : Result (Loop numbers))
      → (b ≡ true → Keeps n x)
      → (b ≡ false → Keeps n y)
      → Keeps n (if b then x else y)
  Keeps-if n true x y h k = h refl
  Keeps-if n false x y h k = k refl

  recount-Keeps :
      (l : Loop numbers)
      → IsRunning l
      → Keeps
          (length l.requests_in_progress)
          (numbers.next_batch_num l.engine >>= λ r. ok (record l { batch_num = r.0; engine = r.1 }))
  recount-Keeps l h =
      let (b, s, found, low, high, ready) = numbers.ready_bounds l.engine h.ready in
      rw found (
        record {
          counted = h.counted;
          in_order = h.in_order;
          within = h.within;
          positive = low;
          bounded = high;
          first_set = h.first_set;
          ready = ready;
          in_range = h.in_range;
        },
        refl,
      )

  restart-Keeps :
      (idx : ℕ) (l : Loop numbers)
      → idx < numbers.contexts
      → IsRunning l
      → Keeps (length l.requests_in_progress) (restart numbers idx l)
  unfolding restart
  restart-Keeps idx l below h =
      let same = set_in_order l.requests_in_progress idx h.in_order in
      let l' : Loop numbers = record l {
        requests_in_progress = set l.requests_in_progress idx idx;
        has_requests_in_progress = set l.has_requests_in_progress idx true;
        started = l.started ++ idx ∷ [];
      } in
      let size : length l'.requests_in_progress ≡ length l.requests_in_progress =
        length-set l.requests_in_progress idx idx in
      let running : IsRunning l' = record {
        counted = omega (arith, h.counted, size, length-set l.has_requests_in_progress idx true);
        in_order = same ∙ h.in_order ∙ ap (count_from 0) (sym size);
        within = omega (arith, h.within, size);
        positive = h.positive;
        bounded = h.bounded;
        first_set = set_first l.has_requests_in_progress idx true h.first_set (λ _. refl);
        ready = h.ready;
        in_range =
            All-append (λ i. i < numbers.contexts) l.started (idx ∷ []) h.in_range (below, tt);
      } in
      Keeps-if (length l.requests_in_progress) (eqb idx 0) _ _
        (λ _.
          subst
            (λ n. Keeps n (
              numbers.next_batch_num l'.engine >>= λ r.
              ok (record l' { batch_num = r.0; engine = r.1 })))
            size (recount-Keeps l' running))
        (λ _. (running, size))

  poll-Keeps :
      (done : ℕ → Bool) (idx : ℕ) (l : Loop numbers)
      → idx < length l.requests_in_progress
      → IsRunning l
      → Keeps (length l.requests_in_progress) (poll numbers done idx l)
  unfolding poll
  poll-Keeps done idx l below h =
      Keeps-if (length l.requests_in_progress) (leb l.batch_num idx) _ _
        (λ beyond. (
          record {
            counted = omega (arith, h.counted, length-set l.has_requests_in_progress idx false);
            in_order = h.in_order;
            within = h.within;
            positive = h.positive;
            bounded = h.bounded;
            first_set =
                set_first l.has_requests_in_progress idx false h.first_set
                  (λ e. absurd (ground (arith, e, beyond, h.positive)));
            ready = h.ready;
            in_range = h.in_range;
          },
          refl,
        ))
        (λ _.
          Keeps-if (length l.requests_in_progress) (done idx) _ _
            (λ _. restart-Keeps idx l (omega (arith, below, h.within)) h) (λ _. (h, refl)))

  pub poll_from-Keeps :
      (done : ℕ → Bool) (idx n : ℕ) (l : Loop numbers)
      → idx + n ≡ length l.requests_in_progress
      → IsRunning l
      → Keeps (length l.requests_in_progress) (poll_from numbers done idx n l)
  unfolding poll_from
  poll_from-Keeps done idx zero l e h = (h, refl)
  poll_from-Keeps done idx (suc n) l e h =
      Keeps-bind (length l.requests_in_progress) (poll numbers done idx l) _
        (poll-Keeps done idx l (omega arith) h)
        (λ l' h' size.
          subst (λ k. Keeps k (poll_from numbers done (suc idx) n l')) size
            (poll_from-Keeps done (suc idx) n l' (omega (arith, e, size)) h'))
