-- ===== src/Delivery/Order.antt =====
-- What the delivery process sends for what the node hands to it.
use mathlib.Core.List.{append_assoc, append-nil}
use mo_link.Prelude.{
  ℕ, zero, suc, ◌-◌, ◌≤◌, ◌<◌, ℤ, String, Dict, ltb, length, length-append, false, ◌≡◌, refl, ap,
  sym, ◌∙◌, inl, inr, Bool-cases, none, some, List, [], ◌∷◌, ◌++◌, map, Result, ok, raise, catch,
  ◌>>=◌, arith, if◌then◌else◌,
}
use mo_link.Topology.{Metadata}
use mo_link.Platform.{Platform, Value}
use mo_link.Delivery.{
  Item, next, head, Process, Manager, Send, maxsize, put_nowait, enqueue, values_to_cpu,
  deliver_to_next, deliver_to_head, request_of, consume, sent_item, pop_front,
}

abbrev pub take {ℓ} : {A : Type ℓ} → ℕ → List A → List A
take zero xs = []
take (suc n) [] = []
take (suc n) (x ∷ xs) = x ∷ take n xs

-- A call of one of the two methods of the manager.
pub data Call (p : Platform) : Type 0 where
  to_next : Dict (Value p.Tensor p.Reply) → p.Bytes → Metadata → ℤ → String → Call p
  to_head : p.Bytes → ℤ → String → Call p

module _ {p : Platform} where
  unfoldable pub call : Manager p → Call p → Result (Manager p)
  call m (to_next tensors bytes metadata ve server) =
      deliver_to_next m tensors bytes metadata ve server
  call m (to_head bytes ve server) = deliver_to_head m bytes ve server

  -- The calls in turn, where the caller of one that raises goes on.
  unfoldable pub call_all : Manager p → List (Call p) → Manager p
  call_all m [] = m
  call_all m (c ∷ cs) = call_all (catch (call m c) (λ e. m)) cs

  next_item : p.Bytes → Metadata → ℤ → String → Result (Dict p.Tensor) → List (Item p)
  next_item bytes metadata ve server (ok tensors) = next tensors bytes metadata ve server ∷ []
  next_item bytes metadata ve server (raise e) = []

  -- The entry that a call is meant to make: none if a value is no tensor.
  unfoldable pub items_of : Call p → List (Item p)
  unfolding next_item
  items_of (to_next tensors bytes metadata ve server) =
      next_item bytes metadata ve server (values_to_cpu p tensors)
  items_of (to_head bytes ve server) = head bytes ve server ∷ []

  unfoldable pub all_items : List (Call p) → List (Item p)
  all_items [] = []
  all_items (c ∷ cs) = items_of c ++ all_items cs

  abbrev pub running : Process p → Manager p
  running q = record { process = some q }

  abbrev pub with_queue : Process p → List (Item p) → Process p
  with_queue q items = record q { delivery_queue = items }

  room : Process p → ℕ
  room q = maxsize - length q.delivery_queue

  take_nil : (n : ℕ) → take {A = Item p} n [] ≡ []
  take_nil zero = refl
  take_nil (suc n) = refl

  append-take_nil : (xs : List (Item p)) (n : ℕ) → xs ++ take n [] ≡ xs
  append-take_nil xs n = ap (◌++◌ xs) (take_nil n) ∙ append-nil xs

  take_one : (n : ℕ) (item : Item p) → 0 < n → take n (item ∷ []) ≡ item ∷ []
  take_one zero item h = absurd (omega arith)
  take_one (suc zero) item h = refl
  take_one (suc (suc n)) item h = refl

  enqueue-room :
      (q : Process p) (item : Item p)
      → length q.delivery_queue < maxsize
      → enqueue (running q) item ≡ ok (running (with_queue q (q.delivery_queue ++ item ∷ [])))
  unfolding enqueue put_nowait
  enqueue-room q item fits = ground arith

  pub deliver_to_next-room :
      (q : Process p) (tensors : Dict (Value p.Tensor p.Reply)) (d : Dict p.Tensor)
      (bytes : p.Bytes) (metadata : Metadata) (ve : ℤ) (server : String)
      → values_to_cpu p tensors ≡ ok d
      → length q.delivery_queue < maxsize
      → deliver_to_next (running q) tensors bytes metadata ve server
        ≡ ok (running (with_queue q (q.delivery_queue ++ next d bytes metadata ve server ∷ [])))
  unfolding deliver_to_next
  deliver_to_next-room q tensors d bytes metadata ve server e fits =
      rw e (enqueue-room q (next d bytes metadata ve server) fits)

  pub deliver_to_head-room :
      (q : Process p) (bytes : p.Bytes) (ve : ℤ) (server : String)
      → length q.delivery_queue < maxsize
      → deliver_to_head (running q) bytes ve server
        ≡ ok (running (with_queue q (q.delivery_queue ++ head bytes ve server ∷ [])))
  unfolding deliver_to_head
  deliver_to_head-room q bytes ve server fits = enqueue-room q (head bytes ve server) fits

  call-enqueue :
      (q : Process p) (item : Item p)
      → catch (enqueue (running q) item) (λ e. running q)
        ≡ running (with_queue q (q.delivery_queue ++ take (room q) (item ∷ [])))
  unfolding enqueue put_nowait room
  call-enqueue q item = elim (Bool-cases (ltb (length q.delivery_queue) maxsize)) [
    | inl fits ↦
        let some_room : 0 < maxsize - length q.delivery_queue = ground arith in
        rw (fits, put_nowait, take_one (maxsize - length q.delivery_queue) item some_room)
    | inr full ↦
        let no_room : maxsize - length q.delivery_queue ≡ 0 = ground arith in
        rw (full, put_nowait, no_room)
          (ap (λ l. running (with_queue q l)) (sym (append-nil q.delivery_queue)))
  ]

  next-item :
      (q : Process p) (bytes : p.Bytes) (metadata : Metadata) (ve : ℤ) (server : String)
      (r : Result (Dict p.Tensor))
      → catch
          (r >>= λ tensors. enqueue (running q) (next tensors bytes metadata ve server))
          (λ e. running q)
        ≡ running (
            with_queue q (q.delivery_queue ++ take (room q) (next_item bytes metadata ve server r)))
  unfolding next_item
  next-item q bytes metadata ve server (ok tensors) =
      call-enqueue q (next tensors bytes metadata ve server)
  next-item q bytes metadata ve server (raise e) =
      ap (λ l. running (with_queue q l)) (sym (append-take_nil q.delivery_queue (room q)))

  call-item :
      (q : Process p) (c : Call p)
      → catch (call (running q) c) (λ e. running q)
        ≡ running (with_queue q (q.delivery_queue ++ take (room q) (items_of c)))
  unfolding call items_of deliver_to_next deliver_to_head
  call-item q (to_next tensors bytes metadata ve server) =
      next-item q bytes metadata ve server (values_to_cpu p tensors)
  call-item q (to_head bytes ve server) = call-enqueue q (head bytes ve server)

  length-take : (n : ℕ) (xs : List (Item p)) → length (take n xs) ≤ n
  length-take zero xs = omega arith
  length-take (suc n) [] = omega arith
  length-take (suc n) (x ∷ xs) = omega (arith, length-take n xs)

  take-append :
      (n : ℕ) (xs ys : List (Item p))
      → take n (xs ++ ys) ≡ take n xs ++ take (n - length (take n xs)) ys
  take-append zero xs ys = refl
  take-append (suc n) [] ys = ap (λ m. take m ys) {x = suc n} (omega arith)
  take-append (suc n) (x ∷ xs) ys =
      ap (◌∷◌ x)
        (take-append n xs ys ∙ ap (λ m. take n xs ++ take m ys) (omega (arith, length-take n xs)))

  room_after :
      (q : Process p) (items : List (Item p))
      → room (with_queue q (q.delivery_queue ++ items)) ≡ room q - length items
  unfolding room
  room_after q items = omega (arith, length-append q.delivery_queue items)

  call_all-queue :
      (q : Process p) (cs : List (Call p))
      → call_all (running q) cs
        ≡ running (with_queue q (q.delivery_queue ++ take (room q) (all_items cs)))
  unfolding call_all all_items
  call_all-queue q [] =
      ap (λ l. running (with_queue q l)) (sym (append-take_nil q.delivery_queue (room q)))
  call_all-queue q (c ∷ cs) =
      let taken = take (room q) (items_of c) in
      ap (λ m. call_all m cs) (call-item q c)
      ∙ call_all-queue (with_queue q (q.delivery_queue ++ taken)) cs
      ∙ ap (λ l. running (with_queue q l))
          (ap (λ n. (q.delivery_queue ++ taken) ++ take n (all_items cs)) (room_after q taken)
            ∙ append_assoc q.delivery_queue taken (take (room q - length taken) (all_items cs))
            ∙ ap (◌++◌ q.delivery_queue) (sym (take-append (room q) (items_of c) (all_items cs))))

  -- The loop of the process for at most `fuel` rounds: what it sends.
  unfoldable pub drain : ℕ → Process p → List (Send p)
  drain zero q = []
  drain (suc fuel) q = elim (consume q) [ none ↦ [] | some r ↦ r.0 ∷ drain fuel r.1 ]

  consume-nil : (q : Process p) → q.shutdown ≡ false → q.delivery_queue ≡ [] → consume q ≡ none
  unfolding consume
  consume-nil q on e =
      ap (λ b. if b then none else pop_front q q.delivery_queue) on ∙ ap (pop_front q) e

  pub consume-cons :
      (q : Process p) (x : Item p) (items : List (Item p))
      → q.shutdown ≡ false
      → q.delivery_queue ≡ x ∷ items
      → consume q ≡ some (request_of x, sent_item q x items)
  unfolding consume
  consume-cons q x items on e =
      ap (λ b. if b then none else pop_front q q.delivery_queue) on ∙ ap (pop_front q) e

  drain-queue :
      (fuel : ℕ) (q : Process p) (items : List (Item p))
      → q.delivery_queue ≡ items
      → q.shutdown ≡ false
      → length items ≤ fuel
      → drain fuel q ≡ map request_of items
  unfolding drain sent_item
  drain-queue zero q [] e on enough = refl
  drain-queue zero q (x ∷ items) e on enough = absurd (omega arith)
  drain-queue (suc fuel) q [] e on enough = rw (drain, consume-nil q on e)
  drain-queue (suc fuel) q (x ∷ items) e on enough =
      rw (drain, consume-cons q x items on e)
        (ap (◌∷◌ (request_of x))
          (drain-queue fuel (sent_item q x items) items refl on (omega arith)))

  -- The process that a manager has, after any calls of its methods, each of which may raise: once it
  -- has run, it has sent the requests of what was in its queue and then of the calls whose values are
  -- all tensors, in the order of the calls; as many of these as the queue had room for, where the
  -- process ran only afterwards.
  pub call_all-drain :
      (q : Process p) (cs : List (Call p)) (fuel : ℕ)
      → q.shutdown ≡ false
      → length q.delivery_queue ≤ maxsize
      → maxsize ≤ fuel
      → (q' : Process p) × (call_all (record { process = some q }) cs
          ≡ record { process = some q' })
        × (drain fuel q'
            ≡ map request_of
                (q.delivery_queue ++ take (maxsize - length q.delivery_queue) (all_items cs)))
  unfolding room
  call_all-drain q cs fuel on fits enough =
      let items = q.delivery_queue ++ take (room q) (all_items cs) in
      let few : length items ≤ fuel = omega (
        arith,
        length-append q.delivery_queue (take (room q) (all_items cs)),
        length-take (room q) (all_items cs),
      ) in
      (
        with_queue q items,
        call_all-queue q cs,
        drain-queue fuel (with_queue q items) items refl on few,
      )
