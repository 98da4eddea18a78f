-- ===== src/Service/Queues.antt =====
-- What the handlers do to the queues: first in, first out, each virtual engine by itself.
use mathlib.Core.List.{append_assoc, append-nil}
use mo_link.Prelude.{
  Dict, Distinct, Distinct-middle, insert, insert_new, ℕ, ◌<◌, ℤ, pos, negsuc, eqb, length,
  length-set, get_elem?, get_elem?-set_self, get_elem?-set_ne, get_elem?_of_lt, set, set-set,
  set_same, Bool, true, false, ◌≡◌, refl, ap, ◌∙◌, inl, inr, Option-cases, Option, none, some, List,
  [], ◌∷◌, ◌++◌, Exn, Result, Result-cases, ok, raise, index_error, timeout_error, arith,
  if◌then◌else◌,
}
use mo_link.Topology.{Metadata}
use mo_link.Platform.{Platform}
use mo_link.Delivery.{GrpcRequestData}
use mo_link.Service.{
  collect_onto, Service, Packet, slot, put, get, collect, push_intermediate_tensors,
}

pub slot-lt : (n : ℕ) (ve : ℤ) (i : ℕ) → slot n ve ≡ some i → i < n
unfolding slot
slot-lt n (pos k) i h = ground arith
slot-lt n (negsuc k) i h = ground arith

module _ {A : Type 0} where
  pub put-some :
      (qs : List (List A)) (ve : ℤ) (a : A) (i : ℕ) (q : List A)
      → slot (length qs) ve ≡ some i
      → get_elem? qs i ≡ some q
      → put qs ve a ≡ ok (set qs i (q ++ a ∷ []))
  unfolding put
  put-some qs ve a i q s e = ground arith

  pub put-none :
      (qs : List (List A)) (ve : ℤ) (a : A)
      → slot (length qs) ve ≡ none
      → put qs ve a ≡ raise index_error
  unfolding put
  put-none qs ve a s = ground arith

  pub get-some :
      (qs : List (List A)) (ve : ℤ) (a : A) (i : ℕ) (q : List A)
      → slot (length qs) ve ≡ some i
      → get_elem? qs i ≡ some (a ∷ q)
      → get qs ve ≡ ok (a, set qs i q)
  unfolding get
  get-some qs ve a i q s e = ground arith

  pub get-empty :
      (qs : List (List A)) (ve : ℤ) (i : ℕ)
      → slot (length qs) ve ≡ some i
      → get_elem? qs i ≡ some []
      → get qs ve ≡ raise timeout_error
  unfolding get
  get-empty qs ve i s e = ground arith

  -- What is put into an empty queue is what comes out, and the queue is empty again.
  pub get-put_empty :
      (qs : List (List A)) (ve : ℤ) (a : A) (i : ℕ)
      → slot (length qs) ve ≡ some i
      → get_elem? qs i ≡ some []
      → get (set qs i (a ∷ [])) ve ≡ ok (a, qs)
  get-put_empty qs ve a i s e =
      get-some (set qs i (a ∷ [])) ve a i [] (rw length-set s)
        (get_elem?-set_self qs i (a ∷ []) (slot-lt (length qs) ve i s))
      ∙ ap (λ r. ok (a, r)) (set-set qs i (a ∷ []) [] ∙ set_same qs i [] e)

  put-get_elem? :
      (qs : List (List A)) (ve : ℤ) (a : A) (i j : ℕ) (q : List A)
      → slot (length qs) ve ≡ some i
      → get_elem? qs j ≡ some q
      → (qs' : List (List A)) × (put qs ve a ≡ ok qs')
        × (length qs' ≡ length qs)
        × (get_elem? qs' j ≡ some (if eqb i j then q ++ a ∷ [] else q))
  put-get_elem? qs ve a i j q s e =
      let lt = slot-lt (length qs) ve i s in
      let (r, there) = get_elem?_of_lt qs i lt in
      (
        set qs i (r ++ a ∷ []),
        put-some qs ve a i r s there,
        length-set qs i (r ++ a ∷ []),
        ground (
          arith,
          get_elem?-set_self qs i (r ++ a ∷ []) lt,
          get_elem?-set_ne qs i j (r ++ a ∷ []),
        ),
      )

append_if :
    {A : Type 0} (b : Bool) (q : List A) (a : A)
    → (if b then q ++ a ∷ [] else q) ≡ q ++ (if b then a ∷ [] else [])
append_if true q a = refl
append_if false q a = rw append-nil

module _ {p : Platform} where
  abbrev pub packet : GrpcRequestData p → Metadata → Packet p
  packet request metadata = record {
    scheduler_output = request.scheduler_output;
    tensors = collect request.intermediate_tensors;
    metadata = metadata;
  }

  -- The packet that a request leaves in queue `j` of `n`, if any.
  packet_at : ℕ → Packet p → Option ℕ → List (Packet p)
  packet_at j packet none = []
  packet_at j packet (some i) = if eqb i j then packet ∷ [] else []

  packet_in : ℕ → ℕ → GrpcRequestData p → Result Metadata → List (Packet p)
  unfolding packet_at
  packet_in n j request (raise e) = []
  packet_in n j request (ok metadata) =
      packet_at j (packet request metadata) (slot n request.virtual_engine)

  unfoldable pub packets_for : ℕ → ℕ → List (GrpcRequestData p) → List (Packet p)
  unfolding packet_in
  packets_for n j [] = []
  packets_for n j (request ∷ rest) =
      packet_in n j request (p.load_metadata request.grpc_metadata) ++ packets_for n j rest

  unfoldable pub push_all : Service p → List (GrpcRequestData p) → Service p
  push_all s [] = s
  push_all s (request ∷ rest) = push_all (push_intermediate_tensors s request).1 rest

  module _ (s : Service p) (request : GrpcRequestData p) (j : ℕ) (q : List (Packet p)) where
    abbrev PushesInto : Result Metadata → Type 0
    PushesInto m =
        (length (push_intermediate_tensors s request).1.input_queue ≡ length s.input_queue)
        × (get_elem? (push_intermediate_tensors s request).1.input_queue j
            ≡ some (q ++ packet_in (length s.input_queue) j request m))

    push-raise :
        (e : Exn)
        → get_elem? s.input_queue j ≡ some q
        → p.load_metadata request.grpc_metadata ≡ raise e
        → PushesInto (raise e)
    unfolding push_intermediate_tensors packet_in
    push-raise e there m = rw m (refl, rw append-nil there)

    push-no_slot :
        (metadata : Metadata)
        → get_elem? s.input_queue j ≡ some q
        → p.load_metadata request.grpc_metadata ≡ ok metadata
        → slot (length s.input_queue) request.virtual_engine ≡ none
        → PushesInto (ok metadata)
    unfolding push_intermediate_tensors packet_in
    push-no_slot metadata there m none_such =
        rw (m, put-none s.input_queue request.virtual_engine (packet request metadata) none_such)
          (refl, rw (none_such, append-nil) there)

    push-slot :
        (metadata : Metadata) (i : ℕ)
        → get_elem? s.input_queue j ≡ some q
        → p.load_metadata request.grpc_metadata ≡ ok metadata
        → slot (length s.input_queue) request.virtual_engine ≡ some i
        → PushesInto (ok metadata)
    unfolding push_intermediate_tensors packet_in
    push-slot metadata i there m at =
        let (qs, e, len, there') =
          put-get_elem? s.input_queue request.virtual_engine (packet request metadata) i j q at
            there in
        rw (m, e) (len, there' ∙ ap some (rw at (append_if (eqb i j) q (packet request metadata))))

    pushes_into :
        get_elem? s.input_queue j ≡ some q → PushesInto (p.load_metadata request.grpc_metadata)
    pushes_into there = elim (Result-cases (p.load_metadata request.grpc_metadata)) [
      | inr (e, m) ↦ rw m (push-raise e there m)
      | inl (metadata, m) ↦
          rw m (elim (Option-cases (slot (length s.input_queue) request.virtual_engine)) [
            | inl none_such ↦ push-no_slot metadata there m none_such
            | inr (i, at) ↦ push-slot metadata i there m at
          ])
    ]

  -- After any requests, accepted or not, the queue of each virtual engine holds what it held and
  -- then, in the order of arrival, the packets of the requests whose metadata can be read and whose
  -- virtual engine means that queue.
  pub push_all-queue :
      (s : Service p) (requests : List (GrpcRequestData p)) (j : ℕ) (q : List (Packet p))
      → get_elem? s.input_queue j ≡ some q
      → get_elem? (push_all s requests).input_queue j
        ≡ some (q ++ packets_for (length s.input_queue) j requests)
  unfolding push_all packets_for
  push_all-queue s [] j q there = rw append-nil there
  push_all-queue s (request ∷ rest) j q there =
      let (len, at) = pushes_into s request j q there in
      push_all-queue (push_intermediate_tensors s request).1 rest j _ at
      ∙ rw (len, append_assoc) refl

collect_onto-append : {A : Type 0} (d e : Dict A) → Distinct (d ++ e) → collect_onto d e ≡ d ++ e
unfolding collect_onto
collect_onto-append d [] h = rw append-nil
collect_onto-append d ((k, v) ∷ rest) h =
    let together = append_assoc d ((k, v) ∷ []) rest in
    let new : insert k v d ≡ d ++ (k, v) ∷ [] = insert_new k v d (Distinct-middle k v d rest h) in
    rw new (collect_onto-append (d ++ (k, v) ∷ []) rest (rw together h) ∙ together)

-- Entries with distinct keys are collected into the dictionary that they were made from.
pub collect-Distinct : {A : Type 0} (d : Dict A) → Distinct d → collect d ≡ d
unfolding collect
collect-Distinct d h = collect_onto-append [] d h
