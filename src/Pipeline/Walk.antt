-- ===== src/Pipeline/Walk.antt =====
-- A batch on its way through the servers behind the head, and back to the head.
use mo_link.Prelude.{
  ℕ, suc, ◌<◌, ℤ, String, eq_refl, Dict, Distinct, false, ◌≡◌, ◌≢◌, refl, ap, sym, ◌∙◌, some, List,
  [], ◌∷◌, map, length, get_elem?, set, length-set, get_elem?-set_self, index_of_get_elem?, Unique,
  arith,
}
use mo_link.Topology.{Metadata}
use mo_link.Platform.{Platform, RoundTrips, Output}
use mo_link.Delivery.{Item, next, head, Process, request_of}
use mo_link.Delivery.Order.{running}
use mo_link.Service.{slot}
use mo_link.Service.Queues.{slot-lt}
use mo_link.Executor.{Node}
use mo_link.Executor.Steps.{handle, tensors_to_cpu}
use mo_link.Pipeline.{World, run, step}
use mo_link.Pipeline.Transport.{visit, visit-elsewhere, receive-next, receive-head}
use mo_link.Pipeline.Server.{
  HasInput, HasProcess, Computes, walk_events, Places, Live, bytes, arrived, handle-next,
  handle-last, differs,
}

module _ {p : Platform} (laws : RoundTrips p) (batch : p.Batch) (metadata : Metadata) (ve : ℤ)
    (unique : Unique metadata.server_list) where
  -- The next node with the packet that has come to it.
  abbrev pub filled : Node p → ℕ → Dict p.Tensor → Node p
  filled m j e = record m {
    service = record m.service {
      input_queue = set m.service.input_queue j (arrived laws batch metadata ve e ∷ []);
    };
  }

  -- What the rest of the walk needs of the world after a visit to the node at place `i`.
  abbrev pub Passed : World p → World p → Node p → ℕ → Dict p.Tensor → ℕ → Type 0
  Passed world world' m i e j =
      (world' m.grpc_address ≡ some (filled m j e))
      × ((l : ℕ) (b : String)
          → l ≢ i
          → l ≢ suc i
          → get_elem? metadata.server_list l ≡ some b
          → world' b ≡ world b)

  pub pass-on :
      (world : World p) (f : Node p → Node p) (n n' m : Node p) (q : Process p) (e : Dict p.Tensor)
      (i j : ℕ)
      → world n.grpc_address ≡ some n
      → world m.grpc_address ≡ some m
      → slot (length m.service.input_queue) ve ≡ some j
      → get_elem? m.service.input_queue j ≡ some []
      → get_elem? metadata.server_list i ≡ some n.grpc_address
      → get_elem? metadata.server_list (suc i) ≡ some m.grpc_address
      → f n ≡ n'
      → n'.delivery_manager ≡ running q
      → q.delivery_queue
        ≡ next (tensors_to_cpu p e) (bytes laws batch metadata ve) metadata ve m.grpc_address ∷ []
      → q.shutdown ≡ false
      → Passed world (visit world n.grpc_address f) m i e j
  unfolding request_of
  pass-on world f n n' m q e i j here there at empty place after becomes has_q one on =
      let item : Item p =
        next (tensors_to_cpu p e) (bytes laws batch metadata ve) metadata ve m.grpc_address in
      (
        visit-elsewhere world n.grpc_address m.grpc_address f n n' q item here becomes has_q one on
              (differs metadata.server_list i (suc i) n.grpc_address m.grpc_address unique place
                after (λ eq. omega arith))
            ∙ rw (eq_refl m.grpc_address, there)
                (ap some (
                  receive-next laws m (tensors_to_cpu p e) (bytes laws batch metadata ve) metadata
                    ve m.grpc_address j at empty)),
        λ l b not_i not_m at_l.
            visit-elsewhere world n.grpc_address b f n n' q item here becomes has_q one on (
              differs metadata.server_list i l n.grpc_address b unique place at_l
                (λ eq. not_i (sym eq)))
            ∙ rw
                (differs metadata.server_list (suc i) l m.grpc_address b unique after at_l
                  (λ eq. not_m (sym eq)))
                refl,
      )

  pub Live-Passed :
      (world world' : World p) (m : Node p) (e : Dict p.Tensor) (i j l : ℕ) (ns : List (Node p))
      → Passed world world' m i e j
      → suc i < l
      → Places metadata.server_list l ns
      → Live ve world ns
      → Live ve world' ns
  Live-Passed world world' m e i j l [] passed further places live = tt
  Live-Passed world world' m e i j l (n ∷ ns) passed further (place, places)
        (here, empty, ready, live) =
      (
        passed.1 l n.grpc_address (λ eq. omega arith) (λ eq. omega arith) place ∙ here,
        empty,
        ready,
        Live-Passed world world' m e i j (suc l) ns passed (omega arith) places live,
      )

module _ {p : Platform} (laws : RoundTrips p) (batch : p.Batch) (metadata : Metadata) (ve : ℤ)
    (unique : Unique metadata.server_list)
    (head_place : get_elem? metadata.server_list 0 ≡ some metadata.head) (n₀ : Node p) (k : ℕ)
    (k_slot : slot (length n₀.service.output_queue) ve ≡ some k)
    (k_empty : get_elem? n₀.service.output_queue k ≡ some []) where
  abbrev pub answered : Output p.Tensor p.Reply → Node p
  answered output = record n₀ {
    service = record n₀.service {
      output_queue = set n₀.service.output_queue k (p.dump_output output ∷ []);
    };
  }

  walk-last :
      (world : World p) (n : Node p) (d : Dict p.Tensor) (output : Output p.Tensor p.Reply) (i : ℕ)
      → 0 < i
      → world metadata.head ≡ some n₀
      → world n.grpc_address ≡ some n
      → HasInput ve n (arrived laws batch metadata ve d ∷ [])
      → HasProcess n
      → Distinct d
      → Places metadata.server_list i (n ∷ [])
      → Computes batch n.worker [] d output
      → visit world n.grpc_address (handle ve) metadata.head ≡ some (answered output)
  unfolding Computes request_of
  walk-last world n d output i later head_node here full ready distinct (place, end) computes =
      let (n', q, becomes, has_q, one, on) =
        handle-last laws batch metadata ve n d output i full ready distinct computes
          (index_of_get_elem? n.grpc_address metadata.server_list i unique place) end in
      let away =
        differs metadata.server_list i 0 n.grpc_address metadata.head unique place head_place
          (λ e. omega arith) in
      visit-elsewhere world n.grpc_address metadata.head (handle ve) n n' q
        (head (p.dump_output output) ve metadata.head) here becomes has_q one on away
      ∙ rw (eq_refl metadata.head, head_node)
          (ap some (receive-head laws n₀ (p.dump_output output) ve metadata.head k k_slot k_empty))

  pub walk :
      (world : World p) (n : Node p) (ns : List (Node p)) (d : Dict p.Tensor)
      (output : Output p.Tensor p.Reply) (i : ℕ)
      → 0 < i
      → world metadata.head ≡ some n₀
      → world n.grpc_address ≡ some n
      → HasInput ve n (arrived laws batch metadata ve d ∷ [])
      → HasProcess n
      → Live ve world ns
      → Distinct d
      → Places metadata.server_list i (n ∷ ns)
      → Computes batch n.worker (map (λ m. m.worker) ns) d output
      → run world (walk_events ve (n ∷ ns)) metadata.head ≡ some (answered output)
  unfolding run Computes step
  walk world n [] d output i later head_node here full ready live distinct places computes =
      walk-last world n d output i later head_node here full ready distinct places computes
  walk world n (m ∷ ns) d output i later head_node here full ready
        (there, (j, at, empty), ready', live) distinct (place, (after, places))
        (e, makes, distinct', computes) =
      let (n', q, becomes, has_q, one, on) =
        handle-next laws batch metadata ve n d e i m.grpc_address full ready distinct makes
          (index_of_get_elem? n.grpc_address metadata.server_list i unique place) after in
      let passed =
        pass-on laws batch metadata ve unique world (handle ve) n n' m q e i j here there at empty
          place after becomes has_q one on in
      let world' = visit world n.grpc_address (handle ve) in
      walk world' (filled laws batch metadata ve unique m j e) ns e output (suc i) (omega arith)
        (passed.1 0 metadata.head (λ eq. omega arith) (λ eq. omega arith) head_place ∙ head_node)
        passed.0
        (j, rw length-set at, get_elem?-set_self m.service.input_queue j _ (slot-lt _ ve j at))
        ready'
        (Live-Passed laws batch metadata ve unique world world' m e i j (suc (suc i)) ns passed
          (omega arith) places live)
        distinct' (after, places) computes
