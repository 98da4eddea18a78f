-- ===== src/Pipeline/EndToEnd.antt =====
-- The whole way of a batch: what the head returns for it.
use mathlib.Core.List.{append_assoc}
use mo_link.Prelude.{
  ℕ, ◌<◌, ℤ, String, Dict, Distinct, ◌≡◌, refl, ap, sym, ◌∙◌, subst, some, List, [], ◌∷◌, ◌++◌, map,
  length, length-set, get_elem?-set_self, length-append, get_elem?, get_elem?_middle, set, Unique,
  ok, arith,
}
use mo_link.Topology.{Metadata, get_metadata}
use mo_link.Platform.{Platform, RoundTrips, Output, intermediate}
use mo_link.Worker
use mo_link.Worker.{Worker}
use mo_link.Delivery.{next, maxsize, sent_item, request_of}
use mo_link.Delivery.Order.{running, with_queue}
use mo_link.Service.{slot}
use mo_link.Service.Queues.{get-put_empty, slot-lt}
use mo_link.Executor.{Node, start_batch, collect_result}
use mo_link.Executor.Steps.{tensors_to_cpu}
use mo_link.Executor.Start.{start_batch-next}
use mo_link.Pipeline.{World, Event, submit, deliver, run, step}
use mo_link.Pipeline.Transport.{visit, visit_self}
use mo_link.Pipeline.Server.{HasProcess, Computes, walk_events, Places, Live, differs}
use mo_link.Pipeline.Walk.{answered, filled, Passed, pass-on, Live-Passed, walk}

abbrev pub HasOutput : {p : Platform} → ℤ → Node p → List p.Bytes → Type 0
HasOutput ve n outputs =
    (k : ℕ) × (slot (length n.service.output_queue) ve ≡ some k)
    × (get_elem? n.service.output_queue k ≡ some outputs)

-- The same for the whole model: the head's layers, and then those of the workers behind it.
unfoldable pub PipelineComputes :
    {p : Platform}
    → p.Batch
    → Worker p
    → Worker p
    → List (Worker p)
    → Output p.Tensor p.Reply
    → Type 0
unfolding Computes
PipelineComputes {p} batch w₀ w ws output =
    (d : Dict p.Tensor) × ((Worker.execute_model w₀ batch).0 ≡ ok (intermediate d))
    × Distinct d
    × Computes batch w ws d output

Places-append :
    {p : Platform} (front : List String) (ns : List (Node p))
    → Places (front ++ map (λ n. n.grpc_address) ns) (length front) ns
Places-append front [] = omega (arith, length-append front [])
Places-append front (n ∷ ns) =
    let a = n.grpc_address in
    let rest = map (λ s. s.grpc_address) ns in
    (
      get_elem?_middle front a rest,
      subst (λ i. Places (front ++ a ∷ rest) i ns) (length-append front (a ∷ []) ∙ omega arith)
          (subst (λ l. Places l (length (front ++ a ∷ [])) ns) (append_assoc front (a ∷ []) rest)
            (Places-append (front ++ a ∷ []) ns)),
    )

module _ {p : Platform} where
  abbrev with_answer : Node p → ℕ → p.Bytes → Node p
  with_answer n k bytes = record n {
    service = record n.service { output_queue = set n.service.output_queue k (bytes ∷ []) };
  }

  -- A head starts a batch and sends to the second server, then each server has its turn.
  abbrev pub pipeline_events : p.Batch → Node p → List (Node p) → List (Event p)
  pipeline_events batch n ns =
      submit n.grpc_address batch ∷ deliver n.grpc_address ∷ walk_events (p.virtual_engine batch) ns

  collect-answer :
      (laws : RoundTrips p) (n : Node p) (ve : ℤ) (k : ℕ) (output : Output p.Tensor p.Reply)
      → slot (length n.service.output_queue) ve ≡ some k
      → get_elem? n.service.output_queue k ≡ some []
      → collect_result (with_answer n k (p.dump_output output)) ve ≡ ok (output, n)
  unfolding collect_result
  collect-answer laws n ve k output at empty =
      rw
        (
          get-put_empty n.service.output_queue ve (p.dump_output output) k at empty,
          laws.output output,
        )
        refl

  module _ (laws : RoundTrips p) (batch : p.Batch) (world : World p) (n m : Node p)
      (ns : List (Node p)) (tokens : 0 < p.num_tokens batch)
      (servers : (get_metadata n.service.topology).server_list
        ≡ map (λ s. s.grpc_address) (n ∷ m ∷ ns))
      (unique : Unique (get_metadata n.service.topology).server_list)
      (head_is : (get_metadata n.service.topology).head ≡ n.grpc_address)
      (here : world n.grpc_address ≡ some n) where
    abbrev metadata : Metadata
    metadata = get_metadata n.service.topology

    abbrev ve : ℤ
    ve = p.virtual_engine batch

    abbrev started : World p
    started = visit world n.grpc_address (λ s. (start_batch s batch).2)

    -- What the head has done before the servers behind it have their turns.
    head_leaves :
        (d : Dict p.Tensor) (j : ℕ)
        → HasProcess n
        → world m.grpc_address ≡ some m
        → slot (length m.service.input_queue) ve ≡ some j
        → get_elem? m.service.input_queue j ≡ some []
        → (Worker.execute_model n.worker batch).0 ≡ ok (intermediate d)
        → (n₀ : Node p) × (started n.grpc_address ≡ some n₀)
          × (n₀.service ≡ n.service)
          × Passed laws batch metadata ve unique world started m 0 d j
    unfolding request_of
    head_leaves d j (q, has_q, no_items, on) there at empty makes =
        let fits : length q.delivery_queue < maxsize = rw no_items (omega arith) in
        let item = next (tensors_to_cpu p d) (p.dump_batch batch) metadata ve m.grpc_address in
        let q' = with_queue q (q.delivery_queue ++ item ∷ []) in
        let one : q'.delivery_queue ≡ item ∷ [] = ap (λ l. l ++ item ∷ []) no_items in
        let (has_q', same_service) =
          start_batch-next n batch d q n.grpc_address m.grpc_address _ tokens servers makes has_q
            fits in
        let place = ap (λ l. get_elem? l 0) servers in
        let after = ap (λ l. get_elem? l 1) servers in
        let n₁ = (start_batch n batch).2 in
        (
          record n₁ { delivery_manager = running (sent_item q' item []) },
          visit_self world n.grpc_address (λ s. (start_batch s batch).2) n n₁ q' item here refl
              has_q' one on
              (differs metadata.server_list 1 0 m.grpc_address n.grpc_address unique after place
                (λ e. omega arith)),
          same_service,
          pass-on laws batch metadata ve unique world (λ s. (start_batch s batch).2) n n₁ m q' d 0 j
              here there at empty place after refl has_q' one on,
        )

    -- For a head with this pipeline of at least two distinct nodes, in which nothing is on its way for
    -- the batch's virtual engine, and for serializers whose round trips hold: when the head has
    -- started a batch with tokens and each node has had its turn, the head's wait ends with the output
    -- that the stages of the model give on the batch one after the other.
    pub batch_through_pipeline :
        (output : Output p.Tensor p.Reply)
        → HasProcess n
        → HasOutput ve n []
        → Live ve world (m ∷ ns)
        → PipelineComputes batch n.worker m.worker (map (λ s. s.worker) ns) output
        → (n' n'' : Node p) × (run world (pipeline_events batch n (m ∷ ns)) n.grpc_address
            ≡ some n')
          × (collect_result n' ve ≡ ok (output, n''))
    unfolding PipelineComputes run step
    batch_through_pipeline output ready (k, k_slot, k_empty) (there, (j, at, empty), ready', live)
          (d, makes, distinct, computes) =
        let (n₀, left, same_service, passed) = head_leaves d j ready there at empty makes in
        let head_place = ap (λ l. get_elem? l 0) servers ∙ ap some (sym head_is) in
        let k_slot₀ = ap (λ s. slot (length s.output_queue) ve) same_service ∙ k_slot in
        let k_empty₀ = ap (λ s. get_elem? s.output_queue k) same_service ∙ k_empty in
        let places =
          subst (λ l. Places l 1 (m ∷ ns)) (sym servers)
            (Places-append (n.grpc_address ∷ []) (m ∷ ns)) in
        let walked =
          walk laws batch metadata ve unique head_place n₀ k k_slot₀ k_empty₀ started
            (filled laws batch metadata ve unique m j d) ns d output 1 (omega arith)
            (ap started head_is ∙ left) passed.0
            (j, rw length-set at, get_elem?-set_self m.service.input_queue j _ (slot-lt _ ve j at))
            ready'
            (Live-Passed laws batch metadata ve unique world started m d 0 j 2 ns passed
              (omega arith) places.1 live)
            distinct places computes in
        (
          answered laws batch metadata ve unique head_place n₀ k k_slot₀ k_empty₀ output,
          n₀,
          ap (run started (walk_events ve (m ∷ ns))) (sym head_is) ∙ walked,
          collect-answer laws n₀ ve k output k_slot₀ k_empty₀,
        )
