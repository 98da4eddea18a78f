-- ===== src/Swarm/EndToEnd.antt =====
-- The whole way of a batch on the older engine: what the head returns for it.
use mo_link.Prelude.{
  ℕ, ℤ, String, Dict, Distinct, false, ◌≡◌, refl, ap, sym, ◌∙◌, subst, none, some, List, [], ◌∷◌,
  map, length, length-set, get_elem?, get_elem?-set_self, set, drop, Unique, ok, arith,
}
use mo_link.Topology.{Metadata}
use mo_link.StubList.{StubList, refresh_stubs}
use mo_link.StubList.Refresh.{IsRefreshed, refresh_stubs-IsRefreshed}
use mo_link.Service.{slot}
use mo_link.Service.Queues.{get-put_empty, slot-lt}
use mo_link.Pipeline.Server.{differs}
use mo_link.Swarm.{StageOutput, tensors, sampled, Codec, Laws, Node}
use mo_link.Swarm.Deliver.{request_of}
use mo_link.Swarm.HeadServer.{pipeline_of, start_batch, collect_result}
use mo_link.Swarm.Network.{World, Event, submit, deliver, run, step}
use mo_link.Swarm.Handlers.{returned}
use mo_link.Swarm.Passing.{visit, visit_self}
use mo_link.Swarm.Start.{first_item, start_batch-next}
use mo_link.Swarm.Walk.{Computes, walk_events, Live, answered, filled, pass-on, Live-Passed, walk}

-- The same for the whole model: the head's layers, and then those of the servers behind it.
unfoldable pub SwarmComputes :
    {c : Codec} → Laws c → c.Request → c.Runner → c.Runner → List c.Runner → c.Sampled → Type 0
unfolding Computes
SwarmComputes {c} laws req w₀ w ws s =
    (d : Dict c.Tensor) × (rest : List (StageOutput c.Tensor c.Sampled)) × ((c.run_model w₀ req
        none).0
      ≡ ok (tensors d ∷ rest))
    × Distinct d
    × Computes laws (c.clear_callback req) w ws d s

module _ {c : Codec} where
  -- A head starts a batch and sends to the second server, then each server that it triggers has its
  -- turn.
  abbrev pub swarm_events : c.Request → String → List String → List (Event c)
  swarm_events req a servers = submit a req ∷ deliver a ∷ walk_events (c.virtual_engine req) servers

  abbrev with_answer : Node c → ℕ → List (StageOutput c.Tensor c.Sampled) → Node c
  with_answer n k outputs = record n { output_queue = set n.output_queue k (outputs ∷ []) }

  collect-answer :
      (n : Node c) (ve : ℤ) (k : ℕ) (outputs : List (StageOutput c.Tensor c.Sampled))
      → slot (length n.output_queue) ve ≡ some k
      → get_elem? n.output_queue k ≡ some []
      → collect_result (with_answer n k outputs) ve ≡ ok (outputs, n)
  unfolding collect_result
  collect-answer n ve k outputs at empty = rw (get-put_empty n.output_queue ve outputs k at empty)

  module _ (laws : Laws c) (req : c.Request) (world : World c) (metadata : Metadata) (n m : Node c)
      (ns : List (Node c))
      (pipeline : pipeline_of n ≡ (some metadata, map (λ s. s.address) (m ∷ ns)))
      (servers : metadata.server_list ≡ map (λ s. s.address) (n ∷ m ∷ ns))
      (unique : Unique metadata.server_list) (head_is : metadata.head ≡ n.address)
      (direct : n.in_autodl ≡ false) (here : world n.address ≡ some n) where
    -- For a head outside the AutoDL environment whose metadata names it and at least one server
    -- behind it, each once, whose stubs are those of its preset list and pass the check, in a swarm
    -- where nothing waits to be sent and nothing is queued for the batch's virtual engine, where
    -- the servers behind the head are outside that environment too, the last of them and no other
    -- is marked as the last rank and none as the first, and for serializers whose laws hold: the
    -- head triggers exactly the servers behind it, in their order, and when each node has had its
    -- turn, the head's wait ends with the one output that the stages of the model give on the batch
    -- one after the other, as it arrives.
    pub batch_through_swarm :
        (s : c.Sampled) (stubs : StubList) (k : ℕ)
        → n.process_queue ≡ []
        → n.stubs.stub_list ≡ n.stubs.preset_server_list
        → refresh_stubs n.stubs (map (λ v. v.address) (m ∷ ns)) ≡ ok stubs
        → slot (length n.output_queue) (c.virtual_engine req) ≡ some k
        → get_elem? n.output_queue k ≡ some []
        → Live (c.virtual_engine req) world (m ∷ ns)
        → SwarmComputes laws req n.runner m.runner (map (λ v. v.runner) ns) s
        → ((start_batch n req).0 ≡ some (map (λ v. v.address) (m ∷ ns)))
          × ((n' n'' : Node c) × (run world
                  (swarm_events req n.address (map (λ v. v.address) (m ∷ ns)))
                  n.address
                ≡ some n')
              × (collect_result n' (c.virtual_engine req)
                  ≡ ok (sampled (returned laws s) ∷ [], n'')))
    unfolding SwarmComputes run step request_of
    batch_through_swarm s stubs k idle fresh kept k_slot k_empty
          (there, (j, at, empty), server, live) (d, rest, makes, distinct, computes) =
        let ve = c.virtual_engine req in
        let behind = map (λ v. v.address) ns in
        let f : Node c → Node c = λ v. (start_batch v req).1 in
        let begun =
          start_batch-next req metadata m.address behind d rest n stubs pipeline servers direct idle
            makes kept in
        let refreshed =
          subst (IsRefreshed n.stubs.preset_server_list (m.address ∷ behind)) kept
            (refresh_stubs-IsRefreshed n.stubs (m.address ∷ behind) fresh) in
        let one = ap (λ r. r.1.process_queue) begun in
        let place = ap (λ l. get_elem? l 0) servers in
        let after = ap (λ l. get_elem? l 1) servers in
        let head_place = place ∙ ap some (sym head_is) in
        let world' = visit world n.address f in
        let n₀ : Node c = record (f n) { process_queue = [] } in
        let left =
          visit_self world n.address m.address f n (first_item req metadata m.address behind d rest)
            here one refl
            (differs metadata.server_list 1 0 m.address n.address unique after place
              (λ e. omega arith)) in
        let passed =
          pass-on laws metadata ve unique world f n m (c.clear_callback req) d 0 j here there at
            empty place after one in
        let same = ap (λ r. r.1.output_queue) begun in
        let k_slot₀ = ap (λ q. slot (length q) ve) same ∙ k_slot in
        let k_empty₀ = ap (λ q. get_elem? q k) same ∙ k_empty in
        let places = ap (drop 1) servers in
        let walked =
          walk laws metadata ve unique head_place n₀ k k_slot₀ k_empty₀ world'
            (filled laws metadata ve unique m j (c.clear_callback req) d) ns (c.clear_callback req)
            d s 1 j (omega arith) (ap world' head_is ∙ left) passed.0 (rw length-set at)
            (get_elem?-set_self m.input_queue j _ (slot-lt _ ve j at)) server
            (Live-Passed laws metadata ve unique world world' m (c.clear_callback req) d 0 j 2 ns
              passed (omega arith) (ap (drop 2) servers) live)
            distinct places computes in
        (
          ap (λ r. r.0) begun ∙ ap some refreshed.1,
          (
            answered laws metadata ve unique head_place n₀ k k_slot₀ k_empty₀ s,
            n₀,
            ap (run world' (walk_events ve (m.address ∷ behind))) (sym head_is) ∙ walked,
            collect-answer n₀ ve k (sampled (returned laws s) ∷ []) k_slot₀ k_empty₀,
          ),
        )
