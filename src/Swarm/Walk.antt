-- ===== src/Swarm/Walk.antt =====
-- A batch on its way through the servers behind the head, and back to the head.
use mo_link.Prelude.{
  ℕ, zero, suc, drop, ◌<◌, ℤ, String, eq_refl, Dict, Distinct, Bool, true, false, ◌≡◌, ◌≢◌, refl,
  ap, sym, ◌∙◌, some, List, [], ◌∷◌, map, length, get_elem?, set, length-set, get_elem?-set_self,
  Unique, ok, arith,
}
use mo_link.Topology.{Metadata}
use mo_link.Service.{slot}
use mo_link.Service.Queues.{slot-lt}
use mo_link.Pipeline.Server.{differs}
use mo_link.Swarm.{
  StageOutput, tensors, sampled, Codec, Laws, Item, next, head, Node, values_to_cpu,
}
use mo_link.Swarm.Deliver.{request_of}
use mo_link.Swarm.CommService.{executing_worker_step}
use mo_link.Swarm.Network.{World, Event, deliver, trigger, run, step}
use mo_link.Swarm.Handlers.{
  received, returned, packet_of, receive-next, receive-head, step-next, step-head,
}
use mo_link.Swarm.Passing.{visit, visit-elsewhere}

-- The model on these servers one after the other. What a server runs on is the request as it comes
-- out of the one before; each server but the last makes tensors, and `s` is what the last one makes.
unfoldable pub Computes :
    {c : Codec} → Laws c → c.Request → c.Runner → List c.Runner → Dict c.Tensor → c.Sampled → Type 0
Computes {c} laws req w [] d s =
    (rest : List (StageOutput c.Tensor c.Sampled)) × ((c.run_model w (received laws req) (some d)).0
      ≡ ok (sampled s ∷ rest))
Computes {c} laws req w (v ∷ vs) d s =
    (e : Dict c.Tensor) × (rest : List (StageOutput c.Tensor c.Sampled)) × ((c.run_model w
        (received laws req) (some d)).0
      ≡ ok (tensors e ∷ rest))
    × Distinct e
    × Computes laws (received laws req) v vs e s

drop-cons :
    (xs : List String) (i : ℕ) (a : String) (rest : List String)
    → drop i xs ≡ a ∷ rest
    → (get_elem? xs i ≡ some a) × (drop (suc i) xs ≡ rest)
drop-cons [] zero a rest h = absurd (ground (arith, h))
drop-cons [] (suc i) a rest h = absurd (ground (arith, h))
drop-cons (x ∷ xs) zero a rest h = (ground (arith, h), ground (arith, h))
drop-cons (x ∷ xs) (suc i) a rest h = drop-cons xs i a rest h

module _ {c : Codec} where
  abbrev pub walk_events : ℤ → List String → List (Event c)
  walk_events ve [] = []
  walk_events ve (a ∷ servers) = trigger a ve ∷ deliver a ∷ walk_events ve servers

  abbrev pub is_end : List (Node c) → Bool
  is_end [] = true
  is_end (n ∷ ns) = false

  -- A server behind the head with nothing to send, and the last one where `end` says so.
  abbrev pub IsServer : Bool → Node c → Type 0
  IsServer end n =
      (n.process_queue ≡ [])
      × (n.in_autodl ≡ false)
      × (n.is_first_rank ≡ false)
      × (n.is_last_rank ≡ end)

  -- These nodes stand at the places of the list from `i` on.
  abbrev pub Places : List String → ℕ → List (Node c) → Type 0
  Places servers i ns = drop i servers ≡ map (λ n. n.address) ns

  -- The servers are there, and nothing waits for the virtual engine.
  abbrev pub Live : ℤ → World c → List (Node c) → Type 0
  Live ve world [] = Unit
  Live ve world (n ∷ ns) =
      (world n.address ≡ some n)
      × ((i : ℕ) × (slot (length n.input_queue) ve ≡ some i)
          × (get_elem? n.input_queue i ≡ some []))
      × IsServer (is_end ns) n
      × Live ve world ns

module _ {c : Codec} (laws : Laws c) (metadata : Metadata) (ve : ℤ)
    (unique : Unique metadata.server_list) where
  abbrev pub handle : Node c → Node c
  handle n = (executing_worker_step n ve).1

  -- The next node with the packet that has come to it.
  abbrev pub filled : Node c → ℕ → c.Request → Dict c.Tensor → Node c
  filled m j req e = record m {
    input_queue = set m.input_queue j (packet_of laws req e (some metadata) ∷ []);
  }

  -- What the rest of the walk needs of the world after a visit to the node at place `i`.
  abbrev pub Passed : World c → World c → Node c → ℕ → c.Request → Dict c.Tensor → ℕ → Type 0
  Passed world world' m i req e j =
      (world' m.address ≡ some (filled m j req e))
      × ((l : ℕ) (b : String)
          → l ≢ i
          → l ≢ suc i
          → get_elem? metadata.server_list l ≡ some b
          → world' b ≡ world b)

  pub pass-on :
      (world : World c) (f : Node c → Node c) (n m : Node c) (req : c.Request) (e : Dict c.Tensor)
      (i j : ℕ)
      → world n.address ≡ some n
      → world m.address ≡ some m
      → slot (length m.input_queue) ve ≡ some j
      → get_elem? m.input_queue j ≡ some []
      → get_elem? metadata.server_list i ≡ some n.address
      → get_elem? metadata.server_list (suc i) ≡ some m.address
      → (f n).process_queue ≡ next (values_to_cpu c e) req (some metadata) ve m.address ∷ []
      → Passed world (visit world n.address f) m i req e j
  unfolding request_of
  pass-on world f n m req e i j here there at empty place after one =
      let item : Item c = next (values_to_cpu c e) req (some metadata) ve m.address in
      (
        visit-elsewhere world n.address m.address f n item here one refl m.address (
              differs metadata.server_list i (suc i) n.address m.address unique place after
                (λ eq. omega arith))
            ∙ rw (eq_refl m.address, there)
                (ap some (receive-next laws m e req (some metadata) ve m.address j at empty)),
        λ l b not_i not_m at_l.
            visit-elsewhere world n.address m.address f n item here one refl b (
              differs metadata.server_list i l n.address b unique place at_l (λ eq. not_i (sym eq)))
            ∙ rw
                (differs metadata.server_list (suc i) l m.address b unique after at_l
                  (λ eq. not_m (sym eq)))
                refl,
      )

  pub Live-Passed :
      (world world' : World c) (m : Node c) (req : c.Request) (e : Dict c.Tensor) (i j l : ℕ)
      (ns : List (Node c))
      → Passed world world' m i req e j
      → suc i < l
      → Places metadata.server_list l ns
      → Live ve world ns
      → Live ve world' ns
  Live-Passed world world' m req e i j l [] passed further places live = tt
  Live-Passed world world' m req e i j l (n ∷ ns) passed further places (here, empty, ready, live) =
      let (place, later) =
        drop-cons metadata.server_list l n.address (map (λ m. m.address) ns) places in
      (
        passed.1 l n.address (λ eq. omega arith) (λ eq. omega arith) place ∙ here,
        empty,
        ready,
        Live-Passed world world' m req e i j (suc l) ns passed (omega arith) later live,
      )

  module _ (head_place : get_elem? metadata.server_list 0 ≡ some metadata.head) (n₀ : Node c)
      (k : ℕ) (k_slot : slot (length n₀.output_queue) ve ≡ some k)
      (k_empty : get_elem? n₀.output_queue k ≡ some []) where
    abbrev pub answered : c.Sampled → Node c
    answered s = record n₀ {
      output_queue = set n₀.output_queue k ((sampled (returned laws s) ∷ []) ∷ []);
    }

    walk-last :
        (world : World c) (n : Node c) (req : c.Request) (d : Dict c.Tensor) (s : c.Sampled)
        (i j : ℕ)
        → 0 < i
        → world metadata.head ≡ some n₀
        → world n.address ≡ some n
        → slot (length n.input_queue) ve ≡ some j
        → get_elem? n.input_queue j ≡ some (packet_of laws req d (some metadata) ∷ [])
        → IsServer true n
        → Distinct d
        → get_elem? metadata.server_list i ≡ some n.address
        → Computes laws req n.runner [] d s
        → visit world n.address handle metadata.head ≡ some (answered s)
    unfolding Computes request_of
    walk-last world n req d s i j later head_node here at full (idle, direct, second, last) distinct
          place (rest, computes) =
        let one =
          step-head laws n req metadata ve d (sampled s) rest j at full distinct computes last
            second direct idle in
        visit-elsewhere world n.address metadata.head handle n
          (head (sampled s) (received laws req) (some metadata) ve (some metadata.head)) here one
          refl metadata.head
          (differs metadata.server_list i 0 n.address metadata.head unique place head_place
            (λ eq. omega arith))
        ∙ rw (eq_refl metadata.head, head_node)
            (ap some (
              receive-head laws n₀ s (received laws req) (some metadata) ve (some metadata.head) k
                k_slot k_empty))

    pub walk :
        (world : World c) (n : Node c) (ns : List (Node c)) (req : c.Request) (d : Dict c.Tensor)
        (s : c.Sampled) (i j : ℕ)
        → 0 < i
        → world metadata.head ≡ some n₀
        → world n.address ≡ some n
        → slot (length n.input_queue) ve ≡ some j
        → get_elem? n.input_queue j ≡ some (packet_of laws req d (some metadata) ∷ [])
        → IsServer (is_end ns) n
        → Live ve world ns
        → Distinct d
        → Places metadata.server_list i (n ∷ ns)
        → Computes laws req n.runner (map (λ m. m.runner) ns) d s
        → run world (walk_events ve (map (λ m. m.address) (n ∷ ns))) metadata.head
          ≡ some (answered s)
    unfolding run Computes step
    walk world n [] req d s i j later head_node here at full server live distinct places computes =
        walk-last world n req d s i j later head_node here at full server distinct
          (drop-cons metadata.server_list i n.address [] places).0 computes
    walk world n (m ∷ ns) req d s i j later head_node here at full (idle, direct, second, middle)
          (there, (j', at', empty), server', live) distinct places
          (e, rest, makes, distinct', computes) =
        let behind = map (λ v. v.address) ns in
        let (place, places') =
          drop-cons metadata.server_list i n.address (m.address ∷ behind) places in
        let (after, places'') = drop-cons metadata.server_list (suc i) m.address behind places' in
        let one =
          step-next laws n req metadata ve d e rest j i m.address at full distinct makes middle
            direct idle unique place after in
        let passed =
          pass-on world handle n m (received laws req) e i j' here there at' empty place after
            one in
        let world' = visit world n.address handle in
        walk world' (filled m j' (received laws req) e) ns (received laws req) e s (suc i) j'
          (omega arith)
          (passed.1 0 metadata.head (λ eq. omega arith) (λ eq. omega arith) head_place ∙ head_node)
          passed.0 (rw length-set at') (get_elem?-set_self m.input_queue j' _ (slot-lt _ ve j' at'))
          server'
          (Live-Passed world world' m (received laws req) e i j' (suc (suc i)) ns passed
            (omega arith) places'' live)
          distinct' places' computes
