-- ===== src/Swarm/Handlers.antt =====
-- What each handler does with the entry of one batch.
use mo_link.Prelude.{
  ℕ, zero, suc, ◌+◌, ℤ, String, eq_iff, Dict, Distinct, contains, elem-get_elem?, Unique, length,
  leb, get_elem?, set, lt_of_get_elem?, true, false, ◌≡◌, refl, ap, ◌∙◌, Option, some, List, [],
  ◌∷◌, map, ok, arith,
}
use mo_link.Topology.{Metadata}
use mo_link.Service.{slot, collect}
use mo_link.Service.Queues.{put-some, get-some, collect-Distinct}
use mo_link.Swarm.{
  StageOutput, tensors, sampled, Codec, Laws, next, head, Packet, Node, put_nowait, values_to_cpu,
}
use mo_link.Swarm.Deliver.{request_of}
use mo_link.Swarm.CommService.{
  decode_request, decode_output, idx_self, server_after, load_tensors, push_intermediate_tensors,
  push_sampler_output, next_server_of, head_server_of, push_on, route, after_run, driver_exec_model,
  run_packet, on_input, executing_worker_step,
}
use mo_link.Swarm.Network.{receive}
use mo_link.Decoding.Outputs.{as_sent}
use mo_link.Decoding.Sent
use mo_link.Decoding.Sent.{arrived}
use mo_link.Decoding.Received.{decoding_execute_model_req_lem}
use mo_link.Decoding.Returned
use mo_link.Decoding.Returned.{arrived_group, last_of, decoding_sampler_outputs_lem}

idx_self_of_get_elem? :
    (x : String) (xs : List String) (i : ℕ)
    → Unique xs
    → get_elem? xs i ≡ some x
    → idx_self x xs ≡ i
unfolding idx_self
idx_self_of_get_elem? x [] i u h = cc
idx_self_of_get_elem? x (y ∷ ys) zero u h = ground (arith, eq_iff y x)
idx_self_of_get_elem? x (y ∷ ys) (suc i) u h =
    ground (arith, eq_iff y x, idx_self_of_get_elem? x ys i u.1, elem-get_elem? x ys i)

server_after_place :
    (x y : String) (xs : List String) (i : ℕ)
    → Unique xs
    → get_elem? xs i ≡ some x
    → get_elem? xs (suc i) ≡ some y
    → server_after x xs ≡ some y
unfolding server_after
server_after_place x y xs i u at_i after =
    let e : i + 1 ≡ suc i = omega arith in
    let more : leb (length xs) (suc i) ≡ false =
      ground (arith, lt_of_get_elem? xs (suc i) y after) in
    rw (idx_self_of_get_elem? x xs i u at_i, e, more) after

abbrev pub save_tensors : (c : Codec) → Dict c.Tensor → Dict c.Bytes
save_tensors c d = map (λ e. (e.0, c.save e.1)) (values_to_cpu c d)

-- The request as it comes out of a server, and the output as it comes back.
abbrev pub received : {c : Codec} → Laws c → c.Request → c.Request
received {c} laws r = c.make_request (arrived (laws.sent_request r))

abbrev pub returned : {c : Codec} → Laws c → c.Sampled → c.Sampled
returned {c} laws s =
    let o = laws.sent_output s in
    c.make_output (record {
      outputs = map arrived_group o.outputs;
      sampled_token_probs = o.sampled_token_probs;
      sampled_token_ids = o.sampled_token_ids;
      logprobs = last_of o.outputs (as_sent o.logprobs);
      deferred_sample_results_args = o.deferred_sample_results_args;
    })

module _ {c : Codec} (laws : Laws c) where
  decode_request-received :
      (r : c.Request)
      → decode_request c
          (c.encode_request (c.clear_multi_modal (c.clear_callback (c.plain_tokens r))))
        ≡ ok (received laws r)
  unfolding decode_request
  decode_request-received r = rw (
    laws.request r,
    decoding_execute_model_req_lem c.num laws.int_of-text_of (laws.sent_request r)
        (Sent.layout (laws.sent_request r)) refl (laws.groups r),
  )

  decode_output-returned :
      (s : c.Sampled) → decode_output c (c.encode_output (sampled s)) ≡ ok (returned laws s)
  unfolding decode_output
  decode_output-returned s = rw (
    laws.output s,
    decoding_sampler_outputs_lem laws.int_of-text_of (laws.sent_output s)
        (Returned.layout (laws.sent_output s)) refl,
  )

  load-save : (d : Dict c.Tensor) → load_tensors c (save_tensors c d) ≡ ok d
  unfolding load_tensors values_to_cpu
  load-save [] = refl
  load-save ((k, t) ∷ d) = rw (laws.tensor t, load-save d)

  contains-save : (k : String) (d : Dict c.Tensor) → contains k (save_tensors c d) ≡ contains k d
  unfolding contains values_to_cpu
  contains-save k [] = refl
  contains-save k ((j, t) ∷ d) = rw (contains-save k d)

  save-Distinct : (d : Dict c.Tensor) → Distinct d → Distinct (save_tensors c d)
  unfolding values_to_cpu
  save-Distinct [] h = tt
  save-Distinct ((k, t) ∷ d) h = (contains-save k d ∙ h.0, save-Distinct d h.1)

  abbrev pub packet_of : c.Request → Dict c.Tensor → Option Metadata → Packet c
  packet_of req d metadata = record {
    execute_model_req = received laws req;
    intermediate_tensors = collect (save_tensors c d);
    grpc_metadata = metadata;
  }

  pub receive-next :
      (n : Node c) (d : Dict c.Tensor) (req : c.Request) (metadata : Option Metadata) (ve : ℤ)
      (server : String) (i : ℕ)
      → slot (length n.input_queue) ve ≡ some i
      → get_elem? n.input_queue i ≡ some []
      → receive {c = c} (request_of {c = c} (next (values_to_cpu c d) req metadata ve server)) n
        ≡ record n { input_queue = set n.input_queue i (packet_of req d metadata ∷ []) }
  unfolding request_of push_intermediate_tensors
  receive-next n d req metadata ve server i at empty = rw (
    receive,
    decode_request-received req,
    laws.metadata metadata,
    put-some n.input_queue ve (packet_of req d metadata) i [] at empty,
  )

  pub receive-head :
      (n : Node c) (s : c.Sampled) (req : c.Request) (metadata : Option Metadata) (ve : ℤ)
      (server : Option String) (k : ℕ)
      → slot (length n.output_queue) ve ≡ some k
      → get_elem? n.output_queue k ≡ some []
      → receive {c = c} (request_of {c = c} (head (sampled s) req metadata ve server)) n
        ≡ record n { output_queue = set n.output_queue k ((sampled (returned laws s) ∷ []) ∷ []) }
  unfolding request_of push_sampler_output
  receive-head n s req metadata ve server k at empty = rw (
    receive,
    decode_output-returned s,
    put-some n.output_queue ve (sampled (returned laws s) ∷ []) k [] at empty,
  )

  -- The model on a server, with the tensors that have come to it.
  module _ (n : Node c) (req : c.Request) (metadata : Metadata) (ve : ℤ) (d : Dict c.Tensor)
      (output : StageOutput c.Tensor c.Sampled) (rest : List (StageOutput c.Tensor c.Sampled))
      (i : ℕ) (at : slot (length n.input_queue) ve ≡ some i)
      (full : get_elem? n.input_queue i ≡ some (packet_of req d (some metadata) ∷ []))
      (distinct : Distinct d)
      (computes : (c.run_model n.runner (received laws req) (some d)).0 ≡ ok (output ∷ rest)) where
    abbrev pub after_model : Node c
    after_model = record n {
      input_queue = set n.input_queue i [];
      runner = (c.run_model n.runner (received laws req) (some d)).1;
    }

    tensors_arrive : load_tensors c (collect (save_tensors c d)) ≡ ok d
    tensors_arrive =
        ap (load_tensors c) (collect-Distinct (save_tensors c d) (save-Distinct d distinct))
        ∙ load-save d

    step-route :
        executing_worker_step n ve ≡ route after_model (received laws req) (some metadata) ve output
    unfolding executing_worker_step on_input run_packet driver_exec_model after_run
    step-route = rw (
      get-some n.input_queue ve (packet_of req d (some metadata)) i [] at full,
      tensors_arrive,
      computes,
    )

  pub step-next :
      (n : Node c) (req : c.Request) (metadata : Metadata) (ve : ℤ) (d e : Dict c.Tensor)
      (rest : List (StageOutput c.Tensor c.Sampled)) (i j : ℕ) (server : String)
      → slot (length n.input_queue) ve ≡ some i
      → get_elem? n.input_queue i ≡ some (packet_of req d (some metadata) ∷ [])
      → Distinct d
      → (c.run_model n.runner (received laws req) (some d)).0 ≡ ok (tensors e ∷ rest)
      → n.is_last_rank ≡ false
      → n.in_autodl ≡ false
      → n.process_queue ≡ []
      → Unique metadata.server_list
      → get_elem? metadata.server_list j ≡ some n.address
      → get_elem? metadata.server_list (suc j) ≡ some server
      → (executing_worker_step n ve).1.process_queue
        ≡ next (values_to_cpu c e) (received laws req) (some metadata) ve server ∷ []
  unfolding route push_on next_server_of put_nowait
  step-next n req metadata ve d e rest i j server at full distinct computes middle direct idle
        unique place after =
      ap (λ r. r.1.process_queue)
        (step-route n req metadata ve d (tensors e) rest i at full distinct computes)
      ∙ rw (
        middle,
        direct,
        server_after_place n.address server metadata.server_list j unique place after,
        idle,
      )

  pub step-head :
      (n : Node c) (req : c.Request) (metadata : Metadata) (ve : ℤ) (d : Dict c.Tensor)
      (output : StageOutput c.Tensor c.Sampled) (rest : List (StageOutput c.Tensor c.Sampled))
      (i : ℕ)
      → slot (length n.input_queue) ve ≡ some i
      → get_elem? n.input_queue i ≡ some (packet_of req d (some metadata) ∷ [])
      → Distinct d
      → (c.run_model n.runner (received laws req) (some d)).0 ≡ ok (output ∷ rest)
      → n.is_last_rank ≡ true
      → n.is_first_rank ≡ false
      → n.in_autodl ≡ false
      → n.process_queue ≡ []
      → (executing_worker_step n ve).1.process_queue
        ≡ head output (received laws req) (some metadata) ve (some metadata.head) ∷ []
  unfolding route head_server_of put_nowait
  step-head n req metadata ve d output rest i at full distinct computes last second direct idle =
      ap (λ r. r.1.process_queue)
        (step-route n req metadata ve d output rest i at full distinct computes)
      ∙ rw (last, second, direct, idle)
