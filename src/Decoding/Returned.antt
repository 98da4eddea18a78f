-- ===== src/Decoding/Returned.antt =====
-- What arrives at the head of the output that a stage has sent.
use mo_link.Prelude.{ℤ, String, lookup, List, [], ◌∷◌, map, ok, ◌≡◌, refl}
use mo_link.Decoding.{Numbers, Json, array_of, object_of, list-items, at, elements, entries, get_or}
use mo_link.Decoding.Outputs.{
  Logprob, SequenceOutput, CompletionSequenceGroupOutput, Logprobs, as_sent, of_sample, or_inf,
  decode_entry, first_entry, decode_sample, decode_samples, decode_groups, decoding_sampler_outputs,
}

module _ (num : Numbers) where
  -- A sample with at least one logprob, in the order of its dictionary.
  pub record Sample : Type 0 where
    pub parent_seq_id : Json num
    pub output_token : Json num
    pub first : ℤ × Logprob num
    pub others : List (ℤ × Logprob num)

  pub record Group : Type 0 where
    pub samples : List Sample
    pub prompt_logprobs : Json num

  pub record Sent : Type 0 where
    pub outputs : List Group
    pub sampled_token_probs : Json num
    pub logprobs : Json num
    pub deferred_sample_results_args : Json num
    pub sampled_token_ids : Json num
    pub sampled_token_ids_cpu : Json num
    pub spec_decode_worker_metrics : Json num
    pub hidden_states : Json num
    pub prefill_hidden_states : Json num
    pub model_forward_time : Json num
    pub model_execute_time : Json num

module _ {num : Numbers} where
  -- The layout of msgspec: arrays for vLLM's structs, objects for dataclasses and dictionaries.
  abbrev entry_layout : ℤ × Logprob num → String × Json num
  entry_layout (token, l) = (
    num.text_of token,
    object_of num
        (("logprob", l.logprob) ∷ ("rank", l.rank) ∷ ("decoded_token", l.decoded_token) ∷ []),
  )

  abbrev sample_layout : Sample num → Json num
  sample_layout s = array_of num (
      s.parent_seq_id
      ∷ s.output_token
      ∷ object_of num (entry_layout s.first ∷ map entry_layout s.others)
      ∷ [])

  abbrev group_layout : Group num → Json num
  group_layout g =
      array_of num (array_of num (map sample_layout g.samples) ∷ g.prompt_logprobs ∷ [])

  abbrev pub layout : Sent num → Json num
  layout o = array_of num (
      array_of num (map group_layout o.outputs)
      ∷ o.sampled_token_probs
      ∷ o.logprobs
      ∷ o.deferred_sample_results_args
      ∷ o.sampled_token_ids
      ∷ o.sampled_token_ids_cpu
      ∷ o.spec_decode_worker_metrics
      ∷ o.hidden_states
      ∷ o.prefill_hidden_states
      ∷ o.model_forward_time
      ∷ o.model_execute_time
      ∷ [])

  -- A sample arrives with its first logprob only.
  abbrev arrived_entry : ℤ × Logprob num → ℤ × Logprob num
  arrived_entry (token, l) = (token, record l { logprob = or_inf l.logprob })

  abbrev pub arrived_sample : Sample num → SequenceOutput num
  arrived_sample s = record {
    parent_seq_id = s.parent_seq_id;
    output_token = s.output_token;
    logprobs = arrived_entry s.first;
  }

  abbrev pub arrived_group : Group num → CompletionSequenceGroupOutput num
  arrived_group g = record {
    samples = map arrived_sample g.samples;
    prompt_logprobs = g.prompt_logprobs;
  }

  -- The first logprob of the last of these samples, if there is one.
  abbrev last_sample : List (Sample num) → Logprobs num → Logprobs num
  last_sample [] logprobs = logprobs
  last_sample (s ∷ samples) logprobs = last_sample samples (of_sample (arrived_entry s.first))

  abbrev pub last_of : List (Group num) → Logprobs num → Logprobs num
  last_of [] logprobs = logprobs
  last_of (g ∷ groups) logprobs = last_of groups (last_sample g.samples logprobs)

  module _ (int_of-text_of : (k : ℤ) → num.int_of (num.text_of k) ≡ ok k) where
    decode_entry-layout :
        (e : ℤ × Logprob num) → decode_entry (entry_layout e) ≡ ok (arrived_entry e)
    unfolding decode_entry get_or entries lookup
    decode_entry-layout (token, l) = rw (int_of-text_of token)

    decode_sample-layout :
        (s : Sample num) → decode_sample (sample_layout s) ≡ ok (arrived_sample s)
    unfolding decode_sample first_entry at entries
    decode_sample-layout s = rw (decode_entry-layout s.first)

    decode_samples-layout :
        (samples : List (Sample num)) (logprobs : Logprobs num)
        → decode_samples (map sample_layout samples) logprobs
          ≡ ok (map arrived_sample samples, last_sample samples logprobs)
    unfolding decode_samples
    decode_samples-layout [] logprobs = refl
    decode_samples-layout (s ∷ samples) logprobs =
        rw (
          decode_sample-layout s,
          decode_samples-layout samples (of_sample (arrived_entry s.first)),
        )

    decode_groups-layout :
        (groups : List (Group num)) (logprobs : Logprobs num)
        → decode_groups (map group_layout groups) logprobs
          ≡ ok (map arrived_group groups, last_of groups logprobs)
    unfolding decode_groups at elements
    decode_groups-layout [] logprobs = refl
    decode_groups-layout (g ∷ groups) logprobs = rw (
      list-items (map sample_layout g.samples),
      decode_samples-layout g.samples logprobs,
      decode_groups-layout groups (last_sample g.samples logprobs),
    )

    -- Where int reads the written keys back, an output in msgspec's layout, each sample of which has a
    -- logprob, is decoded without an error: the samples arrive in their groups and order, but each with
    -- its first logprob only, and the logprobs field of the output is lost, since the first logprob of
    -- the last sample takes its place, if there is one.
    pub decoding_sampler_outputs_lem :
        (o : Sent num) (v : Json num)
        → v ≡ layout o
        → decoding_sampler_outputs v
          ≡ ok (record {
            outputs = map arrived_group o.outputs;
            sampled_token_probs = o.sampled_token_probs;
            sampled_token_ids = o.sampled_token_ids;
            logprobs = last_of o.outputs (as_sent o.logprobs);
            deferred_sample_results_args = o.deferred_sample_results_args;
          })
    unfolding decoding_sampler_outputs at elements
    decoding_sampler_outputs_lem o v written = rw (
      written,
      list-items (map group_layout o.outputs),
      decode_groups-layout o.outputs (as_sent o.logprobs),
    )
