-- ===== src/Decoding/Received.antt =====
-- What arrives at a server of the batch that a node has sent.
use mo_link.Prelude.{
  ℤ, String, Dict, lookup, false, Option, none, some, List, [], ◌∷◌, ◌++◌, map, Result, ok, ◌≡◌,
  refl, sym, ap, ◌∙◌, subst, inl, inr, Bool-cases, ◌>>=◌, arith,
}
use mathlib.Core.List.{append_assoc, append-nil}
use mo_link.Decoding.{
  Numbers, Json, integer, object_of, list-items, dict-fields, at, elements, entries, get_or,
}
use mo_link.Decoding.Records.{eqb_ℤ, insert_int, SequenceData, Names}
use mo_link.Decoding.Sent.{
  is_key, AreNew, int_keys, SentData, SentGroup, SentRequest, IsIds, AreData, AreGroups, seq_layout,
  table_layout, group_layout, layout, arrived_data, arrived_seqs, arrived_group, arrived,
}
use mo_link.Decoding.Requests.{
  longs, token_ids, decode_data, decode_seq_data, decode_tables, get_all, take_all, decode_names,
  names_for, decode_list, size, decode_fields, decoding_execute_model_req,
}

int_keys-append :
    {V : Type 0} (d : List (ℤ × V)) (k : ℤ) (v : V)
    → int_keys (d ++ (k, v) ∷ []) ≡ int_keys d ++ k ∷ []
int_keys-append [] k v = refl
int_keys-append ((j, w) ∷ d) k v = ap (◌∷◌ j) (int_keys-append d k v)

insert_int-new :
    {V : Type 0} (d : List (ℤ × V)) (k : ℤ) (v : V)
    → is_key k (int_keys d) ≡ false
    → insert_int k v d ≡ d ++ (k, v) ∷ []
unfolding insert_int
insert_int-new [] k v new = refl
insert_int-new ((j, w) ∷ d) k v new = elim (Bool-cases (eqb_ℤ j k)) [
  | inl e ↦ absurd (ground (arith, new, e))
  | inr e ↦ rw (e, insert_int-new d k v (ground (arith, new, e)))
]

module _ (num : Numbers) where
  longs-integers : (ids : List ℤ) → longs {num = num} (map integer ids) ≡ ok ids
  unfolding longs
  longs-integers [] = refl
  longs-integers (i ∷ ids) = rw (longs-integers ids)

  read_ids : Option (Json num) → Result (List ℤ)
  read_ids o = elim o [ none ↦ ok [] | some v ↦ elements v >>= longs ]

  read_ids-IsIds : (ids : List ℤ) (o : Option (Json num)) → IsIds ids o → read_ids o ≡ ok ids
  unfolding elements read_ids
  read_ids-IsIds ids o (inl e) =
      ap read_ids e
      ∙ ap (λ vs. longs {num = num} vs) (list-items {num = num} (map integer ids))
      ∙ longs-integers ids
  read_ids-IsIds ids o (inr (e, none_left)) = ap read_ids e ∙ ap ok (sym none_left)

  token_ids-layout :
      (d : Dict (Json num)) (name : String) (ids : List ℤ)
      → IsIds ids (lookup name d)
      → token_ids (object_of num d) name ≡ ok ids
  unfolding token_ids entries read_ids
  token_ids-layout d name ids h =
      ap (λ l. read_ids (lookup name l)) (dict-fields {num = num} d)
      ∙ read_ids-IsIds ids (lookup name d) h

  decode_data-layout :
      (d : SentData num)
      → IsIds d.prompt (lookup "_prompt_token_ids" d.fields)
      → IsIds d.output (lookup "_output_token_ids" d.fields)
      → decode_data (object_of num d.fields) ≡ ok (arrived_data d)
  unfolding decode_data get_or entries
  decode_data-layout d prompt output = rw (
    token_ids-layout d.fields "_prompt_token_ids" d.prompt prompt,
    token_ids-layout d.fields "_output_token_ids" d.output output,
    dict-fields {num = num} d.fields,
  )

  module _ (int_of-text_of : (k : ℤ) → num.int_of (num.text_of k) ≡ ok k) where
    decode_seq_data-layout :
        (seqs : List (ℤ × SentData num)) (before : List (ℤ × SequenceData num))
        → AreData seqs
        → AreNew (int_keys before) (int_keys seqs)
        → decode_seq_data (seq_layout seqs) before ≡ ok (before ++ arrived_seqs seqs)
    unfolding decode_seq_data
    decode_seq_data-layout [] before ids new = ap ok (sym (append-nil before))
    decode_seq_data-layout ((k, d) ∷ seqs) before (prompt, output, ids) (new, news) =
        rw
          (
            int_of-text_of k,
            decode_data-layout d prompt output,
            insert_int-new before k (arrived_data d) new,
          )
          (decode_seq_data-layout seqs (before ++ (k, arrived_data d) ∷ []) ids (
              subst (λ seen. AreNew seen (int_keys seqs))
                (sym (int_keys-append before k (arrived_data d))) news)
            ∙ ap ok (append_assoc before ((k, arrived_data d) ∷ []) (arrived_seqs seqs)))

    decode_tables-layout :
        (tables before : List (ℤ × Json num))
        → AreNew (int_keys before) (int_keys tables)
        → decode_tables (table_layout tables) before ≡ ok (before ++ tables)
    unfolding decode_tables
    decode_tables-layout [] before new = ap ok (sym (append-nil before))
    decode_tables-layout ((k, v) ∷ tables) before (new, news) =
        rw (int_of-text_of k, insert_int-new before k v new)
          (decode_tables-layout tables (before ++ (k, v) ∷ []) (
              subst (λ seen. AreNew seen (int_keys tables)) (sym (int_keys-append before k v)) news)
            ∙ ap ok (append_assoc before ((k, v) ∷ []) tables))

    decode_names-layout :
        (num_steps : Json num) (g : SentGroup num)
        → AreData g.seq_data
        → AreNew [] (int_keys g.seq_data)
        → AreNew [] (int_keys g.block_tables)
        → decode_names num_steps (group_layout g) ≡ ok (arrived_group num_steps g).names
    unfolding decode_names at entries get_all get_or
    decode_names-layout num_steps g ids seqs tables = rw (
      dict-fields {num = num} (seq_layout g.seq_data),
      decode_seq_data-layout g.seq_data [] ids seqs,
      dict-fields {num = num} g.sampling_params,
      dict-fields {num = num} (table_layout g.block_tables),
      decode_tables-layout g.block_tables [] tables,
    )

    decode_list-layout :
        (num_steps : Json num) (previous : Option (Names num)) (groups : List (SentGroup num))
        → AreGroups groups
        → decode_list num_steps previous (map group_layout groups)
          ≡ ok (map (arrived_group num_steps) groups)
    unfolding decode_list names_for take_all at
    decode_list-layout num_steps previous [] h = refl
    decode_list-layout num_steps previous (g ∷ groups) (ids, seqs, tables, h) = rw (
      decode_names-layout num_steps g ids seqs tables,
      decode_list-layout num_steps (some (arrived_group num_steps g).names) groups h,
    )

    -- Where int reads the written keys back, a batch in msgspec's layout, in which no sequence and
    -- no block table stands twice, is decoded without an error. The fields of the batch arrive,
    -- with its groups in their order, and so do the fields of each group, except these: the group's
    -- state is new, made from the batch's number of steps; of a sequence's data only its prompt's
    -- and its output's token ids and its number of computed tokens arrive, which is 0 where it is
    -- missing, and its cumulative logprob is 0; and of the sampling parameters only the sixteen
    -- named ones arrive, a missing one by its default.
    pub decoding_execute_model_req_lem :
        (r : SentRequest num) (v : Json num)
        → v ≡ layout r
        → AreGroups r.groups
        → decoding_execute_model_req v ≡ ok (arrived r)
    unfolding decoding_execute_model_req size decode_fields take_all at elements
    decoding_execute_model_req_lem r v written groups = rw (
      written,
      list-items {num = num} (map group_layout r.groups),
      decode_list-layout r.num_steps none r.groups groups,
    )
