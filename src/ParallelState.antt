-- ===== src/ParallelState.antt =====
-- molinkv1/parallel_state.py: the process-wide MoLink state, as a record that is passed along,
-- and what the patches make of vLLM's `get_pp_indices` and `GroupCoordinator`.
pub mod Ranges
pub mod Stages
pub mod Patches
use mo_link.Prelude.{
  ℕ, ℤ, pos, negsuc, ltb_ℤ, leb_ℤ, eqb_ℤ, Bool, true, false, Option, none, some, Result, ok, raise,
  type_error, runtime_error, if◌then◌else◌,
}

-- The globals `_MOLINK_…` and, below them, those of the patching utilities.
pub record State : Type 0 where
  pub enabled : Bool
  pub start_layer : ℤ
  pub end_layer : ℤ
  pub num_hidden_layers : Option ℤ
  pub is_first_stage : Bool
  pub is_last_stage : Bool
  pub pp_rank : ℤ
  pub pp_size : ℤ

abbrev pub all_remaining : ℤ
all_remaining = negsuc 0

-- The values that the module starts with.
abbrev pub initial : State
initial = record {
  enabled = false;
  start_layer = pos 0;
  end_layer = all_remaining;
  num_hidden_layers = none;
  is_first_stage = true;
  is_last_stage = true;
  pp_rank = pos 0;
  pp_size = pos 1;
}

-- The test of the last stage in `init_molink_parallel_state`.
last_stage : ℤ → Option ℤ → Bool
last_stage end_layer none =
    if eqb_ℤ end_layer all_remaining then true else eqb_ℤ end_layer all_remaining
last_stage end_layer (some n) = if eqb_ℤ end_layer all_remaining then true else leb_ℤ n end_layer

unfoldable pub init_molink_parallel_state : State → Bool → ℤ → ℤ → Option ℤ → ℤ → ℤ → State
unfolding last_stage
init_molink_parallel_state g enabled start_layer end_layer num_hidden_layers pp_rank pp_size =
    let g' : State = record g {
      enabled = enabled;
      start_layer = start_layer;
      end_layer = end_layer;
      num_hidden_layers = num_hidden_layers;
      pp_rank = pp_rank;
      pp_size = pp_size;
    } in
    if enabled
    then record g' {
      is_first_stage = eqb_ℤ start_layer (pos 0);
      is_last_stage = last_stage end_layer num_hidden_layers;
    }
    else g'

unfoldable pub get_molink_layer_range : State → ℤ × ℤ
get_molink_layer_range g = (g.start_layer, g.end_layer)

-- The range of the configuration within a model of `n` layers, after the validation.
unfoldable pub clip_range : ℤ → ℤ → ℤ → ℤ × ℤ
clip_range start_layer end_layer n =
    let end₁ : ℤ = if eqb_ℤ end_layer all_remaining then n else end_layer in
    let start₂ : ℤ = if ltb_ℤ start_layer (pos 0) then pos 0 else start_layer in
    let end₂ : ℤ = if ltb_ℤ n end₁ then n else end₁ in
    if leb_ℤ end₂ start₂ then (pos 0, n) else (start₂, end₂)

-- vLLM's `get_pp_indices`, of the number of layers, the rank and the size.
abbrev pub PpIndices : Type 0
PpIndices = ℤ → ℤ → ℤ → ℤ × ℤ

unfoldable pub get_molink_pp_indices : PpIndices → State → ℤ → ℤ → ℤ → ℤ × ℤ
unfolding clip_range
get_molink_pp_indices fallback g n pp_rank pp_size =
    if g.enabled then clip_range g.start_layer g.end_layer n else fallback n pp_rank pp_size

unfoldable pub update_molink_stage_info : State → ℤ → State
update_molink_stage_info g n =
    let end_layer : ℤ = if eqb_ℤ g.end_layer all_remaining then n else g.end_layer in
    if g.enabled
    then record g { num_hidden_layers = some n; is_last_stage = leb_ℤ n end_layer }
    else g

unfoldable pub destroy_molink_parallel_state : State → State
destroy_molink_parallel_state g = record g {
  enabled = false;
  start_layer = pos 0;
  end_layer = all_remaining;
  num_hidden_layers = none;
  is_first_stage = true;
  is_last_stage = true;
  pp_rank = pos 0;
  pp_size = pos 1;
}

-- `dist_utils.get_pp_indices` is vLLM's function, or the closure that reads the saved one.
pub data Getter : Type 0 where
  own patched : Getter

-- A property of the coordinator is vLLM's, or a closure over the one that it replaced.
pub data RankGetter : Type 0 where
  own : RankGetter
  wraps : RankGetter → RankGetter

-- `saved` is `_ORIGINAL_GET_PP_INDICES`, `pp_group_patched` is `_PP_GROUP_PATCHED`.
pub record Hooks : Type 0 where
  pub saved : Option Getter
  pub get_pp_indices : Getter
  pub pp_group_patched : Bool
  pub rank_property : RankGetter

abbrev pub unpatched : Hooks
unpatched = record {
  saved = none;
  get_pp_indices = Getter.own;
  pp_group_patched = false;
  rank_property = RankGetter.own;
}

unfoldable pub patch_get_pp_indices : Hooks → Hooks
patch_get_pp_indices h = elim h.saved [
  | some _ ↦ h
  | none ↦ record h { saved = some h.get_pp_indices; get_pp_indices = Getter.patched }
]

-- `has_pp_group` is whether vLLM's `_PP` is set.
unfoldable pub patch_pp_group : Bool → Hooks → Hooks
patch_pp_group has_pp_group h =
    if h.pp_group_patched
    then h
    else if has_pp_group
    then record h { rank_property = RankGetter.wraps h.rank_property; pp_group_patched = true }
    else h

unfoldable pub apply_molink_patches : State → Bool → Hooks → Hooks
unfolding patch_get_pp_indices patch_pp_group
apply_molink_patches g has_pp_group h =
    if g.enabled then patch_pp_group has_pp_group (patch_get_pp_indices h) else h

-- The closure's call of the saved function: of itself it would never return (RecursionError).
saved_call : Option Getter → ℤ × ℤ → Result (ℤ × ℤ)
saved_call none r = raise type_error
saved_call (some Getter.own) r = ok r
saved_call (some Getter.patched) r = raise runtime_error

-- A call of `dist_utils.get_pp_indices` by vLLM, under the hooks.
unfoldable pub call_get_pp_indices : PpIndices → State → Hooks → ℤ → ℤ → ℤ → Result (ℤ × ℤ)
unfolding get_molink_pp_indices saved_call
call_get_pp_indices vllm g h n pp_rank pp_size = elim h.get_pp_indices [
  | Getter.own ↦ ok (vllm n pp_rank pp_size)
  | Getter.patched ↦
      if g.enabled
      then ok (get_molink_pp_indices vllm g n pp_rank pp_size)
      else saved_call h.saved (vllm n pp_rank pp_size)
]

-- The coordinator's `is_first_rank` and `is_last_rank`, given vLLM's own answers.
unfoldable pub is_first_rank : Bool → State → RankGetter → Bool
is_first_rank vllm g RankGetter.own = vllm
is_first_rank vllm g (RankGetter.wraps r) =
    if g.enabled then g.is_first_stage else is_first_rank vllm g r

unfoldable pub is_last_rank : Bool → State → RankGetter → Bool
is_last_rank vllm g RankGetter.own = vllm
is_last_rank vllm g (RankGetter.wraps r) =
    if g.enabled then g.is_last_stage else is_last_rank vllm g r
