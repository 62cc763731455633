-- ===== src/DataSource.antt =====
-- `startDataSource` of internal/runner/runner.go, and the part of `sinq` in cmd/sinq/sinq.go that
-- counts the scenarios: the tasks that are sent to the workers, against the number that is announced to
-- the reporters. The tasks are those of a run whose context does not end; one that ends sends a prefix.
pub mod Count
use sinq.Prelude.{
  ℕ, zero, suc, ◌+◌, ◌*◌, max, Bool, true, false, not, Option, none, some, List, [], ◌∷◌, ◌++◌,
  Bytes, length, equal, ltb, if◌then◌else◌,
}
use sinq.Envs.{Fields, end, merge_fields, deep_copy}
use sinq.Matrix.{Axis, build_all_paths, take_path}

-- A scenario, as far as these two read it.
pub record Scenario : Type 0 where
  pub name : Bytes
  pub tags : List Bytes
  pub env : Fields
  pub env_matrix : List Axis

-- `ScenarioBundle`
pub record ScenarioBundle : Type 0 where
  pub scenario : Scenario
  pub count : ℕ

pub record Task : Type 0 where
  pub task_name : Bytes
  pub task_env : Fields
  pub labels : List Bytes
  pub runs : Bool

-- `EnvMatrix[idx][label]`, with no environment for a label or an index that is not there. A nil
-- environment is merged to no effect.
entry : Bytes → Axis → Fields
entry l [] = end
entry l ((k, env) ∷ axis) = if equal k l then env else entry l axis

-- The loop over the labels.
merge_labels : Fields → List Axis → List Bytes → Fields
unfolding entry
merge_labels env axes [] = env
merge_labels env [] (l ∷ ls) = env
merge_labels env (axis ∷ axes) (l ∷ ls) = merge_labels (merge_fields env (entry l axis)) axes ls

-- The task of a path's number; `none` is an index out of range.
task : ScenarioBundle → List (List Bytes) → ℕ → Option Task
unfolding merge_labels
task b all_labels path = elim (take_path path all_labels) [
  | none ↦ none
  | some labels ↦ some (record {
    task_name = b.scenario.name;
    task_env = merge_labels (deep_copy b.scenario.env) b.scenario.env_matrix labels;
    labels = labels;
    runs = ltb 0 b.count;
  })
]

repeat : ℕ → Option Task → List (Option Task)
repeat zero t = []
repeat (suc n) t = t ∷ repeat n t

-- The tasks of the paths from `path` on, as often as they are to be sent.
paths : ScenarioBundle → List (List Bytes) → (left path : ℕ) → List (Option Task)
unfolding task repeat
paths b all_labels zero path = []
paths b all_labels (suc n) path =
    repeat (max b.count 1) (task b all_labels path) ++ paths b all_labels n (path + 1)

tasks_of : ScenarioBundle → List (Option Task)
unfolding paths
tasks_of b =
    let (all_labels, total_paths) = build_all_paths b.scenario.env_matrix in
    paths b all_labels total_paths 0

-- `startDataSource`
unfoldable pub start_data_source : List ScenarioBundle → List (Option Task)
unfolding tasks_of
start_data_source [] = []
start_data_source (b ∷ bs) = tasks_of b ++ start_data_source bs

-- `CountVariants`
unfoldable pub count_variants : List Axis → ℕ
count_variants [] = 1
count_variants ([] ∷ axes) = count_variants axes
count_variants ((e ∷ axis) ∷ axes) = length (e ∷ axis) * count_variants axes

module _ (should_include : Scenario → Bool) (cfg_count : ℕ) where
  -- The count of a scenario: none for one that the filters leave out.
  bundle : Scenario → ScenarioBundle
  bundle s = record { scenario = s; count = if not (should_include s) then 0 else cfg_count }

  unfoldable pub bundles : List Scenario → List ScenarioBundle
  unfolding bundle
  bundles [] = []
  bundles (s ∷ ss) = bundle s ∷ bundles ss

  -- `scenarioCount`: a scenario that is left out counts once for each variant.
  unfoldable pub scenario_count : List Scenario → ℕ
  scenario_count [] = 0
  scenario_count (s ∷ ss) =
      let variants = count_variants s.env_matrix in
      (if not (should_include s) then variants else cfg_count * variants) + scenario_count ss
