-- ===== src/Tests/Environment.antt =====
-- Environments, variants and tasks at concrete inputs.
use sinq.Prelude.{◌≡◌, ◌<◌, refl, inl, inr, List, [], ◌∷◌, some, Bytes, codes, equal, length, arith}
use sinq.Envs.{Fields, scalar, object, end, field, lookup, merge_fields}
use sinq.Envs.Merge.{IsMap, get_path, get_path-merge_fields, get_path-merge_fields_left}
use sinq.Matrix.{take_path}
use sinq.Matrix.Bijection.{
  AreAxes, pair-IsDistinct, index_of, Picks, number_of, product, take_path-number_of,
  take_path_onto,
}
use sinq.DataSource.{Scenario, count_variants, start_data_source, bundles, scenario_count}
use sinq.DataSource.Count.{length-start_data_source}

abbrev base_env : Fields
base_env =
    field (codes "url") (scalar (codes "a"))
      (field (codes "user") (object (field (codes "id") (scalar (codes "1")) end)) end)

abbrev dev_env : Fields
dev_env = field (codes "user") (object (field (codes "name") (scalar (codes "b")) end)) end

dev_env-IsMap : IsMap dev_env
unfolding lookup
dev_env-IsMap = (refl, (refl, tt, tt), tt)

get_path-merge_fields_example :
    get_path (codes "user" ∷ codes "name" ∷ []) (some (object (merge_fields base_env dev_env)))
    ≡ some (scalar (codes "b"))
unfolding lookup equal
get_path-merge_fields_example =
    get_path-merge_fields (codes "user") (codes "name" ∷ []) base_env dev_env dev_env-IsMap (λ h. h)
      refl

get_path-merge_fields_left_example :
    get_path (codes "user" ∷ codes "id" ∷ []) (some (object (merge_fields base_env dev_env)))
    ≡ get_path (codes "user" ∷ codes "id" ∷ []) (some (object base_env))
unfolding lookup equal
get_path-merge_fields_left_example =
    get_path-merge_fields_left (codes "user" ∷ codes "id" ∷ []) base_env dev_env dev_env-IsMap
      (inr (_, refl, inl refl))

abbrev two_by_two : List (List Bytes)
two_by_two = (codes "a" ∷ codes "b" ∷ []) ∷ (codes "c" ∷ codes "d" ∷ []) ∷ []

two_by_two-AreAxes : AreAxes two_by_two
unfolding equal
two_by_two-AreAxes = (
  (omega arith, pair-IsDistinct (codes "a") (codes "b") refl),
  ((omega arith, pair-IsDistinct (codes "c") (codes "d") refl), tt),
)

take_path-number_of_example :
    (chosen : List Bytes) × (take_path 1 two_by_two ≡ some chosen)
    × Picks chosen two_by_two
    × (number_of chosen two_by_two ≡ 1)
take_path-number_of_example = take_path-number_of 1 two_by_two two_by_two-AreAxes (omega arith)

take_path_onto_example :
    (number_of (codes "b" ∷ codes "c" ∷ []) two_by_two < product two_by_two)
    × (take_path (number_of (codes "b" ∷ codes "c" ∷ []) two_by_two) two_by_two
        ≡ some (codes "b" ∷ codes "c" ∷ []))
unfolding index_of equal
take_path_onto_example =
    take_path_onto (codes "b" ∷ codes "c" ∷ []) two_by_two two_by_two-AreAxes (refl, (refl, tt))

abbrev small : Scenario
small = record { name = codes "small"; tags = []; env = base_env; env_matrix = [] }

abbrev large : Scenario
large = record {
  name = codes "large";
  tags = [];
  env = base_env;
  env_matrix = ((codes "dev", dev_env) ∷ (codes "prod", end) ∷ []) ∷ [];
}

length-start_data_source_example :
    length (start_data_source (bundles (λ s. equal s.name (codes "small")) 3 (small ∷ large ∷ [])))
    ≡ scenario_count (λ s. equal s.name (codes "small")) 3 (small ∷ large ∷ [])
length-start_data_source_example =
    length-start_data_source (λ s. equal s.name (codes "small")) 3 (small ∷ large ∷ [])
      (omega arith)

counted : scenario_count (λ s. equal s.name (codes "small")) 3 (small ∷ large ∷ []) ≡ 5
unfolding scenario_count equal count_variants
counted = refl
