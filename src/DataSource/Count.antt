-- ===== src/DataSource/Count.antt =====
-- The tasks that are sent are as many as are announced.
use native.Mathlib.Nat.{mul_comm}
use sinq.Prelude.{
  ℕ, zero, suc, ◌+◌, ◌*◌, ◌≤◌, ◌≡◌, refl, ap, ◌∙◌, max, Bool, true, false, not, Option, List, [],
  ◌∷◌, Bytes, length, length-append, arith, if◌then◌else◌,
}
use sinq.Matrix.{Axis, build_all_paths}
use sinq.DataSource.{
  Scenario, ScenarioBundle, Task, task, repeat, paths, tasks_of, start_data_source, count_variants,
  bundle, bundles, scenario_count,
}

-- `CountVariants` and `buildAllPaths` agree on the number of variants.
pub count_variants-total : (axes : List Axis) → count_variants axes ≡ (build_all_paths axes).1
unfolding count_variants build_all_paths
count_variants-total [] = refl
count_variants-total ([] ∷ axes) = count_variants-total axes
count_variants-total ((e ∷ axis) ∷ axes) = rw (count_variants-total axes)

length-repeat : (n : ℕ) (t : Option Task) → length (repeat n t) ≡ n
unfolding repeat
length-repeat zero t = refl
length-repeat (suc n) t = ap suc (length-repeat n t)

length-paths :
    (b : ScenarioBundle) (all : List (List Bytes)) (n path : ℕ)
    → length (paths b all n path) ≡ n * max b.count 1
unfolding paths
length-paths b all zero path = omega arith
length-paths b all (suc n) path = omega (
  arith,
  length-append (repeat (max b.count 1) (task b all path)) (paths b all n (path + 1)),
  length-repeat (max b.count 1) (task b all path),
  length-paths b all n (path + 1),
)

length-tasks_of :
    (b : ScenarioBundle)
    → length (tasks_of b) ≡ count_variants b.scenario.env_matrix * max b.count 1
unfolding tasks_of
length-tasks_of b = rw count_variants-total (length-paths b _ _ 0)

length-tasks_of-bundle :
    (should_include : Scenario → Bool) (n : ℕ) (s : Scenario)
    → 1 ≤ n
    → length (tasks_of (bundle should_include n s)) ≡ (
        if not (should_include s)
        then count_variants s.env_matrix
        else n * count_variants s.env_matrix)
unfolding bundle
length-tasks_of-bundle inc n s h = length-tasks_of (bundle inc n s) ∙ by_filter (inc s)
  where
    by_filter :
        (b : Bool)
        → count_variants s.env_matrix * max (if not b then 0 else n) 1
          ≡ (if not b then count_variants s.env_matrix else n * count_variants s.env_matrix)
    by_filter true =
        let e : max n 1 ≡ n = omega arith in rw e (mul_comm (count_variants s.env_matrix) n)
    by_filter false = omega arith

-- With a count of at least one, as many tasks are sent as the reporters are told to expect, whatever
-- the filters leave out and however many variants there are.
pub length-start_data_source :
    (should_include : Scenario → Bool) (cfg_count : ℕ) (ss : List Scenario)
    → 1 ≤ cfg_count
    → length (start_data_source (bundles should_include cfg_count ss))
      ≡ scenario_count should_include cfg_count ss
unfolding start_data_source bundles scenario_count
length-start_data_source inc n [] h = refl
length-start_data_source inc n (s ∷ ss) h =
    length-append (tasks_of (bundle inc n s)) _
    ∙ omega (arith, length-tasks_of-bundle inc n s h, length-start_data_source inc n ss h)
