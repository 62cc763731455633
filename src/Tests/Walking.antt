-- ===== src/Tests/Walking.antt =====
-- Tasks read by workers that share caches, at concrete inputs.
use sinq.Prelude.{ℕ, ◌+◌, equal, ◌≡◌, refl, Bool, false, Option, some, List, [], ◌∷◌, map, codes}
use sinq.Envs.{end}
use sinq.Blueprint.{RequestBlueprint, new_blueprint}
use sinq.Treewalker.{
  FilePath, Config, Dir, listed, no_more, file, directory, explore, start_job, no_caches, run_steps,
}
use sinq.Treewalker.Cache.Alone.{AllReadAlone}
use sinq.Treewalker.Walk.{AreDistinct, has_name, run_steps-explore}

abbrev settings : FilePath
settings = codes "all.scenario" ∷ []

abbrev first_request : FilePath
first_request = codes "a" ∷ codes "x.sinq" ∷ []

abbrev second_request : FilePath
second_request = codes "b" ∷ codes "y.sinq" ∷ []

abbrev two_dirs : Dir
two_dirs = listed (
    file (codes "all.scenario") (
      directory (codes "a") (listed (file (codes "x.sinq") no_more))
        (directory (codes "b") (listed (file (codes "y.sinq") no_more)) no_more)))

abbrev two_tasks : List (List FilePath)
two_tasks = (settings ∷ first_request ∷ []) ∷ (settings ∷ second_request ∷ []) ∷ []

explore-two_dirs : explore [] two_dirs [] ≡ two_tasks
unfolding explore equal
explore-two_dirs = refl

abbrev plain : Config ℕ
plain = record { name = []; env = end; env_matrix = []; tags = []; tags_list = []; others = 0 }

abbrev one_request : FilePath → Option (List RequestBlueprint)
one_request f = some (new_blueprint [] [] ∷ [])

abbrev counted : FilePath → Config ℕ → Config ℕ × Bool
counted f c = (record c { others = c.others + 1 }, false)

abbrev turns : List ℕ
turns = 0 ∷ 1 ∷ 0 ∷ 1 ∷ 1 ∷ 0 ∷ []

run_steps-explore_example :
    AllReadAlone one_request counted plain
      (explore [] two_dirs [])
      (run_steps one_request counted turns no_caches
        (map (start_job plain) (explore [] two_dirs []))).1
unfolding AreDistinct has_name equal
run_steps-explore_example =
    run_steps-explore one_request counted plain two_dirs turns
      (refl, (refl, (refl, tt), (refl, (refl, tt), tt)))
