-- ===== src/Tests/Starting.antt =====
-- Runs of the program at concrete surroundings.
use mathlib.Core.Option.{some-injective}
use sinq.Prelude.{subst, equal, true, false, none, some, List, [], ◌∷◌, ◌++◌, codes, ◌≡◌, ◌↔◌, refl}
use sinq.Envs.{end}
use sinq.DataSource.{count_variants, Scenario}
use sinq.Runner.{success, ScenarioResult}
use sinq.Program.{
  Options, System, bash, Parts, handle_completion, runtime_lua_paths, populate, main,
}
use sinq.Program.Exits.{IsPlain, IsSuccess, main_iff}

abbrev linux : System
linux = record {
  is_windows = false;
  readlink_parent = some (codes "/usr/bin/bash");
  read_cmdline = none;
  shell_variable = codes "/bin/zsh";
  base = λ p. codes "bash";
  dir = λ p. codes "/w";
  to_lower = λ name. name;
  lua_path_variable = none;
  split_list = λ v. v ∷ [];
  absolute = λ p. some (codes "/w/" ++ p);
  working_directory = some (codes "/w");
  stat_is_dir = λ p. some true;
  opens = λ p. true;
}

abbrev one_scenario : Scenario
one_scenario = record { name = codes "s"; tags = []; env = end; env_matrix = [] }

abbrev plain_options : Options
plain_options = record {
  completion = false;
  help = false;
  version = false;
  list = false;
  paths = [];
  lua_paths = codes "lib" ∷ [];
  included = λ s. true;
  count = 1;
}

abbrev good_result : ScenarioResult
good_result = record {
  scenario_name = codes "s";
  tags = [];
  request_results = [];
  scenario_status = success;
}

abbrev working : List ScenarioResult → Parts
working results = record {
  parse_flags = λ args. some plain_options;
  info_printer = true;
  set_writer = true;
  print_help = true;
  print_version = true;
  print_scenarios = λ bs. true;
  treewalker = λ cfg. true;
  parse_secrets = true;
  parse_filetree = λ p. some (one_scenario ∷ []);
  parse_single_file = λ p. none;
  interrupted = λ i. false;
  runner = λ cfg. true;
  run_scenarios = λ bs. results;
}

good_run : main linux (working (good_result ∷ [])) [] ≡ 0
unfolding main count_variants
good_run = refl

-- A result that is missing is not forgiven.
missing_run : main linux (working []) [] ≡ 1
unfolding main count_variants
missing_run = refl

bash_completes : handle_completion linux ≡ some bash
unfolding handle_completion equal
bash_completes = refl

-- A command line ends in a NUL byte, which the name of no shell does.
command_line_unknown :
    handle_completion
      (record linux { readlink_parent = none; read_cmdline = some (codes "bash" ++ (0 ∷ [])) })
    ≡ none
unfolding handle_completion equal
command_line_unknown = refl

lua_paths_run :
    runtime_lua_paths linux (codes "a" ∷ []) (codes "lib" ∷ [])
    ≡ some (codes "/w/lib" ∷ codes "/w/a" ∷ codes "/w" ∷ [])
unfolding runtime_lua_paths
lua_paths_run = refl

main_iff_example : (main linux (working (good_result ∷ [])) [] ≡ 0) ↔ (
    (cfg : Options) × (some plain_options ≡ some cfg)
    × IsSuccess linux (working (good_result ∷ [])) (populate linux cfg))
main_iff_example = main_iff linux (working (good_result ∷ [])) [] λ cfg e.
    subst IsPlain (some-injective plain_options cfg e) (record {
      completes_nothing = refl;
      helps_nothing = refl;
      tells_no_version = refl;
      lists_nothing = refl;
    })

refused_run : main linux (record (working (good_result ∷ [])) { parse_flags = λ args. none }) [] ≡ 1
unfolding main
refused_run = refl
