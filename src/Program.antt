-- ===== src/Program.antt =====
-- cmd/sinq/sinq.go: the program from its arguments to its exit code. What the operating system, the
-- parser of the flags, the walker and the runner answer is an argument.
pub mod Guards
pub mod Exits
use sinq.Prelude.{
  ℕ, zero, suc, ◌+◌, Bool, true, false, not, Option, none, some, List, [], ◌∷◌, ◌++◌, Bytes, codes,
  equal, ◌==◌, if◌then◌else◌,
}
use sinq.DataSource.{Scenario, ScenarioBundle, bundles, scenario_count}
use sinq.Runner.{ScenarioResult}
use sinq.Reporter.{exit_code}

-- `config.Config`, as far as `sinq` reads it; `included` stands for `ShouldInclude`.
pub record Options : Type 0 where
  pub completion : Bool
  pub help : Bool
  pub version : Bool
  pub list : Bool
  pub paths : List Bytes
  pub lua_paths : List Bytes
  pub included : Scenario → Bool
  pub count : ℕ

pub data Shell : Type 0 where
  powershell bash zsh fish : Shell

-- The operating system.
pub record System : Type 0 where
  pub is_windows : Bool
  pub readlink_parent : Option Bytes
  pub read_cmdline : Option Bytes
  pub shell_variable : Bytes
  pub base : Bytes → Bytes
  pub dir : Bytes → Bytes
  pub to_lower : Bytes → Bytes
  pub lua_path_variable : Option Bytes
  pub split_list : Bytes → List Bytes
  pub absolute : Bytes → Option Bytes
  pub working_directory : Option Bytes
  pub stat_is_dir : Bytes → Option Bool
  pub opens : Bytes → Bool

-- The parts of the program: whether each could be made or did its work, and what it gave.
pub record Parts : Type 0 where
  pub parse_flags : List Bytes → Option Options
  pub info_printer : Bool
  pub set_writer : Bool
  pub print_help : Bool
  pub print_version : Bool
  pub print_scenarios : List ScenarioBundle → Bool
  pub treewalker : Options → Bool
  pub parse_secrets : Bool
  pub parse_filetree : Bytes → Option (List Scenario)
  pub parse_single_file : Bytes → Option Scenario
  pub interrupted : ℕ → Bool
  pub runner : Options → Bool
  pub run_scenarios : List ScenarioBundle → List ScenarioResult

abbrev is_empty {ℓ} : {A : Type ℓ} → List A → Bool
is_empty [] = true
is_empty (x ∷ xs) = false

-- `detectActiveShell`
detect_active_shell : System → Option Bytes → Option Bytes
detect_active_shell sys none = sys.read_cmdline
detect_active_shell sys (some path) = some (sys.base path)

shell_of : Bytes → Option Shell
shell_of name =
    if equal name (codes "bash")
    then some bash
    else if equal name (codes "zsh")
    then some zsh
    else if equal name (codes "fish")
    then some fish
    else none

named_shell : System → Option Bytes → Option Shell
unfolding shell_of
named_shell sys none = shell_of (sys.to_lower (sys.base sys.shell_variable))
named_shell sys (some name) = shell_of (sys.to_lower name)

-- `handleCompletion`: the script that is printed, if any.
unfoldable pub handle_completion : System → Option Shell
unfolding named_shell detect_active_shell
handle_completion sys =
    if sys.is_windows
    then some powershell
    else named_shell sys (detect_active_shell sys sys.readlink_parent)

-- `filepath.Abs` at each path, up to the first that fails.
unfoldable pub absolutes : System → List Bytes → Option (List Bytes)
absolutes sys [] = some []
absolutes sys (p ∷ ps) = elim (sys.absolute p) [
  | none ↦ none
  | some q ↦ elim (absolutes sys ps) [ none ↦ none | some qs ↦ some (q ∷ qs) ]
]

from_variable : System → Option Bytes → List Bytes
from_variable sys none = []
from_variable sys (some path) = sys.split_list path

-- The Lua paths as they are given, or those of the variable.
given_lua_paths : System → List Bytes → List Bytes
unfolding from_variable
given_lua_paths sys [] = from_variable sys sys.lua_path_variable
given_lua_paths sys (p ∷ ps) = p ∷ ps

with_directory : Option (List Bytes) → Option Bytes → Option (List Bytes)
with_directory none wd = none
with_directory (some ps) none = none
with_directory (some ps) (some d) = some (ps ++ (d ∷ []))

-- `populateConfigInRuntime`: the Lua paths; the working directory is added if paths were given.
unfoldable pub runtime_lua_paths : System → List Bytes → List Bytes → Option (List Bytes)
unfolding given_lua_paths absolutes with_directory
runtime_lua_paths sys [] lua = absolutes sys (given_lua_paths sys lua ++ (codes "." ∷ []))
runtime_lua_paths sys (p ∷ ps) lua =
    with_directory (absolutes sys (given_lua_paths sys lua ++ (p ∷ ps))) sys.working_directory

or_none : Option (List Bytes) → List Bytes
or_none none = []
or_none (some ps) = ps

-- `populateConfigInRuntime` and what `sinq` does when it fails: it goes on with no Lua paths.
unfoldable pub populate : System → Options → Options
unfolding runtime_lua_paths or_none
populate sys cfg = record cfg {
  paths = if is_empty cfg.paths then codes "." ∷ [] else cfg.paths;
  lua_paths = or_none (runtime_lua_paths sys cfg.paths cfg.lua_paths);
}

found_scenarios : Option (List Scenario) → List Scenario
found_scenarios none = []
found_scenarios (some res) = res

found_one : Option Scenario → List Scenario
found_one none = []
found_one (some s) = s ∷ []

parse_path : System → Parts → Bytes → Option Bool → List Scenario
unfolding found_scenarios found_one
parse_path sys parts path none = []
parse_path sys parts path (some true) =
    if sys.opens path then found_scenarios (parts.parse_filetree path) else []
parse_path sys parts path (some false) =
    if sys.opens (sys.dir path) then found_one (parts.parse_single_file path) else []

-- `parseFilePath`, whose error is printed: then there is no scenario.
unfoldable pub parse_file_path : System → Parts → Bytes → List Scenario
unfolding parse_path
parse_file_path sys parts path = parse_path sys parts path (sys.stat_is_dir path)

-- `scenarioCount` and `allScenarios`
pub record Discovery : Type 0 where
  pub found_count : ℕ
  pub all_scenarios : List ScenarioBundle

pub discovered : Options → Discovery → List Scenario → Discovery
unfolding bundles scenario_count
discovered cfg d res = record {
  found_count = d.found_count + scenario_count cfg.included cfg.count res;
  all_scenarios = d.all_scenarios ++ bundles cfg.included cfg.count res;
}

-- The loop over the paths, where `i` is the number of those before; `none` is an interrupt.
unfoldable pub discover : System → Parts → Options → ℕ → List Bytes → Discovery → Option Discovery
unfolding discovered parse_file_path
discover sys parts cfg i [] d = some d
discover sys parts cfg i (path ∷ ps) d =
    let rest =
      discover sys parts cfg (i + 1) ps (discovered cfg d (parse_file_path sys parts path)) in
    if parts.interrupted i then none else rest

-- The exit code of a step that prints.
unfoldable pub printed : Bool → ℕ
printed true = 0
printed false = 1

-- From the end of the discovery on.
unfoldable pub after_discovery : Parts → Options → Option Discovery → ℕ
unfolding printed exit_code
after_discovery parts cfg none = 1
after_discovery parts cfg (some d) =
    if cfg.list
    then printed (parts.print_scenarios d.all_scenarios)
    else if d.found_count == 0
    then 1
    else if not (parts.runner cfg)
    then 1
    else exit_code (parts.run_scenarios d.all_scenarios) d.found_count

-- From the settings of the run time on.
unfoldable pub after_populate : System → Parts → Options → ℕ
unfolding discover after_discovery
after_populate sys parts cfg =
    if not (parts.treewalker cfg)
    then 1
    else if not parts.parse_secrets
    then 1
    else after_discovery parts cfg
        (discover sys parts cfg 0 cfg.paths (record { found_count = 0; all_scenarios = [] }))

completed : Option Shell → ℕ
completed none = 1
completed (some shell) = 0

after_flags : System → Parts → Options → ℕ
unfolding completed handle_completion printed populate after_populate
after_flags sys parts cfg =
    if cfg.completion
    then completed (handle_completion sys)
    else if not parts.info_printer
    then 1
    else if cfg.help
    then printed parts.print_help
    else if cfg.version
    then printed parts.print_version
    else if not parts.set_writer
    then 1
    else after_populate sys parts (populate sys cfg)

parsed_flags : System → Parts → Option Options → ℕ
unfolding after_flags
parsed_flags sys parts none = 1
parsed_flags sys parts (some cfg) = after_flags sys parts cfg

-- `sinq`: the exit code.
unfoldable pub main : System → Parts → List Bytes → ℕ
unfolding parsed_flags
main sys parts args = parsed_flags sys parts (parts.parse_flags args)
