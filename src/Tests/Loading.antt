-- ===== src/Tests/Loading.antt =====
-- Loads of modules at concrete files, and the positions of scripts.
use sinq.Prelude.{
  ◌++◌, Bool, true, false, Option, some, List, [], ◌∷◌, Bytes, codes, equal, ◌≡◌, refl,
}
use sinq.Runner.Modules.{Workspace, not_found, LoadCall, function, message, canceled, load_each}
use sinq.Runner.Modules.Kept.{answers, load_each-answers}
use sinq.Token.{Token, zero_token, script}
use sinq.Scanner.Position.{line_after, column_after}
use sinq.Runner.Scripts.{padded}
use sinq.Runner.Scripts.Placed.{script_text, padded-placed}

-- Files of which one is there.
abbrev only : Bytes → Workspace
only file = record { stat = λ f. equal f file; open_file = λ f. some f }

abbrev call : Workspace → Bool → LoadCall
call ws done = record { module_name = codes "a.b"; workspace = ws; is_done = done }

-- A text compiles to itself.
abbrev same : Bytes → Bytes → Option Bytes
same text file = some text

abbrev three_calls : List LoadCall
three_calls =
    call (only (codes "y/a/b/init.lua")) true
    ∷ call (only (codes "x/a/b.lua")) false
    ∷ call (only []) false
    ∷ []

abbrev lua_path : List Bytes
lua_path = codes "x" ∷ codes "y" ∷ []

three_loads :
    load_each same lua_path [] three_calls
    ≡ canceled ∷ function (codes "y/a/b/init.lua") ∷ function (codes "y/a/b/init.lua") ∷ []
unfolding load_each equal
three_loads = refl

-- An error is kept, also when the file is there later.
error_kept :
    load_each same lua_path [] (call (only []) false ∷ call (only (codes "x/a/b.lua")) false ∷ [])
    ≡ message (not_found (codes "a.b")) ∷ message (not_found (codes "a.b")) ∷ []
unfolding load_each equal
error_kept = refl

load_each-answers_example :
    load_each same lua_path [] three_calls ≡ answers same lua_path [] three_calls
load_each-answers_example = load_each-answers same lua_path three_calls

-- The script `$PRE{` in the second line, behind two bytes.
abbrev pre_token : Token
pre_token = record zero_token { type = script; name = codes "PRE"; line = 2; offset = 3 }

abbrev before_pre : Bytes
before_pre = codes "a" ++ (10 ∷ codes "  ")

padded_run : padded pre_token (codes "x") ≡ 10 ∷ codes "       x"
unfolding padded
padded_run = refl

padded-placed_example :
    (line_after 1 (padded pre_token (codes "x = 1"))
      ≡ line_after 1 (before_pre ++ script_text pre_token (codes "x = 1")))
    × (column_after 1 (padded pre_token (codes "x = 1"))
        ≡ column_after 1 (before_pre ++ script_text pre_token (codes "x = 1")))
padded-placed_example =
    padded-placed before_pre pre_token (codes "x = 1") (refl, refl) (refl, (refl, (refl, tt)))

-- A script with no name in the file gets the nine bytes of a name that is made up.
abbrev unnamed_token : Token
unnamed_token = record zero_token { type = script; name = codes "Unnamed_0"; line = 1; offset = 1 }

unnamed_column : column_after 1 (padded unnamed_token (codes "x")) ≡ 13
unfolding padded
unnamed_column = refl

unnamed_file_column : column_after 1 (codes "${x") ≡ 4
unnamed_file_column = refl
