-- ===== src/Runner/Modules.antt =====
-- internal/runner/cached-loader.go: the modules that scripts require, looked for on the Lua paths,
-- compiled and kept. The package singleflight has one flight for a name, so that loads are taken one after
-- another, in the order of the flights; what the compiler makes of a text is an argument.
pub mod Kept
use sinq.Prelude.{
  Bool, true, false, Option, none, some, List, [], ◌∷◌, ◌++◌, Bytes, codes, equal, ◌==◌,
  if◌then◌else◌,
}

-- `Workspace`, as it is at a load: whether a file is there, and its text if it can be opened.
pub record Workspace : Type 0 where
  pub stat : Bytes → Bool
  pub open_file : Bytes → Option Bytes

pub data LoadError : Type 0 where
  not_found : Bytes → LoadError
  not_opened : Bytes → LoadError
  not_compiled : Bytes → LoadError

-- `strings.ReplaceAll(moduleName, ".", "/")`
unfoldable pub with_slashes : Bytes → Bytes
with_slashes [] = []
with_slashes (b ∷ bs) = (if b == b'.' then b'/' else b) ∷ with_slashes bs

abbrev pub lua_file : Bytes → Bytes → Bytes
lua_file path name = path ++ codes "/" ++ name ++ codes ".lua"

abbrev pub init_file : Bytes → Bytes → Bytes
init_file path name = path ++ codes "/" ++ name ++ codes "/init.lua"

-- The loop of `loadFile`; `name` has slashes.
unfoldable pub find_file : Workspace → Bytes → List Bytes → Option Bytes
find_file ws name [] = none
find_file ws name (path ∷ paths) =
    let rest = find_file ws name paths in
    if ws.stat (lua_file path name)
    then some (lua_file path name)
    else if ws.stat (init_file path name)
    then some (init_file path name)
    else rest

-- `cachedResult`
pub data CachedResult (Proto : Type 0) : Type 0 where
  compiled : Proto → CachedResult Proto
  failed_load : LoadError → CachedResult Proto

-- What a script gets.
pub data Loaded (Proto : Type 0) : Type 0 where
  function : Proto → Loaded Proto
  message : LoadError → Loaded Proto
  canceled : Loaded Proto

-- A call of `load`: the name, the files at its time, and whether the context of the script ends while it
-- waits for a flight, its own or one that is under way. A call that finds the module stored does not wait.
pub record LoadCall : Type 0 where
  pub module_name : Bytes
  pub workspace : Workspace
  pub is_done : Bool

unfoldable pub push : {Proto : Type 0} → CachedResult Proto → Loaded Proto
push (compiled p) = function p
push (failed_load e) = message e

unfoldable pub receive_load : {Proto : Type 0} → Bool → CachedResult Proto → Loaded Proto
unfolding push
receive_load true r = canceled
receive_load false r = push r

unfoldable pub load_cache :
    {Proto : Type 0} → Bytes → List (Bytes × CachedResult Proto) → Option (CachedResult Proto)
unfolding equal
load_cache name [] = none
load_cache name ((k, r) ∷ cache) =
    let rest = load_cache name cache in if equal name k then some r else rest

module _ {Proto : Type 0} (compile : Bytes → Bytes → Option Proto) (path : List Bytes) where
  compiled_text : Bytes → Option Proto → CachedResult Proto
  compiled_text name none = failed_load (not_compiled name)
  compiled_text name (some p) = compiled p

  opened_text : Bytes → Bytes → Option Bytes → CachedResult Proto
  unfolding compiled_text
  opened_text name file none = failed_load (not_opened name)
  opened_text name file (some text) = compiled_text name (compile text file)

  -- `loadFile`, and the parser and the compiler behind it
  unfoldable pub found_file : Workspace → Bytes → Option Bytes → CachedResult Proto
  unfolding opened_text
  found_file ws name none = failed_load (not_found name)
  found_file ws name (some file) = opened_text name file (ws.open_file file)

  unfoldable pub load_module : Workspace → Bytes → CachedResult Proto
  unfolding found_file find_file with_slashes
  load_module ws name = found_file ws name (find_file ws (with_slashes name) path)

  -- The flight stores what it got, also an error, and also if nobody waits for it any more.
  after_lookup :
      List (Bytes × CachedResult Proto)
      → LoadCall
      → Option (CachedResult Proto)
      → Loaded Proto × List (Bytes × CachedResult Proto)
  unfolding receive_load load_module
  after_lookup cache c (some r) = (receive_load c.is_done r, cache)
  after_lookup cache c none =
      let r = load_module c.workspace c.module_name in
      (receive_load c.is_done r, (c.module_name, r) ∷ cache)

  -- `load`
  unfoldable pub load_lua :
      List (Bytes × CachedResult Proto)
      → LoadCall
      → Loaded Proto × List (Bytes × CachedResult Proto)
  unfolding after_lookup load_cache
  load_lua cache c = after_lookup cache c (load_cache c.module_name cache)

  unfoldable pub load_each : List (Bytes × CachedResult Proto) → List LoadCall → List (Loaded Proto)
  unfolding load_lua
  load_each cache [] = []
  load_each cache (c ∷ cs) = let (r, cache') = load_lua cache c in r ∷ load_each cache' cs
