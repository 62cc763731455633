-- ===== src/Treewalker.antt =====
-- internal/treewalker: the tasks that the walk over a directory makes (treewalker.go), and the workers
-- that read them through caches that they share (worker.go). Paths are the lists of their names. The
-- context does not end on the way; the log and the errors that are reported are left out, since
-- neither changes what is read.
pub mod Cache
pub mod Walk
use sinq.Prelude.{
  ℕ, zero, suc, Bool, true, false, Option, none, some, List, [], ◌∷◌, ◌++◌, Bytes, codes, equal,
  ◌&&◌, if◌then◌else◌,
}
use sinq.Envs.{Fields, deep_copy, merge_fields}
use sinq.Matrix.{Axis}
use sinq.Blueprint.{RequestBlueprint}

abbrev pub FilePath : Type 0
FilePath = List Bytes

mutual
  -- A directory: its entries in the order that `slices.SortFunc` gives them, if it can be read.
  pub data Dir : Type 0 where
    unreadable : Dir
    listed : Entries → Dir

  pub data Entries : Type 0 where
    no_more : Entries
    file : Bytes → Entries → Entries
    other_file : Bytes → Entries → Entries
    directory : Bytes → Dir → Entries → Entries

-- Whether a name has the suffix, `strings.HasSuffix`.
unfoldable pub has_suffix : Bytes → Bytes → Bool
has_suffix suffix [] = equal [] suffix
has_suffix suffix (b ∷ bs) = if equal (b ∷ bs) suffix then true else has_suffix suffix bs

is_request : Bytes → Bool
unfolding has_suffix
is_request name = has_suffix (codes ".sinq") name

is_config : Bytes → Bool
unfolding has_suffix
is_config name = has_suffix (codes ".scenario") name

-- The files of a directory that are requests or configurations.
files_of : FilePath → Entries → List FilePath
unfolding is_request is_config
files_of at no_more = []
files_of at (file name es) =
    let rest = files_of at es in
    let taken = (at ++ name ∷ []) ∷ rest in
    if is_request name then taken else if is_config name then taken else rest
files_of at (other_file name es) = files_of at es
files_of at (directory name d es) = files_of at es

has_dirs : Entries → Bool
has_dirs no_more = false
has_dirs (file name es) = has_dirs es
has_dirs (other_file name es) = has_dirs es
has_dirs (directory name d es) = true

-- A directory without directories in it ends a task, if it has files of its own.
leaf_task : List FilePath → List FilePath → List (List FilePath)
leaf_task before [] = []
leaf_task before (f ∷ fs) = (before ++ f ∷ fs) ∷ []

-- `exploreFS`: the tasks, with the files of the directories above in front.
unfoldable mutual
  unfolding files_of has_dirs leaf_task

  pub explore : FilePath → Dir → List FilePath → List (List FilePath)
  explore at unreadable before = []
  explore at (listed es) before =
      let found = files_of at es in
      let below = explore_dirs at es (before ++ found) in
      if has_dirs es then below else leaf_task before found

  pub explore_dirs : FilePath → Entries → List FilePath → List (List FilePath)
  explore_dirs at no_more before = []
  explore_dirs at (file name es) before = explore_dirs at es before
  explore_dirs at (other_file name es) before = explore_dirs at es before
  explore_dirs at (directory name d es) before =
      explore (at ++ name ∷ []) d before ++ explore_dirs at es before

-- `ScenarioConfig`, as far as the workers touch it.
pub record Config (Rest : Type 0) : Type 0 where
  pub name : Bytes
  pub env : Fields
  pub env_matrix : List Axis
  pub tags : List Bytes
  pub tags_list : List Bytes
  pub others : Rest

-- What a file is by its suffix.
pub data Kind : Type 0 where
  request_file config_file no_kind : Kind

last_name : FilePath → Bytes
last_name [] = []
last_name (n ∷ []) = n
last_name (n ∷ m ∷ p) = last_name (m ∷ p)

-- The switch of `runTask`.
unfoldable pub kind_of : FilePath → Kind
unfolding is_request is_config last_name
kind_of p =
    if is_request (last_name p)
    then request_file
    else if is_config (last_name p)
    then config_file
    else no_kind

-- A write to a cache that a worker has yet to make.
pub data Update (Rest : Type 0) : Type 0 where
  store_requests : FilePath → List RequestBlueprint → Update Rest
  store_config : FilePath → Config Rest → Update Rest

-- `requestCache` and `scenarioConfigCache`
pub record Caches (Rest : Type 0) : Type 0 where
  pub request_cache : List (FilePath × List RequestBlueprint)
  pub config_cache : List (FilePath × Config Rest)

-- A worker in a task: the files behind it and before it, and its variables.
pub record Job (Rest : Type 0) : Type 0 where
  pub handled : List FilePath
  pub left_files : List FilePath
  pub config : Config Rest
  pub requests : List RequestBlueprint
  pub pending : Option (Update Rest)

-- `runTask` before its first file.
unfoldable pub start_job : {Rest : Type 0} → Config Rest → List FilePath → Job Rest
start_job default task = record {
  handled = [];
  left_files = task;
  config = default;
  requests = [];
  pending = none;
}

unfoldable pub no_caches : {Rest : Type 0} → Caches Rest
no_caches = record { request_cache = []; config_cache = [] }

-- A path as it is written.
join_names : FilePath → Bytes
join_names [] = []
join_names (n ∷ []) = n
join_names (n ∷ m ∷ p) = n ++ b'/' ∷ join_names (m ∷ p)

directory_of : FilePath → FilePath
directory_of [] = []
directory_of (n ∷ []) = []
directory_of (n ∷ m ∷ p) = n ∷ directory_of (m ∷ p)

-- `getDefaultScenarioNameFromPath`: the directory, or the file's own path if that is `.`.
default_name : FilePath → FilePath → Bytes
unfolding join_names
default_name f [] = join_names f
default_name f (n ∷ p) = join_names (n ∷ p)

last_file : List FilePath → FilePath
last_file [] = []
last_file (f ∷ []) = f
last_file (f ∷ g ∷ fs) = last_file (g ∷ fs)

named : Bytes → Bytes → Bytes
named default [] = default
named default (b ∷ bs) = b ∷ bs

has_any : List Bytes → Bool
has_any [] = false
has_any (t ∷ ts) = true

-- The end of `runTask`: a scenario, unless there are no requests.
unfoldable pub finish_task :
    {Rest : Type 0}
    → Fields
    → List FilePath
    → Config Rest
    → List RequestBlueprint
    → Option (Config Rest × List RequestBlueprint)
unfolding default_name directory_of last_file named has_any
finish_task env task c [] = none
finish_task env task c (r ∷ rs) =
    let f = last_file task in
    some (
      record c {
        name = named (default_name f (directory_of f)) c.name;
        env = merge_fields c.env env;
        tags_list = if has_any c.tags then c.tags else c.tags_list;
      },
      r ∷ rs,
    )

unfoldable pub same_path : FilePath → FilePath → Bool
same_path [] [] = true
same_path (a ∷ p) (b ∷ q) = equal a b && same_path p q
same_path _ _ = false

-- `readCache`
pub read_cache : {V : Type 0} → FilePath → List (FilePath × V) → Option V
unfolding same_path
read_cache k [] = none
read_cache k ((j, v) ∷ m) = if same_path j k then some v else read_cache k m

-- `updateCache`
update_cache : {V : Type 0} → FilePath → V → List (FilePath × V) → List (FilePath × V)
unfolding same_path
update_cache k v [] = (k, v) ∷ []
update_cache k v ((j, w) ∷ m) = if same_path j k then (k, v) ∷ m else (j, w) ∷ update_cache k v m

-- The copies that go into the cache of configurations, and out of it.
cloned : {Rest : Type 0} → Config Rest → Config Rest
unfolding deep_copy
cloned c = record c { env = deep_copy c.env }

module _ {Rest : Type 0} (parse_requests : FilePath → Option (List RequestBlueprint))
    (parse_config : FilePath → Config Rest → Config Rest × Bool) where
  -- Behind the lookup of a file of requests; `parse_requests` opens the file and parses it.
  requests_parsed : FilePath → Job Rest → Option (List RequestBlueprint) → Job Rest
  requests_parsed f j none = j
  requests_parsed f j (some rs) = record j {
    requests = j.requests ++ rs;
    pending = some (store_requests f rs);
  }

  requests_looked_up : FilePath → Job Rest → Option (List RequestBlueprint) → Job Rest
  unfolding requests_parsed
  requests_looked_up f j (some rs) = record j { requests = j.requests ++ rs }
  requests_looked_up f j none = requests_parsed f j (parse_requests f)

  -- Behind the lookup of a configuration; `parse_config` says whether it failed, and gives what it
  -- has made of the configuration by then.
  config_parsed : FilePath → Job Rest → Config Rest × Bool → Job Rest
  unfolding cloned
  config_parsed f j (c, true) = record j { config = c }
  config_parsed f j (c, false) = record j { config = c; pending = some (store_config f (cloned c)) }

  config_looked_up : FilePath → Job Rest → Option (Config Rest) → Job Rest
  unfolding cloned config_parsed
  config_looked_up f j (some c) = record j { config = cloned c }
  config_looked_up f j none = config_parsed f j (parse_config f j.config)

  -- `handleRequestFile` and `handleScenarioConfigFile`, up to the write to the cache.
  handle_file : Caches Rest → FilePath → Job Rest → Kind → Job Rest
  unfolding requests_looked_up config_looked_up read_cache
  handle_file cs f j request_file = requests_looked_up f j (read_cache f cs.request_cache)
  handle_file cs f j config_file = config_looked_up f j (read_cache f cs.config_cache)
  handle_file cs f j no_kind = j

  -- The next file of a task.
  next_file : Caches Rest → Job Rest → List FilePath → Job Rest
  unfolding handle_file kind_of
  next_file cs j [] = j
  next_file cs j (f ∷ fs) =
      let started = record j { handled = j.handled ++ f ∷ []; left_files = fs } in
      handle_file cs f started (kind_of f)

  store : Update Rest → Caches Rest → Caches Rest
  unfolding update_cache
  store (store_requests f rs) cs = record cs { request_cache = update_cache f rs cs.request_cache }
  store (store_config f c) cs = record cs { config_cache = update_cache f c cs.config_cache }

  -- One step of a worker, which the locks keep from the others' steps: the write that is pending,
  -- or the next file.
  job_step : Caches Rest → Job Rest → Option (Update Rest) → Caches Rest × Job Rest
  unfolding next_file store
  job_step cs j (some u) = (store u cs, record j { pending = none })
  job_step cs j none = (cs, next_file cs j j.left_files)

  -- One step of the worker with a number.
  step : ℕ → Caches Rest → List (Job Rest) → Caches Rest × List (Job Rest)
  unfolding job_step
  step i cs [] = (cs, [])
  step zero cs (j ∷ js) = let (cs', j') = job_step cs j j.pending in (cs', j' ∷ js)
  step (suc i) cs (j ∷ js) = let (cs', js') = step i cs js in (cs', j ∷ js')

  -- The workers, in the order in which they take their steps.
  unfoldable pub run_steps : List ℕ → Caches Rest → List (Job Rest) → Caches Rest × List (Job Rest)
  unfolding step
  run_steps [] cs js = (cs, js)
  run_steps (i ∷ is) cs js = let (cs', js') = step i cs js in run_steps is cs' js'
