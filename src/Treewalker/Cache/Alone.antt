-- ===== src/Treewalker/Cache/Alone.antt =====
-- The caches change nothing: in whatever order the workers take their steps, each reads what it would
-- read alone and without a cache.
use sinq.Prelude.{ℕ, ◌≡◌, refl, sym, ◌∙◌, Bool, Option, List, [], ◌∷◌, ◌++◌, map, All}
use sinq.Blueprint.{RequestBlueprint}
use sinq.Treewalker.{FilePath, Config, Job, start_job, no_caches, read_cache, run_steps}
use sinq.Treewalker.Cache.{Placed, place_of}
use sinq.Treewalker.Cache.Follows.{alone, alone_from, Work, AreSound, run_steps-Work}

module _ {Rest : Type 0} (parse_requests : FilePath → Option (List RequestBlueprint))
    (parse_config : FilePath → Config Rest → Config Rest × Bool) (default : Config Rest) where
  -- What each worker has read of its task is what it would have read alone.
  pub record ReadsAlone (task : List FilePath) (j : Job Rest) : Type 0 where
    pub progress : j.handled ++ j.left_files ≡ task
    pub config_alone : j.config ≡ (alone parse_requests parse_config default j.handled).0
    pub requests_alone : j.requests ≡ (alone parse_requests parse_config default j.handled).1

  abbrev pub AllReadAlone : List (List FilePath) → List (Job Rest) → Type 0
  AllReadAlone [] [] = Unit
  AllReadAlone (t ∷ ts) (j ∷ js) = ReadsAlone t j × AllReadAlone ts js
  AllReadAlone [] (j ∷ js) = ⊥
  AllReadAlone (t ∷ ts) [] = ⊥

  -- Where in all tasks the same files stand in front of a file, and whatever the order is in which
  -- the workers take their steps: what a worker has read of its task by then, its configuration and its
  -- requests, is what reading those files alone and without caches gives.
  pub run_steps-AllReadAlone :
      (place : FilePath → List FilePath) (ts : List (List FilePath)) (order : List ℕ)
      → All (Placed place []) ts
      → AllReadAlone ts
          (run_steps parse_requests parse_config order no_caches (map (start_job default) ts)).1
  unfolding no_caches read_cache start_job alone alone_from
  run_steps-AllReadAlone place ts order h = forget ts _ (
      run_steps-Work parse_requests parse_config default (Placed place []) same order no_caches ts
        (map (start_job default) ts) sound h (started ts))
    where
      same :
          (f : FilePath) (b b' r r' : List FilePath)
          → Placed place [] (b ++ f ∷ r)
          → Placed place [] (b' ++ f ∷ r')
          → b ≡ b'
      same f b b' r r' h' k = sym (place_of place [] b f r h') ∙ place_of place [] b' f r' k

      sound : AreSound parse_requests parse_config default (Placed place []) same no_caches
      sound = record {
        sound_requests = λ f rs e. absurd (cc e);
        sound_configs = λ f c e. absurd (cc e);
      }

      started :
          (l : List (List FilePath))
          → Work parse_requests parse_config default
              (Placed place [])
              same
              l
              (map (start_job default) l)
      started [] = tt
      started (t ∷ l) = (
        record {
          split = refl;
          read_config = refl;
          read_requests = refl;
          waiting = λ u e. absurd (cc e);
        },
        started l,
      )

      forget :
          (l : List (List FilePath)) (js : List (Job Rest))
          → Work parse_requests parse_config default (Placed place []) same l js
          → AllReadAlone l js
      forget [] [] w = tt
      forget (t ∷ l) (j ∷ js) w = (
        record {
          progress = (w.0).split;
          config_alone = (w.0).read_config;
          requests_alone = (w.0).read_requests;
        },
        forget l js w.1,
      )
      forget [] (j ∷ js) w = w
      forget (t ∷ l) [] w = w
