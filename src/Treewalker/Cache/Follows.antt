-- ===== src/Treewalker/Cache/Follows.antt =====
-- What a worker has read, and what is in the caches, step by step.
use mathlib.Core.Option.{some-injective}
use sinq.Prelude.{
  ℕ, zero, suc, ◌≡◌, refl, sym, ap, subst, ◌∙◌, Bool, true, false, Option, none, some, List, [],
  ◌∷◌, ◌++◌, append_assoc, All,
}
use sinq.Blueprint.{RequestBlueprint}
use sinq.Treewalker.{
  FilePath, Config, Kind, request_file, config_file, no_kind, kind_of, Update, store_requests,
  store_config, Caches, Job, read_cache, requests_parsed, requests_looked_up, config_parsed,
  config_looked_up, handle_file, next_file, store, job_step, step, run_steps,
}
use sinq.Treewalker.Cache.{update-sound, cloned_lem}

module _ {Rest : Type 0} (parse_requests : FilePath → Option (List RequestBlueprint))
    (parse_config : FilePath → Config Rest → Config Rest × Bool) (default : Config Rest) where
  -- A file read without a cache.
  abbrev more_requests :
      List RequestBlueprint → Option (List RequestBlueprint) → List RequestBlueprint
  more_requests rs none = rs
  more_requests rs (some new) = rs ++ new

  pub alone_file :
      FilePath → Kind → Config Rest × List RequestBlueprint → Config Rest × List RequestBlueprint
  alone_file f request_file (c, rs) = (c, more_requests rs (parse_requests f))
  alone_file f config_file (c, rs) = ((parse_config f c).0, rs)
  alone_file f no_kind r = r

  -- The files read one after the other, without a cache.
  unfoldable pub alone_from :
      Config Rest × List RequestBlueprint → List FilePath → Config Rest × List RequestBlueprint
  alone_from r [] = r
  alone_from r (f ∷ fs) = alone_from (alone_file f (kind_of f) r) fs

  unfoldable pub alone : List FilePath → Config Rest × List RequestBlueprint
  unfolding alone_from
  alone fs = alone_from (default, []) fs

  alone_from-last :
      (r : Config Rest × List RequestBlueprint) (fs : List FilePath) (f : FilePath)
      → alone_from r (fs ++ f ∷ []) ≡ alone_file f (kind_of f) (alone_from r fs)
  unfolding alone_from
  alone_from-last r [] f = refl
  alone_from-last r (g ∷ fs) f = alone_from-last (alone_file g (kind_of g) r) fs f

  alone-last :
      (fs : List FilePath) (f : FilePath)
      → alone (fs ++ f ∷ []) ≡ alone_file f (kind_of f) (alone fs)
  unfolding alone
  alone-last fs f = alone_from-last (default, []) fs f

  -- What a worker in a task has, at each of its steps.
  pub record Follows (IsCached : Update Rest → Type 0) (task : List FilePath) (j : Job Rest)
      : Type 0 where
    pub split : j.handled ++ j.left_files ≡ task
    pub read_config : j.config ≡ (alone j.handled).0
    pub read_requests : j.requests ≡ (alone j.handled).1
    pub waiting : (u : Update Rest) → j.pending ≡ some u → IsCached u

  -- The tasks, in all of which the same files stand in front of a configuration.
  module _ (IsTask : List FilePath → Type 0)
      (consistent : (f : FilePath) (b b' r r' : List FilePath)
        → IsTask (b ++ f ∷ r)
        → IsTask (b' ++ f ∷ r')
        → b ≡ b') where
    -- What may be in a cache: what the file gives in the tasks that it is in.
    abbrev pub IsCached : Update Rest → Type 0
    IsCached (store_requests f rs) = parse_requests f ≡ some rs
    IsCached (store_config f c) =
        (b : List FilePath) × (r : List FilePath) × IsTask (b ++ f ∷ r)
        × (c ≡ (alone (b ++ f ∷ [])).0)

    pub record AreSound (cs : Caches Rest) : Type 0 where
      pub sound_requests :
          (f : FilePath) (rs : List RequestBlueprint)
          → read_cache f cs.request_cache ≡ some rs
          → IsCached (store_requests f rs)
      pub sound_configs :
          (f : FilePath) (c : Config Rest)
          → read_cache f cs.config_cache ≡ some c
          → IsCached (store_config f c)

    store-AreSound :
        (u : Update Rest) (cs : Caches Rest)
        → IsCached u
        → AreSound cs
        → AreSound (store parse_requests parse_config u cs)
    unfolding store
    store-AreSound (store_requests f rs) cs v s = record {
      sound_requests =
          update-sound (λ g x. parse_requests g ≡ some x) f rs cs.request_cache v s.sound_requests;
      sound_configs = s.sound_configs;
    }
    store-AreSound (store_config f c) cs v s = record {
      sound_requests = s.sound_requests;
      sound_configs =
          update-sound (λ g x. IsCached (store_config g x)) f c cs.config_cache v s.sound_configs;
    }

    -- A file taken up by a worker, from what it has read so far.
    module _ (cs : Caches Rest) (sound : AreSound cs) (task handled fs : List FilePath)
        (f : FilePath) (is_task : IsTask task) (e : handled ++ f ∷ fs ≡ task) where
      behind :
          (j : Job Rest)
          → j.handled ≡ handled ++ f ∷ []
          → j.left_files ≡ fs
          → j.config ≡ (alone_file f (kind_of f) (alone handled)).0
          → j.requests ≡ (alone_file f (kind_of f) (alone handled)).1
          → ((u : Update Rest) → j.pending ≡ some u → IsCached u)
          → Follows IsCached task j
      behind j h l c r w = record {
        split = rw (h, l) (append_assoc handled (f ∷ []) fs ∙ e);
        read_config =
            c ∙ ap (λ x. x.0) (sym (alone-last handled f)) ∙ ap (λ x. (alone x).0) (sym h);
        read_requests =
            r ∙ ap (λ x. x.1) (sym (alone-last handled f)) ∙ ap (λ x. (alone x).1) (sym h);
        waiting = w;
      }

      requests_parsed-Follows :
          (j : Job Rest)
          → kind_of f ≡ request_file
          → j.handled ≡ handled ++ f ∷ []
          → j.left_files ≡ fs
          → j.pending ≡ none
          → j.config ≡ (alone handled).0
          → j.requests ≡ (alone handled).1
          → (o : Option (List RequestBlueprint)) → parse_requests f ≡ o
          → Follows IsCached task (requests_parsed parse_requests parse_config f j o)
      unfolding requests_parsed alone_file
      requests_parsed-Follows j k h l n c r none p =
          behind j h l (rw k c) (rw (k, p) r) (λ u x. absurd (cc))
      requests_parsed-Follows j k h l n c r (some new) p =
          behind _ h l (rw k c) (rw (k, p) (ap (λ x. x ++ new) r))
            (λ u x. rw (← some-injective _ u x) p)

      requests_looked_up-Follows :
          (j : Job Rest)
          → kind_of f ≡ request_file
          → j.handled ≡ handled ++ f ∷ []
          → j.left_files ≡ fs
          → j.pending ≡ none
          → j.config ≡ (alone handled).0
          → j.requests ≡ (alone handled).1
          → (o : Option (List RequestBlueprint)) → read_cache f cs.request_cache ≡ o
          → Follows IsCached task (requests_looked_up parse_requests parse_config f j o)
      unfolding requests_looked_up alone_file
      requests_looked_up-Follows j k h l n c r none q =
          requests_parsed-Follows j k h l n c r (parse_requests f) refl
      requests_looked_up-Follows j k h l n c r (some rs) q =
          behind _ h l (rw k c) (rw (k, sound.sound_requests f rs q) (ap (λ x. x ++ rs) r))
            (λ u x. absurd (cc))

      here : IsTask (handled ++ f ∷ fs)
      here = subst IsTask (sym e) is_task

      -- What a configuration is read as here.
      config_here :
          kind_of f ≡ config_file
          → (alone (handled ++ f ∷ [])).0 ≡ (parse_config f (alone handled).0).0
      unfolding alone_file
      config_here k = rw (alone-last handled f, k) refl

      config_parsed-Follows :
          (j : Job Rest)
          → kind_of f ≡ config_file
          → j.handled ≡ handled ++ f ∷ []
          → j.left_files ≡ fs
          → j.pending ≡ none
          → j.config ≡ (alone handled).0
          → j.requests ≡ (alone handled).1
          → (o : Config Rest × Bool) → parse_config f (alone handled).0 ≡ o
          → Follows IsCached task (config_parsed parse_requests parse_config f j o)
      unfolding config_parsed alone_file
      config_parsed-Follows j k h l n c r (new, true) p =
          behind _ h l (rw (k, p) refl) (rw k r) (λ u x. absurd (cc))
      config_parsed-Follows j k h l n c r (new, false) p =
          behind _ h l (rw (k, p) refl) (rw k r) (λ u x.
            subst IsCached (some-injective _ u x)
              (handled, fs, here, cloned_lem new ∙ sym (config_here k ∙ ap (λ y. y.0) p)))

      config_looked_up-Follows :
          (j : Job Rest)
          → kind_of f ≡ config_file
          → j.handled ≡ handled ++ f ∷ []
          → j.left_files ≡ fs
          → j.pending ≡ none
          → j.config ≡ (alone handled).0
          → j.requests ≡ (alone handled).1
          → (o : Option (Config Rest)) → read_cache f cs.config_cache ≡ o
          → Follows IsCached task (config_looked_up parse_requests parse_config f j o)
      unfolding config_looked_up alone_file
      config_looked_up-Follows j k h l n c r none q =
          config_parsed-Follows j k h l n c r (parse_config f j.config)
            (ap (parse_config f) (sym c))
      config_looked_up-Follows j k h l n c r (some found) q =
          let (b, rest, t, same) = sound.sound_configs f found q in
          let eq = consistent f b handled rest fs t here in
          behind _ h l
            (rw k (cloned_lem found ∙ same ∙ ap (λ x. (alone (x ++ f ∷ [])).0) eq ∙ config_here k))
            (rw k r) (λ u x. absurd (cc))

      handle_file-Follows :
          (j : Job Rest)
          → j.handled ≡ handled ++ f ∷ []
          → j.left_files ≡ fs
          → j.pending ≡ none
          → j.config ≡ (alone handled).0
          → j.requests ≡ (alone handled).1
          → (k : Kind) → kind_of f ≡ k
          → Follows IsCached task (handle_file parse_requests parse_config cs f j k)
      unfolding handle_file alone_file
      handle_file-Follows j h l n c r request_file k =
          requests_looked_up-Follows j k h l n c r _ refl
      handle_file-Follows j h l n c r config_file k = config_looked_up-Follows j k h l n c r _ refl
      handle_file-Follows j h l n c r no_kind k =
          behind j h l (rw k c) (rw k r) (λ u x. absurd (cc))

    next_file-Follows :
        (cs : Caches Rest) (task : List FilePath) (j : Job Rest)
        → AreSound cs
        → IsTask task
        → Follows IsCached task j
        → j.pending ≡ none
        → (l : List FilePath) → j.left_files ≡ l
        → Follows IsCached task (next_file parse_requests parse_config cs j l)
    unfolding next_file
    next_file-Follows cs task j s t v n [] e = v
    next_file-Follows cs task j s t v n (f ∷ fs) e =
        handle_file-Follows cs s task j.handled fs f t (rw (← e) v.split) _ refl refl n
          v.read_config v.read_requests (kind_of f) refl

    -- What a step leaves of the caches and the worker.
    abbrev StepKeeps : List FilePath → Caches Rest × Job Rest → Type 0
    StepKeeps task r = AreSound r.0 × Follows IsCached task r.1

    job_step-StepKeeps :
        (cs : Caches Rest) (task : List FilePath) (j : Job Rest)
        → AreSound cs
        → IsTask task
        → Follows IsCached task j
        → (o : Option (Update Rest)) → j.pending ≡ o
        → StepKeeps task (job_step parse_requests parse_config cs j o)
    unfolding job_step
    job_step-StepKeeps cs task j s t v none n =
        (s, next_file-Follows cs task j s t v n j.left_files refl)
    job_step-StepKeeps cs task j s t v (some u) p = (
      store-AreSound u cs (v.waiting u p) s,
      record {
        split = v.split;
        read_config = v.read_config;
        read_requests = v.read_requests;
        waiting = λ u' x. absurd (cc);
      },
    )

    -- The workers, each in its task.
    abbrev pub Work : List (List FilePath) → List (Job Rest) → Type 0
    Work [] [] = Unit
    Work (t ∷ ts) (j ∷ js) = Follows IsCached t j × Work ts js
    Work [] (j ∷ js) = ⊥
    Work (t ∷ ts) [] = ⊥

    step-Work :
        (i : ℕ) (cs : Caches Rest) (ts : List (List FilePath)) (js : List (Job Rest))
        → AreSound cs
        → All IsTask ts
        → Work ts js
        → AreSound (step parse_requests parse_config i cs js).0
          × Work ts (step parse_requests parse_config i cs js).1
    unfolding step
    step-Work i cs [] [] s t w = (s, tt)
    step-Work i cs (t ∷ ts) [] s h w = absurd w
    step-Work i cs [] (j ∷ js) s h w = absurd w
    step-Work zero cs (t ∷ ts) (j ∷ js) s h w =
        let k = job_step-StepKeeps cs t j s h.0 w.0 j.pending refl in (k.0, (k.1, w.1))
    step-Work (suc i) cs (t ∷ ts) (j ∷ js) s h w =
        let k = step-Work i cs ts js s h.1 w.1 in (k.0, (w.0, k.1))

    pub run_steps-Work :
        (is : List ℕ) (cs : Caches Rest) (ts : List (List FilePath)) (js : List (Job Rest))
        → AreSound cs
        → All IsTask ts
        → Work ts js
        → Work ts (run_steps parse_requests parse_config is cs js).1
    unfolding run_steps
    run_steps-Work [] cs ts js s h w = w
    run_steps-Work (i ∷ is) cs ts js s h w =
        let k = step-Work i cs ts js s h w in run_steps-Work is _ ts _ k.0 h k.1
