-- ===== src/Runner/Modules/Kept.antt =====
-- What scripts get of internal/runner/cached-loader.go: a module as it was at its first load.
use sinq.Prelude.{
  Bool, Option, none, some, List, [], ◌∷◌, ◌++◌, Bytes, equal, equal_iff, ◌≡◌, refl, ap, ◌∙◌, sym,
  Bool-cases, Option-cases, inl, inr, arith, if◌then◌else◌, subst,
}
use sinq.Runner.Modules.{
  Workspace, with_slashes, lua_file, init_file, find_file, CachedResult, Loaded, LoadCall,
  receive_load, load_cache, found_file, load_module, after_lookup, load_lua, load_each,
}

-- The files that a module can be, in the order in which they count.
unfoldable pub candidates : Bytes → List Bytes → List Bytes
candidates name [] = []
candidates name (path ∷ paths) = lua_file path name ∷ init_file path name ∷ candidates name paths

unfoldable pub first_there : (Bytes → Bool) → List Bytes → Option Bytes
first_there stat [] = none
first_there stat (f ∷ fs) = let rest = first_there stat fs in if stat f then some f else rest

find_file-candidates :
    (ws : Workspace) (name : Bytes) (paths : List Bytes)
    → find_file ws name paths ≡ first_there ws.stat (candidates name paths)
unfolding find_file first_there candidates
find_file-candidates ws name [] = refl
find_file-candidates ws name (path ∷ paths) = rw (find_file-candidates ws name paths) refl

-- The first call for a name.
unfoldable pub first_call : Bytes → List LoadCall → Option LoadCall
first_call name [] = none
first_call name (c ∷ cs) =
    let rest = first_call name cs in if equal name c.module_name then some c else rest

first_call-snoc-some :
    (name : Bytes) (before : List LoadCall) (c d : LoadCall)
    → first_call name before ≡ some d
    → first_call name (before ++ (c ∷ [])) ≡ some d
unfolding first_call
first_call-snoc-some name [] c d h = ground arith
first_call-snoc-some name (b ∷ before) c d h = ground (arith, first_call-snoc-some name before c d)

first_call-snoc-none :
    (name : Bytes) (before : List LoadCall) (c : LoadCall)
    → first_call name before ≡ none
    → first_call name (before ++ (c ∷ [])) ≡ (if equal name c.module_name then some c else none)
unfolding first_call
first_call-snoc-none name [] c h = refl
first_call-snoc-none name (b ∷ before) c h = elim (Bool-cases (equal name b.module_name)) [
  | inl y ↦ absurd (cc (rw y at h))
  | inr n ↦ rw n (first_call-snoc-none name before c (rw n at h))
]

module _ {Proto : Type 0} (compile : Bytes → Bytes → Option Proto) (path : List Bytes) where
  -- A module as the files of a call have it.
  unfoldable pub module_at : LoadCall → Bytes → CachedResult Proto
  unfolding found_file first_there candidates with_slashes
  module_at c name =
      found_file compile path c.workspace name
        (first_there c.workspace.stat (candidates (with_slashes name) path))

  -- The answer to a call, when the first call for its name is known.
  unfoldable pub answer_as : Option LoadCall → LoadCall → Loaded Proto
  unfolding module_at receive_load
  answer_as none c = receive_load c.is_done (module_at c c.module_name)
  answer_as (some first) c = receive_load c.is_done (module_at first c.module_name)

  unfoldable pub answers : List LoadCall → List LoadCall → List (Loaded Proto)
  unfolding answer_as first_call
  answers before [] = []
  answers before (c ∷ cs) =
      answer_as (first_call c.module_name before) c ∷ answers (before ++ (c ∷ [])) cs

  load_module-module_at :
      (c : LoadCall) (name : Bytes) → load_module compile path c.workspace name ≡ module_at c name
  unfolding load_module module_at
  load_module-module_at c name =
      ap (found_file compile path c.workspace name)
        (find_file-candidates c.workspace (with_slashes name) path)

  kept : Bytes → Option LoadCall → Option (CachedResult Proto)
  kept name none = none
  kept name (some c) = some (module_at c name)

  -- The cache holds each module as its first call had it.
  Follows : List (Bytes × CachedResult Proto) → List LoadCall → Type 0
  Follows cache before = (name : Bytes) → load_cache name cache ≡ kept name (first_call name before)

  abbrev Cache : Type 0
  Cache = List (Bytes × CachedResult Proto)

  -- A name that was called before: nothing changes.
  hit-Follows :
      (cache : Cache) (before : List LoadCall) (c d : LoadCall)
      → Follows cache before
      → first_call c.module_name before ≡ some d
      → Follows cache (before ++ (c ∷ []))
  unfolding Follows
  hit-Follows cache before c d h e name = elim (Option-cases (first_call name before)) [
    | inr (f, there) ↦
        h name ∙ ap (kept name) (there ∙ sym (first_call-snoc-some name before c f there))
    | inl new ↦ elim (Bool-cases (equal name c.module_name)) [
      | inl same ↦
          let eq = (equal_iff name c.module_name).0 same in
          let old = subst (λ n. first_call n before ≡ some d) (sym eq) e in absurd (cc)
      | inr differs ↦
          h name
          ∙ ap (kept name) (new ∙ sym (first_call-snoc-none name before c new ∙ rw differs refl))
    ]
  ]

  -- A name that is new is stored.
  miss-Follows :
      (cache : Cache) (before : List LoadCall) (c : LoadCall)
      → Follows cache before
      → first_call c.module_name before ≡ none
      → Follows
          ((c.module_name, load_module compile path c.workspace c.module_name) ∷ cache)
          (before ++ (c ∷ []))
  unfolding Follows load_cache kept
  miss-Follows cache before c h e name = elim (Bool-cases (equal name c.module_name)) [
    | inl same ↦
        let eq = (equal_iff name c.module_name).0 same in
        let new = subst (λ n. first_call n before ≡ none) (sym eq) e in
        let there : first_call name (before ++ (c ∷ [])) ≡ some c =
          first_call-snoc-none name before c new ∙ rw same refl in
        rw same (
          ap some (load_module-module_at c c.module_name ∙ ap (module_at c) (sym eq))
          ∙ ap (kept name) (sym there))
    | inr differs ↦ elim (Option-cases (first_call name before)) [
      | inr (f, there) ↦
          rw differs
            (h name ∙ ap (kept name) (there ∙ sym (first_call-snoc-some name before c f there)))
      | inl new ↦ rw differs (
          h name
          ∙ ap (kept name) (new ∙ sym (first_call-snoc-none name before c new ∙ rw differs refl)))
    ]
  ]

  load_each-Follows :
      (cs : List LoadCall) (cache : Cache) (before : List LoadCall)
      → Follows cache before
      → load_each compile path cache cs ≡ answers before cs
  unfolding load_each load_lua answers answer_as kept
  load_each-Follows [] cache before h = refl
  load_each-Follows (c ∷ cs) cache before h =
      elim (Option-cases (first_call c.module_name before)) [
        | inr (d, e) ↦
            let stored : load_cache c.module_name cache ≡ some (module_at d c.module_name) =
              unfold Follows kept in (h c.module_name ∙ ap (kept c.module_name) e) in
            rw (stored, e, after_lookup)
              (ap (λ rs. receive_load c.is_done (module_at d c.module_name) ∷ rs)
                (load_each-Follows cs cache (before ++ (c ∷ []))
                  (hit-Follows cache before c d h e)))
        | inl e ↦
            let stored : load_cache c.module_name cache ≡ none =
              unfold Follows kept in (h c.module_name ∙ ap (kept c.module_name) e) in
            rw (stored, e, after_lookup)
              (ap
                  (λ rs.
                    receive_load c.is_done (load_module compile path c.workspace c.module_name)
                    ∷ rs)
                  (load_each-Follows cs _ (before ++ (c ∷ [])) (miss-Follows cache before c h e))
                ∙ ap (λ r. receive_load c.is_done r ∷ answers (before ++ (c ∷ [])) cs)
                    (load_module-module_at c c.module_name))
      ]

  -- Whatever the files are at each call, a call that is not given up gets the module as the
  -- files were at the first call for its name, an error included: from the first candidate that is there.
  pub load_each-answers : (cs : List LoadCall) → load_each compile path [] cs ≡ answers [] cs
  unfolding load_cache first_call Follows kept
  load_each-answers cs = load_each-Follows cs [] [] λ name. refl
