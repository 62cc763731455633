-- ===== src/Treewalker/Walk.antt =====
-- The walk over a directory and the workers together: in the tasks of a walk the same files stand in
-- front of a file, wherever it is.
use sinq.Prelude.{
  ℕ, ◌≡◌, refl, ap, ◌∙◌, Bool, true, false, ◌||◌, inl, inr, Option, List, [], ◌∷◌, ◌++◌,
  append_assoc, append-nil, Bytes, equal, equal_iff, All, All-append, if◌then◌else◌, map, arith,
  Bool-cases,
}
use sinq.Blueprint.{RequestBlueprint}
use sinq.Treewalker.{
  FilePath, Dir, unreadable, listed, Entries, no_more, file, other_file, directory, is_request,
  is_config, files_of, has_dirs, leaf_task, explore, explore_dirs, Config, no_caches, start_job,
  run_steps,
}
use sinq.Treewalker.Cache.{Placed}
use sinq.Treewalker.Cache.Alone.{AllReadAlone, run_steps-AllReadAlone}

unfoldable pub has_name : Bytes → Entries → Bool
has_name n no_more = false
has_name n (file m es) = equal m n || has_name n es
has_name n (other_file m es) = equal m n || has_name n es
has_name n (directory m d es) = equal m n || has_name n es

unfoldable mutual
  -- No two entries of a directory have the same name.
  pub AreDistinct : Dir → Type 0
  AreDistinct unreadable = Unit
  AreDistinct (listed es) = AreDistinctEntries es

  pub AreDistinctEntries : Entries → Type 0
  AreDistinctEntries no_more = Unit
  AreDistinctEntries (file m es) = (has_name m es ≡ false) × AreDistinctEntries es
  AreDistinctEntries (other_file m es) = (has_name m es ≡ false) × AreDistinctEntries es
  AreDistinctEntries (directory m d es) =
      (has_name m es ≡ false) × AreDistinct d × AreDistinctEntries es

-- The file itself, if it is a request or a configuration.
own_file : FilePath → Bytes → List FilePath
own_file at m =
    if is_request m then (at ++ m ∷ []) ∷ [] else if is_config m then (at ++ m ∷ []) ∷ [] else []

files_of-file :
    (at : FilePath) (m : Bytes) (es : Entries)
    → files_of at (file m es) ≡ own_file at m ++ files_of at es
unfolding files_of own_file
files_of-file at m es = ground (arith)

mutual
  unfolding files_of own_file

  -- The files in front of a file, in the tasks of a walk: those of the directories above, and those
  -- before it in its own.
  place_in : FilePath → Dir → List FilePath → FilePath → List FilePath
  place_in at unreadable before f = []
  place_in at (listed es) before [] = []
  place_in at (listed es) before (n ∷ p) = place_at at es before (before ++ files_of at es) n p

  place_at : FilePath → Entries → List FilePath → List FilePath → Bytes → FilePath → List FilePath
  place_at at no_more front found n p = []
  place_at at (file m es) front found n p =
      if equal m n then front else place_at at es (front ++ own_file at m) found n p
  place_at at (other_file m es) front found n p =
      if equal m n then front else place_at at es front found n p
  place_at at (directory m d es) front found n p =
      if equal m n then place_in (at ++ m ∷ []) d found p else place_at at es front found n p

Placed-append :
    (place : FilePath → List FilePath) (front b r : List FilePath)
    → Placed place front b
    → Placed place (front ++ b) r
    → Placed place front (b ++ r)
Placed-append place front [] r h k = rw (append-nil front) at k
Placed-append place front (f ∷ b) r h k =
    (h.0, Placed-append place (front ++ f ∷ []) b r h.1 (rw (append_assoc front (f ∷ []) b) k))

same_name : (n : Bytes) → equal n n ≡ true
same_name n = (equal_iff n n).1 refl

other_name :
    (m n : Bytes) (es : Entries) → has_name m es ≡ false → has_name n es ≡ true → equal m n ≡ false
other_name m n es h k = elim (Bool-cases (equal m n)) [
  | inl y ↦
      let e : m ≡ n = (equal_iff m n).0 y in
      let h' : has_name n es ≡ false = rw e at h in absurd (cc (h', k))
  | inr x ↦ x
]

module _ (place : FilePath → List FilePath) where
  -- Under the names of these entries, a place is found here.
  abbrev Finds : FilePath → Entries → List FilePath → List FilePath → Type 0
  Finds at es front found =
      (n : Bytes) (p : FilePath)
      → has_name n es ≡ true
      → place (at ++ n ∷ p) ≡ place_at at es front found n p

  tail-Finds :
      (at : FilePath) (m : Bytes) (es es' : Entries) (front front' found : List FilePath)
      (there : Bytes → FilePath → List FilePath)
      → has_name m es ≡ false
      → ((n : Bytes) → has_name n es' ≡ (equal m n || has_name n es))
      → ((n : Bytes) (p : FilePath)
          → place_at at es' front found n p
            ≡ (if equal m n then there n p else place_at at es front' found n p))
      → Finds at es' front found
      → Finds at es front' found
  tail-Finds at m es es' front front' found there d names places h n p k =
      let x = other_name m n es d k in h n p (names n ∙ rw x k) ∙ places n p ∙ rw x refl

  head-Finds :
      (at : FilePath) (m : Bytes) (es es' : Entries) (front found l other : List FilePath)
      (p : FilePath)
      → has_name m es' ≡ (equal m m || has_name m es)
      → place_at at es' front found m p ≡ (if equal m m then l else other)
      → Finds at es' front found
      → place (at ++ m ∷ p) ≡ l
  head-Finds at m es es' front found l other p name e h =
      h m p (name ∙ rw (same_name m) refl) ∙ e ∙ rw (same_name m) refl

  own_file-Placed :
      (at : FilePath) (m : Bytes) (front : List FilePath)
      → place (at ++ m ∷ []) ≡ front
      → Placed place front (own_file at m)
  unfolding own_file
  own_file-Placed at m front h = either (is_request m) (is_config m)
    where
      either :
          (b c : Bool)
          → Placed place front
              (if b then (at ++ m ∷ []) ∷ [] else if c then (at ++ m ∷ []) ∷ [] else [])
      either true c = (h, tt)
      either false true = (h, tt)
      either false false = tt

  files_of-Placed :
      (at : FilePath) (es : Entries) (front found : List FilePath)
      → AreDistinctEntries es
      → Finds at es front found
      → Placed place front (files_of at es)
  unfolding files_of AreDistinctEntries place_at has_name
  files_of-Placed at no_more front found d h = tt
  files_of-Placed at (file m es) front found d h = rw (files_of-file at m es) (
      Placed-append place front (own_file at m) _
        (own_file-Placed at m front
          (head-Finds at m es (file m es) front found front _ [] refl refl h))
        (files_of-Placed at es (front ++ own_file at m) found d.1
          (tail-Finds at m es (file m es) front _ found _ d.0 (λ n. refl) (λ n p. refl) h)))
  files_of-Placed at (other_file m es) front found d h =
      files_of-Placed at es front found d.1
        (tail-Finds at m es (other_file m es) front _ found _ d.0 (λ n. refl) (λ n p. refl) h)
  files_of-Placed at (directory m e es) front found d h = files_of-Placed at es front found d.2 (
      tail-Finds at m es (directory m e es) front _ found (λ n p. place_in (at ++ m ∷ []) e found p)
        d.0 (λ n. refl) (λ n p. refl) h)

  leaf_task-Placed :
      (before found : List FilePath)
      → Placed place [] (before ++ found)
      → All (Placed place []) (leaf_task before found)
  unfolding leaf_task
  leaf_task-Placed before [] h = tt
  leaf_task-Placed before (f ∷ fs) h = (h, tt)

  either_tasks :
      (b : Bool) (l r : List (List FilePath))
      → All (Placed place []) l
      → All (Placed place []) r
      → All (Placed place []) (if b then l else r)
  either_tasks true l r h k = h
  either_tasks false l r h k = k

  mutual
    unfolding explore explore_dirs AreDistinct AreDistinctEntries place_in place_at has_name

    explore-Placed :
        (at : FilePath) (d : Dir) (before : List FilePath)
        → AreDistinct d
        → ((f : FilePath) → place (at ++ f) ≡ place_in at d before f)
        → Placed place [] before
        → All (Placed place []) (explore at d before)
    explore-Placed at unreadable before u h v = tt
    explore-Placed at (listed es) before u h v =
        let found = files_of at es in
        let k : Finds at es before (before ++ found) = λ n p x. h (n ∷ p) in
        let w = Placed-append place [] before found v (files_of-Placed at es before _ u k) in
        either_tasks (has_dirs es) _ _ (explore_dirs-Placed at es before (before ++ found) u k w)
          (leaf_task-Placed before found w)

    explore_dirs-Placed :
        (at : FilePath) (es : Entries) (front before : List FilePath)
        → AreDistinctEntries es
        → Finds at es front before
        → Placed place [] before
        → All (Placed place []) (explore_dirs at es before)
    explore_dirs-Placed at no_more front before u h v = tt
    explore_dirs-Placed at (file m es) front before u h v =
        explore_dirs-Placed at es _ before u.1
          (tail-Finds at m es (file m es) front _ before _ u.0 (λ n. refl) (λ n p. refl) h) v
    explore_dirs-Placed at (other_file m es) front before u h v =
        explore_dirs-Placed at es front before u.1
          (tail-Finds at m es (other_file m es) front _ before _ u.0 (λ n. refl) (λ n p. refl) h) v
    explore_dirs-Placed at (directory m d es) front before u h v =
        All-append _ (explore (at ++ m ∷ []) d before) (explore_dirs at es before)
          (explore-Placed (at ++ m ∷ []) d before u.1
            (λ f.
              ap place (append_assoc at (m ∷ []) f)
              ∙ head-Finds at m es (directory m d es) front before _ _ f refl refl h)
            v)
          (explore_dirs-Placed at es front before u.2
            (tail-Finds at m es (directory m d es) front _ before
              (λ n p. place_in (at ++ m ∷ []) d before p) u.0 (λ n. refl) (λ n p. refl) h)
            v)

-- Where no two entries of a directory have the same name, and whatever the order is in which the workers
-- take their steps in the tasks of the walk over it: what a worker has read of its task by then, its
-- configuration and its requests, is what reading those files alone and without caches gives.
pub run_steps-explore :
    {Rest : Type 0} (parse_requests : FilePath → Option (List RequestBlueprint))
    (parse_config : FilePath → Config Rest → Config Rest × Bool) (default : Config Rest) (d : Dir)
    (order : List ℕ)
    → AreDistinct d
    → AllReadAlone parse_requests parse_config default
        (explore [] d [])
        (run_steps parse_requests parse_config order no_caches
          (map (start_job default) (explore [] d []))).1
run_steps-explore parse_requests parse_config default d order u =
    run_steps-AllReadAlone parse_requests parse_config default (place_in [] d []) _ order
      (explore-Placed (place_in [] d []) [] d [] u (λ f. refl) tt)
