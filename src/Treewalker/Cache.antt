-- ===== src/Treewalker/Cache.antt =====
-- The caches of the workers as maps, and the files in front of a file.
pub mod Follows
pub mod Alone
use mathlib.Core.Option.{some-injective}
use sinq.Prelude.{
  ℕ, zero, suc, ◌≡◌, ◌↔◌, refl, sym, ap, subst, ◌∙◌, Bool, true, false, inl, inr, Option, none,
  some, List, [], ◌∷◌, ◌++◌, append_assoc, append-nil, map, equal_iff, if◌then◌else◌, All, arith,
  Bool-cases,
}
use sinq.Envs.Merge.{deep_copy_lem}
use sinq.Blueprint.{RequestBlueprint}
use sinq.Treewalker.{
  FilePath, Config, Kind, request_file, config_file, no_kind, kind_of, Update, store_requests,
  store_config, Caches, Job, start_job, no_caches, same_path, read_cache, update_cache, cloned,
  requests_parsed, requests_looked_up, config_parsed, config_looked_up, handle_file, next_file,
  store, job_step, step, run_steps,
}

same_path_iff : (p q : FilePath) → (same_path p q ≡ true) ↔ (p ≡ q)
unfolding same_path
same_path_iff [] [] = ((λ h. refl), λ h. refl)
same_path_iff [] (b ∷ q) = ((λ h. absurd (cc)), λ h. absurd (cc))
same_path_iff (a ∷ p) [] = ((λ h. absurd (cc)), λ h. absurd (cc))
same_path_iff (a ∷ p) (b ∷ q) = ground (arith, equal_iff a b, same_path_iff p q)

read-update :
    {V : Type 0} (k j : FilePath) (v : V) (m : List (FilePath × V))
    → read_cache j (update_cache k v m) ≡ (if same_path k j then some v else read_cache j m)
unfolding read_cache update_cache
read-update k j v [] = refl
read-update k j v ((i, w) ∷ m) =
    ground (arith, same_path_iff i k, same_path_iff i j, same_path_iff k j, read-update k j v m)

-- What holds of all that a cache gives still holds behind a write of which it holds.
update-sound :
    {V : Type 0} (P : FilePath → V → Type 0) (k : FilePath) (v : V) (m : List (FilePath × V))
    → P k v
    → ((j : FilePath) (w : V) → read_cache j m ≡ some w → P j w)
    → (j : FilePath) (w : V) → read_cache j (update_cache k v m) ≡ some w
    → P j w
update-sound P k v m h all j w e = elim (Bool-cases (same_path k j)) [
  | inl y ↦
      let p : k ≡ j = (same_path_iff k j).0 y in
      let q : v ≡ w = some-injective v w (rw (read-update k j v m, y) at e) in rw (← p, ← q) h
  | inr n ↦ all j w (rw (read-update k j v m, n) at e)
]

cloned_lem : {Rest : Type 0} (c : Config Rest) → cloned c ≡ c
unfolding cloned
cloned_lem c = rw (deep_copy_lem c.env) refl

-- Each file of a task stands behind the files that `place` gives for it.
abbrev pub Placed : (FilePath → List FilePath) → List FilePath → List FilePath → Type 0
Placed place front [] = Unit
Placed place front (f ∷ fs) = (place f ≡ front) × Placed place (front ++ f ∷ []) fs

place_of :
    (place : FilePath → List FilePath) (front b : List FilePath) (f : FilePath) (r : List FilePath)
    → Placed place front (b ++ f ∷ r)
    → place f ≡ front ++ b
place_of place front [] f r h = h.0 ∙ sym (append-nil front)
place_of place front (g ∷ b) f r h =
    place_of place (front ++ g ∷ []) b f r h.1 ∙ append_assoc front (g ∷ []) b
