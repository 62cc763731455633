-- ===== src/Matrix.antt =====
-- internal/runner/matrix-helpers.go: the variants of a scenario, one for each choice of a label from
-- every map of its environment matrix. A map is the list of its entries, in the order in which
-- `range` visits them.
pub mod Bijection
use sinq.Prelude.{
  ℕ, ◌+◌, ◌*◌, ◌/◌, ◌%◌, Bool, true, false, Option, none, some, List, [], ◌∷◌, map, Bytes, length,
  get_elem?, ltb, if◌then◌else◌,
}
use sinq.Envs.{Fields}

-- One map of `EnvMatrix`: environments under their labels.
abbrev pub Axis : Type 0
Axis = List (Bytes × Fields)

abbrev pub labels_of : Axis → List Bytes
labels_of axis = map (λ e. e.0) axis

-- `buildAllPaths`: the labels of each map that has any, and the number of choices.
unfoldable pub build_all_paths : List Axis → List (List Bytes) × ℕ
build_all_paths [] = ([], 1)
build_all_paths ([] ∷ axes) = build_all_paths axes
build_all_paths ((e ∷ axis) ∷ axes) =
    let (all_labels, total) = build_all_paths axes in
    (labels_of (e ∷ axis) ∷ all_labels, length (e ∷ axis) * total)

-- A label in front of those that are chosen behind it; `none` is an index out of range.
choose : List Bytes → Option (List Bytes × ℕ) → Option (List Bytes × ℕ)
choose labels none = none
choose labels (some (chosen, path)) = elim (get_elem? labels (path % length labels)) [
  | none ↦ none
  | some l ↦ some (l ∷ chosen, path / length labels)
]

-- The loop of `takePath`, from the last list of labels to the first: the labels, and what is left of
-- the path's number.
take_labels : ℕ → List (List Bytes) → Option (List Bytes × ℕ)
unfolding choose
take_labels path [] = some ([], path)
take_labels path (labels ∷ rest) = choose labels (take_labels path rest)

-- `takePath`
unfoldable pub take_path : ℕ → List (List Bytes) → Option (List Bytes)
unfolding take_labels
take_path path all = elim (take_labels path all) [ none ↦ none | some (chosen, _) ↦ some chosen ]
