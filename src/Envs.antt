-- ===== src/Envs.antt =====
-- internal/envs/envs.go: merging and copying environments. A Go map is a list of fields with distinct
-- keys, in the order in which `range` visits it; a value of the model is not shared, so that what
-- the source copies is equal to the copy. Neither function tells scalars apart.
pub mod Merge
use sinq.Prelude.{Bool, Option, none, some, Bytes, equal, if◌then◌else◌}

mutual
  -- A JSON value; a scalar is given by its text.
  pub data Value : Type 0 where
    scalar : Bytes → Value
    list : Items → Value
    object : Fields → Value

  pub data Items : Type 0 where
    nil : Items
    cons : Value → Items → Items

  pub data Fields : Type 0 where
    end : Fields
    field : Bytes → Value → Fields → Fields

-- `m[k]`
unfoldable pub lookup : Bytes → Fields → Option Value
lookup k end = none
lookup k (field j v m) = if equal j k then some v else lookup k m

-- `m[k] = v`
unfoldable pub insert : Bytes → Value → Fields → Fields
insert k v end = field k v end
insert k v (field j w m) = if equal j k then field k v m else field j w (insert k v m)

-- `DeepCopy`
unfoldable mutual
  pub deep_copy : Fields → Fields
  deep_copy end = end
  deep_copy (field k v m) = field k (copy_value v) (deep_copy m)

  pub copy_value : Value → Value
  copy_value (object m) = object (deep_copy m)
  copy_value (list xs) = list xs
  copy_value (scalar s) = scalar s

-- `DeepMerge` on maps that are not nil. `merge_value` is the switch on one value, with what the
-- target holds at its key.
unfoldable mutual
  unfolding insert lookup deep_copy

  pub merge_fields : Fields → Fields → Fields
  merge_fields target end = target
  merge_fields target (field k v m) =
      merge_fields (insert k (merge_value (lookup k target) v) target) m

  pub merge_value : Option Value → Value → Value
  merge_value (some (object next)) (object m) = object (merge_fields next m)
  merge_value _ (object m) = object (deep_copy m)
  merge_value _ (list xs) = list xs
  merge_value _ (scalar s) = scalar s

-- `DeepMerge`; `none` is a nil map, and the result is the target afterwards.
unfoldable pub deep_merge : Option Fields → Option Fields → Option Fields
unfolding merge_fields
deep_merge none immut = none
deep_merge (some target) none = some target
deep_merge (some target) (some m) = some (merge_fields target m)
