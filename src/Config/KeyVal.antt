-- ===== src/Config/KeyVal.antt =====
-- A setting of the form key=value: `parseKeyVal` of internal/config/parser.go, and `EnvMapValue.Set` of
-- values.go. A nested map is changed where it stands, which here makes the maps around it anew.
pub mod Paths
use sinq.Prelude.{
  ℕ, Bool, true, false, Option, none, some, List, [], ◌∷◌, Bytes, ◌==◌, if◌then◌else◌,
}
use sinq.Envs.{Value, scalar, list, object, Fields, end, lookup, insert, merge_fields}

-- `strings.Split(key, ".")`: the first part, and the others.
pub split_key : Bytes → Bytes × List Bytes
split_key [] = ([], [])
split_key (b ∷ bs) =
    let (part, parts) = split_key bs in if b == b'.' then ([], part ∷ parts) else (b ∷ part, parts)

-- The map at a key, or a new one.
pub table_of : Option Value → Fields
table_of none = end
table_of (some (object m)) = m
table_of (some (scalar s)) = end
table_of (some (list xs)) = end

-- What is stored: the text if it is no JSON; a map is merged into one that is there.
pub placed : Bytes → Option Value → Option Value → Value
unfolding merge_fields
placed text none old = scalar text
placed text (some (object new)) (some (object old)) = object (merge_fields old new)
placed text (some v) old = v

-- The value at a path of keys.
pub set_at : Bytes → List Bytes → (Option Value → Value) → Fields → Fields
unfolding table_of lookup insert
set_at k [] value target = insert k (value (lookup k target)) target
set_at k (j ∷ p) value target =
    insert k (object (set_at j p value (table_of (lookup k target)))) target

-- `parseKeyVal`; `json` is `json.Unmarshal`.
pub parse_key_val : (Bytes → Option Value) → Fields → Bytes → Bytes → Fields
unfolding split_key set_at placed
parse_key_val json target key text =
    let (k, p) = split_key key in set_at k p (placed text (json text)) target

with_byte : ℕ → Option (Bytes × Bytes) → Option (Bytes × Bytes)
with_byte b none = none
with_byte b (some (key, text)) = some (b ∷ key, text)

-- `strings.SplitN(value, "=", 2)`, if it gives two parts.
pub split_pair : Bytes → Option (Bytes × Bytes)
unfolding with_byte
split_pair [] = none
split_pair (b ∷ bs) =
    let rest = with_byte b (split_pair bs) in if b == b'=' then some ([], bs) else rest

pub data EnvSet : Type 0 where
  uninitialized no_equals empty_key : EnvSet
  stored : Fields → EnvSet

pub store_pair : (Bytes → Option Value) → Fields → Option (Bytes × Bytes) → EnvSet
unfolding parse_key_val
store_pair json target none = no_equals
store_pair json target (some ([], text)) = empty_key
store_pair json target (some (b ∷ key, text)) = stored (parse_key_val json target (b ∷ key) text)

-- `EnvMapValue.Set`
unfoldable pub set_env : (Bytes → Option Value) → Option Fields → Bytes → EnvSet
unfolding store_pair split_pair
set_env json none value = uninitialized
set_env json (some target) value = store_pair json target (split_pair value)
