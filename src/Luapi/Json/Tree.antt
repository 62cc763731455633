-- ===== src/Luapi/Json/Tree.antt =====
-- What the serializer of internal/luapi/lua-json.go should write: the tree that a Lua value stands for,
-- read to a depth with no thought of cycles, and the layout of a tree.
use sinq.Prelude.{
  ℕ, zero, suc, Bool, true, false, Option, none, some, List, [], ◌∷◌, ◌++◌, Bytes, codes, get_elem?,
  if◌then◌else◌,
}
use sinq.Luapi.Json.{
  LuaValue, json_null, number, flag, text, table, other, Table, Heap, Forms, is_finite, is_nil,
  Shape, invalid, as_array, as_object, empty, shape_of,
}

mutual
  pub data Json : Type 0 where
    jnull : Json
    jnumber : ℕ → Json
    jflag : Bool → Json
    jtext : Bytes → Json
    jarray : Items → Json
    jobject : Members → Json

  pub data Items : Type 0 where
    no_items : Items
    item : Json → Items → Items

  pub data Members : Type 0 where
    no_members : Members
    member : Bytes → Json → Members → Members

unfoldable pub add_item : Option Json → Option Items → Option Items
add_item none js = none
add_item (some j) none = none
add_item (some j) (some js) = some (item j js)

unfoldable pub add_member : Bytes → Option Json → Option Members → Option Members
add_member k none ms = none
add_member k (some j) none = none
add_member k (some j) (some ms) = some (member k j ms)

unfoldable pub to_array : Option Items → Option Json
to_array none = none
to_array (some js) = some (jarray js)

unfoldable pub to_object : Option Members → Option Json
to_object none = none
to_object (some ms) = some (jobject ms)

unfoldable pub read_items : (LuaValue → Option Json) → List LuaValue → Option Items
unfolding add_item
read_items read [] = some no_items
read_items read (v ∷ vs) = add_item (read v) (read_items read vs)

unfoldable pub read_members : (LuaValue → Option Json) → List (Bytes × LuaValue) → Option Members
unfolding add_member
read_members read [] = some no_members
read_members read ((k, v) ∷ es) = add_member k (read v) (read_members read es)

unfoldable pub read_shape : (LuaValue → Option Json) → Shape → Option Json
unfolding to_array to_object read_items read_members
read_shape read (invalid errors) = none
read_shape read (as_array vs) = to_array (read_items read vs)
read_shape read (as_object es) = to_object (read_members read es)
read_shape read (empty true) = some (jarray no_items)
read_shape read (empty false) = some (jobject no_members)

unfoldable pub read_table : (LuaValue → Option Json) → Option Table → Option Json
unfolding read_shape shape_of
read_table read none = none
read_table read (some t) = read_shape read (shape_of t)

unfoldable pub read_with : Heap → (LuaValue → Option Json) → LuaValue → Option Json
unfolding read_table is_finite
read_with h read json_null = some jnull
read_with h read (number n) = if is_finite n then some (jnumber n) else none
read_with h read (flag b) = some (jflag b)
read_with h read (text t) = some (jtext t)
read_with h read (table a) = read_table read (get_elem? h a)
read_with h read (other name) = none

-- The tree of a value whose tables are nested at most as deep as the number.
unfoldable pub read_value : Heap → ℕ → LuaValue → Option Json
unfolding read_with
read_value h zero v = none
read_value h (suc depth) v = read_with h (read_value h depth) v

-- The indentation at a depth.
unfoldable pub copies : ℕ → Bytes → Bytes
copies zero unit = []
copies (suc d) unit = unit ++ copies d unit

-- The start of a line at a depth, if lines are broken.
unfoldable pub line : Bytes → Bool → ℕ → Bytes
unfolding copies
line unit newline d = if newline then 10 ∷ copies d unit else []

unfoldable pub colon : Bytes → Bytes
colon unit = if is_nil unit then codes ":" else codes ": "

-- What stands behind an entry, in front of the others.
unfoldable pub gap : Bytes → Bool → ℕ → Bool → Bytes
unfolding line
gap unit newline d last =
    if last then line unit newline d else codes "," ++ line unit newline (suc d)

abbrev pub no_more : Items → Bool
no_more no_items = true
no_more (item j js) = false

abbrev pub no_others : Members → Bool
no_others no_members = true
no_others (member k j ms) = false

-- An entry stands on a line of its own, a step deeper than the brackets.
unfoldable mutual
  unfolding line gap colon

  pub print : Forms → Bytes → Bool → ℕ → Json → Bytes
  print fm unit newline d jnull = codes "null"
  print fm unit newline d (jnumber n) = fm.format_float n
  print fm unit newline d (jflag true) = codes "true"
  print fm unit newline d (jflag false) = codes "false"
  print fm unit newline d (jtext t) = fm.marshal t
  print fm unit newline d (jarray no_items) = codes "[]"
  print fm unit newline d (jarray (item j js)) =
      codes "["
      ++ line unit newline (suc d)
      ++ print_items fm unit newline d (item j js)
      ++ codes "]"
  print fm unit newline d (jobject no_members) = codes "{}"
  print fm unit newline d (jobject (member k j ms)) =
      codes "{"
      ++ line unit newline (suc d)
      ++ print_members fm unit newline d (member k j ms)
      ++ codes "}"

  pub print_items : Forms → Bytes → Bool → ℕ → Items → Bytes
  print_items fm unit newline d no_items = []
  print_items fm unit newline d (item j js) =
      print fm unit newline (suc d) j
      ++ gap unit newline d (no_more js)
      ++ print_items fm unit newline d js

  pub print_members : Forms → Bytes → Bool → ℕ → Members → Bytes
  print_members fm unit newline d no_members = []
  print_members fm unit newline d (member k j ms) =
      fm.marshal k
      ++ colon unit
      ++ print fm unit newline (suc d) j
      ++ gap unit newline d (no_others ms)
      ++ print_members fm unit newline d ms
