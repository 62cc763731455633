-- ===== src/Luapi/Json.antt =====
-- `JSONSerializer` of internal/luapi/lua-json.go. The tables of the Lua interpreter are a heap, a value
-- refers to a table by its number, and the serializer is a state that is passed on.
pub mod Tree
pub mod Parser
pub mod Outcome
pub mod Ends
pub mod Layout
pub mod Entries
pub mod Text
pub mod Once
pub mod Reads
use sinq.Prelude.{
  ℕ, zero, suc, ◌+◌, ◌*◌, ◌/◌, ◌%◌, ◌^◌, Bool, true, false, not, ◌&&◌, Option, none, some, List, [],
  ◌∷◌, ◌++◌, Bytes, codes, length, get_elem?, ◌==◌, ltb, if◌then◌else◌,
}

-- `lua.LValue`: a number is a float64 by its bits, and a value of another type is known by the type's name.
pub data LuaValue : Type 0 where
  json_null : LuaValue
  number : ℕ → LuaValue
  flag : Bool → LuaValue
  text : Bytes → LuaValue
  table : ℕ → LuaValue
  other : Bytes → LuaValue

pub data Key : Type 0 where
  number_key : ℕ → Key
  text_key : Bytes → Key
  other_key : Bytes → Key

-- `lua.LTable`: what `ForEach` visits, in its order, what `Len` gives, and whether its metatable holds a
-- true `asEmptyArray`.
pub record Table : Type 0 where
  pub entries : List (Key × LuaValue)
  pub len : ℕ
  pub as_empty_array : Bool

abbrev pub Heap : Type 0
Heap = List Table

-- What `strconv.FormatFloat` and `json.Marshal` write for a number and for a text.
pub record Forms : Type 0 where
  pub format_float : ℕ → Bytes
  pub marshal : Bytes → Bytes

pub record Serializer : Type 0 where
  pub sb : Bytes
  pub indent : Bytes
  pub newline : Bool
  pub visited : List ℕ

pub data TableError : Type 0 where
  number_key_error : ℕ → TableError
  key_error : Bytes → TableError
  list_and_table : TableError

-- The errors; a number of no table, which no reference of the interpreter is, is `dangling`.
pub data Failure : Type 0 where
  cycle dangling : Failure
  invalid_number : ℕ → Failure
  unexpected_type : Bytes → Failure
  bad_table : List TableError → Failure
  at_key : Bytes → Failure → Failure

pub data Written : Type 0 where
  wrote : Serializer → Written
  failed : Failure → Written
  out_of_fuel : Written

abbrev pub is_nil {ℓ} : {A : Type ℓ} → List A → Bool
is_nil [] = true
is_nil (x ∷ xs) = false

unfoldable pub put : Bytes → Serializer → Serializer
put bytes s = record s { sb = s.sb ++ bytes }

unfoldable pub and_then : Written → (Serializer → Written) → Written
and_then (wrote s) k = k s
and_then (failed e) k = failed e
and_then out_of_fuel k = out_of_fuel

-- No infinity and not a number: not all bits of the exponent are set.
unfoldable pub is_finite : ℕ → Bool
is_finite n = not ((n / 2 ^ 52) % 2 ^ 11 == 2047)

-- `serializePrimitive`, which is given no table.
unfoldable pub serialize_primitive : Forms → LuaValue → Serializer → Written
unfolding is_finite
serialize_primitive fm json_null s = wrote (put (codes "null") s)
serialize_primitive fm (number n) s =
    if is_finite n then wrote (put (fm.format_float n) s) else failed (invalid_number n)
serialize_primitive fm (flag true) s = wrote (put (codes "true") s)
serialize_primitive fm (flag false) s = wrote (put (codes "false") s)
serialize_primitive fm (text t) s = wrote (put (fm.marshal t) s)
serialize_primitive fm (table a) s = failed (unexpected_type (codes "table"))
serialize_primitive fm (other name) s = failed (unexpected_type name)

-- What the visit of a table gathers.
pub record Gathered : Type 0 where
  pub array_entries : List LuaValue
  pub table_entries : List (Bytes × LuaValue)
  pub errors_acc : List TableError

unfoldable pub gather_entry : ℕ → Key → LuaValue → Gathered → Gathered
gather_entry len (number_key n) v g =
    if length g.array_entries == len
    then record g { errors_acc = g.errors_acc ++ (number_key_error n ∷ []) }
    else record g { array_entries = g.array_entries ++ (v ∷ []) }
gather_entry len (text_key k) v g = record g { table_entries = g.table_entries ++ ((k, v) ∷ []) }
gather_entry len (other_key k) v g = record g { errors_acc = g.errors_acc ++ (key_error k ∷ []) }

unfoldable pub gather : ℕ → List (Key × LuaValue) → Gathered → Gathered
unfolding gather_entry
gather len [] g = g
gather len ((k, v) ∷ entries) g = gather len entries (gather_entry len k v g)

-- What a table is written as.
pub data Shape : Type 0 where
  invalid : List TableError → Shape
  as_array : List LuaValue → Shape
  as_object : List (Bytes × LuaValue) → Shape
  empty : Bool → Shape

unfoldable pub mixed : List LuaValue → List (Bytes × LuaValue) → List TableError → List TableError
mixed (v ∷ vs) (e ∷ es) errors = errors ++ (list_and_table ∷ [])
mixed vs es errors = errors

-- `strings.Compare(one, two) < 0`
unfoldable pub below : Bytes → Bytes → Bool
below s [] = false
below [] (b ∷ t) = true
below (a ∷ s) (b ∷ t) = let rest = below s t in if a == b then rest else ltb a b

unfoldable pub insert_entry : Bytes → LuaValue → List (Bytes × LuaValue) → List (Bytes × LuaValue)
unfolding below
insert_entry k v [] = (k, v) ∷ []
insert_entry k v ((j, w) ∷ es) =
    let rest = insert_entry k v es in if below j k then (j, w) ∷ rest else (k, v) ∷ (j, w) ∷ es

-- `slices.SortFunc` by the keys, of which a table has no two that are equal.
unfoldable pub sort_entries : List (Bytes × LuaValue) → List (Bytes × LuaValue)
unfolding insert_entry
sort_entries [] = []
sort_entries ((k, v) ∷ es) = insert_entry k v (sort_entries es)

unfoldable pub shape : Bool → List LuaValue → List (Bytes × LuaValue) → List TableError → Shape
unfolding sort_entries
shape blank vs es (e ∷ errors) = invalid (e ∷ errors)
shape blank (v ∷ vs) es [] = as_array (v ∷ vs)
shape blank [] (e ∷ es) [] = as_object (sort_entries (e ∷ es))
shape blank [] [] [] = empty blank

unfoldable pub shape_gathered : Bool → Gathered → Shape
unfolding shape mixed
shape_gathered blank g =
    shape blank g.array_entries g.table_entries (mixed g.array_entries g.table_entries g.errors_acc)

unfoldable pub shape_of : Table → Shape
unfolding gather shape_gathered
shape_of t =
    shape_gathered t.as_empty_array
      (gather t.len t.entries (record { array_entries = []; table_entries = []; errors_acc = [] }))

-- What stands behind an entry: a comma if another follows, and the start of the next line.
unfoldable pub separate : Bytes → Bool → Serializer → Serializer
unfolding put
separate indent more s =
    let s₁ = if more then put (codes ",") s else s in
    if s.newline
    then put indent (if more then put s.indent (put (10 ∷ []) s₁) else put (10 ∷ []) s₁)
    else s₁

unfoldable pub open_line : Bytes → Serializer → Serializer
unfolding put
open_line indent s = if s.newline then put (indent ++ s.indent) (put (10 ∷ []) s) else s

-- The serializer of the values within, one call deeper.
abbrev pub Again : Type 0
Again = LuaValue → Bytes → Serializer → Written

unfoldable pub array_loop : Again → Bytes → List LuaValue → Serializer → Written
unfolding and_then separate
array_loop again indent [] s = wrote s
array_loop again indent (v ∷ vs) s =
    and_then (again v (indent ++ s.indent) s)
      λ s'. array_loop again indent vs (separate indent (not (is_nil vs)) s')

-- `serializeArray`
unfoldable pub serialize_array : Again → Bytes → List LuaValue → Serializer → Written
unfolding array_loop open_line put and_then
serialize_array again indent vs s =
    and_then (array_loop again indent vs (open_line indent (put (codes "[") s)))
      λ s'. wrote (put (codes "]") s')

unfoldable pub labelled : Bytes → Written → Written
labelled k (failed e) = failed (at_key k e)
labelled k w = w

unfoldable pub put_key : Forms → Bytes → Serializer → Serializer
unfolding put
put_key fm k s =
    let s₁ = put (codes ":") (put (fm.marshal k) s) in
    if is_nil s.indent then s₁ else put (codes " ") s₁

unfoldable pub object_loop : Forms → Again → Bytes → List (Bytes × LuaValue) → Serializer → Written
unfolding and_then separate put_key labelled
object_loop fm again indent [] s = wrote s
object_loop fm again indent ((k, v) ∷ es) s =
    and_then (labelled k (again v (indent ++ s.indent) (put_key fm k s)))
      λ s'. object_loop fm again indent es (separate indent (not (is_nil es)) s')

-- `serializeObject`, whose entries are sorted
unfoldable pub serialize_object :
    Forms → Again → Bytes → List (Bytes × LuaValue) → Serializer → Written
unfolding object_loop open_line put and_then
serialize_object fm again indent es s =
    and_then (object_loop fm again indent es (open_line indent (put (codes "{") s)))
      λ s'. wrote (put (codes "}") s')

-- `serializeTable`, behind the visit of the table
unfoldable pub serialize_shape : Forms → Again → Bytes → Shape → Serializer → Written
unfolding serialize_array serialize_object put
serialize_shape fm again indent (invalid errors) s = failed (bad_table errors)
serialize_shape fm again indent (as_array vs) s = serialize_array again indent vs s
serialize_shape fm again indent (as_object es) s = serialize_object fm again indent es s
serialize_shape fm again indent (empty true) s = wrote (put (codes "[]") s)
serialize_shape fm again indent (empty false) s = wrote (put (codes "{}") s)

unfoldable pub serialize_table : Forms → Again → Bytes → Option Table → Serializer → Written
unfolding serialize_shape shape_of
serialize_table fm again indent none s = failed dangling
serialize_table fm again indent (some t) s = serialize_shape fm again indent (shape_of t) s

unfoldable pub is_visited : ℕ → List ℕ → Bool
is_visited a [] = false
is_visited a (b ∷ bs) = let rest = is_visited a bs in if a == b then true else rest

-- `delete(s.visited, table)`
unfoldable pub delete : ℕ → List ℕ → List ℕ
delete a [] = []
delete a (b ∷ bs) = let rest = delete a bs in if a == b then rest else b ∷ rest

unfoldable pub leave : ℕ → Written → Written
unfolding delete
leave a (wrote s) = wrote (record s { visited = delete a s.visited })
leave a (failed e) = failed e
leave a out_of_fuel = out_of_fuel

unfoldable pub enter : Forms → Heap → Again → ℕ → Bytes → Serializer → Bool → Written
unfolding serialize_table leave
enter fm h again a indent s true = failed cycle
enter fm h again a indent s false =
    leave a (serialize_table fm again indent (get_elem? h a) (record s { visited = a ∷ s.visited }))

-- `serializeValue`
unfoldable pub serialize_with : Forms → Heap → Again → Again
unfolding enter is_visited serialize_primitive
serialize_with fm h again (table a) indent s = enter fm h again a indent s (is_visited a s.visited)
serialize_with fm h again v indent s = serialize_primitive fm v s

-- Tables within tables are as deep as the fuel.
unfoldable pub serialize_value : Forms → Heap → ℕ → Again
unfolding serialize_with
serialize_value fm h zero v indent s = out_of_fuel
serialize_value fm h (suc fuel) v indent s =
    serialize_with fm h (serialize_value fm h fuel) v indent s

-- `SerializeToJSON` with `SerializeLValue`: a fresh serializer, and fuel for each table and one more.
unfoldable pub serialize_to_json : Forms → Heap → Bytes → LuaValue → Written
unfolding serialize_value
serialize_to_json fm h indent v =
    serialize_value fm h (suc (length h)) v []
      (record { sb = []; indent = indent; newline = not (is_nil indent); visited = [] })
