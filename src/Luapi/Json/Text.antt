-- ===== src/Luapi/Json/Text.antt =====
-- The text that the serializer of internal/luapi/lua-json.go writes is the tree that the value stands for.
use sinq.Prelude.{
  ℕ, zero, suc, ◌≡◌, Bool, true, false, Option, none, some, List, ◌∷◌, ◌++◌, Bytes, get_elem?,
  if◌then◌else◌, refl, ◌∙◌, ap,
}
use sinq.Luapi.Json.{
  LuaValue, json_null, number, flag, text, table, other, Table, Heap, Forms, Serializer,
  invalid_number, Written, wrote, failed, out_of_fuel, Again, is_visited, is_finite, put,
  serialize_primitive, shape_of, serialize_table, leave, delete, enter, serialize_with,
  serialize_value,
}
use sinq.Luapi.Json.Tree.{
  Json, jnull, jnumber, jflag, jtext, read_table, read_with, read_value, copies, print,
}
use sinq.Luapi.Json.Outcome.{delete-head}
use sinq.Luapi.Json.Entries.{serialize_shape-Prints}
use sinq.Luapi.Json.Layout.{Prints, shape_of-IsFull}

number-Prints :
    (fm : Forms) (n d : ℕ) (s : Serializer) (finite : Bool)
    → Prints
        (print fm s.indent s.newline d)
        (if finite then some (jnumber n) else none)
        s
        (if finite then wrote (put (fm.format_float n) s) else failed (invalid_number n))
unfolding print
number-Prints fm n d s true = (jnumber n, refl, refl)
number-Prints fm n d s false = tt

serialize_primitive-Prints :
    (fm : Forms) (h : Heap) (read : LuaValue → Option Json) (v : LuaValue) (d : ℕ) (s : Serializer)
    → Prints (print fm s.indent s.newline d) (read_with h read v) s (serialize_primitive fm v s)
unfolding serialize_primitive read_with print
serialize_primitive-Prints fm h read json_null d s = (jnull, refl, refl)
serialize_primitive-Prints fm h read (number n) d s = number-Prints fm n d s (is_finite n)
serialize_primitive-Prints fm h read (flag true) d s = (jflag true, refl, refl)
serialize_primitive-Prints fm h read (flag false) d s = (jflag false, refl, refl)
serialize_primitive-Prints fm h read (text t) d s = (jtext t, refl, refl)
serialize_primitive-Prints fm h read (table a) d s = tt
serialize_primitive-Prints fm h read (other name) d s = tt

leave-Prints :
    {X : Type 0} (part : X → Bytes) (r : Option X) (a : ℕ) (s : Serializer) (w : Written)
    → is_visited a s.visited ≡ false
    → Prints part r (record s { visited = a ∷ s.visited }) w
    → Prints part r s (leave a w)
unfolding leave put
leave-Prints part r a s (wrote s₁) new (x, e, same) =
    let forgetting : Serializer → Serializer = λ s'. record s' { visited = delete a s'.visited } in
    let written : List ℕ → Serializer = λ vs. record s { sb = s.sb ++ part x; visited = vs } in
    (x, e, ap forgetting same ∙ ap written (delete-head a s.visited new))
leave-Prints part r a s (failed e) new h = tt
leave-Prints part r a s out_of_fuel new h = tt

module _ (fm : Forms) (h : Heap) where
  serialize_table-Prints :
      (again : Again) (read : LuaValue → Option Json) (o : Option Table) (d : ℕ) (s : Serializer)
      → ((v : LuaValue) (d : ℕ) (s : Serializer)
          → Prints (print fm s.indent s.newline d) (read v) s (again v (copies d s.indent) s))
      → Prints
          (print fm s.indent s.newline d)
          (read_table read o)
          s
          (serialize_table fm again (copies d s.indent) o s)
  unfolding serialize_table read_table
  serialize_table-Prints again read none d s within = tt
  serialize_table-Prints again read (some t) d s within =
      serialize_shape-Prints fm again read within d (shape_of t) s (shape_of-IsFull t)

  enter-Prints :
      (again : Again) (read : LuaValue → Option Json) (a d : ℕ) (s : Serializer) (seen : Bool)
      → is_visited a s.visited ≡ seen
      → ((v : LuaValue) (d : ℕ) (s : Serializer)
          → Prints (print fm s.indent s.newline d) (read v) s (again v (copies d s.indent) s))
      → Prints
          (print fm s.indent s.newline d)
          (read_table read (get_elem? h a))
          s
          (enter fm h again a (copies d s.indent) s seen)
  unfolding enter
  enter-Prints again read a d s true e within = tt
  enter-Prints again read a d s false e within = leave-Prints _ _ a s _ e (
      serialize_table-Prints again read (get_elem? h a) d (record s { visited = a ∷ s.visited })
        within)

  pub serialize_value-Prints :
      (fuel : ℕ) (v : LuaValue) (d : ℕ) (s : Serializer)
      → Prints
          (print fm s.indent s.newline d)
          (read_value h fuel v)
          s
          (serialize_value fm h fuel v (copies d s.indent) s)
  unfolding serialize_value serialize_with read_value read_with
  serialize_value-Prints zero v d s = tt
  serialize_value-Prints (suc fuel) json_null d s =
      serialize_primitive-Prints fm h (read_value h fuel) json_null d s
  serialize_value-Prints (suc fuel) (number n) d s =
      serialize_primitive-Prints fm h (read_value h fuel) (number n) d s
  serialize_value-Prints (suc fuel) (flag b) d s =
      serialize_primitive-Prints fm h (read_value h fuel) (flag b) d s
  serialize_value-Prints (suc fuel) (text t) d s =
      serialize_primitive-Prints fm h (read_value h fuel) (text t) d s
  serialize_value-Prints (suc fuel) (other name) d s = tt
  serialize_value-Prints (suc fuel) (table a) d s =
      enter-Prints (serialize_value fm h fuel) (read_value h fuel) a d s (is_visited a s.visited)
        refl (serialize_value-Prints fuel)
