-- ===== src/Luapi/Json/Once.antt =====
-- What the serializer of internal/luapi/lua-json.go should write is one tree at most: a deeper reading of a value is the same.
use sinq.Prelude.{
  ℕ, zero, suc, ◌+◌, ◌≡◌, true, false, Option, none, some, List, [], ◌∷◌, Bytes, get_elem?,
  if◌then◌else◌, arith, refl, subst,
}
use sinq.Luapi.Json.{
  LuaValue, json_null, number, flag, text, table, other, Table, Heap, is_finite, Shape, invalid,
  as_array, as_object, empty, shape_of,
}
use sinq.Luapi.Json.Tree.{
  Json, jnumber, Items, Members, add_item, add_member, to_array, to_object, read_items,
  read_members, read_shape, read_table, read_with, read_value,
}

-- What was read is read.
abbrev pub Below : {X : Type 0} → Option X → Option X → Type 0
Below none p = Unit
Below (some x) p = p ≡ some x

Below-refl : {X : Type 0} (o : Option X) → Below o o
Below-refl none = tt
Below-refl (some x) = refl

module _ (read later : LuaValue → Option Json)
    (more : (v : LuaValue) → Below (read v) (later v)) where
  add_item-Below :
      (o o' : Option Json) (p p' : Option Items)
      → Below o o'
      → Below p p'
      → Below (add_item o p) (add_item o' p')
  unfolding add_item
  add_item-Below none o' p p' h k = tt
  add_item-Below (some j) o' none p' h k = tt
  add_item-Below (some j) o' (some js) p' h k = rw (h, k, add_item) refl

  add_member-Below :
      (key : Bytes) (o o' : Option Json) (p p' : Option Members)
      → Below o o'
      → Below p p'
      → Below (add_member key o p) (add_member key o' p')
  unfolding add_member
  add_member-Below key none o' p p' h k = tt
  add_member-Below key (some j) o' none p' h k = tt
  add_member-Below key (some j) o' (some js) p' h k = rw (h, k, add_member) refl

  read_items-Below : (vs : List LuaValue) → Below (read_items read vs) (read_items later vs)
  unfolding read_items
  read_items-Below [] = refl
  read_items-Below (v ∷ vs) = add_item-Below _ _ _ _ (more v) (read_items-Below vs)

  read_members-Below :
      (es : List (Bytes × LuaValue)) → Below (read_members read es) (read_members later es)
  unfolding read_members
  read_members-Below [] = refl
  read_members-Below ((k, v) ∷ es) = add_member-Below k _ _ _ _ (more v) (read_members-Below es)

  to_array-Below : (o o' : Option Items) → Below o o' → Below (to_array o) (to_array o')
  unfolding to_array
  to_array-Below none o' h = tt
  to_array-Below (some js) o' h = rw (h, to_array) refl

  to_object-Below : (o o' : Option Members) → Below o o' → Below (to_object o) (to_object o')
  unfolding to_object
  to_object-Below none o' h = tt
  to_object-Below (some ms) o' h = rw (h, to_object) refl

  read_shape-Below : (shape : Shape) → Below (read_shape read shape) (read_shape later shape)
  unfolding read_shape
  read_shape-Below (invalid errors) = tt
  read_shape-Below (as_array vs) = to_array-Below _ _ (read_items-Below vs)
  read_shape-Below (as_object es) = to_object-Below _ _ (read_members-Below es)
  read_shape-Below (empty true) = refl
  read_shape-Below (empty false) = refl

  read_table-Below : (o : Option Table) → Below (read_table read o) (read_table later o)
  unfolding read_table
  read_table-Below none = tt
  read_table-Below (some t) = read_shape-Below (shape_of t)

  read_with-Below : (h : Heap) (v : LuaValue) → Below (read_with h read v) (read_with h later v)
  unfolding read_with
  read_with-Below h json_null = refl
  read_with-Below h (number n) = Below-refl (if is_finite n then some (jnumber n) else none)
  read_with-Below h (flag b) = refl
  read_with-Below h (text t) = refl
  read_with-Below h (table a) = read_table-Below (get_elem? h a)
  read_with-Below h (other name) = tt

module _ (h : Heap) where
  pub read_value-more : (n : ℕ) (v : LuaValue) → Below (read_value h n v) (read_value h (suc n) v)
  unfolding read_value
  read_value-more zero v = tt
  read_value-more (suc n) v =
      read_with-Below (read_value h n) (read_value h (suc n)) (read_value-more n) h v

  later :
      (n : ℕ) (v : LuaValue) (j : Json)
      → read_value h n v ≡ some j
      → read_value h (suc n) v ≡ some j
  later n v j e = subst (λ o. Below o (read_value h (suc n) v)) e (read_value-more n v)

  read_value-plus :
      (k n : ℕ) (v : LuaValue) (j : Json)
      → read_value h n v ≡ some j
      → read_value h (k + n) v ≡ some j
  read_value-plus zero n v j e =
      let same : n ≡ 0 + n = omega arith in subst (λ m. read_value h m v ≡ some j) same e
  read_value-plus (suc k) n v j e =
      let same : suc (k + n) ≡ suc k + n = omega arith in
      subst (λ m. read_value h m v ≡ some j) same (later (k + n) v j (read_value-plus k n v j e))

  -- A value stands for one tree at most.
  pub read_value_unique :
      (n m : ℕ) (v : LuaValue) (i j : Json)
      → read_value h n v ≡ some i
      → read_value h m v ≡ some j
      → i ≡ j
  read_value_unique n m v i j e f =
      let order : m + n ≡ n + m = omega arith in
      let deep = subst (λ k. read_value h k v ≡ some i) order (read_value-plus m n v i e) in
      let shallow = read_value-plus n m v j f in cc
