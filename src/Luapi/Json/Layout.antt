-- ===== src/Luapi/Json/Layout.antt =====
-- The bytes that internal/luapi/lua-json.go puts between two values, as the layout of a tree says.
use sinq.Prelude.{
  ℕ, zero, suc, ◌≡◌, Bool, true, false, Option, none, some, List, [], ◌∷◌, ◌++◌, Bytes, codes,
  Bool-cases, inl, inr, if◌then◌else◌, arith, not, refl, subst, ◌∙◌, sym, ap, append_assoc,
  append-nil,
}
use sinq.Luapi.Json.{
  LuaValue, Table, Forms, Serializer, Written, wrote, failed, out_of_fuel, is_nil, put, and_then,
  separate, open_line, labelled, put_key, Shape, as_array, as_object, shape_of, shape, gather,
  mixed, Gathered, shape_gathered, sort_entries, insert_entry, below, TableError,
}
use sinq.Luapi.Json.Tree.{
  Json, Items, no_items, item, Members, no_members, member, add_item, add_member, read_items,
  read_members, copies, line, colon, gap, no_more, no_others,
}

-- If the call returned, then it appended the text of what was read, and changed nothing else.
-- If the call returned, then it appended the text of what was read, and changed nothing else.
abbrev pub Prints : {X : Type 0} → (X → Bytes) → Option X → Serializer → Written → Type 0
Prints {X} part r s (wrote s') = (x : X) × (r ≡ some x) × (s' ≡ put (part x) s)
Prints part r s (failed e) = Unit
Prints part r s out_of_fuel = Unit

pub put-put : (a b : Bytes) (s : Serializer) → put a (put b s) ≡ put (b ++ a) s
unfolding put
put-put a b s = ap (λ bytes. record s { sb = bytes }) (append_assoc s.sb b a)

pub and_then-Prints :
    {X Z : Type 0} (part : X → Bytes) (whole : Z → Bytes) (r : Option X) (q : Option Z)
    (s : Serializer) (w : Written) (k : Serializer → Written)
    → Prints part r s w
    → ((x : X) → r ≡ some x → Prints whole q s (k (put (part x) s)))
    → Prints whole q s (and_then w k)
unfolding and_then
and_then-Prints part whole r q s (wrote s₁) k (x, e, same) next =
    subst (λ s'. Prints whole q s (k s')) (sym same) (next x e)
and_then-Prints part whole r q s (failed e) k h next = tt
and_then-Prints part whole r q s out_of_fuel k h next = tt

pub map-Prints :
    {Y Z : Type 0} (part : Y → Bytes) (whole : Z → Bytes) (r : Option Y) (q : Option Z) (f : Y → Z)
    (s s' : Serializer) (w : Written)
    → ((y : Y) → r ≡ some y → (q ≡ some (f y)) × (put (part y) s' ≡ put (whole (f y)) s))
    → Prints part r s' w
    → Prints whole q s w
map-Prints part whole r q f s s' (wrote s₁) step (y, e, same) =
    (f y, (step y e).0, same ∙ (step y e).1)
map-Prints part whole r q f s s' (failed e) step h = tt
map-Prints part whole r q f s s' out_of_fuel step h = tt

pub labelled-Prints :
    {X : Type 0} (part : X → Bytes) (r : Option X) (s : Serializer) (k : Bytes) (w : Written)
    → Prints part r s w
    → Prints part r s (labelled k w)
unfolding labelled
labelled-Prints part r s k (wrote s₁) h = h
labelled-Prints part r s k (failed e) h = tt
labelled-Prints part r s k out_of_fuel h = tt

-- The code appends the unit in front of the indentation or behind it: these are the same bytes.
pub copies-snoc : (d : ℕ) (unit : Bytes) → copies d unit ++ unit ≡ copies (suc d) unit
unfolding copies
copies-snoc zero unit = sym (append-nil unit)
copies-snoc (suc d) unit =
    append_assoc unit (copies d unit) unit ∙ ap (λ t. unit ++ t) (copies-snoc d unit)

pub put-nil : (s : Serializer) → s ≡ put [] s
unfolding put
put-nil s = ap (λ bytes. record s { sb = bytes }) (sym (append-nil s.sb))

newline-put :
    (newline : Bool) (indent : Bytes) (s : Serializer)
    → (if newline then put indent (put (10 ∷ []) s) else s)
      ≡ put (if newline then 10 ∷ indent else []) s
newline-put true indent s = put-put indent (10 ∷ []) s
newline-put false indent s = put-nil s

comma-put :
    (newline : Bool) (indent unit : Bytes) (s : Serializer)
    → (if newline
        then put indent (put unit (put (10 ∷ []) (put (codes ",") s)))
        else put (codes ",") s)
      ≡ put (codes "," ++ (if newline then 10 ∷ (unit ++ indent) else [])) s
comma-put true indent unit s =
    ap (λ s'. put indent (put unit s')) (put-put (10 ∷ []) (codes ",") s)
    ∙ ap (put indent) (put-put unit (codes "," ++ 10 ∷ []) s)
    ∙ put-put indent (codes "," ++ 10 ∷ [] ++ unit) s
comma-put false indent unit s = refl

pub separate-gap :
    (d : ℕ) (last : Bool) (s : Serializer)
    → separate (copies d s.indent) (not last) s ≡ put (gap s.indent s.newline d last) s
unfolding separate gap line copies
separate-gap d true s = newline-put s.newline (copies d s.indent) s
separate-gap d false s = comma-put s.newline (copies d s.indent) s.indent s

space-put :
    (bare : Bool) (k : Bytes) (s : Serializer)
    → (if bare then put (codes ":") (put k s) else put (codes " ") (put (codes ":") (put k s)))
      ≡ put (k ++ (if bare then codes ":" else codes ": ")) s
space-put true k s = put-put (codes ":") k s
space-put false k s =
    ap (put (codes " ")) (put-put (codes ":") k s)
    ∙ put-put (codes " ") (k ++ codes ":") s
    ∙ ap (λ t. put t s) (append_assoc k (codes ":") (codes " "))

pub put_key-colon :
    (fm : Forms) (k : Bytes) (s : Serializer)
    → put_key fm k s ≡ put (fm.marshal k ++ colon s.indent) s
unfolding put_key colon
put_key-colon fm k s = space-put (is_nil s.indent) (fm.marshal k) s

pub open_line-line :
    (d : ℕ) (s : Serializer)
    → open_line (copies d s.indent) s ≡ put (line s.indent s.newline (suc d)) s
unfolding open_line line
open_line-line d s =
    newline-put s.newline (copies d s.indent ++ s.indent) s
    ∙ ap (λ t. put (if s.newline then 10 ∷ t else []) s) (copies-snoc d s.indent)

add_item-no_more :
    (o : Option Json) (p : Option Items) (js : Items) → add_item o p ≡ some js → no_more js ≡ false
unfolding add_item
add_item-no_more none p js e = ground arith
add_item-no_more (some j) none js e = ground arith
add_item-no_more (some j) (some js') no_items e = ground arith
add_item-no_more (some j) (some js') (item i js) e = refl

add_member-no_others :
    (k : Bytes) (o : Option Json) (p : Option Members) (ms : Members)
    → add_member k o p ≡ some ms
    → no_others ms ≡ false
unfolding add_member
add_member-no_others k none p ms e = ground arith
add_member-no_others k (some j) none ms e = ground arith
add_member-no_others k (some j) (some ms') no_members e = ground arith
add_member-no_others k (some j) (some ms') (member l i ms) e = refl

-- What is read of a list is empty when the list is.
pub is_nil-no_more :
    (read : LuaValue → Option Json) (vs : List LuaValue) (js : Items)
    → read_items read vs ≡ some js
    → no_more js ≡ is_nil vs
unfolding read_items
is_nil-no_more read [] no_items e = refl
is_nil-no_more read [] (item j js) e = ground arith
is_nil-no_more read (v ∷ vs) js e = add_item-no_more (read v) (read_items read vs) js e

pub is_nil-no_others :
    (read : LuaValue → Option Json) (es : List (Bytes × LuaValue)) (ms : Members)
    → read_members read es ≡ some ms
    → no_others ms ≡ is_nil es
unfolding read_members
is_nil-no_others read [] no_members e = refl
is_nil-no_others read [] (member k j ms) e = ground arith
is_nil-no_others read ((k, v) ∷ es) ms e =
    add_member-no_others k (read v) (read_members read es) ms e

-- A table that is written with brackets around entries has entries.
abbrev pub IsFull : Shape → Type 0
IsFull (as_array []) = ⊥
IsFull (as_object []) = ⊥
IsFull _ = Unit

insert_entry-IsFull :
    (k : Bytes) (v : LuaValue) (es : List (Bytes × LuaValue))
    → IsFull (as_object (insert_entry k v es))
unfolding insert_entry
insert_entry-IsFull k v [] = tt
insert_entry-IsFull k v ((j, w) ∷ es) = elim (Bool-cases (below j k)) [
  | inl e ↦ rw (e, insert_entry) tt
  | inr e ↦ rw (e, insert_entry) tt
]

shape-IsFull :
    (blank : Bool) (vs : List LuaValue) (es : List (Bytes × LuaValue)) (errors : List TableError)
    → IsFull (shape blank vs es errors)
unfolding shape sort_entries
shape-IsFull blank vs es (e ∷ errors) = tt
shape-IsFull blank (v ∷ vs) es [] = tt
shape-IsFull blank [] ((k, v) ∷ es) [] = insert_entry-IsFull k v (sort_entries es)
shape-IsFull blank [] [] [] = tt

shape_gathered-IsFull : (blank : Bool) (g : Gathered) → IsFull (shape_gathered blank g)
unfolding shape_gathered
shape_gathered-IsFull blank g =
    shape-IsFull blank g.array_entries g.table_entries
      (mixed g.array_entries g.table_entries g.errors_acc)

pub shape_of-IsFull : (t : Table) → IsFull (shape_of t)
unfolding shape_of
shape_of-IsFull t =
    shape_gathered-IsFull t.as_empty_array
      (gather t.len t.entries (record { array_entries = []; table_entries = []; errors_acc = [] }))
