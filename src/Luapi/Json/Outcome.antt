-- ===== src/Luapi/Json/Outcome.antt =====
-- What every call of the serializer of internal/luapi/lua-json.go keeps when the calls within keep it.
use sinq.Prelude.{
  ℕ, Bool, true, false, not, List, [], ◌∷◌, ◌++◌, ◌≡◌, All, Bytes, refl, Bool-cases, inl, inr,
  codes, ◌∙◌, arith, ap,
}
use sinq.Luapi.Json.{
  LuaValue, Forms, Serializer, Failure, bad_table, at_key, Written, wrote, failed, out_of_fuel,
  is_nil, Again, put, and_then, separate, open_line, array_loop, serialize_array, labelled, put_key,
  object_loop, serialize_object, Shape, invalid, as_array, as_object, empty, serialize_shape,
  is_visited, delete, leave,
}

-- The state was passed on with the tables that are being visited as they were, or the call ended in
-- another way that is allowed.
abbrev pub Good : List ℕ → (Failure → Type 0) → Type 0 → Written → Type 0
Good visited F O (wrote s) = s.visited ≡ visited
Good visited F O (failed e) = F e
Good visited F O out_of_fuel = O

pub visited-separate :
    (indent : Bytes) (more : Bool) (s : Serializer) → (separate indent more s).visited ≡ s.visited
unfolding separate put
visited-separate indent true s = ground arith
visited-separate indent false s = ground arith

delete_lem : (a : ℕ) (visited : List ℕ) → is_visited a visited ≡ false → delete a visited ≡ visited
unfolding is_visited delete
delete_lem a [] h = refl
delete_lem a (b ∷ bs) h = ground (arith, delete_lem a bs)

pub delete-head :
    (a : ℕ) (visited : List ℕ) → is_visited a visited ≡ false → delete a (a ∷ visited) ≡ visited
unfolding delete
delete-head a visited h = ground (arith, delete_lem a visited h)

-- A table that is left is taken from the visited ones.
pub leave-Good :
    (a : ℕ) (visited : List ℕ) (F : Failure → Type 0) (O : Type 0) (w : Written)
    → is_visited a visited ≡ false
    → Good (a ∷ visited) F O w
    → Good visited F O (leave a w)
unfolding leave delete
leave-Good a visited F O (wrote s) new h = ap (delete a) h ∙ delete-head a visited new
leave-Good a visited F O (failed e) new h = h
leave-Good a visited F O out_of_fuel new h = h

visited-open_line : (indent : Bytes) (s : Serializer) → (open_line indent s).visited ≡ s.visited
unfolding open_line put
visited-open_line indent s = elim (Bool-cases s.newline) [
  | inl e ↦ rw (e, open_line)
  | inr e ↦ rw (e, open_line)
]

visited-put_key : (fm : Forms) (k : Bytes) (s : Serializer) → (put_key fm k s).visited ≡ s.visited
unfolding put_key put
visited-put_key fm k s = ground arith

abbrev pub AllGood : (Failure → Type 0) → (LuaValue → Type 0) → Shape → Type 0
AllGood F C (invalid errors) = F (bad_table errors)
AllGood F C (as_array vs) = All C vs
AllGood F C (as_object es) = All (λ e. C e.1) es
AllGood F C (empty b) = Unit

module _ (fm : Forms) (again : Again) (visited : List ℕ) (F : Failure → Type 0) (O : Type 0) where
  and_then-Good :
      (w : Written) (k : Serializer → Written)
      → Good visited F O w
      → ((s : Serializer) → s.visited ≡ visited → Good visited F O (k s))
      → Good visited F O (and_then w k)
  unfolding and_then
  and_then-Good (wrote s) k h next = next s h
  and_then-Good (failed e) k h next = h
  and_then-Good out_of_fuel k h next = h

  module _ (C : LuaValue → Type 0)
      (within : (v : LuaValue) (indent : Bytes) (s : Serializer)
        → C v
        → s.visited ≡ visited
        → Good visited F O (again v indent s))
      (label : (k : Bytes) (e : Failure) → F e → F (at_key k e)) where
    array_loop-Good :
        (indent : Bytes) (vs : List LuaValue) (s : Serializer)
        → All C vs
        → s.visited ≡ visited
        → Good visited F O (array_loop again indent vs s)
    unfolding array_loop
    array_loop-Good indent [] s c h = h
    array_loop-Good indent (v ∷ vs) s c h =
        and_then-Good (again v (indent ++ s.indent) s) _ (within v (indent ++ s.indent) s c.0 h)
          λ s' h'.
            array_loop-Good indent vs (separate indent (not (is_nil vs)) s') c.1
              (visited-separate indent (not (is_nil vs)) s' ∙ h')

    labelled-Good : (k : Bytes) (w : Written) → Good visited F O w → Good visited F O (labelled k w)
    unfolding labelled
    labelled-Good k (wrote s) h = h
    labelled-Good k (failed e) h = label k e h
    labelled-Good k out_of_fuel h = h

    object_loop-Good :
        (indent : Bytes) (es : List (Bytes × LuaValue)) (s : Serializer)
        → All (λ e. C e.1) es
        → s.visited ≡ visited
        → Good visited F O (object_loop fm again indent es s)
    unfolding object_loop
    object_loop-Good indent [] s c h = h
    object_loop-Good indent ((k, v) ∷ es) s c h =
        and_then-Good (labelled k (again v (indent ++ s.indent) (put_key fm k s))) _
          (labelled-Good k (again v (indent ++ s.indent) (put_key fm k s))
            (within v (indent ++ s.indent) (put_key fm k s) c.0 (visited-put_key fm k s ∙ h)))
          λ s' h'.
            object_loop-Good indent es (separate indent (not (is_nil es)) s') c.1
              (visited-separate indent (not (is_nil es)) s' ∙ h')

    pub serialize_shape-Good :
        (indent : Bytes) (shape : Shape) (s : Serializer)
        → AllGood F C shape
        → s.visited ≡ visited
        → Good visited F O (serialize_shape fm again indent shape s)
    unfolding serialize_shape serialize_array serialize_object put
    serialize_shape-Good indent (invalid errors) s c h = c
    serialize_shape-Good indent (as_array vs) s c h =
        and_then-Good (array_loop again indent vs (open_line indent (put (codes "[") s))) _
          (array_loop-Good indent vs (open_line indent (put (codes "[") s)) c
            (visited-open_line indent (put (codes "[") s) ∙ h))
          λ s' h'. h'
    serialize_shape-Good indent (as_object es) s c h =
        and_then-Good (object_loop fm again indent es (open_line indent (put (codes "{") s))) _
          (object_loop-Good indent es (open_line indent (put (codes "{") s)) c
            (visited-open_line indent (put (codes "{") s) ∙ h))
          λ s' h'. h'
    serialize_shape-Good indent (empty true) s c h = h
    serialize_shape-Good indent (empty false) s c h = h
