-- ===== src/Luapi/Json/Entries.antt =====
-- The lists and the brackets of internal/luapi/lua-json.go, when the values within are written right.
use sinq.Prelude.{
  ℕ, suc, ◌≡◌, true, false, Option, some, List, [], ◌∷◌, ◌++◌, Bytes, codes, arith, refl, subst,
  ◌∙◌, sym, ap,
}
use sinq.Luapi.Json.{
  LuaValue, Forms, Serializer, Written, wrote, Again, is_nil, put, and_then, open_line, array_loop,
  serialize_array, labelled, put_key, object_loop, serialize_object, Shape, invalid, as_array,
  as_object, empty, serialize_shape,
}
use sinq.Luapi.Json.Tree.{
  Json, jarray, jobject, Items, no_items, item, Members, no_members, member, add_item, add_member,
  to_array, to_object, read_items, read_members, read_shape, copies, line, colon, gap, no_more,
  no_others, print, print_items, print_members,
}
use sinq.Luapi.Json.Layout.{
  Prints, put-put, and_then-Prints, map-Prints, labelled-Prints, copies-snoc, put-nil, separate-gap,
  put_key-colon, open_line-line, is_nil-no_more, is_nil-no_others, IsFull,
}

module _ (fm : Forms) (again : Again) (read : LuaValue → Option Json)
    (within : (v : LuaValue) (d : ℕ) (s : Serializer)
      → Prints (print fm s.indent s.newline d) (read v) s (again v (copies d s.indent) s)) where
  within_entry :
      (v : LuaValue) (d : ℕ) (s : Serializer)
      → Prints
          (print fm s.indent s.newline (suc d))
          (read v)
          s
          (again v (copies d s.indent ++ s.indent) s)
  within_entry v d s =
      subst (λ t. Prints (print fm s.indent s.newline (suc d)) (read v) s (again v t s))
        (sym (copies-snoc d s.indent)) (within v (suc d) s)

  array_loop-Prints :
      (d : ℕ) (vs : List LuaValue) (s : Serializer)
      → Prints
          (print_items fm s.indent s.newline d)
          (read_items read vs)
          s
          (array_loop again (copies d s.indent) vs s)
  unfolding array_loop read_items print add_item put
  array_loop-Prints d [] s = (no_items, refl, put-nil s)
  array_loop-Prints d (v ∷ vs) s =
      and_then-Prints (print fm s.indent s.newline (suc d)) _ (read v) _ s
        (again v (copies d s.indent ++ s.indent) s) _ (within_entry v d s)
        λ j e.
          let text = print fm s.indent s.newline (suc d) j in
          let between = gap s.indent s.newline d (is_nil vs) in
          subst
            (λ s'.
              Prints (print_items fm s.indent s.newline d) (read_items read (v ∷ vs)) s
                (array_loop again (copies d s.indent) vs s'))
            (sym (separate-gap d (is_nil vs) (put text s) ∙ put-put between text s))
            (map-Prints (print_items fm s.indent s.newline d) _ (read_items read vs) _ (item j) s
              (put (text ++ between) s) _
              (λ js e'. (
                rw (e, e', add_item) refl,
                put-put (print_items fm s.indent s.newline d js) (text ++ between) s
                    ∙ ap
                        (λ b.
                          put
                            (text
                              ++ gap s.indent s.newline d b
                              ++ print_items fm s.indent s.newline d js)
                            s)
                        (sym (is_nil-no_more read vs js e')),
              ))
              (array_loop-Prints d vs (put (text ++ between) s)))

  labelled_entry-Prints :
      (d : ℕ) (k : Bytes) (v : LuaValue) (s : Serializer)
      → Prints
          (λ j. fm.marshal k ++ colon s.indent ++ print fm s.indent s.newline (suc d) j)
          (read v)
          s
          (labelled k (again v (copies d s.indent ++ s.indent) (put_key fm k s)))
  unfolding put
  labelled_entry-Prints d k v s =
      let key = fm.marshal k ++ colon s.indent in
      subst
        (λ s'.
          Prints (λ j. key ++ print fm s.indent s.newline (suc d) j) (read v) s
            (labelled k (again v (copies d s.indent ++ s.indent) s')))
        (sym (put_key-colon fm k s))
        (labelled-Prints _ (read v) s k _ (
          map-Prints (print fm s.indent s.newline (suc d)) _ (read v) (read v) (λ j. j) s
            (put key s) _ (λ j e. (e, put-put (print fm s.indent s.newline (suc d) j) key s))
            (within_entry v d (put key s))))

  object_loop-Prints :
      (d : ℕ) (es : List (Bytes × LuaValue)) (s : Serializer)
      → Prints
          (print_members fm s.indent s.newline d)
          (read_members read es)
          s
          (object_loop fm again (copies d s.indent) es s)
  unfolding object_loop read_members print add_member put
  object_loop-Prints d [] s = (no_members, refl, put-nil s)
  object_loop-Prints d ((k, v) ∷ es) s =
      and_then-Prints (λ j. fm.marshal k ++ colon s.indent ++ print fm s.indent s.newline (suc d) j)
        _ (read v) _ s _ _ (labelled_entry-Prints d k v s)
        λ j e.
          let text = fm.marshal k ++ colon s.indent ++ print fm s.indent s.newline (suc d) j in
          let between = gap s.indent s.newline d (is_nil es) in
          subst
            (λ s'.
              Prints (print_members fm s.indent s.newline d) (read_members read ((k, v) ∷ es)) s
                (object_loop fm again (copies d s.indent) es s'))
            (sym (separate-gap d (is_nil es) (put text s) ∙ put-put between text s))
            (map-Prints (print_members fm s.indent s.newline d) _ (read_members read es) _
              (member k j) s (put (text ++ between) s) _
              (λ ms e'. (
                rw (e, e', add_member) refl,
                put-put (print_members fm s.indent s.newline d ms) (text ++ between) s
                    ∙ ap
                        (λ b.
                          put
                            (text
                              ++ gap s.indent s.newline d b
                              ++ print_members fm s.indent s.newline d ms)
                            s)
                        (sym (is_nil-no_others read es ms e')),
              ))
              (object_loop-Prints d es (put (text ++ between) s)))

  -- The brackets: around the entries of a list that is not empty.
  bracketed-Prints :
      {X : Type 0} (opening closing : Bytes) (entries : X → Bytes) (r : Option X) (q : Option Json)
      (f : X → Json) (d : ℕ) (s : Serializer) (loop : Serializer → Written)
      → ((x : X)
          → r ≡ some x
          → (q ≡ some (f x))
            × (print fm s.indent s.newline d (f x)
                ≡ opening ++ line s.indent s.newline (suc d) ++ entries x ++ closing))
      → Prints entries r
          (put (opening ++ line s.indent s.newline (suc d)) s)
          (loop (put (opening ++ line s.indent s.newline (suc d)) s))
      → Prints (print fm s.indent s.newline d) q s (
          and_then
            (loop (open_line (copies d s.indent) (put opening s)))
            λ s'. wrote (put closing s'))
  unfolding put
  bracketed-Prints opening closing entries r q f d s loop reads inner =
      subst
        (λ s'.
          Prints (print fm s.indent s.newline d) q s
            (and_then (loop s') λ s'. wrote (put closing s')))
        (sym
          (open_line-line d (put opening s) ∙ put-put (line s.indent s.newline (suc d)) opening s))
        (and_then-Prints (λ x. opening ++ line s.indent s.newline (suc d) ++ entries x) _ r q s _ _
          (map-Prints entries _ r r (λ x. x) s _ _
            (λ x e. (e, put-put (entries x) (opening ++ line s.indent s.newline (suc d)) s)) inner)
          λ x e. (
            f x,
            (reads x e).0,
            put-put closing (opening ++ line s.indent s.newline (suc d) ++ entries x) s
                ∙ ap (λ t. put t s) (sym (reads x e).1),
          ))

  print-jarray :
      (d : ℕ) (js : Items) (s : Serializer)
      → no_more js ≡ false
      → print fm s.indent s.newline d (jarray js)
        ≡ codes "["
          ++ line s.indent s.newline (suc d)
          ++ print_items fm s.indent s.newline d js
          ++ codes "]"
  unfolding print
  print-jarray d no_items s e = ground arith
  print-jarray d (item j js) s e = refl

  print-jobject :
      (d : ℕ) (ms : Members) (s : Serializer)
      → no_others ms ≡ false
      → print fm s.indent s.newline d (jobject ms)
        ≡ codes "{"
          ++ line s.indent s.newline (suc d)
          ++ print_members fm s.indent s.newline d ms
          ++ codes "}"
  unfolding print
  print-jobject d no_members s e = ground arith
  print-jobject d (member k j ms) s e = refl

  pub serialize_shape-Prints :
      (d : ℕ) (shape : Shape) (s : Serializer)
      → IsFull shape
      → Prints
          (print fm s.indent s.newline d)
          (read_shape read shape)
          s
          (serialize_shape fm again (copies d s.indent) shape s)
  unfolding serialize_shape read_shape serialize_array serialize_object print put to_array to_object
  serialize_shape-Prints d (invalid errors) s full = tt
  serialize_shape-Prints d (as_array []) s full = ground arith
  serialize_shape-Prints d (as_array (v ∷ vs)) s full =
      bracketed-Prints (codes "[") (codes "]") (print_items fm s.indent s.newline d)
        (read_items read (v ∷ vs)) _ jarray d s (array_loop again (copies d s.indent) (v ∷ vs))
        (λ js e. (rw (e, to_array) refl, print-jarray d js s (is_nil-no_more read (v ∷ vs) js e)))
        (array_loop-Prints d (v ∷ vs) (put (codes "[" ++ line s.indent s.newline (suc d)) s))
  serialize_shape-Prints d (as_object []) s full = ground arith
  serialize_shape-Prints d (as_object (m ∷ es)) s full =
      bracketed-Prints (codes "{") (codes "}") (print_members fm s.indent s.newline d)
        (read_members read (m ∷ es)) _ jobject d s
        (object_loop fm again (copies d s.indent) (m ∷ es))
        (λ ms e.
          (rw (e, to_object) refl, print-jobject d ms s (is_nil-no_others read (m ∷ es) ms e)))
        (object_loop-Prints d (m ∷ es) (put (codes "{" ++ line s.indent s.newline (suc d)) s))
  serialize_shape-Prints d (empty true) s full = (jarray no_items, refl, refl)
  serialize_shape-Prints d (empty false) s full = (jobject no_members, refl, refl)
