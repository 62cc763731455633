-- ===== src/Config/KeyVal/Paths.antt =====
-- A setting is found under its key, and nothing else changes.
use sinq.Prelude.{
  ℕ, ◌≡◌, refl, ap, ◌∙◌, ◌⊎◌, inl, inr, false, Option, none, some, List, [], ◌∷◌, ◌++◌, Bytes,
  equal, equal_iff, ◌==◌, All, All-append,
}
use sinq.Envs.{Value, scalar, list, object, Fields, lookup, merge_fields}
use sinq.Envs.Merge.{
  lookup-insert, get_path, IsObject, IsMapValue, Leaves, get_path-merge_fields,
  get_path-merge_fields_left,
}
use sinq.Config.KeyVal.{
  split_key, table_of, placed, set_at, parse_key_val, split_pair, stored, store_pair, set_env,
}

-- A part of a key.
abbrev pub IsPart : Bytes → Type 0
IsPart = All (λ b. ((b == b'.') ≡ false) × ((b == b'=') ≡ false))

-- A key as it is written.
pub join_key : Bytes → List Bytes → Bytes
join_key k [] = k
join_key k (j ∷ p) = k ++ b'.' ∷ join_key j p

split-part :
    (k rest : Bytes) (r : Bytes × List Bytes)
    → IsPart k
    → split_key rest ≡ ([], r.0 ∷ r.1)
    → split_key (k ++ rest) ≡ (k, r.0 ∷ r.1)
unfolding split_key
split-part [] rest r h e = e
split-part (b ∷ k) rest r h e = rw (split-part k rest r h.1 e, h.0.0) refl

split-last : (k : Bytes) → IsPart k → split_key k ≡ (k, [])
unfolding split_key
split-last [] h = refl
split-last (b ∷ k) h = rw (split-last k h.1, h.0.0) refl

split-join :
    (k : Bytes) (p : List Bytes) → IsPart k → All IsPart p → split_key (join_key k p) ≡ (k, p)
unfolding split_key join_key
split-join k [] h v = split-last k h
split-join k (j ∷ p) h v =
    split-part k (b'.' ∷ join_key j p) (j, p) h (rw (split-join j p v.0 v.1) refl)

abbrev NoEquals : Bytes → Type 0
NoEquals = All (λ b. (b == b'=') ≡ false)

part-NoEquals : (k : Bytes) → IsPart k → NoEquals k
part-NoEquals [] h = tt
part-NoEquals (b ∷ k) h = (h.0.1, part-NoEquals k h.1)

join_key-NoEquals : (k : Bytes) (p : List Bytes) → IsPart k → All IsPart p → NoEquals (join_key k p)
unfolding join_key
join_key-NoEquals k [] h v = part-NoEquals k h
join_key-NoEquals k (j ∷ p) h v =
    All-append _ k (b'.' ∷ join_key j p) (part-NoEquals k h) (refl, join_key-NoEquals j p v.0 v.1)

pair-key : (key text : Bytes) → NoEquals key → split_pair (key ++ b'=' ∷ text) ≡ some (key, text)
unfolding split_pair
pair-key [] text h = refl
pair-key (b ∷ key) text h = rw (pair-key key text h.1, h.0) refl

get_path-nothing : (p : List Bytes) → get_path p none ≡ none
get_path-nothing [] = refl
get_path-nothing (k ∷ p) = refl

-- Under a key there is the same in a value and in the map that is made of it.
get_path-table_of :
    (k : Bytes) (p : List Bytes) (o : Option Value)
    → get_path p (lookup k (table_of o)) ≡ get_path (k ∷ p) o
unfolding table_of lookup
get_path-table_of k p none = get_path-nothing p
get_path-table_of k p (some (object m)) = refl
get_path-table_of k p (some (scalar s)) = get_path-nothing p
get_path-table_of k p (some (list xs)) = get_path-nothing p

set_at-there :
    (k : Bytes) (p : List Bytes) (value : Option Value → Value) (target : Fields)
    → get_path p (lookup k (set_at k p value target)) ≡ some (value (get_path p (lookup k target)))
unfolding set_at
set_at-there k [] value target = rw (lookup-insert k k, (equal_iff k k).1 refl) refl
set_at-there k (j ∷ p) value target =
    rw (lookup-insert k k, (equal_iff k k).1 refl)
      (set_at-there j p value (table_of (lookup k target))
        ∙ ap (λ o. some (value o)) (get_path-table_of j p (lookup k target)))

-- Two paths part at some key.
abbrev pub Apart : List Bytes → List Bytes → Type 0
Apart [] q = ⊥
Apart (k ∷ p) [] = ⊥
Apart (k ∷ p) (j ∷ q) = (equal k j ≡ false) ⊎ (k ≡ j) × Apart p q

set_at-elsewhere :
    (k : Bytes) (p : List Bytes) (j : Bytes) (q : List Bytes) (value : Option Value → Value)
    (target : Fields)
    → Apart (k ∷ p) (j ∷ q)
    → get_path q (lookup j (set_at k p value target)) ≡ get_path q (lookup j target)
unfolding set_at
set_at-elsewhere k [] j q value target (inl n) = rw (lookup-insert k j, n) refl
set_at-elsewhere k [] j q value target (inr h) = absurd h.1
set_at-elsewhere k (i ∷ p) j q value target (inl n) = rw (lookup-insert k j, n) refl
set_at-elsewhere k (i ∷ p) j [] value target (inr h) = absurd h.1
set_at-elsewhere k (i ∷ p) j (l ∷ q) value target (inr h) =
    rw (← h.0, lookup-insert k k, (equal_iff k k).1 refl)
      (set_at-elsewhere i p l q value (table_of (lookup k target)) h.1
        ∙ get_path-table_of l q (lookup k target))

-- A map that holds what the second one has, and, where that leaves a path alone, what the first one has.
pub record IsMerged (old new : Fields) (v : Value) : Type 0 where
  pub map : (r : Fields) × (v ≡ object r)
  pub from_new :
      (k : Bytes) (p : List Bytes) (w : Value)
      → ¬ IsObject w
      → get_path (k ∷ p) (some (object new)) ≡ some w
      → get_path (k ∷ p) (some v) ≡ some w
  pub from_old :
      (p : List Bytes) → Leaves p new → get_path p (some v) ≡ get_path p (some (object old))

-- What is stored of a text, which may be read as JSON, where there may be an old value.
abbrev pub IsStored : Bytes → (read old : Option Value) → Value → Type 0
IsStored text none old v = v ≡ scalar text
IsStored text (some (object new)) (some (object m)) v = IsMerged m new v
IsStored text (some w) old v = v ≡ w

placed-IsStored :
    (text : Bytes) (read old : Option Value)
    → ((v : Value) → read ≡ some v → IsMapValue v)
    → IsStored text read old (placed text read old)
unfolding placed
placed-IsStored text none old h = refl
placed-IsStored text (some (scalar s)) old h = refl
placed-IsStored text (some (list xs)) old h = refl
placed-IsStored text (some (object new)) none h = refl
placed-IsStored text (some (object new)) (some (scalar s)) h = refl
placed-IsStored text (some (object new)) (some (list xs)) h = refl
placed-IsStored text (some (object new)) (some (object m)) h = record {
  map = (merge_fields m new, refl);
  from_new = λ k p w n e. get_path-merge_fields k p m new (h (object new) refl) n e;
  from_old = λ p l. get_path-merge_fields_left p m new (h (object new) refl) l;
}

-- What a setting leaves of the environment: under its path a value for the text, and elsewhere what there
-- was.
pub record IsSetAt (path : List Bytes) (text : Bytes) (read : Option Value) (target result : Fields)
    : Type 0 where
  pub there :
      (v : Value) × (get_path path (some (object result)) ≡ some v)
      × IsStored text read (get_path path (some (object target))) v
  pub elsewhere :
      (j : Bytes) (q : List Bytes)
      → Apart path (j ∷ q)
      → get_path (j ∷ q) (some (object result)) ≡ get_path (j ∷ q) (some (object target))

parse_key_val-IsSetAt :
    (json : Bytes → Option Value) (target : Fields) (k : Bytes) (p : List Bytes) (text : Bytes)
    → ((v : Value) → json text ≡ some v → IsMapValue v)
    → IsPart k
    → All IsPart p
    → IsSetAt (k ∷ p) text (json text) target (parse_key_val json target (join_key k p) text)
unfolding parse_key_val
parse_key_val-IsSetAt json target k p text maps h v = rw (split-join k p h v) (record {
  there = (
    placed text (json text) (get_path p (lookup k target)),
    set_at-there k p _ target,
    placed-IsStored text (json text) (get_path p (lookup k target)) maps,
  );
  elsewhere = λ j q a. set_at-elsewhere k p j q _ target a;
})

-- A setting of a key, written as parts with dots between them, none of which has a dot or an equals sign
-- in it, the first not empty, where a map that is read as JSON has no key twice. Under the path of the parts
-- it stores the text, if that is no JSON; a map that holds all that the JSON has and else what was there, if
-- both are maps; and else the JSON. Paths that part from it keep what they have.
pub set_env-IsSetAt :
    (json : Bytes → Option Value) (target : Fields) (b : ℕ) (k : Bytes) (p : List Bytes)
    (text : Bytes)
    → ((v : Value) → json text ≡ some v → IsMapValue v)
    → IsPart (b ∷ k)
    → All IsPart p
    → (result : Fields) × (set_env json (some target) (join_key (b ∷ k) p ++ b'=' ∷ text)
        ≡ stored result)
      × IsSetAt ((b ∷ k) ∷ p) text (json text) target result
unfolding set_env
set_env-IsSetAt json target b k p text maps h v = (
  _,
  ap (store_pair json target) (pair-key (join_key (b ∷ k) p) text (join_key-NoEquals (b ∷ k) p h v))
      ∙ stores p,
  parse_key_val-IsSetAt json target (b ∷ k) p text maps h v,
)
  where
    stores :
        (q : List Bytes)
        → store_pair json target (some (join_key (b ∷ k) q, text))
          ≡ stored (parse_key_val json target (join_key (b ∷ k) q) text)
    stores [] = unfold store_pair join_key in refl
    stores (j ∷ q) = unfold store_pair join_key in refl
