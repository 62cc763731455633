-- ===== src/Luapi/Json/Parser/Tokens.antt =====
-- The tokens of a tree, the table that stands for it, and the fuel that reading it takes: for JSONParser of internal/luapi/lua-json.go.
use sinq.Prelude.{
  ℕ, suc, ◌+◌, ◌*◌, ◌≤◌, ◌<◌, ◌≡◌, Bool, true, false, List, [], ◌∷◌, Bytes, length, equal,
  if◌then◌else◌, arith,
}
use sinq.Luapi.Json.Tree.{
  Json, jnull, jnumber, jflag, jtext, jarray, jobject, Items, no_items, item, Members, no_members,
  member,
}
use sinq.Luapi.Json.Parser.{
  JsonToken, delim, string_token, float_token, bool_token, null_token, Parsed, lua_null, lua_number,
  lua_bool, lua_string, lua_table, Elements, no_elements, element, Rows, no_rows, row,
}

abbrev pub first : Json → JsonToken
first jnull = null_token
first (jnumber n) = float_token n
first (jflag b) = bool_token b
first (jtext t) = string_token t
first (jarray js) = delim b'['
first (jobject ms) = delim b'{'

-- The tokens of a tree behind its first one, in front of others.
unfoldable mutual
  pub others : Json → List JsonToken → List JsonToken
  others (jarray js) ts = item_tokens js (delim b']' ∷ ts)
  others (jobject ms) ts = member_tokens ms (delim b'}' ∷ ts)
  others _ ts = ts

  pub item_tokens : Items → List JsonToken → List JsonToken
  item_tokens no_items ts = ts
  item_tokens (item j js) ts = first j ∷ others j (item_tokens js ts)

  pub member_tokens : Members → List JsonToken → List JsonToken
  member_tokens no_members ts = ts
  member_tokens (member k j ms) ts = string_token k ∷ first j ∷ others j (member_tokens ms ts)

unfoldable pub tokens : Json → List JsonToken
unfolding others
tokens j = first j ∷ others j []

-- The table that stands for a tree.
unfoldable mutual
  pub to_lua : Json → Parsed
  to_lua jnull = lua_null
  to_lua (jnumber n) = lua_number n
  to_lua (jflag b) = lua_bool b
  to_lua (jtext t) = lua_string t
  to_lua (jarray js) = lua_table (to_elements js) no_rows
  to_lua (jobject ms) = lua_table no_elements (to_rows ms)

  pub to_elements : Items → Elements
  to_elements no_items = no_elements
  to_elements (item j js) = element (to_lua j) (to_elements js)

  pub to_rows : Members → Rows
  to_rows no_members = no_rows
  to_rows (member k j ms) = row k (to_lua j) (to_rows ms)

-- Among the keys of the rest of an object.
abbrev pub is_key : Bytes → Members → Bool
is_key k no_members = false
is_key k (member l j ms) = if equal k l then true else is_key k ms

-- No object has a key twice.
unfoldable mutual
  pub HasDistinctKeys : Json → Type 0
  HasDistinctKeys (jarray js) = HaveDistinctKeys js
  HasDistinctKeys (jobject ms) = AreDistinct ms
  HasDistinctKeys _ = Unit

  pub HaveDistinctKeys : Items → Type 0
  HaveDistinctKeys no_items = Unit
  HaveDistinctKeys (item j js) = HasDistinctKeys j × HaveDistinctKeys js

  pub AreDistinct : Members → Type 0
  AreDistinct no_members = Unit
  AreDistinct (member k j ms) = (is_key k ms ≡ false) × HasDistinctKeys j × AreDistinct ms

unfoldable mutual
  pub cost : Json → ℕ
  cost (jarray js) = 2 + cost_items js
  cost (jobject ms) = 2 + cost_members ms
  cost _ = 1

  pub cost_items : Items → ℕ
  cost_items no_items = 0
  cost_items (item j js) = 1 + cost j + cost_items js

  pub cost_members : Members → ℕ
  cost_members no_members = 0
  cost_members (member k j ms) = 1 + cost j + cost_members ms

mutual
  unfolding cost others

  pub cost-others :
      (j : Json) (ts : List JsonToken) → cost j + 2 * length ts < 2 * suc (length (others j ts))
  cost-others jnull ts = omega arith
  cost-others (jnumber n) ts = omega arith
  cost-others (jflag b) ts = omega arith
  cost-others (jtext t) ts = omega arith
  cost-others (jarray js) ts = omega (arith, cost-item_tokens js (delim b']' ∷ ts))
  cost-others (jobject ms) ts = omega (arith, cost-member_tokens ms (delim b'}' ∷ ts))

  cost-item_tokens :
      (js : Items) (ts : List JsonToken)
      → cost_items js + 2 * length ts ≤ 2 * length (item_tokens js ts)
  cost-item_tokens no_items ts = omega arith
  cost-item_tokens (item j js) ts =
      omega (arith, cost-others j (item_tokens js ts), cost-item_tokens js ts)

  cost-member_tokens :
      (ms : Members) (ts : List JsonToken)
      → cost_members ms + 2 * length ts ≤ 2 * length (member_tokens ms ts)
  cost-member_tokens no_members ts = omega arith
  cost-member_tokens (member k j ms) ts =
      omega (arith, cost-others j (member_tokens ms ts), cost-member_tokens ms ts)
