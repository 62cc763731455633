-- ===== src/Runner/Scripts.antt =====
-- internal/runner/cached-compiler.go: the scripts of a scenario, compiled once. The text that is compiled
-- is padded, for the positions in the compiler's messages. The hash, whose seed is drawn at the start, and
-- the compiler are arguments.
pub mod Placed
use sinq.Prelude.{
  ℕ, zero, suc, ◌+◌, ◌-◌, Option, none, some, List, [], ◌∷◌, ◌++◌, Bytes, codes, length, ◌==◌,
  if◌then◌else◌,
}
use sinq.Spaces.{decimal}
use sinq.Token.{Token}

-- `stringKey`
script_key : Bytes → Token → Bytes
unfolding decimal
script_key filename t = filename ++ codes "/" ++ t.name ++ codes "/" ++ decimal t.start

unfoldable pub repeat_byte : ℕ → ℕ → Bytes
repeat_byte zero b = []
repeat_byte (suc n) b = b ∷ repeat_byte n b

-- The text that is compiled: the script behind as many lines and spaces as stand before it.
unfoldable pub padded : Token → Bytes → Bytes
unfolding repeat_byte
padded t code =
    repeat_byte (t.line - 1) 10 ++ (repeat_byte (t.offset + length t.name + 1) 32 ++ code)

unfoldable pub lookup_proto : {Proto : Type 0} → ℕ → List (ℕ × Proto) → Option Proto
lookup_proto hash [] = none
lookup_proto hash ((h, p) ∷ cache) =
    let rest = lookup_proto hash cache in if hash == h then some p else rest

module _ {Proto : Type 0} (hash : Bytes → ℕ) (compile : Bytes → Bytes → Option Proto) where
  store_proto : List (ℕ × Proto) → ℕ → Option Proto → Option Proto × List (ℕ × Proto)
  store_proto cache h none = (none, cache)
  store_proto cache h (some p) = (some p, (h, p) ∷ cache)

  compile_new :
      List (ℕ × Proto) → Bytes → Token → Bytes → ℕ → Option Proto → Option Proto × List (ℕ × Proto)
  unfolding store_proto padded
  compile_new cache filename t code h (some p) = (some p, cache)
  compile_new cache filename t code h none =
      store_proto cache h (compile (padded t code) (filename ++ codes "#" ++ t.name))

  -- `compileScript`, where `code` is the payload of the token
  unfoldable pub compile_script :
      List (ℕ × Proto) → Bytes → Token → Bytes → Option Proto × List (ℕ × Proto)
  unfolding compile_new lookup_proto script_key
  compile_script cache filename t code =
      let h = hash (script_key filename t ++ code) in
      compile_new cache filename t code h (lookup_proto h cache)
