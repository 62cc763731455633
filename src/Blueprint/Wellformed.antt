-- ===== src/Blueprint/Wellformed.antt =====
-- `ParseRequestBlueprints` ends on every input, and what it returns is fit to be run.
pub mod Parsed
use sinq.Prelude.{
  ℕ, zero, suc, ◌+◌, ◌*◌, ◌≤◌, ◌<◌, ◌≡◌, ◌≢◌, refl, ◌∙◌, subst, Bool, true, false, ◌⊎◌, inl, inr,
  some, List, [], ◌∷◌, ◌++◌, Bytes, codes, equal, equal_iff, length, arith, All, All-append,
  Bool-cases, if◌then◌else◌,
}
use sinq.Result.{Result, ok, ◌>>=◌, Ends, done, failed, Ends-bind, Ends-if}
use sinq.Scanner.{left, new_byte_scanner}
use sinq.Scanner.Position.{Ahead-left}
use sinq.Token.{TokenType, incomplete_token, text, script, delimiter, eof, Token, is_special_script}
use sinq.Lexer.Progress.{Fits, consume_whitespace-Ahead}
use sinq.Blueprint.{
  RequestBlueprint, new_blueprint, set_script, Loop, skip_whitespace, is_nil, next_request,
  add_text, parsing_round, lex_into, parsing_loop, finish, start_loop, parse_request_blueprints,
}
use sinq.Lexer.Progress.Tokens.{todo, lex_token-Lexed}

-- A token of a request's content: a text, or a script that has no special name.
pub record IsContent (source : Bytes) (t : Token) : Type 0 where
  pub fits : Fits source t
  pub kind : (t.type ≡ text) ⊎ ((t.type ≡ script) × (is_special_script t.name ≡ false))

-- What the field for a special script holds: nothing, or a script of that name.
abbrev pub IsSlot : Bytes → Bytes → Token → Type 0
IsSlot source name t =
    (t.type ≡ incomplete_token) ⊎ ((t.type ≡ script) × (t.name ≡ name) × Fits source t)

pub record IsBuilt (source : Bytes) (bp : RequestBlueprint) : Type 0 where
  pub same : bp.source ≡ source
  pub contents : All (IsContent source) bp.content
  pub pre_slot : IsSlot source (codes "PRE") bp.pre
  pub retry_slot : IsSlot source (codes "RETRY") bp.retry
  pub assert_slot : IsSlot source (codes "ASSERT") bp.assert
  pub post_slot : IsSlot source (codes "POST") bp.post

-- A request that can be sent: built from tokens of the source, with something to send.
pub record IsReady (source : Bytes) (bp : RequestBlueprint) : Type 0 where
  pub built : IsBuilt source bp
  pub filled : bp.content ≢ []

new_blueprint-IsBuilt : (source filename : Bytes) → IsBuilt source (new_blueprint source filename)
unfolding new_blueprint
new_blueprint-IsBuilt source filename = record {
  same = refl;
  contents = tt;
  pre_slot = inl refl;
  retry_slot = inl refl;
  assert_slot = inl refl;
  post_slot = inl refl;
}

concat-IsContent :
    (source : Bytes) (ts : List Token) (t : Token)
    → All (IsContent source) ts
    → IsContent source t
    → All (IsContent source) (ts ++ t ∷ [])
concat-IsContent source ts t h k = All-append _ ts _ h (k, tt)

module _ (source : Bytes) (bp : RequestBlueprint) (t : Token) (built : IsBuilt source bp)
    (fits : Fits source t) (is_script : t.type ≡ script) where
  slot : (name : Bytes) → equal t.name name ≡ true → IsSlot source name t
  slot name h = inr (is_script, (equal_iff t.name name).0 h, fits)

  -- A script goes to the field of its name, if that is free, and else to the content.
  pub set_script-IsBuilt : Ends (IsBuilt source) (set_script bp t)
  unfolding set_script
  set_script-IsBuilt = elim (Bool-cases (equal t.name (codes "PRE"))) [
    | inl y ↦ rw y (
        Ends-if _ failed (
          done (record {
            same = built.same;
            contents = built.contents;
            pre_slot = slot _ y;
            retry_slot = built.retry_slot;
            assert_slot = built.assert_slot;
            post_slot = built.post_slot;
          })))
    | inr n₁ ↦ rw n₁ (elim (Bool-cases (equal t.name (codes "RETRY"))) [
      | inl y ↦ rw y (
          Ends-if _ failed (
            done (record {
              same = built.same;
              contents = built.contents;
              pre_slot = built.pre_slot;
              retry_slot = slot _ y;
              assert_slot = built.assert_slot;
              post_slot = built.post_slot;
            })))
      | inr n₂ ↦ rw n₂ (elim (Bool-cases (equal t.name (codes "ASSERT"))) [
        | inl y ↦ rw y (
            Ends-if _ failed (
              done (record {
                same = built.same;
                contents = built.contents;
                pre_slot = built.pre_slot;
                retry_slot = built.retry_slot;
                assert_slot = slot _ y;
                post_slot = built.post_slot;
              })))
        | inr n₃ ↦ rw n₃ (elim (Bool-cases (equal t.name (codes "POST"))) [
          | inl y ↦ rw y (
              Ends-if _ failed (
                done (record {
                  same = built.same;
                  contents = built.contents;
                  pre_slot = built.pre_slot;
                  retry_slot = built.retry_slot;
                  assert_slot = built.assert_slot;
                  post_slot = slot _ y;
                })))
          | inr n₄ ↦ rw n₄ (
              done (record {
                same = built.same;
                contents = concat-IsContent source bp.content t built.contents (record {
                  fits = fits;
                  kind = inr (is_script, unfold is_special_script in rw (n₁, n₂, n₃, n₄));
                });
                pre_slot = built.pre_slot;
                retry_slot = built.retry_slot;
                assert_slot = built.assert_slot;
                post_slot = built.post_slot;
              }))
        ])
      ])
    ])
  ]
