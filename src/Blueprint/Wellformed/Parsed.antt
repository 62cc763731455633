-- ===== src/Blueprint/Wellformed/Parsed.antt =====
-- The loop of `ParseRequestBlueprints` ends, and every request that it adds is well-formed.
use sinq.Prelude.{
  ℕ, zero, suc, ◌+◌, ◌*◌, ◌≤◌, ◌<◌, ◌≡◌, ◌≢◌, refl, ◌∙◌, subst, Bool, true, false, inl, inr, some,
  List, [], ◌∷◌, ◌++◌, Bytes, length, arith, All, All-append, Bool-cases, if◌then◌else◌,
}
use sinq.Result.{Result, ok, ◌>>=◌, Ends, done, failed, Ends-bind}
use sinq.Scanner.{left, new_byte_scanner}
use sinq.Scanner.Position.{Ahead-left}
use sinq.Token.{TokenType, incomplete_token, text, script, delimiter, eof, Token, is_special_script}
use sinq.Lexer.Progress.{Fits, consume_whitespace-Ahead}
use sinq.Blueprint.{
  RequestBlueprint, new_blueprint, Loop, skip_whitespace, is_nil, next_request, add_text,
  parsing_round, lex_into, parsing_loop, finish, start_loop, parse_request_blueprints,
}
use sinq.Blueprint.Wellformed.{
  IsContent, IsBuilt, IsReady, new_blueprint-IsBuilt, concat-IsContent, set_script-IsBuilt,
}
use sinq.Lexer.Progress.Tokens.{todo, lex_token-Lexed}

pub record IsLoop (source : Bytes) (l : Loop) : Type 0 where
  pub earlier : All (IsReady source) l.finished
  pub current_built : IsBuilt source l.request
  pub parser_source : l.parser.source ≡ source
  pub parser_within : l.parser.current ≤ length l.parser.source

-- A later state of the loop, whose parser has no more to do.
pub record Goes (source : Bytes) (n : ℕ) (l : Loop) : Type 0 where
  pub is_loop : IsLoop source l
  pub bounded : todo l.parser ≤ n

skip_whitespace-Goes :
    (source : Bytes) (n : ℕ) (l : Loop) → Goes source n l → Ends (Goes source n) (skip_whitespace l)
unfolding skip_whitespace todo
skip_whitespace-Goes source n l g =
    Ends-bind _ _ (consume_whitespace-Ahead l.parser.scanner g.is_loop.parser_within) λ s a.
      done (record {
        is_loop = record {
          earlier = g.is_loop.earlier;
          current_built = g.is_loop.current_built;
          parser_source = a.same ∙ g.is_loop.parser_source;
          parser_within = a.within;
        };
        bounded = omega (arith, Ahead-left a, g.bounded);
      })

is_nil-false : (ts : List Token) → is_nil ts ≡ false → ts ≢ []
unfolding is_nil
is_nil-false [] h e = cc
is_nil-false (t ∷ ts) h e = cc

next_request-IsLoop :
    (source : Bytes) (l : Loop) (t : Token) → IsLoop source l → IsLoop source (next_request l t)
unfolding next_request new_blueprint
next_request-IsLoop source l t v = elim (Bool-cases (is_nil l.request.content)) [
  | inl y ↦
      rw (y, next_request)
        (record {
          earlier = v.earlier;
          current_built = record {
            same = v.current_built.same;
            contents = v.current_built.contents;
            pre_slot = v.current_built.pre_slot;
            retry_slot = v.current_built.retry_slot;
            assert_slot = v.current_built.assert_slot;
            post_slot = v.current_built.post_slot;
          };
          parser_source = v.parser_source;
          parser_within = v.parser_within;
        })
  | inr n ↦
      rw (n, next_request)
        (record {
          earlier =
              All-append _ l.finished _ v.earlier
                (record { built = v.current_built; filled = is_nil-false _ n }, tt);
          current_built = record {
            same = v.current_built.same;
            contents = tt;
            pre_slot = inl refl;
            retry_slot = inl refl;
            assert_slot = inl refl;
            post_slot = inl refl;
          };
          parser_source = v.parser_source;
          parser_within = v.parser_within;
        })
]

next_request-parser : (l : Loop) (t : Token) → (next_request l t).parser ≡ l.parser
unfolding next_request
next_request-parser l t = ground arith

add_text-IsLoop :
    (source : Bytes) (l : Loop) (t : Token)
    → IsLoop source l
    → IsContent source t
    → IsLoop source (add_text l t)
unfolding add_text
add_text-IsLoop source l t v c = record {
  earlier = v.earlier;
  current_built = record {
    same = v.current_built.same;
    contents = concat-IsContent source l.request.content t v.current_built.contents c;
    pre_slot = v.current_built.pre_slot;
    retry_slot = v.current_built.retry_slot;
    assert_slot = v.current_built.assert_slot;
    post_slot = v.current_built.post_slot;
  };
  parser_source = v.parser_source;
  parser_within = v.parser_within;
}

module _ (source : Bytes) (f : ℕ) (again : Loop → Result Loop)
    (ih : (l : Loop) → IsLoop source l → todo l.parser < f → Ends (IsLoop source) (again l)) where
  -- Whitespace is skipped, and the loop goes on.
  skip_and_go :
      (l : Loop)
      → IsLoop source l
      → todo l.parser < f
      → Ends (IsLoop source) (skip_whitespace l >>= again)
  skip_and_go l v h =
      Ends-bind _ again
        (skip_whitespace-Goes source (todo l.parser) l
          (record { is_loop = v; bounded = omega arith }))
        λ l' g. ih l' g.is_loop (omega (arith, g.bounded))

  script_goes :
      (l : Loop) (t : Token) (special : Bool)
      → IsLoop source l
      → todo l.parser < f
      → Ends (IsLoop source) ((if special then skip_whitespace l else ok l) >>= again)
  script_goes l t true v h = skip_and_go l v h
  script_goes l t false v h = ih l v h

  with_request :
      (l : Loop) (bp : RequestBlueprint)
      → IsLoop source l
      → IsBuilt source bp
      → IsLoop source (record l { request = bp })
  with_request l bp v b = record {
    earlier = v.earlier;
    current_built = b;
    parser_source = v.parser_source;
    parser_within = v.parser_within;
  }

  parsing_round-IsLoop :
      (l : Loop) (t : Token) (k : TokenType)
      → t.type ≡ k
      → IsLoop source l
      → Fits source t
      → (k ≢ eof → todo l.parser < f)
      → Ends (IsLoop source) (parsing_round again l t k)
  unfolding parsing_round
  parsing_round-IsLoop l t text e v fits h =
      ih _ (add_text-IsLoop source l t v (record { fits = fits; kind = inl e }))
        (unfold add_text in h (λ x. cc))
  parsing_round-IsLoop l t script e v fits h =
      Ends-bind _ _ (set_script-IsBuilt source l.request t v.current_built fits e) λ bp b.
        script_goes (record l { request = bp }) t (is_special_script t.name) (with_request l bp v b)
          (h (λ x. cc))
  parsing_round-IsLoop l t incomplete_token e v fits h = failed
  parsing_round-IsLoop l t delimiter e v fits h =
      skip_and_go (next_request l t) (next_request-IsLoop source l t v)
        (rw (next_request-parser l t) (h (λ x. cc)))
  parsing_round-IsLoop l t eof e v fits h = done v

parsing_loop-IsLoop :
    (source : Bytes) (f : ℕ) (l : Loop)
    → IsLoop source l
    → todo l.parser < f
    → Ends (IsLoop source) (parsing_loop f l)
unfolding parsing_loop lex_into
parsing_loop-IsLoop source zero l v h = absurd (omega arith)
parsing_loop-IsLoop source (suc f) l v h =
    Ends-bind _ _ (lex_token-Lexed l.parser v.parser_within) λ r x.
      parsing_round-IsLoop source f _ (parsing_loop-IsLoop source f) (record l { parser = r.1 }) r.0
        r.0.type refl
        (record {
          earlier = v.earlier;
          current_built = v.current_built;
          parser_source = x.ahead.same ∙ v.parser_source;
          parser_within = x.ahead.within;
        })
        (subst (λ s. Fits s r.0) v.parser_source x.fits) (λ n. omega (arith, x.less n))

-- What comes back for a source: at least one request, and all of them ready.
pub record IsParsed (source : Bytes) (bps : List RequestBlueprint) : Type 0 where
  pub ready : All (IsReady source) bps
  pub some_request : bps ≢ []

finish-IsParsed : (source : Bytes) (l : Loop) → IsLoop source l → Ends (IsParsed source) (finish l)
unfolding finish
finish-IsParsed source l v = elim (Bool-cases (is_nil l.request.content)) [
  | inl y ↦ rw y failed
  | inr n ↦ rw n (
      done (record {
        ready =
            All-append _ l.finished _ v.earlier
              (record { built = v.current_built; filled = is_nil-false _ n }, tt);
        some_request = append_one l.finished l.request;
      }))
]
  where
    append_one : (bps : List RequestBlueprint) (bp : RequestBlueprint) → bps ++ bp ∷ [] ≢ []
    append_one [] bp e = cc
    append_one (x ∷ bps) bp e = cc

-- Parsing a file ends for every content: with an error, or with at least one request, each of which
-- has content, holds only texts and unnamed scripts there, holds in the field of each special
-- script nothing or the script of that name, and has every payload within the source.
pub parse_request_blueprints-IsParsed :
    (source filename : Bytes)
    → Ends (IsParsed source) (parse_request_blueprints (some source) filename)
unfolding parse_request_blueprints start_loop new_byte_scanner todo
parse_request_blueprints-IsParsed source filename =
    Ends-bind _ _
      (Ends-bind _ _ (skip_whitespace-Goes source (2 * length source + 0) _ start) λ l g.
        parsing_loop-IsLoop source (2 * length source + 2) l g.is_loop (omega (arith, g.bounded)))
      (finish-IsParsed source)
  where
    start : Goes source (2 * length source + 0) (start_loop source filename)
    start = record {
      is_loop = record {
        earlier = tt;
        current_built = new_blueprint-IsBuilt source filename;
        parser_source = refl;
        parser_within = omega arith;
      };
      bounded = unfold left in omega arith;
    }
