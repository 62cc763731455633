-- ===== src/Lua/Progress.antt =====
-- The passes over Lua code end: each comes back with an error, or with the scanner ahead of where
-- it began and still in the source. No fuel runs out.
pub mod Quotes
pub mod Script
use sinq.Prelude.{
  ap, ◌∙◌, Bool-cases, ==_iff, ℕ, zero, suc, ◌+◌, ◌≤◌, ◌<◌, ◌≡◌, ◌≢◌, refl, Bool, not, ◌&&◌, true,
  false, inl, inr, Option, none, some, Bytes, length, arith, Option-cases, Bool-cases, ◌==◌,
}
use sinq.Result.{Result, ok, ◌>>=◌, Ends, done, failed, Ends-bind, Ends-map, Ends-if}
use sinq.Scanner.{Scanner, read, advance, left}
use sinq.Scanner.Position.{
  Ahead, advance-Ahead, advance-current, Ahead-refl, Ahead-trans, Ahead-left,
}
use sinq.Lua.{
  match_byte, LuaByte, end_of_file, dash, quote_mark, square, brace_open, brace_close, lua_byte,
  level_loop, parse_long_bracket_open, parse_long_bracket_close, multiline_loop,
  parse_lua_multiline_string, closer_loop, parse_lua_multiline_string_with_closer, string_loop,
  parse_lua_simple_string, comment_loop, parse_lua_simple_comment, dashes, bracket_comment,
  comment_start, script_round, equals, other, comment_body, parse_lua_comment, bracket_code,
  parse_lua_script,
}

abbrev Within : Scanner → Type 0
Within s = s.current ≤ length s.source

pub match_byte-Ahead :
    (script : Bytes) (expected : ℕ) (s : Scanner) → Ends (Ahead 1 s) (match_byte script expected s)
unfolding match_byte
match_byte-Ahead script expected s = elim (Option-cases (read s)) [
  | inl e ↦ rw (e, match_byte) failed
  | inr (b, e) ↦ rw (e, match_byte) (Ends-if (b == expected) (done (advance-Ahead s e)) failed)
]

-- A match takes the expected byte and no other.
pub record Matched (expected : ℕ) (s t : Scanner) : Type 0 where
  pub ahead : Ahead 1 s t
  pub is_byte : read s ≡ some expected
  pub one : t.current ≡ s.current + 1
  pub next : t ≡ advance s

pub match_byte-Matched :
    (script : Bytes) (expected : ℕ) (s : Scanner)
    → Ends (Matched expected s) (match_byte script expected s)
unfolding match_byte
match_byte-Matched script expected s = elim (Option-cases (read s)) [
  | inl e ↦ rw (e, match_byte) failed
  | inr (b, e) ↦ elim (Bool-cases (b == expected)) [
    | inl y ↦
        rw (e, match_byte, y)
          (done (record {
            ahead = advance-Ahead s e;
            is_byte = e ∙ ap some ((==_iff b expected).0 y);
            one = advance-current s e;
            next = refl;
          }))
    | inr n ↦ rw (e, match_byte, n) failed
  ]
]

-- A loop that goes on from the next byte, seen from this one.
later :
    (s : Scanner) {b : ℕ} (m : Result Scanner)
    → read s ≡ some b
    → Ends (Ahead 0 (advance s)) m
    → Ends (Ahead 1 s) m
later s m e h = Ends-map _ h (λ t a. Ahead-trans 1 (advance-Ahead s e) a (omega arith))

later_left : (s : Scanner) {b : ℕ} → read s ≡ some b → left (advance s) + 1 ≤ left s
later_left s e = Ahead-left (advance-Ahead s e)

-- At least `n` bytes further is further.
weaken : (n : ℕ) (s : Scanner) (m : Result Scanner) → Ends (Ahead n s) m → Ends (Ahead 0 s) m
weaken n s m h = Ends-map _ h (λ t a. Ahead-trans 0 a (Ahead-refl t a.within) (omega arith))

module _ (script : Bytes) where
  level_loop-Ahead :
      (bracket f level : ℕ) (s : Scanner)
      → left s < f
      → Within s
      → Ends (λ r. Ahead 0 s r.1) (level_loop script bracket f level s)
  unfolding level_loop
  level_loop-Ahead bracket zero level s h v = absurd (omega arith)
  level_loop-Ahead bracket (suc f) level s h v = elim (Option-cases (read s)) [
    | inl e ↦ rw (e, level_loop) failed
    | inr (b, e) ↦
        let step = advance-Ahead s e in
        let to : Ahead 0 s (advance s) =
          Ahead-trans 0 step (Ahead-refl _ step.within) (omega arith) in
        let deeper =
          Ends-map (λ r. Ahead 0 s r.1)
            (level_loop-Ahead bracket f (level + 1) (advance s) (omega (arith, later_left s e))
              step.within)
            (λ r a. Ahead-trans 0 step a (omega arith)) in
        rw (e, level_loop)
          (Ends-if (b == bracket) (done to) (Ends-if (b == b'=') deeper (done (Ahead-refl s v))))
  ]

  parse_long_bracket_open-Ahead :
      (s : Scanner) → Ends (λ r. Ahead 1 s r.1) (parse_long_bracket_open script s)
  unfolding parse_long_bracket_open
  parse_long_bracket_open-Ahead s = Ends-bind _ _ (match_byte-Ahead script b'[' s) λ t a.
      Ends-map _ (level_loop-Ahead b'[' (suc (left t)) 0 t (omega arith) a.within)
        λ r b. Ahead-trans 1 a b (omega arith)

  multiline_loop-Ahead :
      (f : ℕ) (s : Scanner) → left s < f → Within s → Ends (Ahead 0 s) (multiline_loop script f s)
  unfolding multiline_loop
  multiline_loop-Ahead zero s h v = absurd (omega arith)
  multiline_loop-Ahead (suc f) s h v = elim (Option-cases (read s)) [
    | inl e ↦ rw (e, multiline_loop) failed
    | inr (b, e) ↦
        let rest =
          multiline_loop-Ahead f (advance s) (omega (arith, later_left s e))
            (advance-Ahead s e).within in
        rw (e, multiline_loop)
          (Ends-if (b == b']') (done (Ahead-refl s v)) (weaken 1 s _ (later s _ e rest)))
  ]

  closer_loop-Ahead :
      (f level : ℕ) (s : Scanner)
      → left s < f
      → Within s
      → Ends (Ahead 0 s) (closer_loop script f level s)
  unfolding closer_loop parse_lua_multiline_string parse_long_bracket_close
  closer_loop-Ahead zero level s h v = absurd (omega arith)
  closer_loop-Ahead (suc f) level s h v =
      Ends-bind _ _ (multiline_loop-Ahead (suc (left s)) s (omega arith) v) λ t a.
        Ends-bind _ _ (match_byte-Ahead script b']' t) λ u b.
          Ends-bind _ _ (level_loop-Ahead b']' (suc (left u)) 0 u (omega arith) b.within) λ r c.
            let all : Ahead 1 s r.1 =
              Ahead-trans 1 (Ahead-trans 1 a b (omega arith)) c (omega arith) in
            let rest =
              Ends-map _ (closer_loop-Ahead f level r.1 (omega (arith, Ahead-left all)) all.within)
                (λ w d. Ahead-trans 0 all d (omega arith)) in
            Ends-if _ (done (Ahead-trans 0 all (Ahead-refl _ all.within) (omega arith))) rest

  with_closer-Ahead :
      (level : Option ℕ) (s : Scanner)
      → Within s
      → Ends (Ahead 0 s) (parse_lua_multiline_string_with_closer script level s)
  unfolding parse_lua_multiline_string_with_closer
  with_closer-Ahead none s v = failed
  with_closer-Ahead (some level) s v = closer_loop-Ahead (suc (left s)) level s (omega arith) v

  comment_loop-Ahead :
      (f : ℕ) (s : Scanner) → left s < f → Ends (Ahead 0 s) (comment_loop script f s)
  unfolding comment_loop
  comment_loop-Ahead zero s h = absurd (omega arith)
  comment_loop-Ahead (suc f) s h = elim (Option-cases (read s)) [
    | inl e ↦ rw (e, comment_loop) failed
    | inr (b, e) ↦
        let rest = comment_loop-Ahead f (advance s) (omega (arith, later_left s e)) in
        rw (e, comment_loop)
          (Ends-if _ (weaken 1 s (ok _) (done (advance-Ahead s e)))
            (weaken 1 s _ (later s _ e rest)))
  ]

  simple_comment-Ahead : (s : Scanner) → Ends (Ahead 0 s) (parse_lua_simple_comment script s)
  unfolding parse_lua_simple_comment
  simple_comment-Ahead s = comment_loop-Ahead (suc (left s)) s (omega arith)

  dashes-Ahead : (n : ℕ) (s : Scanner) → Within s → Ends (λ r. Ahead 0 s r.1) (dashes script n s)
  unfolding dashes
  dashes-Ahead zero s v = done (Ahead-refl s v)
  dashes-Ahead (suc n) s v = elim (Option-cases (read s)) [
    | inl e ↦ rw (e, dashes) failed
    | inr (b, e) ↦
        let step = advance-Ahead s e in
        rw (e, dashes)
          (Ends-if _ (done (Ahead-refl s v)) (
            Ends-map _ (dashes-Ahead n (advance s) step.within)
              (λ r a. Ahead-trans 0 step a (omega arith))))
  ]

  bracket_comment-Ahead :
      (r : Option ℕ × Scanner) → Within r.1 → Ends (Ahead 0 r.1) (bracket_comment script r)
  unfolding bracket_comment
  bracket_comment-Ahead (none, s) v = simple_comment-Ahead s
  bracket_comment-Ahead (some level, s) v = with_closer-Ahead (some level) s v

  bracket_code-Ahead :
      (r : Option ℕ × Scanner) → Within r.1 → Ends (Ahead 0 r.1) (bracket_code script r)
  unfolding bracket_code
  bracket_code-Ahead (none, s) v = done (Ahead-refl s v)
  bracket_code-Ahead (some level, s) v = with_closer-Ahead (some level) s v

  -- Reading a bracket and then what it opens.
  bracketed-Ahead :
      (s : Scanner) (k : Option ℕ × Scanner → Result Scanner)
      → ((r : Option ℕ × Scanner) → Within r.1 → Ends (Ahead 0 r.1) (k r))
      → Ends (Ahead 1 s) (parse_long_bracket_open script s >>= k)
  bracketed-Ahead s k next =
      Ends-bind _ k (parse_long_bracket_open-Ahead s)
        λ r a. Ends-map _ (next r a.within) λ t b. Ahead-trans 1 a b (omega arith)

  comment_start-Ahead : (s : Scanner) (k : LuaByte) → Ends (Ahead 0 s) (comment_start script s k)
  unfolding comment_start
  comment_start-Ahead s end_of_file = failed
  comment_start-Ahead s square = weaken 1 s _ (bracketed-Ahead s _ bracket_comment-Ahead)
  comment_start-Ahead s _ = simple_comment-Ahead s

  comment_body-Ahead :
      (r : Bool × Scanner) → Within r.1 → Ends (Ahead 0 r.1) (comment_body script r)
  unfolding comment_body
  comment_body-Ahead (false, s) v = done (Ahead-refl s v)
  comment_body-Ahead (true, s) v = comment_start-Ahead s (lua_byte (read s))

  lua_byte-dash : (o : Option ℕ) → lua_byte o ≡ dash → o ≡ some b'-'
  unfolding lua_byte
  lua_byte-dash o h = ground arith

  -- At a dash the comment pass takes at least that.
  parse_lua_comment-Ahead :
      (s : Scanner) → Within s → read s ≡ some b'-' → Ends (Ahead 1 s) (parse_lua_comment script s)
  unfolding parse_lua_comment dashes
  parse_lua_comment-Ahead s v e =
      rw (e, parse_lua_comment, dashes)
        (Ends-bind _ _ (dashes-Ahead 1 (advance s) step.within) λ r a.
          Ends-map _ (comment_body-Ahead r a.within)
            λ t b. Ahead-trans 1 (Ahead-trans 1 step a (omega arith)) b (omega arith))
    where
      step : Ahead 1 s (advance s)
      step = advance-Ahead s e
