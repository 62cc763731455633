-- ===== src/Runner/Parser/Render/Requests.antt =====
-- A request that is written out is read back, field by field.
use sinq.Prelude.{
  ℕ, zero, suc, ◌<◌, ◌≡◌, refl, ap, ◌∙◌, Bool, true, false, Option, some, List, [], ◌∷◌, ◌++◌,
  Bytes, codes, length, All, arith,
}
use sinq.Scanner.{Scanner, newline, advance, left, new_byte_scanner}
use sinq.Spaces.{is_space}
use sinq.Runner.Parser.{
  is_blank, is_empty_text, ok, Request, user_agent, with_url, request_of_words, scan_request_line,
  add_field, header_field, header_round, header_loop, scan_headers, after_headers,
  after_request_line, parse_request,
}
use sinq.Runner.Parser.Text.{
  Stands, advance-Stands, left-Stands, slice_rest-Stands, new-Stands, skip_space, scan_line-Stands,
  next_line-Stands,
}
use sinq.Runner.Parser.Render.{
  IsWord, Field, IsField, render_fields, render, word_colon, word_before_colon, not_empty,
  word_here, value_starts, NoSpace-colon, colon_starts, request_line-Stands, fields-length,
}

module _ {Url : Type 0} (parse_url : Bytes → Option Url) (is_abs : Url → Bool)
    (host_of : Url → Bytes) (canonical : Bytes → Bytes) where
  -- The request with the fields added, one after the other.
  unfoldable pub with_fields : Request Url → List Field → Request Url
  with_fields r [] = r
  with_fields r (f ∷ fs) =
      with_fields (add_field parse_url is_abs host_of canonical r f.name f.value) fs

  header_loop-fields :
      (fs : List Field) (f : ℕ) (r : Request Url) (s : Scanner) (pre body : Bytes)
      → All IsField fs
      → length fs < f
      → Stands s pre (render_fields fs (newline ∷ body))
      → (s' : Scanner) × (pre' : Bytes) × (header_loop parse_url is_abs host_of canonical f r s
          ≡ ok (with_fields r fs, s'))
        × Stands s' pre' (newline ∷ body)
  unfolding header_loop header_round with_fields render_fields is_empty_text is_space is_blank
  header_loop-fields fs zero r s pre body v l h = absurd (omega arith)
  header_loop-fields [] (suc f) r s pre body v l h =
      let (s₁, q, k) = word_here s pre [] newline body h tt refl refl in
      let round =
        header_round parse_url is_abs host_of canonical
          (header_loop parse_url is_abs host_of canonical f) r in
      (s₁, pre ++ [], ap round q, k)
  header_loop-fields (x ∷ fs) (suc f) r s pre body v l h =
      let w = v.0.0 in
      let value = v.0.1 in
      let more = render_fields fs (newline ∷ body) in
      let name = x.name ++ b':' ∷ [] in
      let again = header_loop parse_url is_abs host_of canonical f in
      let round = header_round parse_url is_abs host_of canonical again r in
      let field = header_field parse_url is_abs host_of canonical again r name in
      let (s₁, q, k) =
        word_here s pre name b' ' (x.value ++ (newline ∷ more)) h (NoSpace-colon x.name w) refl
          (colon_starts x.name _ w) in
      let k' = advance-Stands k in
      let (s₂, p, m) =
        scan_line-Stands s₁ (advance s₁) ((pre ++ name) ++ b' ' ∷ []) x.value more
          (skip_space _ k (value_starts x.value more value.2)) k' value.0 value.1 in
      let (s₃, pre', t, u) =
        header_loop-fields fs f (add_field parse_url is_abs host_of canonical r x.name x.value) s₂ _
          body v.1 (omega arith) m in
      (
        s₃,
        pre',
        ap round q
            ∙ rw (not_empty x.name b':', word_colon x.name, header_round)
                (ap field p ∙ rw (word_before_colon x.name, header_field) t),
        u,
      )

  -- A request with no fields and no body.
  abbrev pub bare : Bytes → Url → Request Url
  bare method u = record {
    method = method;
    url = u;
    host = host_of u;
    header = (canonical (codes "User-Agent"), user_agent ∷ []) ∷ [];
    content_length = 0;
    body = [];
  }

  -- A request that is written out is read back: its method, its URL, whose host a `Host` field
  -- takes the place of, the fields one after the other behind the program's own `User-Agent`,
  -- and the rest as the body. The method, the URL and the names of the fields have no white space in
  -- them, a value begins and ends with no blank, and the URL is absolute and names a host.
  pub parse_request-render :
      (method url : Bytes) (fs : List Field) (body : Bytes) (u : Url)
      → IsWord method
      → IsWord url
      → All IsField fs
      → parse_url url ≡ some u
      → is_abs u ≡ true
      → is_empty_text (host_of u) ≡ false
      → parse_request parse_url is_abs host_of canonical (render method url fs body)
        ≡ ok (record (with_fields (bare method u) fs) { content_length = length body; body = body })
  unfolding parse_request scan_request_line after_request_line scan_headers after_headers render
      request_of_words with_url
  parse_request-render method url fs body u m w v e a n =
      let source = render method url fs body in
      let (s₁, pre, q, k) =
        request_line-Stands (new_byte_scanner source) method url _ (new-Stands source) m w in
      let k' = advance-Stands k in
      let (s₂, pre₂, t, k₂) =
        header_loop-fields fs (suc (left (advance s₁))) (bare method u) (advance s₁) _ body v
          (omega (arith, left-Stands k', fields-length fs (newline ∷ body))) k' in
      rw
        (
          q,
          e,
          a,
          n,
          next_line-Stands s₁ pre _ k,
          t,
          next_line-Stands s₂ pre₂ body k₂,
          slice_rest-Stands (advance-Stands k₂),
        )
        refl
