-- ===== src/Runner/Parser/Fields.antt =====
-- What the fields of a request that is written out are read as.
use sinq.Prelude.{
  ◌≡◌, refl, sym, ap, ◌∙◌, Bool, true, false, Option, some, List, [], ◌∷◌, ◌++◌, append_assoc,
  append-nil, Bytes, codes, equal, equal_iff, length, All, if◌then◌else◌, arith,
}
use sinq.Runner.Parser.{
  ok, Request, Header, header_add, header_set, equal_fold, user_agent, is_empty_text, add_field,
  parse_request,
}
use sinq.Runner.Parser.Render.{Field, IsField, IsWord, render}
use sinq.Runner.Parser.Render.Requests.{with_fields, bare, parse_request-render}

-- The values under a key.
pub values_of : Bytes → Header → List Bytes
values_of k [] = []
values_of k ((j, vs) ∷ h) = if equal j k then vs else values_of k h

-- The last of some values, or else the one before them.
pub last_value : Bytes → List Bytes → Bytes
last_value v [] = v
last_value v (w ∷ vs) = last_value w vs

-- The values of the fields that name the host.
pub host_values : List Field → List Bytes
host_values [] = []
host_values (f ∷ fs) =
    if equal_fold f.name (codes "host") then f.value ∷ host_values fs else host_values fs

values-header_add :
    (k c v : Bytes) (h : Header)
    → values_of k (header_add c v h)
      ≡ (if equal c k then values_of k h ++ v ∷ [] else values_of k h)
unfolding values_of header_add
values-header_add k c v [] = refl
values-header_add k c v ((j, vs) ∷ h) =
    ground (arith, equal_iff j c, equal_iff j k, equal_iff c k, values-header_add k c v h)

values-header_set :
    (k c v : Bytes) (h : Header)
    → values_of k (header_set c v h) ≡ (if equal c k then v ∷ [] else values_of k h)
unfolding values_of header_set
values-header_set k c v [] = refl
values-header_set k c v ((j, vs) ∷ h) =
    ground (arith, equal_iff j c, equal_iff j k, equal_iff c k, values-header_set k c v h)

module _ {Url : Type 0} (parse_url : Bytes → Option Url) (is_abs : Url → Bool)
    (host_of : Url → Bytes) (canonical : Bytes → Bytes) where
  -- The values of the fields under a key, without those that name the host.
  pub field_values : Bytes → List Field → List Bytes
  field_values k [] = []
  field_values k (f ∷ fs) =
      let rest = field_values k fs in
      if equal_fold f.name (codes "host")
      then rest
      else if equal (canonical f.name) k
      then f.value ∷ rest
      else rest

  -- A field that names the host, and one that does not, in front of others.
  add-host :
      (r : Request Url) (name value : Bytes)
      → (add_field parse_url is_abs host_of canonical r name value).host
        ≡ (if equal_fold name (codes "host") then value else r.host)
  unfolding add_field
  add-host r name value = ground (arith)

  with_fields-host :
      (fs : List Field) (r : Request Url)
      → (with_fields parse_url is_abs host_of canonical r fs).host
        ≡ last_value r.host (host_values fs)
  unfolding with_fields host_values last_value
  with_fields-host [] r = refl
  with_fields-host (f ∷ fs) r =
      with_fields-host fs _
      ∙ ap (λ h. last_value h (host_values fs)) (add-host r f.name f.value)
      ∙ last-if (equal_fold f.name (codes "host")) r.host f.value (host_values fs)
    where
      last-if :
          (b : Bool) (h v : Bytes) (vs : List Bytes)
          → last_value (if b then v else h) vs ≡ last_value h (if b then v ∷ vs else vs)
      last-if true h v vs = refl
      last-if false h v vs = refl

  -- The values behind others under a key: the last one of all for the program's own field, or else all
  -- of them.
  last_or : List Bytes → List Bytes → List Bytes
  last_or start [] = start
  last_or start (v ∷ vs) = last_or (v ∷ []) vs

  gathered : Bool → List Bytes → List Bytes → List Bytes
  unfolding last_or
  gathered true start vs = last_or start vs
  gathered false start vs = start ++ vs

  gathered-nil : (b : Bool) (start : List Bytes) → gathered b start [] ≡ start
  unfolding gathered last_or
  gathered-nil true start = refl
  gathered-nil false start = append-nil start

  gathered-cons :
      (b : Bool) (start : List Bytes) (v : Bytes) (vs : List Bytes)
      → gathered b start (v ∷ vs) ≡ gathered b (gathered b start (v ∷ [])) vs
  unfolding gathered last_or
  gathered-cons true start v vs = refl
  gathered-cons false start v vs = sym (append_assoc start (v ∷ []) vs)

  -- A request, and what it was written from.
  pub record IsRead (method : Bytes) (u : Url) (fs : List Field) (body : Bytes) (r : Request Url)
      : Type 0 where
    pub method_read : r.method ≡ method
    pub url_read : r.url ≡ u
    pub host_read : r.host ≡ last_value (host_of u) (host_values fs)
    pub user_agent_read :
        values_of (canonical (codes "User-Agent")) r.header
        ≡ last_value user_agent (field_values (canonical (codes "User-Agent")) fs) ∷ []
    pub header_read :
        (k : Bytes)
        → equal k (canonical (codes "User-Agent")) ≡ false
        → values_of k r.header ≡ field_values k fs
    pub body_read : r.body ≡ body
    pub length_read : r.content_length ≡ length body

  module _
      (canonical_user_agent : (name : Bytes)
        → equal_fold name (codes "user-agent")
          ≡ equal (canonical name) (canonical (codes "User-Agent"))) where
    is_own : Bytes → Bool
    is_own k = equal k (canonical (codes "User-Agent"))

    add-values :
        (k : Bytes) (r : Request Url) (name value : Bytes)
        → values_of k (add_field parse_url is_abs host_of canonical r name value).header ≡ (
            if equal_fold name (codes "host")
            then values_of k r.header
            else if equal (canonical name) k
            then gathered (is_own k) (values_of k r.header) (value ∷ [])
            else values_of k r.header)
    unfolding add_field gathered last_or is_own
    add-values k r name value = ground (
      arith,
      canonical_user_agent name,
      equal_iff (canonical name) k,
      equal_iff (canonical name) (canonical (codes "User-Agent")),
      equal_iff k (canonical (codes "User-Agent")),
      values-header_add k (canonical name) value r.header,
      values-header_set k (canonical name) value r.header,
    )

    with_fields-values :
        (k : Bytes) (fs : List Field) (r : Request Url)
        → values_of k (with_fields parse_url is_abs host_of canonical r fs).header
          ≡ gathered (is_own k) (values_of k r.header) (field_values k fs)
    unfolding with_fields field_values
    with_fields-values k [] r = sym (gathered-nil (is_own k) _)
    with_fields-values k (f ∷ fs) r =
        with_fields-values k fs _
        ∙ ap (λ vs. gathered (is_own k) vs (field_values k fs)) (add-values k r f.name f.value)
        ∙ one (equal_fold f.name (codes "host")) (equal (canonical f.name) k)
      where
        one :
            (b c : Bool)
            → gathered
                (is_own k)
                (if b
                  then values_of k r.header
                  else if c
                  then gathered (is_own k) (values_of k r.header) (f.value ∷ [])
                  else values_of k r.header)
                (field_values k fs)
              ≡ gathered (is_own k) (values_of k r.header) (
                  if b
                  then field_values k fs
                  else if c
                  then f.value ∷ field_values k fs
                  else field_values k fs)
        one true c = refl
        one false false = refl
        one false true =
            sym (gathered-cons (is_own k) (values_of k r.header) f.value (field_values k fs))

    last_or-last_value : (v : Bytes) (vs : List Bytes) → last_or (v ∷ []) vs ≡ last_value v vs ∷ []
    unfolding last_or last_value
    last_or-last_value v [] = refl
    last_or-last_value v (w ∷ vs) = last_or-last_value w vs

    add-line :
        (r : Request Url) (name value : Bytes)
        → ((add_field parse_url is_abs host_of canonical r name value).method ≡ r.method)
          × ((add_field parse_url is_abs host_of canonical r name value).url ≡ r.url)
    unfolding add_field
    add-line r name value = ground (arith)

    with_fields-line :
        (fs : List Field) (r : Request Url)
        → ((with_fields parse_url is_abs host_of canonical r fs).method ≡ r.method)
          × ((with_fields parse_url is_abs host_of canonical r fs).url ≡ r.url)
    unfolding with_fields
    with_fields-line [] r = (refl, refl)
    with_fields-line (f ∷ fs) r =
        let (m, u) = add-line r f.name f.value in
        let (m', u') = with_fields-line fs _ in (m' ∙ m, u' ∙ u)

    own_values :
        (k : Bytes) (vs : List Bytes)
        → equal k (canonical (codes "User-Agent")) ≡ true
        → gathered
            (is_own k)
            (values_of k ((canonical (codes "User-Agent"), user_agent ∷ []) ∷ []))
            vs
          ≡ last_value user_agent vs ∷ []
    unfolding gathered is_own values_of
    own_values k vs h =
        rw
          (
            h,
            (equal_iff k (canonical (codes "User-Agent"))).0 h,
            (equal_iff (canonical (codes "User-Agent")) (canonical (codes "User-Agent"))).1 refl,
          )
          (last_or-last_value user_agent vs)

    other_values :
        (k : Bytes) (vs : List Bytes)
        → equal k (canonical (codes "User-Agent")) ≡ false
        → gathered
            (is_own k)
            (values_of k ((canonical (codes "User-Agent"), user_agent ∷ []) ∷ []))
            vs
          ≡ vs
    unfolding gathered is_own values_of
    other_values k vs h = ground (
      arith,
      h,
      equal_iff k (canonical (codes "User-Agent")),
      equal_iff (canonical (codes "User-Agent")) k,
    )

    -- A request that is written out is read back: its method, its URL, its host, which is that of the
    -- URL unless a `Host` field names one, the values of its fields under each key in their order,
    -- but of `User-Agent` the last one or else the program's own, and the rest as the body. The
    -- method, the URL and the names of the fields have no white space in them, a value begins and ends
    -- with no blank, the URL is absolute and names a host, and the canonical name of a field is that of
    -- `User-Agent` just if it is `user-agent` but for the case of its letters.
    pub parse_request-IsRead :
        (method url : Bytes) (fs : List Field) (body : Bytes) (u : Url)
        → IsWord method
        → IsWord url
        → All IsField fs
        → parse_url url ≡ some u
        → is_abs u ≡ true
        → is_empty_text (host_of u) ≡ false
        → (r : Request Url) × (parse_request parse_url is_abs host_of canonical
              (render method url fs body)
            ≡ ok r)
          × IsRead method u fs body r
    parse_request-IsRead method url fs body u m w v e a n =
        let start = bare parse_url is_abs host_of canonical method u in
        let line = with_fields-line fs start in
        (
          _,
          parse_request-render parse_url is_abs host_of canonical method url fs body u m w v e a n,
          record {
            method_read = line.0;
            url_read = line.1;
            host_read = with_fields-host fs start;
            user_agent_read =
                with_fields-values ua fs start
                ∙ own_values ua (field_values ua fs) ((equal_iff ua ua).1 refl);
            header_read =
                λ k h. with_fields-values k fs start ∙ other_values k (field_values k fs) h;
            body_read = refl;
            length_read = refl;
          },
        )
      where
        ua : Bytes
        ua = canonical (codes "User-Agent")
