-- ===== src/Parser/Invariant.antt =====
-- The invariant of the parser's state (src/Parser), and how far each step goes.
use create_httpserver_from_b.Common.{
  ℕ, ◌+◌, ◌-◌, ◌≤◌, ◌<◌, ◌≡◌, refl, ◌⊎◌, inl, inr, true, [], ◌∷◌, arith, Bytes, codes, length,
  Bool-cases, eq_bytes_iff, some, none, Option, take, ==_iff, ◌∙◌, ap, index_of, index_from, substr,
  ◌==◌,
}
use create_httpserver_from_b.Message.{
  ValidationStatus, ready, on_header, on_body, on_chunked_body, complete, Request,
}
use create_httpserver_from_b.Parser.Newline.{find_newline_bounds}
use create_httpserver_from_b.Parser.{
  Session, Outcome, ok, thrown, is_one_of, find_newline, set_offset, parse_first_space,
  parse_second_space, check_method, version_of, parse_version, parse_uri, parse_request_line,
  parse_first_line, parse_headers, parse_header_line, check_body_type, parse_body, close_body,
  parse_chunked_body, step_in,
}

-- What a request has once its first line is read.
pub record HasFirstLine (r : Request) : Type 0 where
  pub path : Bytes
  pub rooted : r.uri ≡ b'/' ∷ path
  pub version : (r.http_version ≡ codes "HTTP/1.0") ⊎ (r.http_version ≡ codes "HTTP/1.1")

pub record Inv (s : Session) : Type 0 where
  pub sized : s.pool.line_len ≡ length s.pool.total_line
  pub within : s.pool.offset ≤ s.pool.line_len
  pub begun : (s.request.validation_phase ≡ ready) ⊎ ((0 < s.pool.offset) × HasFirstLine s.request)

-- After the first line the pool is as it was, and the request has the line's parts or the phase
-- is the one before.
abbrev LinePost : Session → Outcome → Type 0
LinePost s (ok t) =
    (t.pool ≡ s.pool) × (t.request.validation_phase ≡ on_header) × HasFirstLine t.request
LinePost s (thrown t) =
    (t.pool ≡ s.pool) × (t.request.validation_phase ≡ s.request.validation_phase)

LinePost-trans :
    (s s' : Session) (o : Outcome)
    → s'.pool ≡ s.pool
    → s'.request.validation_phase ≡ s.request.validation_phase
    → LinePost s' o
    → LinePost s o
LinePost-trans s s' (ok t) p q h = (h.0 ∙ p, h.1, h.2)
LinePost-trans s s' (thrown t) p q h = (h.0 ∙ p, h.1 ∙ q)

version_cases :
    (v : Bytes)
    → is_one_of v (codes "HTTP/1.0" ∷ codes "HTTP/1.1" ∷ []) ≡ true
    → (v ≡ codes "HTTP/1.0") ⊎ (v ≡ codes "HTTP/1.1")
version_cases v h =
    ground (arith, eq_bytes_iff v (codes "HTTP/1.0"), eq_bytes_iff v (codes "HTTP/1.1"))

parse_version-LinePost :
    (s : Session) (input method uri path : Bytes) (idx2 : ℕ)
    → uri ≡ b'/' ∷ path
    → LinePost s (parse_version s input method uri idx2)
unfolding parse_version
parse_version-LinePost s input method uri path idx2 e =
    elim (Bool-cases
      (is_one_of (version_of input idx2) (codes "HTTP/1.0" ∷ codes "HTTP/1.1" ∷ []))) [
        | inl known ↦
            rw known
              (refl, refl, record { path = path; rooted = e; version = version_cases _ known })
        | inr unknown ↦ rw unknown (refl, refl)
      ]

parse_uri-LinePost :
    (s : Session) (input method uri : Bytes) (idx2 : ℕ)
    → LinePost s (parse_uri s input method uri idx2)
unfolding parse_uri
parse_uri-LinePost s input method [] idx2 = (refl, refl)
parse_uri-LinePost s input method (c ∷ uri) idx2 = elim (Bool-cases (c == b'/')) [
  | inl slash ↦ rw slash (
      parse_version-LinePost s input method (c ∷ uri) uri idx2
        (ap (λ k. k ∷ uri) ((==_iff c b'/').0 slash)))
  | inr other ↦ rw other (refl, refl)
]

check_method-keeps :
    (s : Session) (method : Bytes)
    → ((check_method s method).pool ≡ s.pool)
      × ((check_method s method).request.validation_phase ≡ s.request.validation_phase)
unfolding check_method
check_method-keeps s method = ground arith

parse_second_space-LinePost :
    (s : Session) (input method : Bytes) (start : ℕ) (o : Option ℕ)
    → LinePost s (parse_second_space s input method start o)
unfolding parse_second_space
parse_second_space-LinePost s input method start none = (refl, refl)
parse_second_space-LinePost s input method start (some idx2) =
    parse_uri-LinePost s input method (substr start (idx2 - start) input) idx2

parse_first_space-LinePost :
    (s : Session) (input : Bytes) (o : Option ℕ) → LinePost s (parse_first_space s input o)
unfolding parse_first_space
parse_first_space-LinePost s input none = check_method-keeps s input
parse_first_space-LinePost s input (some idx1) =
    let kept = check_method-keeps s (take idx1 input) in
    let s' = check_method s (take idx1 input) in
    LinePost-trans s s' _ kept.0 kept.1 (
      parse_second_space-LinePost s' input (take idx1 input) (idx1 + 1)
        (index_from b' ' (idx1 + 1) input))

parse_request_line-LinePost :
    (s : Session) (input : Bytes) → LinePost s (parse_request_line s input)
unfolding parse_request_line
parse_request_line-LinePost s input = parse_first_space-LinePost s input (index_of b' ' input)

-- A step goes on, and then it has come to the end of the request, further in the pool, or to the
-- pool's end; or it throws. The pool's bytes stay, and so does the invariant.
abbrev Keeps : Session → Session → Type 0
Keeps s t = (t.pool.total_line ≡ s.pool.total_line) × (t.pool.line_len ≡ s.pool.line_len) × Inv t

abbrev Progress : Session → Session → Type 0
Progress s t =
    (t.request.validation_phase ≡ complete)
    ⊎ (s.pool.offset < t.pool.offset)
    ⊎ (t.pool.line_len ≡ t.pool.offset)

abbrev pub Post : Session → Outcome → Type 0
Post s (ok t) = Keeps s t × Progress s t
Post s (thrown t) = Keeps s t

LinePost-Post :
    (s : Session) (crlf : ℕ) (o : Outcome)
    → Inv s
    → s.request.validation_phase ≡ ready
    → s.pool.offset ≤ crlf
    → crlf + 2 ≤ s.pool.line_len
    → LinePost (set_offset s (crlf + 2)) o
    → Post s o
LinePost-Post s crlf (ok t) v e lo hi h = ground arith
LinePost-Post s crlf (thrown t) v e lo hi h = ground arith

parse_first_line-Post :
    (s : Session) → Inv s → s.request.validation_phase ≡ ready → Post s (parse_first_line s)
unfolding parse_first_line
parse_first_line-Post s v e = elim (Bool-cases (find_newline s.pool s.pool.offset == 0)) [
  | inl missing ↦ rw missing (refl, refl, v)
  | inr found ↦ rw found (
      let bounds = find_newline_bounds s.pool s.pool.offset v.sized in
      LinePost-Post s (find_newline s.pool s.pool.offset) _ v e (ground arith) (ground arith) (
        parse_request_line-LinePost (set_offset s (find_newline s.pool s.pool.offset + 2))
          (take (find_newline s.pool s.pool.offset) s.pool.total_line)))
]

HasFirstLine-keep :
    (r q : Request)
    → q.uri ≡ r.uri
    → q.http_version ≡ r.http_version
    → HasFirstLine r
    → HasFirstLine q
HasFirstLine-keep r q u w h = record {
  path = h.path;
  rooted = u ∙ h.rooted;
  version = rw w h.version;
}

check_body_type-keeps :
    (r : Request)
    → ((check_body_type r).uri ≡ r.uri) × ((check_body_type r).http_version ≡ r.http_version)
unfolding check_body_type
check_body_type-keeps r = ground arith

-- A header line changes neither the pool nor the first line's parts.
abbrev HeaderPost : Session → Outcome → Type 0
HeaderPost s (ok t) =
    (t.pool ≡ s.pool)
    × (t.request.uri ≡ s.request.uri)
    × (t.request.http_version ≡ s.request.http_version)
HeaderPost s (thrown t) =
    (t.pool ≡ s.pool)
    × (t.request.uri ≡ s.request.uri)
    × (t.request.http_version ≡ s.request.http_version)

parse_header_line-HeaderPost :
    (s : Session) (crlf : ℕ) (input : Bytes) → HeaderPost s (parse_header_line s crlf input)
unfolding parse_header_line
parse_header_line-HeaderPost s crlf input = ground arith

HeaderPost-Post :
    (s : Session) (crlf : ℕ) (o : Outcome)
    → Inv s
    → s.request.validation_phase ≡ on_header
    → s.pool.offset ≤ crlf
    → crlf + 2 ≤ s.pool.line_len
    → HeaderPost (set_offset s (crlf + 2)) o
    → Post s o
HeaderPost-Post s crlf (ok t) v e lo hi h = ground (arith, HasFirstLine-keep s.request t.request)
HeaderPost-Post s crlf (thrown t) v e lo hi h =
    ground (arith, HasFirstLine-keep s.request t.request)

parse_headers-Post :
    (s : Session) → Inv s → s.request.validation_phase ≡ on_header → Post s (parse_headers s)
unfolding parse_headers
parse_headers-Post s v e =
    let bounds = find_newline_bounds s.pool s.pool.offset v.sized in
    let r = s.request in
    let r' = record r { validation_phase = on_body } in
    elim (Bool-cases (find_newline s.pool s.pool.offset == s.pool.offset)) [
      | inl blank ↦
          rw blank
            (ground (arith, check_body_type-keeps r', HasFirstLine-keep r (check_body_type r')))
      | inr line ↦ rw line (elim (Bool-cases (find_newline s.pool s.pool.offset == 0)) [
        | inl missing ↦ rw missing (refl, refl, v)
        | inr found ↦ rw found (
            HeaderPost-Post s (find_newline s.pool s.pool.offset) _ v e (ground arith)
              (ground arith) (parse_header_line-HeaderPost _ _ _))
      ])
    ]

parse_body-Post :
    (s : Session) → Inv s → s.request.validation_phase ≡ on_body → Post s (parse_body s)
unfolding parse_body close_body
parse_body-Post s v e = ground arith

parse_chunked_body-Post :
    (s : Session)
    → Inv s
    → s.request.validation_phase ≡ on_chunked_body
    → Post s (parse_chunked_body s)
unfolding parse_chunked_body
parse_chunked_body-Post s v e = ground (
  arith,
  find_newline_bounds s.pool s.pool.offset v.sized,
  find_newline_bounds s.pool (find_newline s.pool s.pool.offset + 2) v.sized,
)

-- Every step of the switch keeps the invariant and goes forward.
pub step_in-Post :
    (phase : ValidationStatus) (s : Session)
    → Inv s
    → s.request.validation_phase ≡ phase
    → Post s (step_in phase s)
unfolding step_in
step_in-Post ready s v e = parse_first_line-Post s v e
step_in-Post on_header s v e = parse_headers-Post s v e
step_in-Post on_body s v e = parse_body-Post s v e
step_in-Post on_chunked_body s v e = parse_chunked_body-Post s v e
step_in-Post complete s v e = ((refl, refl, v), inl e)
