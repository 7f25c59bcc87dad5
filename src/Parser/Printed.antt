-- ===== src/Parser/Printed.antt =====
-- Requests as they are printed from their parts, and the parser's steps on them.
use mathlib.Core.Path.{subst, ap₂}
use create_httpserver_from_b.Common.{
  ℕ, ◌+◌, ◌-◌, ◌≤◌, ◌≡◌, refl, inl, inr, true, false, [], ◌∷◌, ◌++◌, some, List, arith, Bytes,
  codes, length, take, drop, substr, length-append, drop-append, take_all, ◌∙◌, ap, ◌==◌,
  append_assoc, lookup, eq_bytes, Bool-cases,
}
use create_httpserver_from_b.Common.Decimal.{atol, pos}
use create_httpserver_from_b.Message.{Request, is_complete, on_header, on_body, complete}
use create_httpserver_from_b.Parser.FirstLine.{request_line}
use create_httpserver_from_b.Parser.HeaderLine.{
  at, Field, field_line, Fits, enter, parse_headers_field,
}
use create_httpserver_from_b.Parser.Reads.{Reads, done, used_up, more}
use create_httpserver_from_b.Parser.{
  Session, ok, is_one_of, check_body_type, body_by_length, take_body, index_found, parse_headers,
  parse_body, close_body, step_in,
}

-- The header lines, in front of what follows them.
abbrev pub fields_text : List Field → Bytes → Bytes
fields_text [] rest = rest
fields_text (f ∷ fs) rest = field_line f ++ b'\r' ∷ b'\n' ∷ fields_text fs rest

abbrev pub enter_all : List Field → List (Bytes × Bytes) → List (Bytes × Bytes)
enter_all [] headers = headers
enter_all (f ∷ fs) headers = enter_all fs (enter f headers)

-- Each field can be written, and no two have the same key.
abbrev pub AllFit : List Field → List (Bytes × Bytes) → Type 0
AllFit [] headers = Unit {0}
AllFit (f ∷ fs) headers = Fits f headers × AllFit fs (enter f headers)

-- A request as it is sent: the line, the fields, an empty line and the rest.
abbrev pub request_text : Bytes → Bytes → Bytes → List Field → Bytes → Bytes
request_text method path version fs rest =
    request_line method (b'/' ∷ path) version
    ++ b'\r' ∷ b'\n' ∷ fields_text fs (b'\r' ∷ b'\n' ∷ rest)

pub length-fields_text :
    (fs : List Field) (rest : Bytes)
    → length rest + 2 ≤ length (fields_text fs (b'\r' ∷ b'\n' ∷ rest))
length-fields_text [] rest = omega arith
length-fields_text (f ∷ fs) rest = omega (
  arith,
  length-fields_text fs rest,
  length-append (field_line f) (b'\r' ∷ b'\n' ∷ fields_text fs (b'\r' ∷ b'\n' ∷ rest)),
)

-- What is read when a line and its end are.
abbrev pub through : Bytes → Bytes → Bytes
through pre line = pre ++ (line ++ b'\r' ∷ b'\n' ∷ [])

pub length-through : (pre line : Bytes) → length (through pre line) ≡ length pre + length line + 2
length-through pre line =
    omega (
      arith,
      length-append pre (line ++ b'\r' ∷ b'\n' ∷ []),
      length-append line (b'\r' ∷ b'\n' ∷ []),
    )

pub through-append :
    (pre line rest : Bytes) → pre ++ (line ++ b'\r' ∷ b'\n' ∷ rest) ≡ through pre line ++ rest
through-append pre line rest = simp append_assoc

pub length_by_line :
    (text pre line rest : Bytes)
    → text ≡ pre ++ (line ++ b'\r' ∷ b'\n' ∷ rest)
    → length text ≡ length pre + length line + 2 + length rest
length_by_line text pre line rest e = omega (
  arith,
  ap length (e ∙ through-append pre line rest),
  length-append (through pre line) rest,
  length-through pre line,
)

pub step_on_header :
    (s : Session)
    → s.request.validation_phase ≡ on_header
    → step_in s.request.validation_phase s ≡ parse_headers s
unfolding step_in
step_on_header s e = ap (λ phase. step_in phase s) e

pub headers-Reads :
    (fs : List Field) (text pre : Bytes) (r : Request) (rest : Bytes) (t : Session)
    → r.validation_phase ≡ on_header
    → text ≡ pre ++ fields_text fs (b'\r' ∷ b'\n' ∷ rest)
    → AllFit fs r.headers
    → ((pre' : Bytes)
        → text ≡ pre' ++ (b'\r' ∷ b'\n' ∷ rest)
        → Reads (at text (length pre') (record r { headers = enter_all fs r.headers })) t)
    → Reads (at text (length pre) r) t
headers-Reads [] text pre r rest t phase here fit go = go pre here
headers-Reads (f ∷ fs) text pre r rest t phase here fit go =
    more (rw phase)
      (step_on_header (at text (length pre) r) phase
        ∙ parse_headers_field text pre r f _ here fit.0)
      (ground (arith, length_by_line text pre (field_line f) _ here, length-fields_text fs rest))
      (subst (λ n. Reads (at text n (record r { headers = enter f r.headers })) t)
        (length-through pre (field_line f))
        (headers-Reads fs text (through pre (field_line f))
          (record r { headers = enter f r.headers }) rest t phase
          (here ∙ through-append pre (field_line f) _) fit.1 go))

-- The loop ends behind a step that completes the request.
pub Reads-completed :
    {s t : Session}
    → is_complete s.request.validation_phase ≡ false
    → step_in s.request.validation_phase s ≡ ok t
    → is_complete t.request.validation_phase ≡ true
    → Reads s t
Reads-completed {s} {t} open_phase e complete_phase =
    elim (Bool-cases (t.pool.line_len == t.pool.offset)) [
      | inl empty ↦ used_up open_phase e empty
      | inr left ↦ more open_phase e left (done complete_phase)
    ]

-- With a content-length other than "0" the body comes next.
pub check_body_type_sized :
    (r : Request) (value : Bytes)
    → is_one_of r.method (codes "GET" ∷ codes "DELETE" ∷ codes "HEAD" ∷ codes "PATCH" ∷ []) ≡ false
    → lookup (codes "content-length") r.headers ≡ some value
    → eq_bytes value (codes "0") ≡ false
    → check_body_type (record r { validation_phase = on_body })
      ≡ record r { validation_phase = on_body }
unfolding check_body_type
check_body_type_sized r value has_body given not_zero =
    let r' = record r { validation_phase = on_body } in
    rw has_body (ap (body_by_length r') given ∙ unfold body_by_length in rw not_zero)

-- A pool that holds the rest of the body, and no more, completes the request.
pub parse_body_rest :
    (r : Request) (text pre rest value : Bytes) (offset : ℕ)
    → text ≡ pre ++ rest
    → offset ≡ length pre
    → r.body ≡ []
    → lookup (codes "content-length") r.headers ≡ some value
    → atol value ≡ pos (length rest)
    → step_in on_body (at text offset r)
      ≡ ok (at text (length text) (record r { validation_phase = complete; body = rest }))
unfolding step_in parse_body
parse_body_rest r text pre rest value offset here at_pre no_body given size =
    let taken : r.body ++ substr offset (length text - offset) text ≡ rest = ap₂ ◌++◌ no_body (
      ap₂ (λ n t. take (length t - n) (drop n t)) at_pre here
      ∙ ap (take (length (pre ++ rest) - length pre)) (drop-append pre rest (length pre) refl)
      ∙ take_all _ rest (omega (arith, length-append pre rest))) in
    let closed : close_body (atol value) (record r { body = rest })
        ≡ record r { validation_phase = complete; body = rest } =
      unfold close_body in rw size (ground arith) in
    let all : offset + (length text - offset) ≡ length text =
      omega (arith, ap length here, length-append pre rest) in
    ap (take_body (at text offset r)) (ap (index_found (codes "content-length") r.headers) given)
    ∙ (unfold take_body in rw taken (rw closed (rw all)))
