-- ===== src/Parser/RoundTrip.antt =====
-- What the parser makes of a printed request in one buffer.
use mathlib.Core.Path.{subst, ap₂}
use create_httpserver_from_b.Common.{
  ◌+◌, ◌-◌, ◌<◌, ◌≡◌, refl, sym, true, false, [], ◌∷◌, ◌++◌, some, List, arith, Bytes, codes,
  length, length-append, take-append, ◌∙◌, ap, ◌==◌, append_assoc, lookup, eq_bytes, Without,
}
use create_httpserver_from_b.Common.Decimal.{atol, pos}
use create_httpserver_from_b.Message.{Request, new_request, ready, on_header, on_body, complete}
use create_httpserver_from_b.Parser.FirstLine.{request_line, IsRequestLine, parse_request_line_lem}
use create_httpserver_from_b.Parser.HeaderLine.{at, Field, parse_headers_end}
use create_httpserver_from_b.Parser.Lines.{find_newline-line}
use create_httpserver_from_b.Parser.Reads.{Reads, more, read_buffer-Reads}
use create_httpserver_from_b.Parser.Total.{saved, new_session-Inv}
use create_httpserver_from_b.Parser.{
  Session, find_newline, new_session, ok, is_one_of, check_body_type, parse_first_line, step_in,
  read_buffer, save_buffer_in_pool,
}
use create_httpserver_from_b.Parser.Printed.{
  fields_text, enter_all, AllFit, request_text, length-fields_text, through, length-through,
  through-append, length_by_line, step_on_header, headers-Reads, Reads-completed,
  check_body_type_sized, parse_body_rest,
}

abbrev pub read_request : Bytes → Bytes → Bytes → List Field → Request
read_request method path version fs = record {
  validation_phase = on_header;
  status = 0;
  method = method;
  uri = b'/' ∷ path;
  http_version = version;
  headers = enter_all fs [];
  body = [];
}

module _ (method path version : Bytes) (fs : List Field) (rest : Bytes)
    (line_fits : IsRequestLine method path version) (fields_fit : AllFit fs [])
    (line_plain : Without b'\r' (request_line method (b'/' ∷ path) version)) where
  abbrev line : Bytes
  line = request_line method (b'/' ∷ path) version

  abbrev pub text : Bytes
  text = request_text method path version fs rest

  first_found : find_newline (at text 0 new_request).pool 0 ≡ length line
  first_found =
      find_newline-line (at text 0 new_request).pool [] line _ refl refl line_plain ∙ omega arith

  length-line : 0 < length line
  length-line = omega (arith, length-append method (b' ' ∷ ((b'/' ∷ path) ++ b' ' ∷ version)))

  abbrev line_read : Request
  line_read = record new_request {
    method = method;
    uri = b'/' ∷ path;
    http_version = version;
    validation_phase = on_header;
  }

  first_step : step_in ready (at text 0 new_request) ≡ ok (at text (length line + 2) line_read)
  unfolding step_in parse_first_line
  first_step =
      let found : (length line == 0) ≡ false = ground (arith, length-line) in
      rw first_found (
        rw found (
          rw (take-append line _ (length line) refl) (
            parse_request_line_lem method path version line_fits
              (at text (length line + 2) new_request))))

  text-Reads :
      (t : Session)
      → ((pre : Bytes)
          → text ≡ pre ++ (b'\r' ∷ b'\n' ∷ rest)
          → Reads (at text (length pre) (read_request method path version fs)) t)
      → Reads (at text 0 new_request) t
  text-Reads t go =
      let here = through-append [] line (fields_text fs (b'\r' ∷ b'\n' ∷ rest)) in
      let first : length (through [] line) ≡ length line + 2 =
        omega (arith, length-through [] line) in
      more refl first_step
        (ground (arith, length_by_line text [] line _ refl, length-fields_text fs rest))
        (subst (λ n. Reads (at text n line_read) t) first
          (headers-Reads fs text (through [] line) line_read rest t refl here fields_fit go))

  start : saved text new_session ≡ at text 0 new_request
  unfolding save_buffer_in_pool
  start =
      let e : 0 + length text ≡ length text = omega arith in
      ap
        (λ n. record {
          pool = record { total_line = text; line_len = n; offset = 0 };
          request = new_request;
        })
        e

  pub read_buffer-text :
      (t : Session)
      → ((pre : Bytes)
          → text ≡ pre ++ (b'\r' ∷ b'\n' ∷ rest)
          → Reads (at text (length pre) (read_request method path version fs)) t)
      → read_buffer (some text) new_session ≡ some t
  read_buffer-text t go =
      read_buffer-Reads text new_session t new_session-Inv refl
        (subst (λ s. Reads s t) (sym start) (text-Reads t go))

  pub end_step :
      (pre : Bytes) (t : Request)
      → text ≡ pre ++ (b'\r' ∷ b'\n' ∷ rest)
      → (let r = read_request method path version fs in
          check_body_type (record r { validation_phase = on_body }) ≡ t)
      → step_in on_header (at text (length pre) (read_request method path version fs))
        ≡ ok (at text (length text - length rest) t)
  end_step pre t here typed =
      let offset : length pre + 2 ≡ length text - length rest =
        omega (arith, ap length here, length-append pre (b'\r' ∷ b'\n' ∷ rest)) in
      step_on_header (at text (length pre) (read_request method path version fs)) refl
      ∙ parse_headers_end text pre (read_request method path version fs) rest here
      ∙ ap₂ (λ n q. ok (at text n q)) offset typed

  -- A request is printed from a method, path and version that make up a request line, fields whose
  -- names have no colon, whose lines have no `\r` and whose keys differ, and anything behind. Read in
  -- one buffer, with a method that has no body, the request has exactly these parts and is complete,
  -- and the offset is behind the empty line.
  pub read_buffer-request_text :
      is_one_of method (codes "GET" ∷ codes "DELETE" ∷ codes "HEAD" ∷ codes "PATCH" ∷ []) ≡ true
      → let r = read_request method path version fs in
        read_buffer (some text) new_session
        ≡ some (at text (length text - length rest) (record r { validation_phase = complete }))
  read_buffer-request_text no_body =
      read_buffer-text _ (λ pre here. Reads-completed refl (end_step pre _ here (typed)) refl)
    where
      typed :
          let r = read_request method path version fs in
          check_body_type (record r { validation_phase = on_body })
          ≡ record r { validation_phase = complete }
      typed = unfold check_body_type in rw no_body

  -- A request is printed in the same way, with a method that has a body and a body that is not empty,
  -- and its content-length is not "0" and is read as the size of the body. Read in one buffer, the
  -- request has exactly these parts and this body, is complete, and the pool is used up.
  pub read_buffer-content_length :
      (value : Bytes)
      → is_one_of method (codes "GET" ∷ codes "DELETE" ∷ codes "HEAD" ∷ codes "PATCH" ∷ []) ≡ false
      → lookup (codes "content-length") (enter_all fs []) ≡ some value
      → eq_bytes value (codes "0") ≡ false
      → atol value ≡ pos (length rest)
      → 0 < length rest
      → let r = read_request method path version fs in
        read_buffer (some text) new_session
        ≡ some (at text (length text) (record r { validation_phase = complete; body = rest }))
  read_buffer-content_length value has_body given not_zero size nonempty =
      let r = read_request method path version fs in
      read_buffer-text _ (λ pre here.
        let offset : length text - length rest ≡ length (pre ++ b'\r' ∷ b'\n' ∷ []) = omega (
          arith,
          ap length here,
          length-append pre (b'\r' ∷ b'\n' ∷ rest),
          length-append pre (b'\r' ∷ b'\n' ∷ []),
        ) in
        let short : length rest < length text =
          omega (arith, ap length here, length-append pre (b'\r' ∷ b'\n' ∷ rest)) in
        more refl (end_step pre _ here (check_body_type_sized r value has_body given not_zero))
          (ground arith)
          (Reads-completed refl
            (parse_body_rest (record r { validation_phase = on_body }) text _ rest value _
              (here ∙ sym (append_assoc pre (b'\r' ∷ b'\n' ∷ []) rest)) offset refl given size)
            refl))
