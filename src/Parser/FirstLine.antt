-- ===== src/Parser/FirstLine.antt =====
-- What Parser::parseFirstLine makes of a well-formed request line.
use create_httpserver_from_b.Common.{
  ℕ, ◌+◌, ◌-◌, ◌≤◌, ◌≡◌, refl, sym, true, List, [], ◌∷◌, ◌++◌, some, arith, Bytes, codes, length,
  drop, substr, Without, index_of, index_from, index_of-append, index_of-none, length-append,
  take-append, drop-append_cons, append_assoc, offset_by, take_all, ◌∙◌, ap,
}
use create_httpserver_from_b.Message.{on_header}
use create_httpserver_from_b.Parser.{
  Session, ok, is_one_of, set_request, check_method, version_of, parse_version, parse_uri,
  parse_second_space, parse_first_space, parse_request_line,
}

abbrev pub methods : List Bytes
methods = codes "GET" ∷ codes "POST" ∷ codes "DELETE" ∷ codes "HEAD" ∷ codes "PUT" ∷ []

abbrev pub versions : List Bytes
versions = codes "HTTP/1.0" ∷ codes "HTTP/1.1" ∷ []

abbrev pub request_line : Bytes → Bytes → Bytes → Bytes
request_line method uri version = method ++ b' ' ∷ (uri ++ b' ' ∷ version)

pub record IsRequestLine (method path version : Bytes) : Type 0 where
  pub method_known : is_one_of method methods ≡ true
  pub method_word : Without b' ' method
  pub path_word : Without b' ' path
  pub version_known : is_one_of version versions ≡ true
  pub version_line : Without b'\r' version

module _ (method path version : Bytes) (fits : IsRequestLine method path version) where
  abbrev uri : Bytes
  uri = b'/' ∷ path

  abbrev input : Bytes
  input = request_line method uri version

  behind_method : drop (length method + 1) input ≡ uri ++ b' ' ∷ version
  behind_method = drop-append_cons method b' ' _ (length method + 1) refl

  abbrev idx2 : ℕ
  idx2 = length method + 1 + length uri

  behind_uri : drop (idx2 + 1) input ≡ version
  behind_uri =
      ap (drop (idx2 + 1)) (sym (append_assoc method (b' ' ∷ uri) (b' ' ∷ version)))
      ∙ drop-append_cons (method ++ b' ' ∷ uri) b' ' version (idx2 + 1)
          (omega (arith, length-append method (b' ' ∷ uri)))

  length-version : length version ≤ length input
  length-version = omega (
    arith,
    length-append method (b' ' ∷ (uri ++ b' ' ∷ version)),
    length-append uri (b' ' ∷ version),
  )

  version_of_lem : version_of input idx2 ≡ version
  unfolding version_of index_from
  version_of_lem =
      rw (behind_uri, index_of-none b'\r' version fits.version_line)
        (take_all (length input) version length-version)

  first_space : index_of b' ' input ≡ some (length method)
  first_space = index_of-append b' ' method _ fits.method_word

  second_space : index_from b' ' (length method + 1) input ≡ some idx2
  unfolding index_from
  second_space =
      ap (λ t. offset_by (length method + 1) (index_of b' ' t)) behind_method
      ∙ ap (offset_by (length method + 1)) (index_of-append b' ' uri version (refl, fits.path_word))

  uri_between : substr (length method + 1) (idx2 - (length method + 1)) input ≡ uri
  uri_between = rw behind_method (take-append uri (b' ' ∷ version) _ (omega arith))

  check_method_known : (s : Session) → check_method s method ≡ s
  unfolding check_method
  check_method_known s = rw fits.method_known

  parse_version_lem :
      (s : Session)
      → let r = s.request in
        parse_version s input method uri idx2
        ≡ ok (
            set_request s (record r {
              method = method;
              uri = uri;
              http_version = version;
              validation_phase = on_header;
            }))
  unfolding parse_version
  parse_version_lem s = rw version_of_lem (rw fits.version_known)

  -- The line's three parts enter the request, and nothing else of it changes but the phase.
  pub parse_request_line_lem :
      (s : Session)
      → let r = s.request in
        parse_request_line s input
        ≡ ok (
            set_request s (record r {
              method = method;
              uri = uri;
              http_version = version;
              validation_phase = on_header;
            }))
  unfolding parse_request_line parse_first_space parse_second_space parse_uri
  parse_request_line_lem s =
      ap (parse_first_space s input) first_space
      ∙ rw (take-append method _ (length method) refl, check_method_known s)
          (ap (parse_second_space s input method (length method + 1)) second_space
            ∙ ap (λ u. parse_uri s input method u idx2) uri_between
            ∙ parse_version_lem s)
