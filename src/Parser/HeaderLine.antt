-- ===== src/Parser/HeaderLine.antt =====
-- What Parser::parseHeaders makes of one well-formed header line, and of the line that ends them.
use create_httpserver_from_b.Common.{
  ℕ, ◌+◌, ◌-◌, ◌≤◌, ◌≡◌, refl, false, [], ◌∷◌, ◌++◌, none, List, arith, Bytes, length, substr,
  Without, index_of-append, length-append, take-append, drop-append, drop-append_cons, take_all,
  ◌==◌, lookup, put,
}
use create_httpserver_from_b.Utils.{ft_strtrim, ft_to_lower}
use create_httpserver_from_b.Message.{Request, on_body}
use create_httpserver_from_b.Parser.Lines.{find_newline-line}
use create_httpserver_from_b.Parser.{
  Session, ok, find_newline, check_body_type, parse_header_line, parse_headers,
}

-- A session whose pool holds the text, read up to the offset.
abbrev pub at : Bytes → ℕ → Request → Session
at text offset r = record {
  pool = record { total_line = text; line_len = length text; offset = offset };
  request = r;
}

-- A header field: its name, and the bytes between the colon and the line end.
pub record Field : Type 0 where
  pub name : Bytes
  pub raw : Bytes

abbrev pub field_line : Field → Bytes
field_line f = f.name ++ b':' ∷ f.raw

abbrev pub key : Field → Bytes
key f = ft_to_lower f.name

-- The field can be written, and its key is not among the headers yet.
pub record Fits (f : Field) (headers : List (Bytes × Bytes)) : Type 0 where
  pub name_plain : Without b':' f.name
  pub line_plain : Without b'\r' (field_line f)
  pub key_new : lookup (key f) headers ≡ none

abbrev pub enter : Field → List (Bytes × Bytes) → List (Bytes × Bytes)
enter f headers = put (key f) (ft_strtrim f.raw) headers

length-field_line : (f : Field) → length (field_line f) ≡ length f.name + length f.raw + 1
length-field_line f = omega (arith, length-append f.name (b':' ∷ f.raw))

raw_cut :
    (f : Field) (crlf : ℕ)
    → length (field_line f) ≤ crlf
    → substr (length f.name + 1) (crlf - length f.name - 1) (field_line f) ≡ f.raw
raw_cut f crlf h =
    rw (drop-append_cons f.name b':' f.raw (length f.name + 1) refl)
      (take_all _ f.raw (omega (arith, length-field_line f)))

parse_header_line_lem :
    (s : Session) (f : Field) (crlf : ℕ)
    → Fits f s.request.headers
    → length (field_line f) ≤ crlf
    → let r = s.request in
      parse_header_line s crlf (field_line f)
      ≡ ok (record { pool = s.pool; request = record r { headers = enter f r.headers } })
unfolding parse_header_line
parse_header_line_lem s f crlf fits h =
    rw (index_of-append b':' f.name f.raw fits.name_plain, parse_header_line)
      (rw (take-append f.name (b':' ∷ f.raw) (length f.name) refl)
        (rw (raw_cut f crlf h) (rw fits.key_new)))

module _ (text pre : Bytes) (r : Request) where
  module _ (f : Field) (rest : Bytes) (here : text ≡ pre ++ (field_line f ++ b'\r' ∷ b'\n' ∷ rest))
      (fits : Fits f r.headers) where
    abbrev crlf : ℕ
    crlf = length pre + length (field_line f)

    field_found : find_newline (at text (length pre) r).pool (length pre) ≡ crlf
    field_found =
        find_newline-line (at text (length pre) r).pool pre (field_line f) rest here refl
          fits.line_plain

    field_cut : substr (length pre) (crlf - length pre) text ≡ field_line f
    field_cut = rw here (
        rw (drop-append pre (field_line f ++ b'\r' ∷ b'\n' ∷ rest) (length pre) refl)
          (take-append (field_line f) _ _ (omega arith)))

    -- The field is entered, and the offset goes behind its line.
    pub parse_headers_field :
        parse_headers (at text (length pre) r)
        ≡ ok (at text (crlf + 2) (record r { headers = enter f r.headers }))
    unfolding parse_headers
    parse_headers_field =
        let behind : (crlf == length pre) ≡ false = ground (arith, length-field_line f) in
        let found : (crlf == 0) ≡ false = ground (arith, length-field_line f) in
        rw field_found (
          rw (behind, found)
            (rw field_cut (parse_header_line_lem (at text (crlf + 2) r) f crlf fits (omega arith))))

  -- The empty line ends the headers.
  pub parse_headers_end :
      (rest : Bytes)
      → text ≡ pre ++ (b'\r' ∷ b'\n' ∷ rest)
      → parse_headers (at text (length pre) r)
        ≡ ok (at text (length pre + 2) (check_body_type (record r { validation_phase = on_body })))
  unfolding parse_headers
  parse_headers_end rest here =
      rw (find_newline-line (at text (length pre) r).pool pre [] rest here refl tt) (ground arith)
