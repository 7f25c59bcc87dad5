-- ===== src/Parser.antt =====
-- src/Parser, include/Parser.hpp, include/RequestPool.hpp: the incremental request parser. The
-- pool's sizes are sizes of a vector in memory, far below 2^64.
pub mod Newline
pub mod Invariant
pub mod Total
pub mod Reads
pub mod Lines
pub mod FirstLine
pub mod HeaderLine
pub mod Printed
pub mod RoundTrip
pub mod Chunks
pub mod ChunkedRequest
pub mod Unanswered
mod Tests
use create_httpserver_from_b.Common.{
  ℕ, zero, suc, ◌+◌, ◌-◌, Bool, true, false, ◌&&◌, ◌||◌, List, [], ◌∷◌, ◌++◌, Option, none, some,
  Bytes, codes, length, get_elem?, take, ltb, ◌==◌, if◌then◌else◌, is_some, eq_bytes, index_of,
  index_from, substr, lookup, put,
}
use create_httpserver_from_b.Common.Decimal.{ℤ, atol, lt_size, eq_size}
use create_httpserver_from_b.Status.{bad_request_400, method_not_allowed_405, StatusCode}
use create_httpserver_from_b.Message.{
  ValidationStatus, ready, on_header, on_body, on_chunked_body, complete, is_complete, Request,
  new_request,
}
use create_httpserver_from_b.Utils.{ft_strtrim, ft_to_lower}

pub record RequestPool : Type 0 where
  pub total_line : Bytes
  pub line_len : ℕ
  pub offset : ℕ

-- A parser with the request that it fills.
pub record Session : Type 0 where
  pub pool : RequestPool
  pub request : Request

abbrev pub new_session : Session
new_session = record {
  pool = record { total_line = []; line_len = 0; offset = 0 };
  request = new_request;
}

-- A step returns, or throws an exception; what it wrote before it threw stays.
pub data Outcome : Type 0 where
  ok : Session → Outcome
  thrown : Session → Outcome

abbrev pub set_offset : Session → ℕ → Session
set_offset s n =
    let pool = s.pool in record { pool = record pool { offset = n }; request = s.request }

abbrev pub set_request : Session → Request → Session
set_request s r = record { pool = s.pool; request = r }

abbrev pub set_status : Session → StatusCode → Session
set_status s code = let r = s.request in set_request s (record r { status = code })

abbrev pub byte_is : Bytes → ℕ → ℕ → Bool
byte_is buf idx c = elim (get_elem? buf idx) [ none ↦ false | some b ↦ b == c ]

-- A line end stands at the index.
abbrev pub newline_at : Bytes → ℕ → Bool
newline_at buf idx = byte_is buf idx b'\r' && byte_is buf (idx + 1) b'\n'

-- Parser::saveBufferInPool
unfoldable pub save_buffer_in_pool : Bytes → RequestPool → RequestPool
save_buffer_in_pool buf p = record p {
  total_line = p.total_line ++ buf;
  line_len = p.line_len + length buf;
}

-- The loop of Parser::findNewline, with the rounds that are left.
unfoldable pub scan_newline : ℕ → Bytes → ℕ → ℕ
scan_newline zero buf idx = 0
scan_newline (suc rounds) buf idx =
    let rest = scan_newline rounds buf (idx + 1) in if newline_at buf idx then idx else rest

-- Parser::findNewline. It answers 0 where there is no line end, and for one at index 0.
unfoldable pub find_newline : RequestPool → ℕ → ℕ
unfolding scan_newline
find_newline p offset =
    if ltb p.line_len 2 then 0 else scan_newline (p.line_len - 1 - offset) p.total_line offset

abbrev pub is_one_of : Bytes → List Bytes → Bool
is_one_of s [] = false
is_one_of s (t ∷ ts) = eq_bytes s t || is_one_of s ts

-- The third part of the first line, up to a stray `\r`. With none, the count `npos - idx2 - 1`
-- is longer than what is left.
version_count : Bytes → ℕ → Option ℕ → ℕ
version_count input idx2 (some i) = i - idx2 - 1
version_count input idx2 none = length input

version_of : Bytes → ℕ → Bytes
unfolding version_count
version_of input idx2 =
    substr (idx2 + 1) (version_count input idx2 (index_from b'\r' (idx2 + 1) input)) input

-- The end of Parser::parseFirstLine
parse_version : Session → Bytes → Bytes → Bytes → ℕ → Outcome
unfolding version_of
parse_version s input method uri idx2 =
    let http_version = version_of input idx2 in
    let r = s.request in
    if is_one_of http_version (codes "HTTP/1.0" ∷ codes "HTTP/1.1" ∷ [])
    then ok (
        set_request s (record r {
          method = method;
          uri = uri;
          http_version = http_version;
          validation_phase = on_header;
        }))
    else thrown (set_status s bad_request_400)

-- `uri.at(0)` throws on an empty URI, and then the status stays as it was.
parse_uri : Session → Bytes → Bytes → Bytes → ℕ → Outcome
unfolding parse_version
parse_uri s input method [] idx2 = thrown s
parse_uri s input method (c ∷ uri) idx2 =
    if c == b'/'
    then parse_version s input method (c ∷ uri) idx2
    else thrown (set_status s bad_request_400)

pub check_method : Session → Bytes → Session
check_method s method =
    if is_one_of method
      (codes "GET" ∷ codes "POST" ∷ codes "DELETE" ∷ codes "HEAD" ∷ codes "PUT" ∷ [])
    then s
    else set_status s method_not_allowed_405

-- From the second space on; `start` is behind the first.
parse_second_space : Session → Bytes → Bytes → ℕ → Option ℕ → Outcome
unfolding parse_uri
parse_second_space s input method start none = thrown (set_status s bad_request_400)
parse_second_space s input method start (some idx2) =
    parse_uri s input method (substr start (idx2 - start) input) idx2

-- From the first space on. With none in the line the search for a second one starts at
-- `npos + 1`, which is 0, and fails.
pub parse_first_space : Session → Bytes → Option ℕ → Outcome
unfolding check_method parse_second_space
parse_first_space s input none = thrown (set_status (check_method s input) bad_request_400)
parse_first_space s input (some idx1) =
    let method = take idx1 input in
    parse_second_space (check_method s method) input method (idx1 + 1)
      (index_from b' ' (idx1 + 1) input)

pub parse_request_line : Session → Bytes → Outcome
unfolding parse_first_space
parse_request_line s input = parse_first_space s input (index_of b' ' input)

-- Parser::parseFirstLine
pub parse_first_line : Session → Outcome
parse_first_line s =
    let crlf_idx = find_newline s.pool s.pool.offset in
    if crlf_idx == 0
    then thrown s
    else parse_request_line (set_offset s (crlf_idx + 2)) (take crlf_idx s.pool.total_line)

-- Parser::checkBodyType, for the value that `content-length` has
pub body_by_length : Request → Option Bytes → Request
body_by_length r (some n) = record r {
  validation_phase = if eq_bytes n (codes "0") then complete else on_body;
}
body_by_length r none =
    if is_some (lookup (codes "transfer-encoding") r.headers)
    then record r { validation_phase = on_chunked_body }
    else record r { status = bad_request_400 }

-- Parser::checkBodyType
pub check_body_type : Request → Request
unfolding body_by_length
check_body_type r =
    if is_one_of r.method (codes "GET" ∷ codes "DELETE" ∷ codes "HEAD" ∷ codes "PATCH" ∷ [])
    then record r { validation_phase = complete }
    else body_by_length r (lookup (codes "content-length") r.headers)

-- A header line without its line end, which is at `crlf_idx`.
pub parse_header_line : Session → ℕ → Bytes → Outcome
parse_header_line s crlf_idx input = elim (index_of b':' input) [
  | none ↦ thrown (set_status s bad_request_400)
  | some idx1 ↦
      let key = ft_to_lower (take idx1 input) in
      let value = ft_strtrim (substr (idx1 + 1) (crlf_idx - idx1 - 1) input) in
      let r = s.request in
      if is_some (lookup key r.headers)
      then thrown (set_status s bad_request_400)
      else ok (set_request s (record r { headers = put key value r.headers }))
]

-- Parser::parseHeaders: one line
pub parse_headers : Session → Outcome
parse_headers s =
    let offset = s.pool.offset in
    let crlf_idx = find_newline s.pool offset in
    let r = s.request in
    if crlf_idx == offset
    then ok (
        set_offset (set_request s (check_body_type (record r { validation_phase = on_body })))
          (offset + 2))
    else if crlf_idx == 0
    then thrown s
    else parse_header_line (set_offset s (crlf_idx + 2)) crlf_idx
        (substr offset (crlf_idx - offset) s.pool.total_line)

-- `headers["content-length"]`, which enters an empty value where there is none
abbrev pub index_found : Bytes → List (Bytes × Bytes) → Option Bytes → Bytes × List (Bytes × Bytes)
index_found k m (some v) = (v, m)
index_found k m none = ([], put k [] m)

abbrev pub index_header : Bytes → List (Bytes × Bytes) → Bytes × List (Bytes × Bytes)
index_header k m = index_found k m (lookup k m)

close_body : ℤ → Request → Request
close_body content_length r =
    if eq_size content_length (length r.body)
    then record r { validation_phase = complete }
    else if lt_size content_length (length r.body)
    then record r { status = bad_request_400; validation_phase = complete }
    else r

-- Parser::parseBody takes all that the pool has; the pair is what `headers["content-length"]` gives.
take_body : Session → Bytes × List (Bytes × Bytes) → Outcome
unfolding close_body
take_body s (value, headers) =
    let r = s.request in
    let offset = s.pool.offset in
    let count = s.pool.line_len - offset in
    let taken = r.body ++ substr offset count s.pool.total_line in
    ok (
      set_offset
        (set_request s (close_body (atol value) (record r { body = taken; headers = headers })))
        (offset + count))

-- Parser::parseBody
pub parse_body : Session → Outcome
unfolding take_body
parse_body s = take_body s (index_header (codes "content-length") s.request.headers)

-- Parser::parseChunkedBody: one chunk. The chunk's size is not read.
pub parse_chunked_body : Session → Outcome
parse_chunked_body s =
    let crlf_idx1 = find_newline s.pool s.pool.offset in
    let crlf_idx2 = find_newline s.pool (crlf_idx1 + 2) in
    let r = s.request in
    if crlf_idx1 == 0
    then thrown s
    else if crlf_idx2 == 0
    then thrown s
    else if crlf_idx1 == crlf_idx2 - 2
    then ok (set_request s (record r { validation_phase = complete }))
    else ok (
        set_offset
          (set_request s (record r {
            body = r.body ++ substr (crlf_idx1 + 2) (crlf_idx2 - (crlf_idx1 + 2)) s.pool.total_line;
          }))
          (crlf_idx2 + 2))

-- The switch of Parser::readBuffer
unfoldable pub step_in : ValidationStatus → Session → Outcome
step_in ready s = parse_first_line s
step_in on_header s = parse_headers s
step_in on_body s = parse_body s
step_in on_chunked_body s = parse_chunked_body s
step_in complete s = ok s

-- The loop of Parser::readBuffer; `none` means that the fuel ran out.
unfoldable pub read_loop : ℕ → Session → Option Session
read_loop zero s = none
read_loop (suc fuel) s = elim (is_complete s.request.validation_phase) [
  | true ↦ some s
  | false ↦ elim (step_in s.request.validation_phase s) [
    | thrown t ↦ some t
    | ok t ↦ elim (t.pool.line_len == t.pool.offset) [ true ↦ some t | false ↦ read_loop fuel t ]
  ]
]

-- Parser::readBuffer. A NULL buffer, `none`, throws before it changes anything.
unfoldable pub read_buffer : Option Bytes → Session → Option Session
unfolding read_loop
read_buffer none s = some s
read_buffer (some buf) s =
    let pool = save_buffer_in_pool buf s.pool in
    elim (is_complete s.request.validation_phase) [
      | true ↦ some s
      | false ↦ read_loop (pool.line_len + 2) (record { pool = pool; request = s.request })
    ]
