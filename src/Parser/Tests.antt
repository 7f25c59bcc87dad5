-- ===== src/Parser/Tests.antt =====
-- The parser's properties at concrete requests.
use create_httpserver_from_b.Common.{
  ◌≡◌, ◌⊎◌, refl, List, [], ◌∷◌, ◌++◌, some, none, arith, Bytes, codes, length, index_of, lookup,
  put, eq_bytes, Without-index_of, ◌≤◌, ◌<◌, ◌+◌,
}
use create_httpserver_from_b.Common.Decimal.{atol}
use create_httpserver_from_b.Utils.{ft_strtrim, ft_to_lower}
use create_httpserver_from_b.Message.{new_request, ready, complete}
use create_httpserver_from_b.Parser.HeaderLine.{at, Field, field_line, key, Fits, enter}
use create_httpserver_from_b.Parser.FirstLine.{IsRequestLine, request_line}
use create_httpserver_from_b.Parser.Printed.{AllFit, request_text}
use create_httpserver_from_b.Parser.RoundTrip.{
  read_request, read_buffer-request_text, read_buffer-content_length,
}
use create_httpserver_from_b.Parser.Chunks.{
  Chunk, IsPlain, AllPlain, chunks_text, last_text, left_over,
}
use create_httpserver_from_b.Parser.ChunkedRequest.{read_buffer-chunked}
use create_httpserver_from_b.Parser.Unanswered.{read_buffer-no_space}
use create_httpserver_from_b.Parser.Total.{feed, feed-Inv}
use create_httpserver_from_b.Parser.Invariant.{Inv}
use create_httpserver_from_b.Parser.Newline.{NoNewline, FirstNewline, find_newline_lem}
use create_httpserver_from_b.Parser.{Session, RequestPool, new_session, find_newline, read_buffer}

abbrev http : Bytes
http = codes "HTTP/1.1"

abbrev host_field : Field
host_field = record { name = codes "Host"; raw = codes " localhost:10010" }

abbrev length_field : Field
length_field = record { name = codes "Content-Length"; raw = codes " 5" }

abbrev coding_field : Field
coding_field = record { name = codes "Transfer-Encoding"; raw = codes " chunked" }

abbrev get_fields : List Field
get_fields = host_field ∷ []

abbrev post_fields : List Field
post_fields = host_field ∷ length_field ∷ []

abbrev chunked_fields : List Field
chunked_fields = host_field ∷ coding_field ∷ []

get_line : IsRequestLine (codes "GET") (codes "a.html") http
unfolding eq_bytes index_of
get_line = record {
  method_known = refl;
  method_word = Without-index_of b' ' (codes "GET") refl;
  path_word = Without-index_of b' ' (codes "a.html") refl;
  version_known = refl;
  version_line = Without-index_of b'\r' http refl;
}

post_line : IsRequestLine (codes "POST") (codes "up") http
unfolding eq_bytes index_of
post_line = record {
  method_known = refl;
  method_word = Without-index_of b' ' (codes "POST") refl;
  path_word = Without-index_of b' ' (codes "up") refl;
  version_known = refl;
  version_line = Without-index_of b'\r' http refl;
}

fits :
    (f : Field) (headers : List (Bytes × Bytes))
    → index_of b':' f.name ≡ none
    → index_of b'\r' (field_line f) ≡ none
    → lookup (key f) headers ≡ none
    → Fits f headers
fits f headers name line fresh = record {
  name_plain = Without-index_of b':' f.name name;
  line_plain = Without-index_of b'\r' (field_line f) line;
  key_new = fresh;
}

get_fields-AllFit : AllFit get_fields []
unfolding index_of lookup ft_to_lower
get_fields-AllFit = (fits host_field [] refl refl refl, tt)

post_fields-AllFit : AllFit post_fields []
unfolding index_of lookup put eq_bytes ft_to_lower ft_strtrim
post_fields-AllFit = (
  fits host_field [] refl refl refl,
  (fits length_field (enter host_field []) refl refl refl, tt),
)

chunked_fields-AllFit : AllFit chunked_fields []
unfolding index_of lookup put eq_bytes ft_to_lower ft_strtrim
chunked_fields-AllFit = (
  fits host_field [] refl refl refl,
  (fits coding_field (enter host_field []) refl refl refl, tt),
)

abbrev hello : Chunk
hello = record { size_line = codes "5"; bytes = codes "hello" }

abbrev world : Chunk
world = record { size_line = codes "7"; bytes = codes " world" }

abbrev two_chunks : List Chunk
two_chunks = hello ∷ world ∷ []

plain :
    (c : Chunk)
    → index_of b'\r' c.size_line ≡ none
    → index_of b'\r' c.bytes ≡ none
    → 0 < length c.bytes
    → IsPlain c
plain c size bytes some_bytes = record {
  size_plain = Without-index_of b'\r' c.size_line size;
  bytes_plain = Without-index_of b'\r' c.bytes bytes;
  nonempty = some_bytes;
}

two_chunks-AllPlain : AllPlain two_chunks
unfolding index_of
two_chunks-AllPlain =
    (plain hello refl refl (omega arith), (plain world refl refl (omega arith), tt))

-- GET /a.html, with the bytes of a next request behind it
read_buffer-request_text_example :
    let text = request_text (codes "GET") (codes "a.html") http get_fields (codes "next") in
    let r = read_request (codes "GET") (codes "a.html") http get_fields in
    read_buffer (some text) new_session
    ≡ some (at text 47 (record r { validation_phase = complete }))
unfolding eq_bytes index_of
read_buffer-request_text_example =
    read_buffer-request_text (codes "GET") (codes "a.html") http get_fields (codes "next") get_line
      get_fields-AllFit
      (Without-index_of b'\r' (request_line (codes "GET") (codes "/a.html") http) refl) refl

read_buffer-content_length_example :
    let text = request_text (codes "POST") (codes "up") http post_fields (codes "hello") in
    let r = read_request (codes "POST") (codes "up") http post_fields in
    read_buffer (some text) new_session
    ≡ some (at text 68 (record r { validation_phase = complete; body = codes "hello" }))
unfolding eq_bytes index_of lookup put ft_to_lower ft_strtrim atol
read_buffer-content_length_example =
    read_buffer-content_length (codes "POST") (codes "up") http post_fields (codes "hello")
      post_line post_fields-AllFit
      (Without-index_of b'\r' (request_line (codes "POST") (codes "/up") http) refl) (codes "5")
      refl refl refl refl (omega arith)

-- The second size line says 7, and six bytes follow.
read_buffer-chunked_example :
    let text =
      request_text
        (codes "POST")
        (codes "up")
        http
        chunked_fields
        (chunks_text two_chunks (last_text (codes "0") [])) in
    let r = read_request (codes "POST") (codes "up") http chunked_fields in
    read_buffer (some text) new_session
    ≡ some (
        at text
          (left_over text (codes "0") [])
          (record r { validation_phase = complete; body = codes "hello world" }))
unfolding eq_bytes index_of lookup put ft_to_lower ft_strtrim
read_buffer-chunked_example =
    read_buffer-chunked (codes "POST") (codes "up") http chunked_fields two_chunks (codes "0") []
      post_line chunked_fields-AllFit
      (Without-index_of b'\r' (request_line (codes "POST") (codes "/up") http) refl) refl refl refl
      two_chunks-AllPlain (Without-index_of b'\r' (codes "0") refl)

-- A line that is cut between two buffers, and a NULL buffer
feed-Inv_example :
    (t : Session) × (feed
        (some (codes "GET / HT") ∷ some (codes "TP/1.1\r\n") ∷ none ∷ [])
        new_session
      ≡ some t)
    × Inv t
feed-Inv_example = feed-Inv (some (codes "GET / HT") ∷ some (codes "TP/1.1\r\n") ∷ none ∷ [])

abbrev two_lines : RequestPool
two_lines = record { total_line = codes "ab\r\ncd\r\n"; line_len = 8; offset = 4 }

find_newline_lem_example :
    ((find_newline two_lines 4 ≡ 0) × NoNewline two_lines.total_line 4 8)
    ⊎ ((find_newline two_lines 4 + 2 ≤ 8)
        × FirstNewline two_lines.total_line 4 (find_newline two_lines 4))
find_newline_lem_example = find_newline_lem two_lines 4 refl

read_buffer-no_space_example :
    read_buffer (some (codes "GET" ++ b'\r' ∷ b'\n' ∷ codes "Host: a\r\n\r\n")) new_session
    ≡ some (
        at
          (codes "GET\r\nHost: a\r\n\r\n")
          5
          (record new_request { validation_phase = ready; status = 400 }))
unfolding index_of
read_buffer-no_space_example =
    read_buffer-no_space (codes "GET") (codes "Host: a\r\n\r\n")
      (Without-index_of b' ' (codes "GET") refl) (Without-index_of b'\r' (codes "GET") refl)
      (omega arith)
