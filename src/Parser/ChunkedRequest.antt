-- ===== src/Parser/ChunkedRequest.antt =====
-- A whole request with a chunked body (src/Parser/parseChunkedBody.cpp) in one buffer.
use mathlib.Core.Path.{subst}
use create_httpserver_from_b.Common.{
  ◌-◌, ◌<◌, ◌≡◌, refl, sym, ◌∙◌, ap, true, false, [], ◌∷◌, ◌++◌, none, some, List, arith, Bytes,
  codes, length, length-append, append_assoc, Without, lookup, is_some,
}
use create_httpserver_from_b.Message.{Request, complete, on_body, on_chunked_body}
use create_httpserver_from_b.Parser.HeaderLine.{at, Field}
use create_httpserver_from_b.Parser.FirstLine.{IsRequestLine, request_line}
use create_httpserver_from_b.Parser.Reads.{Reads, more}
use create_httpserver_from_b.Parser.Chunks.{
  Chunk, AllPlain, chunks_text, chunk_bytes, last_text, left_over, nonempty_rest, chunks-Reads,
}
use create_httpserver_from_b.Parser.Printed.{enter_all, AllFit, request_text}
use create_httpserver_from_b.Parser.RoundTrip.{read_request, read_buffer-text, end_step}
use create_httpserver_from_b.Parser.{
  new_session, is_one_of, body_by_length, check_body_type, read_buffer,
}

check_body_type_chunked :
    (r : Request)
    → is_one_of r.method (codes "GET" ∷ codes "DELETE" ∷ codes "HEAD" ∷ codes "PATCH" ∷ []) ≡ false
    → lookup (codes "content-length") r.headers ≡ none
    → is_some (lookup (codes "transfer-encoding") r.headers) ≡ true
    → check_body_type (record r { validation_phase = on_body })
      ≡ record r { validation_phase = on_chunked_body }
unfolding check_body_type
check_body_type_chunked r has_body unsized coded =
    let r' = record r { validation_phase = on_body } in
    rw has_body (ap (body_by_length r') unsized ∙ unfold body_by_length in rw coded)

-- A request in one buffer with a method that has a body, without a content-length, with a
-- transfer-encoding and a chunked body:
-- the body is the bytes of the chunks, in order, whatever their size lines say, as long as the
-- chunks have bytes and no `\r` among them. The offset stays in front of the last size line.
pub read_buffer-chunked :
    (method path version : Bytes) (fs : List Field) (cs : List Chunk) (size rest : Bytes)
    → IsRequestLine method path version
    → AllFit fs []
    → Without b'\r' (request_line method (b'/' ∷ path) version)
    → is_one_of method (codes "GET" ∷ codes "DELETE" ∷ codes "HEAD" ∷ codes "PATCH" ∷ []) ≡ false
    → lookup (codes "content-length") (enter_all fs []) ≡ none
    → is_some (lookup (codes "transfer-encoding") (enter_all fs [])) ≡ true
    → AllPlain cs
    → Without b'\r' size
    → let r = read_request method path version fs in
      let text = request_text method path version fs (chunks_text cs (last_text size rest)) in
      read_buffer (some text) new_session
      ≡ some (
          at text
            (left_over text size rest)
            (record r { validation_phase = complete; body = chunk_bytes cs }))
read_buffer-chunked method path version fs cs size rest line_fits fields_fit line_plain has_body
      unsized coded plains size_plain =
    let r = read_request method path version fs in
    let body = chunks_text cs (last_text size rest) in
    let text = request_text method path version fs body in
    read_buffer-text method path version fs body line_fits fields_fit line_plain _ (λ pre here.
      let offset : length text - length body ≡ length (pre ++ b'\r' ∷ b'\n' ∷ []) = omega (
        arith,
        ap length here,
        length-append pre (b'\r' ∷ b'\n' ∷ body),
        length-append pre (b'\r' ∷ b'\n' ∷ []),
      ) in
      let short : length body < length text =
        omega (arith, ap length here, length-append pre (b'\r' ∷ b'\n' ∷ body)) in
      let typed = check_body_type_chunked r has_body unsized coded in
      let begun : 0 < length (pre ++ b'\r' ∷ b'\n' ∷ []) =
        omega (arith, length-append pre (b'\r' ∷ b'\n' ∷ [])) in
      let r' : Request = record r { validation_phase = on_chunked_body } in
      more refl
        (end_step method path version fs body line_fits fields_fit line_plain pre r' here typed)
        (ground (arith, nonempty_rest cs size rest))
        (subst
          (λ n. Reads (at text n r') (
            at text (left_over text size rest)
              (record r { validation_phase = complete; body = chunk_bytes cs })))
          (sym offset)
          (chunks-Reads cs text (pre ++ b'\r' ∷ b'\n' ∷ []) size rest r' refl
            (here ∙ sym (append_assoc pre (b'\r' ∷ b'\n' ∷ []) body)) begun plains size_plain)))
