-- ===== src/Parser/Unanswered.antt =====
-- A malformed first line (src/Parser/parseFirstLine.cpp), and what is left of it.
use mathlib.Core.Path.{subst}
use create_httpserver_from_b.Common.{
  ◌+◌, ◌<◌, ◌≡◌, ◌∙◌, refl, sym, ap, inl, inr, false, [], ◌∷◌, ◌++◌, some, arith, Bytes, codes,
  length, take, take-append, Without, index_of-none, Bool-cases, ◌==◌,
}
use create_httpserver_from_b.Message.{new_request, ready}
use create_httpserver_from_b.Status.{bad_request_400}
use create_httpserver_from_b.Parser.HeaderLine.{at}
use create_httpserver_from_b.Parser.Lines.{find_newline-line}
use create_httpserver_from_b.Parser.Reads.{Reads, failed, read_buffer-Reads}
use create_httpserver_from_b.Parser.Total.{saved, new_session-Inv}
use create_httpserver_from_b.Parser.{
  Session, new_session, thrown, set_status, is_one_of, check_method, parse_first_space,
  parse_request_line, parse_first_line, find_newline, step_in, read_buffer, save_buffer_in_pool,
}

no_space_refused :
    (s : Session) (line : Bytes)
    → Without b' ' line
    → parse_request_line s line ≡ thrown (set_status s bad_request_400)
unfolding parse_request_line parse_first_space check_method
no_space_refused s line plain =
    let known =
      is_one_of line
        (codes "GET" ∷ codes "POST" ∷ codes "DELETE" ∷ codes "HEAD" ∷ codes "PUT" ∷ []) in
    ap (parse_first_space s line) (index_of-none b' ' line plain) ∙ elim (Bool-cases known) [
      | inl t ↦ rw (t, check_method) refl
      | inr f ↦ rw (f, check_method) refl
    ]

saved-at : (text : Bytes) → saved text new_session ≡ at text 0 new_request
unfolding save_buffer_in_pool
saved-at text =
    let e : 0 + length text ≡ length text = omega arith in
    ap
      (λ n. record {
        pool = record { total_line = text; line_len = n; offset = 0 };
        request = new_request;
      })
      e

first_step :
    (line rest text : Bytes)
    → text ≡ line ++ b'\r' ∷ b'\n' ∷ rest
    → Without b' ' line
    → Without b'\r' line
    → 0 < length line
    → step_in ready (at text 0 new_request)
      ≡ thrown (at text (length line + 2) (record new_request { status = bad_request_400 }))
unfolding step_in parse_first_line
first_step line rest text here plain line_plain nonempty =
    let first : find_newline (at text 0 new_request).pool 0 ≡ length line =
      find_newline-line (at text 0 new_request).pool [] line rest here refl line_plain
      ∙ omega arith in
    let found : (length line == 0) ≡ false = ground (arith, nonempty) in
    let cut : take (length line) text ≡ line =
      ap (take (length line)) here ∙ take-append line (b'\r' ∷ b'\n' ∷ rest) (length line) refl in
    rw first (
      rw found (
        ap (parse_request_line (at text (length line + 2) new_request)) cut
        ∙ no_space_refused (at text (length line + 2) new_request) line plain))

-- A first line that is not empty and has neither a space nor a `\r`, in one buffer with its line
-- end: the line is taken and the status is 400, but the phase stays READY, so that the request is
-- not complete.
pub read_buffer-no_space :
    (line rest : Bytes)
    → Without b' ' line
    → Without b'\r' line
    → 0 < length line
    → let text = line ++ b'\r' ∷ b'\n' ∷ rest in
      read_buffer (some text) new_session
      ≡ some (
          at text
            (length line + 2)
            (record new_request { validation_phase = ready; status = bad_request_400 }))
read_buffer-no_space line rest plain line_plain nonempty =
    let text = line ++ b'\r' ∷ b'\n' ∷ rest in
    let t : Session =
      at text (length line + 2)
        (record new_request { validation_phase = ready; status = bad_request_400 }) in
    read_buffer-Reads text new_session t new_session-Inv refl (
      subst (λ s. Reads s t) (sym (saved-at text))
        (failed refl (first_step line rest text refl plain line_plain nonempty)))
