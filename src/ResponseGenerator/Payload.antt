-- ===== src/ResponseGenerator/Payload.antt =====
-- The message that ResponseGenerator writes, as a whole.
use mathlib.Core.Path.{subst}
use mathlib.Core.Option.{some-injective}
use create_httpserver_from_b.Common.{
  ℕ, ◌≡◌, ◌∙◌, refl, sym, ap, inl, inr, Bool, true, false, not, ◌&&◌, [], ◌++◌, append_assoc,
  append-nil, Option, none, some, Bytes, codes, length, if◌then◌else◌, eq_bytes, empty?, Bool-cases,
  Option-cases, ltb, drop, length-drop, ◌==◌, find_sub,
}
use create_httpserver_from_b.Common.Decimal.{show}
use create_httpserver_from_b.Status.{StatusCode, ok_200, found_302, get_status_str}
use create_httpserver_from_b.ResponseGenerator.{
  crlf, Generator, set_response, append_message, set_start_line, generate_error_body, sent_body,
  content_type, location_header, size_behind, body_behind, content_length, write_headers,
  set_headers, set_body, finish, fail_with, after_cgi, Cgi, processed, thrown, undefined,
  content_from, set_cgi_status, status_from, cgi_data_process, generate_response_message,
}

abbrev pub start_line : StatusCode → Bytes
start_line code = codes "HTTP/1.1 " ++ (show code ++ (codes " " ++ (get_status_str code ++ crlf)))

abbrev pub header_lines : Bytes → Bytes → ℕ → Bytes → Bytes → Bytes
header_lines os date size mime location =
    codes "Server:Cute_webserv/1.0 ("
    ++ (os
        ++ (codes ")\r\nDate: "
            ++ (date
                ++ (codes "\r\nContent-length:"
                    ++ (show size
                        ++ (codes "\r\nContent-Type:"
                            ++ (mime ++ (crlf ++ (location ++ crlf)))))))))

abbrev pub payload : Bytes → Bytes → Bytes
payload method sent = if eq_bytes method (codes "HEAD") then [] else sent

-- The generator's message is what was there before, the start line of its status, the headers with
-- the size of the body, and the body unless the method is HEAD.
pub record IsMessage (os date before : Bytes) (g : Generator) : Type 0 where
  pub sent : Bytes
  pub sends : sent_body g ≡ some sent
  pub text :
      g.response.response_message
      ≡ before
        ++ (start_line g.response.status_code
            ++ (header_lines os date (length sent) (content_type g) (location_header g.response)
                ++ payload g.request.method sent))

set_body-payload :
    (sent : Bytes) (g : Generator)
    → sent_body g ≡ some sent
    → set_body g ≡ some (append_message (payload g.request.method sent) g)
unfolding set_body
set_body-payload sent g sends = elim (Bool-cases (eq_bytes g.request.method (codes "HEAD"))) [
  | inl t ↦
      let r = g.response in
      rw (t, set_body)
        (ap (λ m. some (set_response g (record r { response_message = m })))
          (sym (append-nil r.response_message)))
  | inr f ↦ rw (f, set_body) (rw sends refl)
]

-- The size that is written is the size of what is sent.
size_behind-body_behind :
    (body : Bytes) (o : Option ℕ) (size : ℕ)
    → size_behind body o ≡ some size
    → (sent : Bytes) × (body_behind body o ≡ some sent) × (size ≡ length sent)
unfolding size_behind body_behind
size_behind-body_behind body none size e = (let m : none ≡ some size = e in cc)
size_behind-body_behind body (some at) size e = elim (Bool-cases (ltb (length body) at)) [
  | inl outside ↦ (let m : none ≡ some size = rw (outside, size_behind) at e in cc)
  | inr inside ↦ (
    drop at body,
    refl,
    sym (some-injective _ _ (rw (inside, size_behind) at e)) ∙ sym (length-drop at body),
  )
]

content_length-sent_body :
    (g : Generator) (size : ℕ)
    → content_length g ≡ some size
    → (sent : Bytes) × (sent_body g ≡ some sent) × (size ≡ length sent)
unfolding content_length sent_body
content_length-sent_body g size e =
    let r = g.response in
    elim (Bool-cases r.cgi_flag) [
      | inr plain ↦ (
        r.body,
        rw (plain, sent_body) refl,
        sym (some-injective _ _ (rw (plain, content_length) at e)),
      )
      | inl cgi ↦ elim (Bool-cases r.is_cgi_timeout) [
        | inl late ↦ (
          r.body,
          rw (cgi, late, sent_body) refl,
          sym (some-injective _ _ (rw (cgi, late, content_length) at e)),
        )
        | inr timely ↦
            let (sent, sends, same) =
              size_behind-body_behind r.body g.cgi_body_it size
                (rw (cgi, timely, content_length) at e) in
            (sent, rw (cgi, timely, sent_body) sends, same)
      ]
    ]

generate_error_body-message :
    (g : Generator)
    → ((generate_error_body g).response.response_message ≡ g.response.response_message)
      × ((generate_error_body g).response.status_code ≡ g.response.status_code)
unfolding generate_error_body
generate_error_body-message g =
    elim (Bool-cases (g.response.error_keyword && not (empty? g.response.error_page_vector))) [
      | inl t ↦ rw (t, generate_error_body) (refl, refl)
      | inr f ↦ rw (f, generate_error_body) (refl, refl)
    ]

module _ (os date : Bytes) where
  pub finish-writes :
      (h : Generator) (sent : Bytes)
      → sent_body h ≡ some sent
      → content_length h ≡ some (length sent)
      → finish os date h
        ≡ some
            (append_message (payload h.request.method sent) (write_headers os date (length sent) h))
  unfolding finish set_headers write_headers sent_body
  finish-writes h sent sends size =
      ap (λ o. elim o [ none ↦ none | some g' ↦ set_body g' ])
        (ap (λ o. elim o [ none ↦ none | some n ↦ some (write_headers os date n h) ]) size)
      ∙ set_body-payload sent (write_headers os date (length sent) h) sends

  pub finish-none : (h : Generator) → content_length h ≡ none → finish os date h ≡ none
  unfolding finish set_headers
  finish-none h unsized =
      ap (λ o. elim o [ none ↦ none | some g' ↦ set_body g' ])
        (ap (λ o. elim o [ none ↦ none | some n ↦ some (write_headers os date n h) ]) unsized)

  finish-IsMessage :
      (before : Bytes) (h g : Generator)
      → h.response.response_message ≡ before ++ start_line h.response.status_code
      → finish os date h ≡ some g
      → IsMessage os date before g
  unfolding write_headers sent_body content_type
  finish-IsMessage before h g begun e = elim (Option-cases (content_length h)) [
    | inl unsized ↦ (let m : none ≡ some g = sym (finish-none h unsized) ∙ e in cc)
    | inr (size, sized) ↦
        let (sent, sends, same) = content_length-sent_body h size sized in
        let start = start_line h.response.status_code in
        let lines =
          header_lines os date (length sent) (content_type h) (location_header h.response) in
        let p = payload h.request.method sent in
        subst (IsMessage os date before)
          (some-injective _ _ (sym (finish-writes h sent sends (sized ∙ ap some same)) ∙ e))
          (record {
            sent = sent;
            sends = sends;
            text =
                ap (λ m. (m ++ lines) ++ p) begun
                ∙ append_assoc (before ++ start) lines p
                ∙ append_assoc before start (lines ++ p);
          })
  ]

fail_with-IsMessage :
    (os date : Bytes) (code : StatusCode) (g g' : Generator)
    → fail_with os date code g ≡ some g'
    → IsMessage os date g.response.response_message g'
unfolding fail_with set_start_line
fail_with-IsMessage os date code g g' e =
    let r = g.response in
    let h = set_start_line (set_response g (record r { status_code = code })) in
    let (m, c) = generate_error_body-message h in
    finish-IsMessage os date r.response_message (generate_error_body h) g'
      (m ∙ ap (λ n. r.response_message ++ start_line n) (sym c)) e

-- What cgiDataProcess has done when it goes on or throws, the message is as before.
abbrev Silent : Bytes → Cgi → Type 0
Silent before (processed g) = g.response.response_message ≡ before
Silent before (thrown code g) = g.response.response_message ≡ before
Silent before undefined = Unit {0}

after_cgi-IsMessage :
    (os date before : Bytes) (c : Cgi) (g : Generator)
    → Silent before c
    → after_cgi os date c ≡ some g
    → IsMessage os date before g
unfolding after_cgi set_start_line
after_cgi-IsMessage os date before (processed h) g silent e =
    finish-IsMessage os date before (set_start_line h) g
      (ap (λ m. m ++ start_line h.response.status_code) silent) e
after_cgi-IsMessage os date before (thrown code h) g silent e =
    subst (λ m. IsMessage os date m g) silent (fail_with-IsMessage os date code h g e)
after_cgi-IsMessage os date before undefined g silent e = (let m : none ≡ some g = e in cc)

content_from-Silent :
    (g : Generator) (o : Option ℕ)
    → (content_from g o).response.response_message ≡ g.response.response_message
unfolding content_from
content_from-Silent g none = refl
content_from-Silent g (some at) = refl

set_cgi_status-Silent :
    (g : Generator) (o : Option StatusCode)
    → Silent g.response.response_message (set_cgi_status g o)
unfolding set_cgi_status
set_cgi_status-Silent g none = tt
set_cgi_status-Silent g (some code) =
    let r = g.response in
    content_from-Silent (set_response g (record r { status_code = code }))
      (find_sub (codes "Content-Type:") r.body)

cgi_data_process-Silent : (g : Generator) → Silent g.response.response_message (cgi_data_process g)
unfolding cgi_data_process
cgi_data_process-Silent g =
    let r = g.response in
    let before = r.response_message in
    branch before (not r.cgi_flag) (processed g) _ refl (
      branch before (empty? r.body) _
        (set_cgi_status g (status_from r.body (find_sub (codes "Status:") r.body))) refl
        (set_cgi_status-Silent g (status_from r.body (find_sub (codes "Status:") r.body))))
  where
    branch :
        (before : Bytes) (b : Bool) (c d : Cgi)
        → Silent before c
        → Silent before d
        → Silent before (if b then c else d)
    branch before true c d h k = h
    branch before false c d h k = k

-- Whenever a response is produced, for a page, an error, a redirection or CGI output, the message
-- gets: the start line of the final status, the headers with the content type, the location, and a
-- Content-length that is the size of the body, and then that body, or nothing for HEAD.
pub generate_response_message-IsMessage :
    (os date : Bytes) (g g' : Generator)
    → generate_response_message os date g ≡ some g'
    → IsMessage os date g.response.response_message g'
unfolding generate_response_message
generate_response_message-IsMessage os date g g' e =
    let code = g.response.status_code in
    elim (Bool-cases (not (code == ok_200) && not (code == found_302))) [
      | inl t ↦ fail_with-IsMessage os date code g g' (rw (t, generate_response_message) at e)
      | inr f ↦
          after_cgi-IsMessage os date g.response.response_message (cgi_data_process g) g'
            (cgi_data_process-Silent g) (rw (f, generate_response_message) at e)
    ]
