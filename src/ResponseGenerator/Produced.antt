-- ===== src/ResponseGenerator/Produced.antt =====
-- When ResponseGenerator produces a message, and when it uses an iterator that nothing was assigned to.
use mathlib.Core.Path.{subst}
use create_httpserver_from_b.ResponseGenerator.Payload.{finish-writes, finish-none}
use create_httpserver_from_b.Common.Decimal.{show}
use create_httpserver_from_b.Common.{
  sym, ◌≢◌, ◌⊎◌, ◌∷◌, ◌++◌, ◌<◌, arith, ◌≡◌, ◌∙◌, refl, ap, inl, inr, Bool, true, false, not, ◌&&◌,
  [], none, some, Bytes, if◌then◌else◌, codes, length, empty?, Bool-cases, ◌==◌,
}
use create_httpserver_from_b.Status.{StatusCode, ok_200, found_302, bad_gateway_502, get_status_str}
use create_httpserver_from_b.Message.{Request, Response}
use create_httpserver_from_b.ResponseGenerator.{
  Generator, new_generator, set_response, set_start_line, generate_error_body, size_behind,
  content_length, write_headers, sent_body, processed, thrown, finish, fail_with, after_cgi,
  cgi_data_process, generate_response_message,
}

sent_body-plain : (g : Generator) → g.response.cgi_flag ≡ false → sent_body g ≡ some g.response.body
unfolding sent_body
sent_body-plain g plain = rw (plain, sent_body) refl

content_length-plain :
    (g : Generator) → g.response.cgi_flag ≡ false → content_length g ≡ some (length g.response.body)
unfolding content_length
content_length-plain g plain = rw (plain, content_length) refl

content_length-unassigned :
    (g : Generator)
    → g.response.cgi_flag ≡ true
    → g.response.is_cgi_timeout ≡ false
    → g.cgi_body_it ≡ none
    → content_length g ≡ none
unfolding content_length size_behind
content_length-unassigned g cgi alive unassigned =
    rw (cgi, alive, content_length) (rw unassigned refl)

-- An error body changes the body only.
generate_error_body-flags :
    (g : Generator)
    → ((generate_error_body g).response.cgi_flag ≡ g.response.cgi_flag)
      × ((generate_error_body g).response.is_cgi_timeout ≡ g.response.is_cgi_timeout)
      × ((generate_error_body g).response.status_code ≡ g.response.status_code)
      × ((generate_error_body g).cgi_body_it ≡ g.cgi_body_it)
unfolding generate_error_body
generate_error_body-flags g =
    elim (Bool-cases (g.response.error_keyword && not (empty? g.response.error_page_vector))) [
      | inl t ↦ rw (t, generate_error_body) (refl, refl, refl, refl)
      | inr f ↦ rw (f, generate_error_body) (refl, refl, refl, refl)
    ]

-- The page of a status that no error page is configured for
abbrev pub status_page : StatusCode → Bytes
status_page code =
    codes "<html>\r\n<head><title>"
    ++ ((show code ++ (codes " " ++ get_status_str code))
        ++ (codes " </title></head>\r\n<body>\r\n<center><h1>"
            ++ ((show code ++ (codes " " ++ get_status_str code))
                ++ codes "</h1></center></body>\r\n</html>")))

-- The body that a response without CGI ends with: its own for 200 and 302; for any other status the
-- configured error page, where there is one, and else its own with the page of the status behind it.
pub data Page (r : Response) (body : Bytes) : Type 0 where
  kept : (r.status_code ≡ ok_200) ⊎ (r.status_code ≡ found_302) → body ≡ r.body → Page r body
  configured :
      r.status_code ≢ ok_200
      → r.status_code ≢ found_302
      → r.error_keyword ≡ true
      → 0 < length r.error_page_vector
      → body ≡ r.error_page_vector
      → Page r body
  built_in :
      r.status_code ≢ ok_200
      → r.status_code ≢ found_302
      → (r.error_keyword ≡ false) ⊎ (r.error_page_vector ≡ [])
      → body ≡ r.body ++ status_page r.status_code
      → Page r body

generate_error_body-Page :
    (g : Generator)
    → g.response.status_code ≢ ok_200
    → g.response.status_code ≢ found_302
    → Page g.response (generate_error_body (set_start_line g)).response.body
unfolding generate_error_body set_start_line
generate_error_body-Page g other moved =
    let r = g.response in
    elim (Bool-cases (r.error_keyword && not (empty? r.error_page_vector))) [
      | inl t ↦
          let (keyword, page) = both r.error_keyword r.error_page_vector t in
          configured other moved keyword page (rw (t, generate_error_body) refl)
      | inr f ↦
          built_in other moved (neither r.error_keyword r.error_page_vector f)
            (rw (f, generate_error_body) refl)
    ]
  where
    both :
        (b : Bool) (page : Bytes) → (b && not (empty? page)) ≡ true → (b ≡ true) × (0 < length page)
    both true (c ∷ page) t = (refl, omega arith)
    both true [] t = absurd cc
    both false page t = absurd cc

    neither :
        (b : Bool) (page : Bytes) → (b && not (empty? page)) ≡ false → (b ≡ false) ⊎ (page ≡ [])
    neither false page f = inl refl
    neither true [] f = inr refl
    neither true (c ∷ page) f = absurd cc

module _ (os date : Bytes) where
  finish-some :
      (h : Generator)
      → h.response.cgi_flag ≡ false
      → (g' : Generator) × (finish os date h ≡ some g')
        × (g'.response.status_code ≡ h.response.status_code)
        × (g'.response.body ≡ h.response.body)
  unfolding write_headers
  finish-some h plain = (
    _,
    finish-writes os date h h.response.body (sent_body-plain h plain)
        (content_length-plain h plain),
    refl,
    refl,
  )

  -- A response without CGI is always produced. It keeps its status. Its body is kept for 200 and 302;
  -- for another status it is the configured error page, or, where none is configured or it is empty,
  -- the old body with the page of the status behind it.
  pub generate_response_message-Page :
      (g : Generator)
      → g.response.cgi_flag ≡ false
      → (g' : Generator) × (generate_response_message os date g ≡ some g')
        × (g'.response.status_code ≡ g.response.status_code)
        × Page g.response g'.response.body
  unfolding generate_response_message fail_with after_cgi cgi_data_process set_start_line
  generate_response_message-Page g plain =
      let code = g.response.status_code in
      elim (Bool-cases (not (code == ok_200) && not (code == found_302))) [
        | inl t ↦
            let other : code ≢ ok_200 = ground arith in
            let moved : code ≢ found_302 = ground arith in
            let (flag, _, c, _) = generate_error_body-flags (set_start_line g) in
            let (g', e, c', b') =
              finish-some (generate_error_body (set_start_line g)) (flag ∙ plain) in
            (
              g',
              rw (t, generate_response_message) e,
              c' ∙ c,
              subst (Page g.response) (sym b') (generate_error_body-Page g other moved),
            )
        | inr f ↦
            let (g', e, c', b') = finish-some (set_start_line g) plain in
            let skipped : cgi_data_process g ≡ processed g = rw (plain, cgi_data_process) refl in
            let good : (code ≡ ok_200) ⊎ (code ≡ found_302) = ground arith in
            (g', rw (f, generate_response_message) (rw skipped e), c', kept good b')
      ]

  -- A response of a CGI program that ended in time and wrote nothing, before the iterator of its
  -- body is assigned: no message is produced, since the code uses that iterator.
  pub generate_response_message-unassigned :
      (g : Generator)
      → g.response.cgi_flag ≡ true
      → g.response.is_cgi_timeout ≡ false
      → g.cgi_body_it ≡ none
      → g.response.body ≡ []
      → generate_response_message os date g ≡ none
  unfolding generate_response_message fail_with after_cgi cgi_data_process set_start_line
  generate_response_message-unassigned g cgi alive unassigned empty =
      let failed : (code : StatusCode) (k : Generator)
          → k.response.cgi_flag ≡ true
          → k.response.is_cgi_timeout ≡ false
          → k.cgi_body_it ≡ none
          → fail_with os date code k ≡ none =
        λ code k c a u.
          let r = k.response in
          let s = set_start_line (set_response k (record r { status_code = code })) in
          let (flag, time, _, it) = generate_error_body-flags s in
          finish-none os date (generate_error_body s)
            (content_length-unassigned (generate_error_body s) (flag ∙ c) (time ∙ a) (it ∙ u)) in
      let code = g.response.status_code in
      let r = g.response in
      let g1 = set_response g (record r { status_code = bad_gateway_502 }) in
      let refused : cgi_data_process g ≡ thrown bad_gateway_502 g1 =
        rw (cgi, cgi_data_process) (rw empty refl) in
      elim (Bool-cases (not (code == ok_200) && not (code == found_302))) [
        | inl t ↦ rw (t, generate_response_message) (failed code g cgi alive unassigned)
        | inr f ↦
            rw (f, generate_response_message)
              (ap (after_cgi os date) refused ∙ failed bad_gateway_502 g1 cgi alive unassigned)
      ]

-- The constructor of the generator leaves the flag of CGI alone, so such a response is produced.
pub new_generator-produced :
    (os date : Bytes) (q : Request) (r : Response)
    → r.cgi_flag ≡ false
    → (g : Generator) × (generate_response_message os date (new_generator q r) ≡ some g)
unfolding new_generator
new_generator-produced os date q r plain =
    let (g, made, status, page) =
      generate_response_message-Page os date (new_generator q r)
        (plain_still r.redirection_exist) in
    (g, made)
  where
    plain_still :
        (b : Bool)
        → (if b then record r { status_code = found_302; body = [] } else r).cgi_flag ≡ false
    plain_still true = plain
    plain_still false = plain
