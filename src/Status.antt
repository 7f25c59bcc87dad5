-- ===== src/Status.antt =====
-- include/StatusCode.hpp and src/ResponseGenerator/StatusCode.cpp. A `StatusCode` is a number here,
-- since the program casts any integer that a CGI script prints to the enumeration.
use create_httpserver_from_b.Common.{ℕ, List, [], ◌∷◌, Bytes, codes, ◌==◌, if◌then◌else◌}

abbrev pub StatusCode : Type 0
StatusCode = ℕ

abbrev pub no_problem : StatusCode
no_problem = 0

abbrev pub ok_200 : StatusCode
ok_200 = 200

abbrev pub found_302 : StatusCode
found_302 = 302

abbrev pub bad_request_400 : StatusCode
bad_request_400 = 400

abbrev pub not_found_404 : StatusCode
not_found_404 = 404

abbrev pub method_not_allowed_405 : StatusCode
method_not_allowed_405 = 405

abbrev pub payload_too_large_413 : StatusCode
payload_too_large_413 = 413

abbrev pub internal_server_error_500 : StatusCode
internal_server_error_500 = 500

abbrev pub not_implemented_501 : StatusCode
not_implemented_501 = 501

abbrev pub bad_gateway_502 : StatusCode
bad_gateway_502 = 502

-- `m_str_map`, as the constructor fills it
abbrev pub str_map : List (ℕ × Bytes)
str_map =
    (200, codes "OK")
    ∷ (201, codes "Created")
    ∷ (400, codes "Bad Request")
    ∷ (404, codes "Not Found")
    ∷ (405, codes "Method Not Allowed")
    ∷ (408, codes "Request Timeout")
    ∷ (413, codes "Payload Too Large")
    ∷ (414, codes "URI Too Long")
    ∷ (429, codes "Too Many Requests")
    ∷ (500, codes "Internal Server Error")
    ∷ (501, codes "Not Implemented")
    ∷ (502, codes "Bad Gateway")
    ∷ (504, codes "Gateway Timeout")
    ∷ (505, codes "HTTP Version Not Supported")
    ∷ []

-- The entry of a code, or that of 200.
find_str : ℕ → List (ℕ × Bytes) → Bytes
find_str code [] = codes "OK"
find_str code ((k, v) ∷ m) = if k == code then v else find_str code m

unfoldable pub get_status_str : StatusCode → Bytes
unfolding find_str
get_status_str code = find_str code str_map
