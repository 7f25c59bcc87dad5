-- ===== src/PathFinder/BeforeLimit.antt =====
-- A location that stands in front of its server's max_body_size (src/Config/content.cpp), and
-- PathFinder::setMaxSize (src/HttpProcessor/PathFinder.cpp).
use create_httpserver_from_b.Common.{
  ℕ, ◌≡◌, ◌∙◌, refl, sym, ap, inl, inr, true, false, List, [], ◌∷◌, Bytes, length, empty?, arith,
}
use mathlib.Core.Path.{subst}
use create_httpserver_from_b.Common.Decimal.{atol, is_positive, lt_size}
use create_httpserver_from_b.Status.{payload_too_large_413}
use create_httpserver_from_b.Config.{Location}
use create_httpserver_from_b.Config.Loaded.{done, ContentListType}
use create_httpserver_from_b.Config.LocationBlock.{get_location_expand}
use create_httpserver_from_b.Config.LocationBlock.Valid.{
  ValidLocation, Gives, get_location_expand-Gives,
}
use create_httpserver_from_b.Exchange.{System, Exchange, threw}
use create_httpserver_from_b.PathFinder.{set_max_size, use_location}

lt_size-empty : (s : Bytes) → empty? s ≡ false → lt_size (atol []) (length s) ≡ true
unfolding atol
lt_size-empty [] h = absurd cc
lt_size-empty (c ∷ s) h = ground arith

use_location-empty :
    (os : System) (l : Location) (root file_name : Bytes) (x : Exchange)
    → l.max_body_size ≡ []
    → empty? x.request.body ≡ false
    → use_location os l root file_name x ≡ threw payload_too_large_413 x
unfolding use_location set_max_size
use_location-empty os l root file_name x none_there some_bytes =
    let over : lt_size (atol l.max_body_size) (length x.request.body) ≡ true =
      ap (λ s. lt_size (atol s) (length x.request.body)) none_there
      ∙ lt_size-empty x.request.body some_bytes in
    rw (over, use_location, set_max_size) refl

-- A location that the parser accepts with nothing to inherit, because its server's max_body_size
-- stands behind it, and that has no positive limit of its own, refuses every request with a body:
-- applying it throws 413.
pub use_location-before_limit :
    (list : ContentListType) (size : ℕ) (lines rest : List Bytes) (l : Location) (os : System)
    (root file_name : Bytes) (x : Exchange)
    → get_location_expand list size [] lines ≡ done l rest
    → is_positive (atol l.max_body_size) ≡ false
    → empty? x.request.body ≡ false
    → use_location os l root file_name x ≡ threw payload_too_large_413 x
use_location-before_limit list size lines rest l os root file_name x parsed no_limit some_bytes =
    let (valid, shorter) =
      subst (Gives (length lines) (ValidLocation [])) parsed
        (get_location_expand-Gives list size [] lines) in
    elim valid.limit [
      | inl same ↦ use_location-empty os l root file_name x same some_bytes
      | inr positive ↦ let clash : true ≡ false = sym positive ∙ no_limit in cc
    ]
