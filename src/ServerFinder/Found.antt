-- ===== src/ServerFinder/Found.antt =====
-- Requests for a configured name (find_server_name in src/ServerFinder/ServerFinder.cpp).
use create_httpserver_from_b.Common.{
  ◌≡◌, ◌∙◌, refl, ap, ◌⊎◌, inl, inr, Bool, true, false, List, [], ◌∷◌, ◌++◌, Bytes, if◌then◌else◌,
}
use create_httpserver_from_b.Status.{not_found_404}
use create_httpserver_from_b.Config.{ServerConf}
use create_httpserver_from_b.ServerFinder.{
  found, refused, Scan, stop, listens, match_port, is_named, named_case, named_loop, after_scan,
  find_server_name,
}
use create_httpserver_from_b.ServerFinder.Ports.{named_loop-other, named_loop-unnamed}

-- The server has no name, or its first name is another one.
abbrev pub Passed : Bytes → ServerConf → Type 0
Passed server_part s =
    (s.server_name ≡ [])
    ⊎ ((name : Bytes) × (names : List Bytes) × (s.server_name ≡ name ∷ names)
        × (is_named name server_part ≡ false))

abbrev pub AllPassed : Bytes → List ServerConf → Type 0
AllPassed server_part [] = Unit {0}
AllPassed server_part (s ∷ ss) = Passed server_part s × AllPassed server_part ss

module _ (server_part port name : Bytes) (names : List Bytes) (s : ServerConf)
    (has_name : s.server_name ≡ name ∷ names) (asked : is_named name server_part ≡ true) where
  named_case-stop :
      (keep skip : Scan)
      → named_case server_part port s (name ∷ names) keep skip ≡ stop (match_port port s)
  unfolding named_case
  named_case-stop keep skip = rw (asked, named_case) refl

  named_loop-stop :
      (before after acc : List ServerConf)
      → AllPassed server_part before
      → named_loop server_part port (before ++ s ∷ after) acc ≡ stop (match_port port s)
  unfolding named_loop
  named_loop-stop [] after acc passed =
      let keep = named_loop server_part port after (acc ++ s ∷ []) in
      let skip = named_loop server_part port after acc in
      ap (λ ns. named_case server_part port s ns keep skip) has_name ∙ named_case-stop keep skip
  named_loop-stop (b ∷ before) after acc (inl none_there, passed) =
      named_loop-unnamed server_part port b (before ++ s ∷ after) acc none_there
      ∙ named_loop-stop before after (acc ++ b ∷ []) passed
  named_loop-stop (b ∷ before) after acc (inr (other, others, e, differs), passed) =
      named_loop-other server_part port b (before ++ s ∷ after) other others acc e differs
      ∙ named_loop-stop before after acc passed

  -- A server whose first name is the requested one, in front of which no server has that name as its
  -- first: it alone decides. It is found if it listens on the port, and otherwise the answer is 404, whatever
  -- servers stand in front of it or behind it.
  pub find_server_name-named :
      (before after : List ServerConf)
      → AllPassed server_part before
      → find_server_name server_part port (before ++ s ∷ after)
        ≡ (if listens port s.listen then found s else refused not_found_404)
  unfolding find_server_name after_scan match_port
  find_server_name-named before after passed =
      ap (after_scan port (before ++ s ∷ after)) (named_loop-stop before after [] passed)
      ∙ by_port (listens port s.listen)
    where
      by_port :
          (b : Bool)
          → elim b [ true ↦ found s | false ↦ refused not_found_404 ]
            ≡ (if b then found s else refused not_found_404)
      by_port true = refl
      by_port false = refl
