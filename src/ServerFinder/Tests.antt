-- ===== src/ServerFinder/Tests.antt =====
-- The search for a server at concrete configurations.
use create_httpserver_from_b.Common.{◌≡◌, refl, inl, true, [], ◌∷◌, codes, arith, eq_bytes}
use create_httpserver_from_b.Status.{not_found_404}
use create_httpserver_from_b.Config.{ServerConf, empty_server}
use create_httpserver_from_b.ServerFinder.{
  found, refused, out_of_bounds, listens, is_named, find_server_name,
}
use create_httpserver_from_b.ServerFinder.Sound.{Answers, find_server_name-Answers}
use create_httpserver_from_b.ServerFinder.Found.{find_server_name-named}
use create_httpserver_from_b.ServerFinder.Ports.{port_overlooked, read_beyond_ports}

abbrev named : ServerConf
named = record empty_server { server_name = codes "a.com" ∷ []; listen = codes "80" ∷ [] }

abbrev two_ports : ServerConf
two_ports = record empty_server { listen = codes "80" ∷ codes "81" ∷ [] }

abbrev no_ports : ServerConf
no_ports = empty_server

find_server_name-Answers_example :
    Answers
      (codes "a.com")
      (codes "80")
      (two_ports ∷ named ∷ [])
      (find_server_name (codes "a.com") (codes "80") (two_ports ∷ named ∷ []))
find_server_name-Answers_example =
    find_server_name-Answers (codes "a.com") (codes "80") (two_ports ∷ named ∷ [])

-- The server without a name listens on 81, and a named server with one port stands before it.
port_overlooked_example :
    (find_server_name (codes "b.com") (codes "81") (named ∷ two_ports ∷ []) ≡ refused not_found_404)
    × (listens (codes "81") two_ports.listen ≡ true)
unfolding is_named eq_bytes
port_overlooked_example =
    port_overlooked (codes "b.com") (codes "81") (codes "a.com") [] named two_ports refl refl refl
      (codes "80" ∷ []) [] refl (refl, tt) (omega arith)

read_beyond_ports_example :
    find_server_name (codes "b.com") (codes "81") (named ∷ no_ports ∷ []) ≡ out_of_bounds
unfolding is_named eq_bytes
read_beyond_ports_example =
    read_beyond_ports (codes "b.com") (codes "81") (codes "a.com") [] named no_ports refl refl refl
      tt (omega arith)

find_server_name-named_example :
    find_server_name (codes "a.com") (codes "80") (two_ports ∷ named ∷ no_ports ∷ []) ≡ found named
unfolding is_named eq_bytes listens
find_server_name-named_example =
    find_server_name-named (codes "a.com") (codes "80") (codes "a.com") [] named refl refl
      (two_ports ∷ []) (no_ports ∷ []) (inl refl, tt)
