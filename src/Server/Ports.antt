-- ===== src/Server/Ports.antt =====
-- src/Server/socket: the sockets that the server listens on. `atoi` of the C library is an argument,
-- and so is what socket, bind and listen answer; `none` is an exit with EXIT_FAILURE.
pub mod Distinct
use create_httpserver_from_b.Common.{
  ℕ, Bool, true, false, List, [], ◌∷◌, ◌++◌, Option, none, some, Bytes, ◌==◌, if◌then◌else◌,
}
use create_httpserver_from_b.Common.Decimal.{ℤ, pos, negsuc, is_positive}
use create_httpserver_from_b.Config.{ServerConf}

abbrev pub eq_int : ℤ → ℤ → Bool
eq_int (pos a) (pos b) = a == b
eq_int (pos a) (negsuc b) = false
eq_int (negsuc a) (pos b) = false
eq_int (negsuc a) (negsuc b) = a == b

-- `port_map.find(port) != port_map.end()`, by the ports that are there
abbrev pub has_port : ℤ → List ℤ → Bool
has_port port [] = false
has_port port (p ∷ ps) = if eq_int p port then true else has_port port ps

-- The inner loop of Server::setServers
pub add_ports : (Bytes → ℤ) → List Bytes → List ℤ → Option (List ℤ)
add_ports atoi [] ports = some ports
add_ports atoi (l ∷ ls) ports =
    let rest = add_ports atoi ls (ports ++ atoi l ∷ []) in
    if has_port (atoi l) ports then none else rest

-- The outer loop
pub add_servers : (Bytes → ℤ) → List ServerConf → List ℤ → Option (List ℤ)
unfolding add_ports
add_servers atoi [] ports = some ports
add_servers atoi (s ∷ ss) ports = elim (add_ports atoi s.listen ports) [
  | none ↦ none
  | some ports' ↦ add_servers atoi ss ports'
]

-- Server::setServers
pub set_servers : (Bytes → ℤ) → List ServerConf → Option (List ℤ)
unfolding add_servers
set_servers atoi confs = add_servers atoi confs []

-- Server::setSocket, by what socket answers in turn
pub set_socket : List ℤ → List (Option ℕ) → Option (List (ℤ × ℕ))
set_socket [] answers = some []
set_socket (port ∷ ports) [] = none
set_socket (port ∷ ports) (none ∷ answers) = none
set_socket (port ∷ ports) (some sock ∷ answers) =
    let rest = set_socket ports answers in
    if is_positive port
    then elim rest [ none ↦ none | some socks ↦ some ((port, sock) ∷ socks) ]
    else none
