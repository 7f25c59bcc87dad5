-- ===== src/ServerFinder.antt =====
-- src/ServerFinder/ServerFinder.cpp: which configured server a request is for.
pub mod Sound
pub mod Found
pub mod Ports
mod Tests
use create_httpserver_from_b.Common.{
  ℕ, zero, suc, ◌+◌, Bool, true, false, ◌&&◌, List, [], ◌∷◌, ◌++◌, Option, none, some, Bytes, codes,
  length, drop, take, ◌==◌, if◌then◌else◌, eq_bytes, index_of, lookup,
}
use create_httpserver_from_b.Status.{
  StatusCode, bad_request_400, not_found_404, internal_server_error_500,
}
use create_httpserver_from_b.Message.{Request}
use create_httpserver_from_b.Config.{ServerConf, empty_server}

-- A search returns a server, throws a status, or reads behind the end of a vector.
pub data Search : Type 0 where
  found : ServerConf → Search
  refused : StatusCode → Search
  out_of_bounds : Search

-- `servers[i].listen[k] == port_part` for some `k` in range
pub listens : Bytes → List Bytes → Bool
listens port [] = false
listens port (p ∷ ps) = elim (eq_bytes p port) [ true ↦ true | false ↦ listens port ps ]

-- The first loop of find_server_name ends early, or collects the servers with no name.
pub data Scan : Type 0 where
  stop : Search → Scan
  candidates : List ServerConf → Scan

-- What is done with a server whose name is the requested one.
match_port : Bytes → ServerConf → Search
match_port port s = elim (listens port s.listen) [ true ↦ found s | false ↦ refused not_found_404 ]

pub is_named : Bytes → Bytes → Bool
is_named name server_part = length name == length server_part && eq_bytes name server_part

-- One server of the loop; `rest` is what the loop does with the others.
named_case : Bytes → Bytes → ServerConf → List Bytes → Scan → Scan → Scan
named_case server_part port s [] keep skip = keep
named_case server_part port s (name ∷ names) keep skip = elim (is_named name server_part) [
  | true ↦ stop (match_port port s)
  | false ↦ skip
]

pub named_loop : Bytes → Bytes → List ServerConf → List ServerConf → Scan
unfolding named_case
named_loop server_part port [] acc = candidates acc
named_loop server_part port (s ∷ ss) acc =
    let keep = named_loop server_part port ss (acc ++ s ∷ []) in
    let skip = named_loop server_part port ss acc in
    named_case server_part port s s.server_name keep skip

-- The inner loop of the second part: `rounds` ports are compared.
pub data PortResult : Type 0 where
  hit miss beyond : PortResult

pub ports_loop : ℕ → List Bytes → Bytes → PortResult
ports_loop zero ports port = miss
ports_loop (suc rounds) [] port = beyond
ports_loop (suc rounds) (p ∷ ps) port = elim (eq_bytes p port) [
  | true ↦ hit
  | false ↦ ports_loop rounds ps port
]

-- The second loop of find_server_name. It goes through the candidates, and takes the count of
-- ports to compare from the server at the same index of the whole list.
pub candidate_loop : Bytes → List ServerConf → List ServerConf → Search
candidate_loop port servers [] = refused not_found_404
candidate_loop port [] (c ∷ cs) = out_of_bounds
candidate_loop port (s ∷ ss) (c ∷ cs) = elim (ports_loop (length s.listen) c.listen port) [
  | hit ↦ found c
  | miss ↦ candidate_loop port ss cs
  | beyond ↦ out_of_bounds
]

after_scan : Bytes → List ServerConf → Scan → Search
after_scan port servers (stop r) = r
after_scan port servers (candidates cs) = candidate_loop port servers cs

pub find_server_name : Bytes → Bytes → List ServerConf → Search
unfolding after_scan
find_server_name server_part port servers =
    after_scan port servers (named_loop server_part port servers [])

-- The constructor keeps the request and the server, or it does not return: an exception leaves
-- it, or a read out of bounds has happened.
pub data Finder : Type 0 where
  finder : Request → ServerConf → Finder
  escaped : StatusCode → Finder
  undefined : Finder

-- The handler behind `catch (StatusCode code)`
keep_server : Request → Search → Finder
keep_server r (found s) = finder r s
keep_server r (refused code) = finder (record r { status = code }) empty_server
keep_server r out_of_bounds = undefined

-- From the colon of the host header on
split_host : Request → List ServerConf → Bytes → Option ℕ → Finder
unfolding keep_server
split_host r servers host none = keep_server r (refused bad_request_400)
split_host r servers host (some colon) =
    keep_server r (find_server_name (take colon host) (drop (colon + 1) host) servers)

host_header : Request → List ServerConf → Option Bytes → Finder
unfolding split_host
host_header r servers none = keep_server r (refused bad_request_400)
host_header r servers (some host) = split_host r servers host (index_of b':' host)

-- ServerFinder::ServerFinder. The first throw stands outside of its `try`.
pub server_finder : Request → List ServerConf → Finder
unfolding host_header
server_finder r [] = escaped internal_server_error_500
server_finder r (s ∷ ss) = host_header r (s ∷ ss) (lookup (codes "host") r.headers)
