-- ===== src/ServerFinder/Ports.antt =====
-- The second loop of find_server_name (src/ServerFinder/ServerFinder.cpp) and the count of its ports.
use create_httpserver_from_b.Common.{
  ℕ, zero, suc, inl, inr, ap, ◌∙◌, ◌≤◌, ◌<◌, ◌≡◌, refl, true, false, List, [], ◌∷◌, ◌++◌, arith,
  Bytes, length, eq_bytes, eq_bytes_refl, Bool-cases,
}
use create_httpserver_from_b.Status.{not_found_404}
use create_httpserver_from_b.Config.{ServerConf}
use create_httpserver_from_b.ServerFinder.{
  refused, out_of_bounds, Scan, listens, is_named, named_case, named_loop, miss, beyond, ports_loop,
  candidate_loop, after_scan, find_server_name,
}

-- The port is none of these.
abbrev pub NoPort : Bytes → List Bytes → Type 0
NoPort port [] = Unit {0}
NoPort port (p ∷ ps) = (eq_bytes p port ≡ false) × NoPort port ps

listens-append :
    (port : Bytes) (before after : List Bytes) → listens port (before ++ port ∷ after) ≡ true
unfolding listens
listens-append port [] after = rw (eq_bytes_refl port, listens)
listens-append port (p ∷ before) after = elim (Bool-cases (eq_bytes p port)) [
  | inl same ↦ rw (same, listens)
  | inr other ↦ rw (other, listens) (listens-append port before after)
]

-- As long as the rounds stay within ports that do not match, the loop ends with none.
ports_loop-miss :
    (rounds : ℕ) (port : Bytes) (before after : List Bytes)
    → NoPort port before
    → rounds ≤ length before
    → ports_loop rounds (before ++ after) port ≡ miss
unfolding ports_loop
ports_loop-miss zero port before after none_yet h = refl
ports_loop-miss (suc rounds) port [] after none_yet h = absurd (omega arith)
ports_loop-miss (suc rounds) port (p ∷ before) after none_yet h =
    rw (none_yet.0, ports_loop) (ports_loop-miss rounds port before after none_yet.1 (omega arith))

ports_loop-beyond :
    (rounds : ℕ) (port : Bytes) (ports : List Bytes)
    → NoPort port ports
    → length ports < rounds
    → ports_loop rounds ports port ≡ beyond
unfolding ports_loop
ports_loop-beyond zero port ports none h = absurd (omega arith)
ports_loop-beyond (suc rounds) port [] none h = refl
ports_loop-beyond (suc rounds) port (p ∷ ports) none h =
    rw (none.0, ports_loop) (ports_loop-beyond rounds port ports none.1 (omega arith))

named_case-other :
    (server_part port : Bytes) (s : ServerConf) (name : Bytes) (names : List Bytes)
    (keep skip : Scan)
    → is_named name server_part ≡ false
    → named_case server_part port s (name ∷ names) keep skip ≡ skip
unfolding named_case
named_case-other server_part port s name names keep skip other = rw (other, named_case)

pub named_loop-other :
    (server_part port : Bytes) (s : ServerConf) (ss : List ServerConf) (name : Bytes)
    (names : List Bytes) (acc : List ServerConf)
    → s.server_name ≡ name ∷ names
    → is_named name server_part ≡ false
    → named_loop server_part port (s ∷ ss) acc ≡ named_loop server_part port ss acc
unfolding named_loop
named_loop-other server_part port s ss name names acc has_name other =
    ap
      (λ ns.
        named_case server_part port s ns (named_loop server_part port ss (acc ++ s ∷ []))
          (named_loop server_part port ss acc))
      has_name
    ∙ named_case-other server_part port s name names
        (named_loop server_part port ss (acc ++ s ∷ [])) (named_loop server_part port ss acc) other

pub named_loop-unnamed :
    (server_part port : Bytes) (s : ServerConf) (ss acc : List ServerConf)
    → s.server_name ≡ []
    → named_loop server_part port (s ∷ ss) acc ≡ named_loop server_part port ss (acc ++ s ∷ [])
unfolding named_loop named_case
named_loop-unnamed server_part port s ss acc no_name =
    ap
      (λ ns.
        named_case server_part port s ns (named_loop server_part port ss (acc ++ s ∷ []))
          (named_loop server_part port ss acc))
      no_name

module _ (server_part port name : Bytes) (names : List Bytes) (named unnamed : ServerConf)
    (has_name : named.server_name ≡ name ∷ names) (other_name : is_named name server_part ≡ false)
    (no_name : unnamed.server_name ≡ []) where
  scan_result :
      find_server_name server_part port (named ∷ unnamed ∷ [])
      ≡ candidate_loop port (named ∷ unnamed ∷ []) (unnamed ∷ [])
  unfolding find_server_name candidate_loop named_loop
  scan_result =
      let servers = named ∷ unnamed ∷ [] in
      ap (after_scan port servers) (
        named_loop-other server_part port named (unnamed ∷ []) name names [] has_name other_name
        ∙ named_loop-unnamed server_part port unnamed [] [] no_name)

  -- Of two servers the first has a name that is not the requested one, and the second has none and
  -- listens on the port. If the port stands behind at least as many other ports of the second
  -- server as the first server has ports, the search refuses the request with 404.
  pub port_overlooked :
      (before after : List Bytes)
      → unnamed.listen ≡ before ++ port ∷ after
      → NoPort port before
      → length named.listen ≤ length before
      → (find_server_name server_part port (named ∷ unnamed ∷ []) ≡ refused not_found_404)
        × (listens port unnamed.listen ≡ true)
  unfolding candidate_loop
  port_overlooked before after ports none_before fewer =
      let missed : ports_loop (length named.listen) unnamed.listen port ≡ miss =
        rw ports
          (ports_loop-miss (length named.listen) port before (port ∷ after) none_before fewer) in
      (rw scan_result (rw (missed, candidate_loop)), rw ports (listens-append port before after))

  -- Of two servers the first has a name that is not the requested one, and the second has none, has
  -- fewer ports, and does not listen on the port: the search reads behind the end of its ports.
  pub read_beyond_ports :
      NoPort port unnamed.listen
      → length unnamed.listen < length named.listen
      → find_server_name server_part port (named ∷ unnamed ∷ []) ≡ out_of_bounds
  unfolding candidate_loop
  read_beyond_ports none fewer =
      let past = ports_loop-beyond (length named.listen) port unnamed.listen none fewer in
      rw scan_result (rw (past, candidate_loop))
