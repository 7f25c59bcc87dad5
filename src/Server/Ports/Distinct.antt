-- ===== src/Server/Ports/Distinct.antt =====
-- Server::setServers (src/Server/socket/setServers.cpp) refuses a configuration that has a port twice.
use mathlib.Core.Path.{subst}
use create_httpserver_from_b.Common.{
  ◌≡◌, ◌∙◌, refl, sym, ap, inl, inr, Bool, true, false, not, ◌&&◌, List, [], ◌∷◌, ◌++◌, map,
  append_assoc, append-nil, none, some, Bytes, if◌then◌else◌, Bool-cases, arith,
}
use create_httpserver_from_b.Common.Decimal.{ℤ, pos, negsuc}
use create_httpserver_from_b.Config.{ServerConf}
use create_httpserver_from_b.Server.Ports.{eq_int, has_port, add_ports, add_servers, set_servers}

-- No port stands twice.
abbrev pub distinct : List ℤ → Bool
distinct [] = true
distinct (p ∷ ps) = not (has_port p ps) && distinct ps

-- The ports of the configuration, in its order
abbrev pub ports_of : (Bytes → ℤ) → List ServerConf → List ℤ
ports_of atoi [] = []
ports_of atoi (s ∷ ss) = map atoi s.listen ++ ports_of atoi ss

eq_int-sym : (a b : ℤ) → eq_int a b ≡ eq_int b a
eq_int-sym (pos a) (pos b) = ground arith
eq_int-sym (pos a) (negsuc b) = refl
eq_int-sym (negsuc a) (pos b) = refl
eq_int-sym (negsuc a) (negsuc b) = ground arith

has_port-append :
    (p : ℤ) (xs ys : List ℤ)
    → has_port p (xs ++ ys) ≡ (if has_port p xs then true else has_port p ys)
has_port-append p [] ys = refl
has_port-append p (x ∷ xs) ys = elim (Bool-cases (eq_int x p)) [
  | inl e ↦ rw e refl
  | inr e ↦ rw e (has_port-append p xs ys)
]

-- A port that is there already
distinct-repeated :
    (p : ℤ) (xs ys : List ℤ) → has_port p xs ≡ true → distinct (xs ++ p ∷ ys) ≡ false
distinct-repeated p [] ys there = absurd (ground arith)
distinct-repeated p (x ∷ xs) ys there = elim (Bool-cases (eq_int x p)) [
  | inl same ↦
      let again : has_port x (xs ++ p ∷ ys) ≡ true =
        has_port-append x xs (p ∷ ys)
        ∙ (ap (λ b. if has_port x xs then true else if b then true else has_port x ys)
              (eq_int-sym p x ∙ same)
            ∙ either-true (has_port x xs)) in
      rw again refl
  | inr other ↦
      let later =
        distinct-repeated p xs ys
          (subst (λ b. (if b then true else has_port p xs) ≡ true) other there) in
      rw later (and-false (not (has_port x (xs ++ p ∷ ys))))
]
  where
    either-true : (b : Bool) → (if b then true else true) ≡ true
    either-true true = refl
    either-true false = refl

    and-false : (b : Bool) → (b && false) ≡ false
    and-false true = refl
    and-false false = refl

-- A new port behind the others
distinct-snoc :
    (p : ℤ) (xs : List ℤ)
    → has_port p xs ≡ false
    → distinct xs ≡ true
    → distinct (xs ++ p ∷ []) ≡ true
distinct-snoc p [] absent h = refl
distinct-snoc p (x ∷ xs) absent h =
    let (apart, away) = if-parts (eq_int x p) (has_port p xs) absent in
    let (single, rest) = and-parts (has_port x xs) (distinct xs) h in
    let new : has_port x (xs ++ p ∷ []) ≡ false =
      has_port-append x xs (p ∷ [])
      ∙ (ap (λ b. if b then true else if eq_int p x then true else false) single
          ∙ ap (λ b. if b then true else false) (eq_int-sym p x ∙ apart)) in
    rw (new, distinct-snoc p xs away rest) refl
  where
    if-parts : (a b : Bool) → (if a then true else b) ≡ false → (a ≡ false) × (b ≡ false)
    if-parts true b e = absurd cc
    if-parts false b e = (refl, e)

    and-parts : (a b : Bool) → (not a && b) ≡ true → (a ≡ false) × (b ≡ true)
    and-parts true b e = absurd cc
    and-parts false b e = (refl, e)

add_ports-distinct :
    (atoi : Bytes → ℤ) (ls : List Bytes) (ports : List ℤ)
    → distinct ports ≡ true
    → add_ports atoi ls ports
      ≡ (if distinct (ports ++ map atoi ls) then some (ports ++ map atoi ls) else none)
unfolding add_ports
add_ports-distinct atoi [] ports h = sym (
    ap (λ ps. if distinct ps then some ps else none) (append-nil ports)
    ∙ ap (λ b. if b then some ports else none) h)
add_ports-distinct atoi (l ∷ ls) ports h = elim (Bool-cases (has_port (atoi l) ports)) [
  | inl there ↦ rw (there, distinct-repeated (atoi l) ports (map atoi ls) there, add_ports) refl
  | inr absent ↦
      rw (absent, add_ports)
        (add_ports-distinct atoi ls (ports ++ atoi l ∷ []) (distinct-snoc (atoi l) ports absent h)
          ∙ ap (λ ps. if distinct ps then some ps else none)
              (append_assoc ports (atoi l ∷ []) (map atoi ls)))
]

-- What does not fit together now never will.
distinct-front : (xs ys : List ℤ) → distinct xs ≡ false → distinct (xs ++ ys) ≡ false
distinct-front [] ys h = absurd cc
distinct-front (x ∷ xs) ys h = elim (Bool-cases (has_port x xs)) [
  | inl there ↦
      let again : has_port x (xs ++ ys) ≡ true =
        has_port-append x xs ys ∙ ap (λ b. if b then true else has_port x ys) there in
      rw again refl
  | inr absent ↦
      let rest = distinct-front xs ys (subst (λ b. (not b && distinct xs) ≡ false) absent h) in
      rw rest (and-false (not (has_port x (xs ++ ys))))
]
  where
    and-false : (b : Bool) → (b && false) ≡ false
    and-false true = refl
    and-false false = refl

add_servers-distinct :
    (atoi : Bytes → ℤ) (confs : List ServerConf) (ports : List ℤ)
    → distinct ports ≡ true
    → add_servers atoi confs ports ≡ (
        if distinct (ports ++ ports_of atoi confs)
        then some (ports ++ ports_of atoi confs)
        else none)
unfolding add_servers
add_servers-distinct atoi [] ports h = sym (
    ap (λ ps. if distinct ps then some ps else none) (append-nil ports)
    ∙ ap (λ b. if b then some ports else none) h)
add_servers-distinct atoi (s ∷ ss) ports h =
    let here = map atoi s.listen in
    let whole =
      ap (λ ps. if distinct ps then some ps else none)
        (append_assoc ports here (ports_of atoi ss)) in
    elim (Bool-cases (distinct (ports ++ here))) [
      | inl fits ↦
          let added =
            add_ports-distinct atoi s.listen ports h
            ∙ ap (λ b. if b then some (ports ++ here) else none) fits in
          rw (added, add_servers) (add_servers-distinct atoi ss (ports ++ here) fits ∙ whole)
      | inr clashes ↦
          let added =
            add_ports-distinct atoi s.listen ports h
            ∙ ap (λ b. if b then some (ports ++ here) else none) clashes in
          let never = distinct-front (ports ++ here) (ports_of atoi ss) clashes in
          rw (added, add_servers)
            (ap (λ b. if b then some ((ports ++ here) ++ ports_of atoi ss) else none) (sym never)
              ∙ whole)
    ]

-- setServers opens exactly the ports that the configuration lists, in its order, and exits if and only
-- if one of them is listed twice.
pub set_servers_lem :
    (atoi : Bytes → ℤ) (confs : List ServerConf)
    → set_servers atoi confs
      ≡ (if distinct (ports_of atoi confs) then some (ports_of atoi confs) else none)
unfolding set_servers
set_servers_lem atoi confs = add_servers-distinct atoi confs [] refl
