-- ===== src/ServerFinder/Sound.antt =====
-- What the search for a server finds, and where it goes wrong.
use mathlib.Core.Path.{subst}
use create_httpserver_from_b.Common.{
  ℕ, zero, suc, ◌≡◌, refl, sym, ◌⊎◌, inl, inr, true, List, [], ◌∷◌, ◌++◌, arith, Among,
  Among-append, Bytes, length, eq_bytes, eq_bytes_iff, Bool-cases,
}
use create_httpserver_from_b.Status.{not_found_404}
use create_httpserver_from_b.Config.{ServerConf}
use create_httpserver_from_b.ServerFinder.{
  Search, found, refused, out_of_bounds, Scan, stop, candidates, listens, match_port, is_named,
  named_case, named_loop, PortResult, hit, miss, beyond, ports_loop, candidate_loop, after_scan,
  find_server_name,
}

-- The server has the requested name, or no name.
abbrev pub HasName : Bytes → List Bytes → Type 0
HasName server_part [] = Unit {0}
HasName server_part (name ∷ names) = name ≡ server_part

abbrev pub Answers : Bytes → Bytes → List ServerConf → Search → Type 0
Answers server_part port servers (found s) =
    Among s servers × (listens port s.listen ≡ true) × HasName server_part s.server_name
Answers server_part port servers (refused code) = code ≡ not_found_404
Answers server_part port servers out_of_bounds = Unit {0}

-- Each stands in the whole list and has no name.
abbrev Unnamed : List ServerConf → List ServerConf → Type 0
Unnamed cs servers = (c : ServerConf) → Among c cs → Among c servers × (c.server_name ≡ [])

abbrev ScanAnswers : Bytes → Bytes → List ServerConf → Scan → Type 0
ScanAnswers server_part port servers (stop r) = Answers server_part port servers r
ScanAnswers server_part port servers (candidates cs) = Unnamed cs servers

module _ (server_part port : Bytes) (servers : List ServerConf) where
  match_port-Answers :
      (s : ServerConf)
      → Among s servers
      → HasName server_part s.server_name
      → Answers server_part port servers (match_port port s)
  unfolding match_port
  match_port-Answers s there named = elim (Bool-cases (listens port s.listen)) [
    | inl open_port ↦ rw (open_port, match_port) (there, open_port, named)
    | inr shut ↦ rw (shut, match_port) refl
  ]

  is_named-eq : (name : Bytes) → is_named name server_part ≡ true → name ≡ server_part
  unfolding is_named
  is_named-eq name h = ground (arith, eq_bytes_iff name server_part)

  named_case-Answers :
      (s : ServerConf) (names : List Bytes) (keep skip : Scan)
      → s.server_name ≡ names
      → Among s servers
      → (names ≡ [] → ScanAnswers server_part port servers keep)
      → ScanAnswers server_part port servers skip
      → ScanAnswers server_part port servers (named_case server_part port s names keep skip)
  unfolding named_case
  named_case-Answers s [] keep skip e there k sk = k refl
  named_case-Answers s (name ∷ names) keep skip e there k sk =
      elim (Bool-cases (is_named name server_part)) [
        | inl same ↦
            rw (same, named_case)
              (match_port-Answers s there
                (subst (HasName server_part) (sym e) (is_named-eq name same)))
        | inr other ↦ rw (other, named_case) sk
      ]

  Unnamed-append :
      (acc : List ServerConf) (s : ServerConf)
      → Unnamed acc servers
      → Among s servers
      → s.server_name ≡ []
      → Unnamed (acc ++ s ∷ []) servers
  Unnamed-append acc s old there e c h = elim (Among-append c acc (s ∷ []) h) [
    | inl l ↦ old c l
    | inr (inl same) ↦ subst (λ d. Among d servers × (d.server_name ≡ [])) (sym same) (there, e)
    | inr (inr no_more) ↦ absurd no_more
  ]

  named_loop-Answers :
      (ss acc : List ServerConf)
      → ((s : ServerConf) → Among s ss → Among s servers)
      → Unnamed acc servers
      → ScanAnswers server_part port servers (named_loop server_part port ss acc)
  unfolding named_loop
  named_loop-Answers [] acc sub old = old
  named_loop-Answers (s ∷ ss) acc sub old =
      named_case-Answers s s.server_name _ _ refl (sub s (inl refl))
        (λ e.
          named_loop-Answers ss (acc ++ s ∷ []) (λ t h. sub t (inr h))
            (Unnamed-append acc s old (sub s (inl refl)) e))
        (named_loop-Answers ss acc (λ t h. sub t (inr h)) old)

  ports_loop-hit :
      (rounds : ℕ) (ports : List Bytes)
      → ports_loop rounds ports port ≡ hit
      → listens port ports ≡ true
  unfolding ports_loop listens
  ports_loop-hit zero ports h = cc
  ports_loop-hit (suc rounds) [] h = cc
  ports_loop-hit (suc rounds) (p ∷ ps) h = elim (Bool-cases (eq_bytes p port)) [
    | inl same ↦ rw (same, listens)
    | inr other ↦ rw (other, listens) (ports_loop-hit rounds ps (rw (other, ports_loop) at h))
  ]

  PortResult-cases : (r : PortResult) → (r ≡ hit) ⊎ (r ≡ miss) ⊎ (r ≡ beyond)
  PortResult-cases hit = inl refl
  PortResult-cases miss = inr (inl refl)
  PortResult-cases beyond = inr (inr refl)

  candidate_loop-Answers :
      (ss cs : List ServerConf)
      → Unnamed cs servers
      → Answers server_part port servers (candidate_loop port ss cs)
  unfolding candidate_loop
  candidate_loop-Answers ss [] sub = refl
  candidate_loop-Answers [] (c ∷ cs) sub = tt
  candidate_loop-Answers (s ∷ ss) (c ∷ cs) sub =
      elim (PortResult-cases (ports_loop (length s.listen) c.listen port)) [
        | inl h ↦
            rw (h, candidate_loop)
              (
                (sub c (inl refl)).0,
                ports_loop-hit (length s.listen) c.listen h,
                subst (HasName server_part) (sym (sub c (inl refl)).1) tt,
              )
        | inr (inl m) ↦ rw (m, candidate_loop) (candidate_loop-Answers ss cs (λ d h. sub d (inr h)))
        | inr (inr b) ↦ rw (b, candidate_loop) tt
      ]

  after_scan-Answers :
      (scan : Scan)
      → ScanAnswers server_part port servers scan
      → Answers server_part port servers (after_scan port servers scan)
  unfolding after_scan
  after_scan-Answers (stop r) h = h
  after_scan-Answers (candidates cs) h = candidate_loop-Answers servers cs h

  -- Whatever server the search answers with is one of the configured ones, listens on the
  -- requested port, and has the requested name or none. Its only refusal is 404.
  pub find_server_name-Answers :
      Answers server_part port servers (find_server_name server_part port servers)
  unfolding find_server_name
  find_server_name-Answers =
      after_scan-Answers (named_loop server_part port servers [])
        (named_loop-Answers servers [] (λ s h. h) (λ c h. absurd h))
