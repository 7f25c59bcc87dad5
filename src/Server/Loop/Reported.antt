-- ===== src/Server/Loop/Reported.antt =====
-- The events that Server::start (src/Server/Server.cpp) may get from kevent, and what one may lead to.
use create_httpserver_from_b.Common.{ℕ, ◌≡◌, ◌∙◌, ap, ◌⊎◌, inl, inr, Bool, true, false, none, some}
use create_httpserver_from_b.Server.{
  server, client, evfilt_read, evfilt_timer, Kevent, Udata, World, Outcome, next, dangling, aborted,
  Kernel, deref, deref_live,
}
use create_httpserver_from_b.Server.Sound.{is_server, Sound, Safe}

-- The pointer of an event is NULL or freed.
abbrev pub NotLive : Kevent → World → Type 0
NotLive e w = (e.udata ≡ none) ⊎ ((id : ℕ) × (e.udata ≡ some id) × (w.heap id ≡ none))

pub deref-NotLive :
    (e : Kevent) (w : World) (f : ℕ → Udata → Outcome) → NotLive e w → deref w e.udata f ≡ dangling
deref-NotLive e w f (inl null) = ap (λ o. deref w o f) null
deref-NotLive e w f (inr (id, at_id, freed)) =
    ap (λ o. deref w o f) at_id ∙ ap (λ o. deref_live o (f id)) freed

module _ (listening : ℕ → Bool) where
  -- An event that the server may get: a change that the kernel refused; an event whose pointer is NULL
  -- or freed; a listening socket to be read, where accept answers a new descriptor; an event of a
  -- connection's data, on its own socket if the data is of type CLIENT; or one that comes in the same
  -- batch behind the event that gave the data the type CLIENT: a timer, or the end of a pipe.
  pub data Reported (k : Kernel) (e : Kevent) (w : World) : Type 0 where
    refused : e.ev_error ≡ true → Reported k e w
    stale : NotLive e w → Reported k e w
    to_accept :
        (id : ℕ) (u : Udata)
        → e.udata ≡ some id
        → w.heap id ≡ some u
        → u.m_type ≡ server
        → e.filter ≡ evfilt_read
        → ((sock : ℕ) → k.accept ≡ some sock → listening sock ≡ false)
        → Reported k e w
    to_serve :
        (id : ℕ) (u : Udata)
        → e.udata ≡ some id
        → w.heap id ≡ some u
        → is_server u.m_type ≡ false
        → (u.m_type ≡ client → u.m_client_sock ≡ some e.ident)
        → Reported k e w
    late_timer :
        (id : ℕ) (u : Udata)
        → e.udata ≡ some id
        → w.heap id ≡ some u
        → is_server u.m_type ≡ false
        → e.filter ≡ evfilt_timer
        → Reported k e w
    late_end :
        (id : ℕ) (u : Udata)
        → e.udata ≡ some id
        → w.heap id ≡ some u
        → u.m_type ≡ client
        → e.ev_eof ≡ true
        → listening e.ident ≡ false
        → Reported k e w

  -- What an event does: the invariant holds behind it, and the only pointer it can follow that is NULL
  -- or freed is its own.
  abbrev pub Follows : Kevent → World → Outcome → Type 0
  Follows e w (next v) = Sound listening v
  Follows e w dangling = (e.ev_error ≡ false) × NotLive e w
  Follows e w aborted = Unit {0}

  pub Safe-Follows : (e : Kevent) (w : World) (o : Outcome) → Safe listening o → Follows e w o
  Safe-Follows e w (next v) s = s
  Safe-Follows e w dangling s = absurd s
  Safe-Follows e w aborted s = tt
