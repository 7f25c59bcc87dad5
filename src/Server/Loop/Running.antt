-- ===== src/Server/Loop/Running.antt =====
-- The server from its start on (src/Server/Server.cpp): its memory stays sound in every turn of the loop.
use create_httpserver_from_b.Common.{
  ℕ, ◌≡◌, refl, sym, ap, ◌⊎◌, inl, inr, false, Bool, true, List, [], ◌∷◌, none, some, if◌then◌else◌,
}
use mathlib.Core.Path.{subst}
use create_httpserver_from_b.Server.{
  server, evfilt_read, Kevent, ev_add, new_udata, World, Outcome, next, dangling, aborted,
  bind_outcome, Kernel, mem, add_change, allocate,
}
use create_httpserver_from_b.Server.Loop.{handle_event, handle_events, clear_udata, turn}
use create_httpserver_from_b.Server.Loop.Clear.{clear_udata-Cleared}
use create_httpserver_from_b.Server.Sound.{listener, Sound, Safe}
use create_httpserver_from_b.Server.Sound.Memory.{==-refl, allocate-Sound}
use create_httpserver_from_b.Config.{ServerConf}
use create_httpserver_from_b.Server.Loop.{new_world, add_server_socket_event}
use create_httpserver_from_b.Server.Loop.Freed.{mem-behind}
use create_httpserver_from_b.Server.Loop.Reported.{NotLive, Reported, Follows}
use create_httpserver_from_b.Server.Loop.Sound.{handle_event-Follows}

module _ (listening : ℕ → Bool) where
  -- Every event is one that the server may get when its turn comes, stale ones included.
  abbrev pub Batch : List (Kernel × Kevent) → World → Type 0
  Batch [] w = Unit {0}
  Batch ((k, e) ∷ events) w =
      Reported listening k e w × ((w' : World) → handle_event k e w ≡ next w' → Batch events w')

  -- Some event, when its turn comes, has no EV_ERROR and a pointer that is NULL or freed.
  abbrev pub SomeStale : List (Kernel × Kevent) → World → Type 0
  SomeStale [] w = ⊥
  SomeStale ((k, e) ∷ events) w =
      ((e.ev_error ≡ false) × NotLive e w)
      ⊎ ((v : World) × (handle_event k e w ≡ next v) × SomeStale events v)

  -- What events do: the invariant holds behind them, and a pointer that is NULL or freed is only
  -- followed if it is that of an event.
  abbrev pub FollowsAll : List (Kernel × Kevent) → World → Outcome → Type 0
  FollowsAll events w (next v) = Sound listening v
  FollowsAll events w dangling = SomeStale events w
  FollowsAll events w aborted = Unit {0}

  FollowsAll-later :
      (k : Kernel) (e : Kevent) (events : List (Kernel × Kevent)) (w v : World) (o : Outcome)
      → handle_event k e w ≡ next v
      → FollowsAll events v o
      → FollowsAll ((k, e) ∷ events) w o
  FollowsAll-later k e events w v (next x) runs s = s
  FollowsAll-later k e events w v dangling runs s = inr (v, runs, s)
  FollowsAll-later k e events w v aborted runs s = tt

  go_on :
      (k : Kernel) (e : Kevent) (events : List (Kernel × Kevent)) (w : World) (o : Outcome)
      → handle_event k e w ≡ o
      → Follows listening e w o
      → ((v : World)
          → handle_event k e w ≡ next v
          → Sound listening v
          → FollowsAll events v (handle_events events v))
      → FollowsAll ((k, e) ∷ events) w (bind_outcome o (handle_events events))
  go_on k e events w (next v) runs s rest =
      FollowsAll-later k e events w v (handle_events events v) runs (rest v runs s)
  go_on k e events w dangling runs s rest = inl s
  go_on k e events w aborted runs s rest = tt

  handle_events-FollowsAll :
      (events : List (Kernel × Kevent)) (w : World)
      → Batch events w
      → Sound listening w
      → FollowsAll events w (handle_events events w)
  unfolding handle_events
  handle_events-FollowsAll [] w batch s = s
  handle_events-FollowsAll ((k, e) ∷ events) w (reported, later) s =
      go_on k e events w (handle_event k e w) refl (handle_event-Follows listening k e w reported s)
        (λ v runs s'. handle_events-FollowsAll events v (later v runs) s')

  bind_outcome-FollowsAll :
      (events : List (Kernel × Kevent)) (w : World) (o : Outcome) (f : World → Outcome)
      → FollowsAll events w o
      → ((v : World) → Sound listening v → Safe listening (f v))
      → FollowsAll events w (bind_outcome o f)
  bind_outcome-FollowsAll events w (next v) f s rest = safe (f v) (rest v s)
    where
      safe : (o : Outcome) → Safe listening o → FollowsAll events w o
      safe (next x) h = h
      safe dangling h = absurd h
      safe aborted h = tt
  bind_outcome-FollowsAll events w dangling f s rest = s
  bind_outcome-FollowsAll events w aborted f s rest = tt

  one_turn-FollowsAll :
      (events : List (Kernel × Kevent)) (w : World)
      → Batch events (record w { change_list = [] })
      → Sound listening w
      → FollowsAll events (record w { change_list = [] }) (turn events w)
  unfolding turn
  one_turn-FollowsAll events w batch s =
      let w0 : World = record w { change_list = [] } in
      bind_outcome-FollowsAll events w0 (handle_events events w0) clear_udata
        (handle_events-FollowsAll events w0 batch s)
        (λ w' s'.
          let (v, runs, empty, s'', gone, kept, deleted) = clear_udata-Cleared listening w' s' in
          subst (Safe listening) (sym runs) s'')

  -- The worlds that the loop comes to, whatever events it gets
  pub data Running (w : World) : World → Type 0 where
    started : Running w w
    turned :
        (events : List (Kernel × Kevent)) (v v' : World)
        → Running w v
        → Batch events (record v { change_list = [] })
        → turn events v ≡ next v'
        → Running w v'

  Running-Sound : (w v : World) → Sound listening w → Running w v → Sound listening v
  Running-Sound w v s started = s
  Running-Sound w v s (turned events x v' running batch runs) =
      subst (FollowsAll events (record x { change_list = [] })) runs
        (one_turn-FollowsAll events x batch (Running-Sound w x s running))

  -- The data of a socket that is listened on
  add_server_socket_event-Sound :
      (confs : List ServerConf) (socks : List ℕ) (w : World)
      → ((sock : ℕ) → mem sock socks ≡ true → listening sock ≡ true)
      → Sound listening w
      → Sound listening (add_server_socket_event confs socks w)
  unfolding add_server_socket_event
  add_server_socket_event-Sound confs [] w all s = s
  add_server_socket_event-Sound confs (sock ∷ socks) w all s =
      let u = new_udata server confs none none in
      let listens = all sock (rw (==-refl sock) refl) in
      add_server_socket_event-Sound confs socks
        (add_change (ev_add sock evfilt_read (some w.fresh)) (allocate sock u w))
        (λ other inside. all other (mem-behind sock other socks inside))
        (allocate-Sound listening sock u w (listener refl refl)
          (ap (λ b. if b then none else some sock) (sym listens)) s)

  pub new_world-Sound : Sound listening new_world
  new_world-Sound = record {
    formed = λ id u here. absurd cc;
    unused = λ id h. refl;
    mapped = λ fd id inside. absurd cc;
    once = λ fd. tt;
    doomed = λ fd inside. absurd cc;
  }

  -- In every turn of the loop of a server that starts on its listening sockets, whatever its system
  -- calls answer and in whatever order the events come, if each is Reported when its turn comes: a
  -- turn that ends leaves the memory sound, and the only pointer that is NULL or freed and is followed
  -- is that of an event without EV_ERROR.
  pub turn-FollowsAll :
      (confs : List ServerConf) (socks : List ℕ) (v : World) (events : List (Kernel × Kevent))
      → ((sock : ℕ) → mem sock socks ≡ true → listening sock ≡ true)
      → Running (add_server_socket_event confs socks new_world) v
      → Batch events (record v { change_list = [] })
      → FollowsAll events (record v { change_list = [] }) (turn events v)
  turn-FollowsAll confs socks v events all running batch =
      let w = add_server_socket_event confs socks new_world in
      let s = add_server_socket_event-Sound confs socks new_world all new_world-Sound in
      one_turn-FollowsAll events v batch (Running-Sound w v s running)
