-- ===== src/Server/Sound.antt =====
-- The invariant of the server's memory (src/Server/event/udata.cpp): every pointer that `udata_map`
-- holds points to the data of a connection on that socket, once.
pub mod Memory
pub mod Release
use mathlib.Core.Path.{subst}
use create_httpserver_from_b.Common.{
  ℕ, ◌+◌, ◌≤◌, ◌<◌, ◌≡◌, ◌∙◌, refl, sym, ap, ◌⊎◌, inl, inr, Bool, true, false, List, [], ◌∷◌, ◌++◌,
  Option, none, some, ◌==◌, ==_iff, if◌then◌else◌, Bool-cases, Option-cases, arith,
}
use create_httpserver_from_b.Message.{Request, Response}
use create_httpserver_from_b.Server.{
  EventType, server, client, pipe, process, static_file, Udata, Change, World, Outcome, next,
  dangling, aborted, bind_outcome, mem, insert, erase, at, add_change, act, insert_fd,
  insert_client, close_fd, add_change_of, set_udata, free_udata, deref, ids_of, add_udata_map,
  remove_udata, allocate,
}

abbrev pub is_server : EventType → Bool
is_server server = true
is_server _ = false

abbrev pub NoDup : List ℕ → Type 0
NoDup [] = Unit {0}
NoDup (n ∷ ns) = (mem n ns ≡ false) × NoDup ns

-- `listening` tells the sockets of the server from those of its clients.
module _ (listening : ℕ → Bool) where
  -- The data of a listening socket, or of a connection, which has its request and its response.
  pub data WellFormed (u : Udata) : Type 0 where
    listener : is_server u.m_type ≡ true → u.m_client_sock ≡ none → WellFormed u
    connection :
        (fd : ℕ) (q : Request) (r : Response)
        → is_server u.m_type ≡ false
        → u.m_client_sock ≡ some fd
        → listening fd ≡ false
        → u.m_request ≡ some q
        → u.m_response ≡ some r
        → WellFormed u

  -- Where the data is filed
  abbrev pub Home : Udata → ℕ → Type 0
  Home u fd = u.m_client_sock ≡ (if listening fd then none else some fd)

  abbrev pub Filed : (ℕ → Option Udata) → ℕ → ℕ → Type 0
  Filed heap fd id = (u : Udata) × (heap id ≡ some u) × Home u fd

  pub record SoundParts (fd_set : List ℕ) (filed : ℕ → Option (List ℕ)) (heap : ℕ → Option Udata)
      (fresh : ℕ) : Type 0 where
    pub formed : (id : ℕ) (u : Udata) → heap id ≡ some u → WellFormed u
    pub unused : (id : ℕ) → fresh ≤ id → heap id ≡ none
    pub mapped : (fd id : ℕ) → mem id (ids_of (filed fd)) ≡ true → Filed heap fd id
    pub once : (fd : ℕ) → NoDup (ids_of (filed fd))
    pub doomed : (fd : ℕ) → mem fd fd_set ≡ true → listening fd ≡ false

  -- The invariant of the server
  abbrev pub Sound : World → Type 0
  Sound w = SoundParts w.fd_set w.udata_map w.heap w.fresh

  -- A handler follows no pointer that is NULL or freed, and keeps the invariant.
  abbrev pub Safe : Outcome → Type 0
  Safe (next w) = Sound w
  Safe dangling = ⊥
  Safe aborted = Unit {0}

  pub bind_outcome-Safe :
      (o : Outcome) (f : World → Outcome)
      → Safe o
      → ((w : World) → Sound w → Safe (f w))
      → Safe (bind_outcome o f)
  bind_outcome-Safe (next w) f h k = k w h
  bind_outcome-Safe dangling f h k = h
  bind_outcome-Safe aborted f h k = tt

  pub deref-Safe :
      (w : World) (o : Option ℕ) (id : ℕ) (u : Udata) (f : ℕ → Udata → Outcome)
      → o ≡ some id
      → w.heap id ≡ some u
      → Safe (f id u)
      → Safe (deref w o f)
  deref-Safe w o id u f at_id here h = rw (at_id, here) h

  pub add_change_of-Sound :
      (o : Option ℕ) (c : ℕ → Change) (w : World) → Sound w → Sound (add_change_of o c w)
  add_change_of-Sound none c w s = s
  add_change_of-Sound (some fd) c w s = s

  pub close_fd-Sound : (o : Option ℕ) (w : World) → Sound w → Sound (close_fd o w)
  close_fd-Sound none w s = s
  close_fd-Sound (some fd) w s = s

  pub insert_fd-Sound :
      (fd : ℕ) (w : World) → listening fd ≡ false → Sound w → Sound (insert_fd fd w)
  insert_fd-Sound fd w h s = record {
    formed = s.formed;
    unused = s.unused;
    mapped = s.mapped;
    once = s.once;
    doomed = λ i there. member i (mem fd w.fd_set) there;
  }
    where
      member :
          (i : ℕ) (b : Bool)
          → mem i (if b then w.fd_set else fd ∷ w.fd_set) ≡ true
          → listening i ≡ false
      member i true there = s.doomed i there
      member i false there = elim (Bool-cases (fd == i)) [
        | inl same ↦ let e = (==_iff fd i).0 same in rw (sym e) h
        | inr other ↦
            s.doomed i (subst (λ b. (if b then true else mem i w.fd_set) ≡ true) other there)
      ]

  -- Another connection's data keeps its place, and so does this one with the same socket.
  pub set_udata-Sound :
      (id : ℕ) (u v : Udata) (w : World)
      → w.heap id ≡ some u
      → v.m_client_sock ≡ u.m_client_sock
      → WellFormed v
      → Sound w
      → Sound (set_udata id v w)
  set_udata-Sound id u v w here same ok s = record {
    formed = λ i x e. formed i x (i == id) e;
    unused = λ i h. unused i h (Bool-cases (i == id));
    mapped = λ fd i there. mapped fd i (Bool-cases (i == id)) (s.mapped fd i there);
    once = s.once;
    doomed = s.doomed;
  }
    where
      formed :
          (i : ℕ) (x : Udata) (b : Bool) → (if b then some v else w.heap i) ≡ some x → WellFormed x
      formed i x true e = subst WellFormed (ap (λ o. elim o [ none ↦ v | some y ↦ y ]) e) ok
      formed i x false e = s.formed i x e

      unused :
          (i : ℕ)
          → w.fresh ≤ i
          → ((i == id) ≡ true) ⊎ ((i == id) ≡ false)
          → (if i == id then some v else w.heap i) ≡ none
      unused i h (inl e) =
          let at_id = (==_iff i id).0 e in
          let gone = s.unused id (omega (arith, at_id)) in
          let clash : some u ≡ none = sym here ∙ gone in cc
      unused i h (inr e) = rw e (s.unused i h)

      mapped :
          (fd i : ℕ)
          → ((i == id) ≡ true) ⊎ ((i == id) ≡ false)
          → Filed w.heap fd i
          → Filed (at id (some v) w.heap) fd i
      mapped fd i (inl e) (x, there, home) =
          let at_id = (==_iff i id).0 e in
          let one : some x ≡ some u = sym there ∙ ap w.heap at_id ∙ here in
          (
            v,
            rw e refl,
            same ∙ ap (λ o. elim o [ none ↦ none | some y ↦ y.m_client_sock ]) (sym one) ∙ home,
          )
      mapped fd i (inr e) (x, there, home) = (x, rw e there, home)
