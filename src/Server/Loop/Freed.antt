-- ===== src/Server/Loop/Freed.antt =====
-- The inner loop of clearUdata (src/Server/event/udata.cpp) deletes the data that it is given.
use create_httpserver_from_b.Common.{
  ℕ, ◌≡◌, ◌∙◌, refl, sym, ap, inl, inr, Bool, true, false, List, [], ◌∷◌, ◌++◌, Option, none, some,
  ◌==◌, ==_iff, if◌then◌else◌, Bool-cases, arith,
}
use create_httpserver_from_b.Message.{Response}
use create_httpserver_from_b.Server.{
  evfilt_timer, ev_delete, Change, Action, closed, killed, waited, Udata, World, next, mem, at, act,
  close_fd, free_udata,
}
use create_httpserver_from_b.Server.Loop.{stop_child, release, release_all}
use create_httpserver_from_b.Server.Sound.{NoDup}
use create_httpserver_from_b.Server.Sound.Memory.{==-refl}

-- Only the log of actions and the list of changes differ.
abbrev Quiet : World → World → Type 0
Quiet w v = (c : List Change) × (a : List Action) × (v ≡ record w { change_list = c; actions = a })

close_fd-Quiet : (o : Option ℕ) (w v : World) → Quiet w v → Quiet w (close_fd o v)
close_fd-Quiet none w v h = h
close_fd-Quiet (some fd) w v (c, a, e) = (c, a ++ closed fd ∷ [], ap (act (closed fd)) e)

stop_child-Quiet : (o : Option ℕ) (w v : World) → Quiet w v → Quiet w (stop_child o v)
unfolding stop_child
stop_child-Quiet none w v h = h
stop_child-Quiet (some pid) w v (c, a, e) = (
  c ++ ev_delete pid evfilt_timer ∷ [],
  (a ++ killed pid ∷ []) ++ waited pid ∷ [],
  ap (stop_child (some pid)) e,
)

-- The memory without some pointers
abbrev pub Freed : List ℕ → World → World → Type 0
Freed ids w v =
    (h : ℕ → Option Udata) × (c : List Change) × (a : List Action) × (v
      ≡ record w { heap = h; change_list = c; actions = a })
    × ((i : ℕ) → h i ≡ (if mem i ids then none else w.heap i))

-- Data that is there and has its response
abbrev pub Answering : World → ℕ → Type 0
Answering w id = (u : Udata) × (r : Response) × (w.heap id ≡ some u) × (u.m_response ≡ some r)

release-Freed :
    (id : ℕ) (u : Udata) (r : Response) (w : World)
    → u.m_response ≡ some r
    → (c : List Change) × (a : List Action) × (release id u w
        ≡ next (record w { heap = at id none w.heap; change_list = c; actions = a }))
unfolding release
release-Freed id u r w response =
    let (c, a, e) =
      close_fd-Quiet u.m_write_pipe_fd w
        (close_fd u.m_read_pipe_fd (stop_child u.m_child_pid (close_fd r.static_read_file_fd w)))
        (close_fd-Quiet u.m_read_pipe_fd w
          (stop_child u.m_child_pid (close_fd r.static_read_file_fd w))
          (stop_child-Quiet u.m_child_pid w (close_fd r.static_read_file_fd w)
            (close_fd-Quiet r.static_read_file_fd w w (w.change_list, w.actions, refl)))) in
    (c, a, rw (response, release) (ap (λ v. next (free_udata id v)) e))

pub ==-sym : (m n : ℕ) → (m == n) ≡ (n == m)
==-sym m n = ground arith

pub mem-behind : (n m : ℕ) (ns : List ℕ) → mem m ns ≡ true → mem m (n ∷ ns) ≡ true
mem-behind n m ns h = elim (Bool-cases (n == m)) [
  | inl first ↦ rw first refl
  | inr later ↦ rw later h
]

either-none {ℓ} :
    {A : Type ℓ} (b c : Bool) (o : Option A)
    → (if b then none else if c then none else o) ≡ (if (if c then true else b) then none else o)
either-none true true o = refl
either-none true false o = refl
either-none false true o = refl
either-none false false o = refl

Answering-at :
    (id i : ℕ) (ids : List ℕ) (w : World) (c : List Change) (a : List Action)
    → mem id ids ≡ false
    → mem i ids ≡ true
    → Answering w i
    → Answering (record w { heap = at id none w.heap; change_list = c; actions = a }) i
Answering-at id i ids w c a absent inside (u, r, here, response) = elim (Bool-cases (i == id)) [
  | inl same ↦
      let e = (==_iff i id).0 same in
      let clash : true ≡ false = sym inside ∙ (ap (λ n. mem n ids) e ∙ absent) in cc
  | inr other ↦ (u, r, rw other here, response)
]

-- The data of a set of pointers is deleted, if they are all different.
pub release_all-Freed :
    (ids : List ℕ) (w : World)
    → NoDup ids
    → ((id : ℕ) → mem id ids ≡ true → Answering w id)
    → (v : World) × (release_all ids w ≡ next v) × Freed ids w v
unfolding release_all
release_all-Freed [] w once there = (w, refl, (w.heap, w.change_list, w.actions, refl, λ i. refl))
release_all-Freed (id ∷ ids) w (absent, once) there =
    let (u, r, here, response) = there id (rw (==-refl id) refl) in
    let (c, a, released) = release-Freed id u r w response in
    let (v, runs, (h, c', a', same, freed)) =
      release_all-Freed ids (record w { heap = at id none w.heap; change_list = c; actions = a })
        once
        (λ i inside.
          Answering-at id i ids w c a absent inside (there i (mem-behind id i ids inside))) in
    (
      v,
      rw (here, released, release_all) runs,
      (
        h,
        c',
        a',
        same,
        λ i.
            freed i
            ∙ (ap (λ b. if mem i ids then none else if b then none else w.heap i) (==-sym i id)
                ∙ either-none (mem i ids) (id == i) (w.heap i)),
      ),
    )
