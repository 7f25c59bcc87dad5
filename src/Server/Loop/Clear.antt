-- ===== src/Server/Loop/Clear.antt =====
-- clearUdata (src/Server/event/udata.cpp) deletes the data of every connection that is to be closed.
use mathlib.Core.Path.{subst}
use create_httpserver_from_b.Common.{
  ℕ, ◌≡◌, ◌∙◌, refl, sym, ap, ◌⊎◌, inl, inr, Bool, true, false, List, [], ◌∷◌, ◌++◌, Option, none,
  some, ◌==◌, ==_iff, if◌then◌else◌, Bool-cases, Option-cases,
}
use create_httpserver_from_b.Server.{closed, Udata, World, next, bind_outcome, mem, at, act, ids_of}
use create_httpserver_from_b.Server.Loop.{clear_fd, clear_fds, clear_udata}
use create_httpserver_from_b.Server.Sound.{NoDup, listener, connection, Filed, Sound}
use create_httpserver_from_b.Server.Sound.Memory.{==-refl}
use create_httpserver_from_b.Server.Sound.Release.{forget-Sound, Home-apart}
use create_httpserver_from_b.Server.Loop.Freed.{mem-behind, ==-sym, Answering, release_all-Freed}

module _ (listening : ℕ → Bool) where
  -- The sockets `fds` have no data left, and the others keep theirs.
  pub record Cleared (fds : List ℕ) (w v : World) : Type 0 where
    pub sound : Sound listening v
    pub same_fds : v.fd_set ≡ w.fd_set
    pub emptied : (fd : ℕ) → mem fd fds ≡ true → ids_of (v.udata_map fd) ≡ []
    pub kept : (fd : ℕ) → mem fd fds ≡ false → v.udata_map fd ≡ w.udata_map fd
    pub deleted :
        (fd id : ℕ) → mem fd fds ≡ true → mem id (ids_of (w.udata_map fd)) ≡ true → v.heap id ≡ none
    pub gone : (id : ℕ) → w.heap id ≡ none → v.heap id ≡ none

  Cleared-join :
      (fd : ℕ) (fds : List ℕ) (w x v : World)
      → Cleared (fd ∷ []) w x
      → Cleared fds x v
      → Cleared (fd ∷ fds) w v
  Cleared-join fd fds w x v here later = record {
    sound = later.sound;
    same_fds = later.same_fds ∙ here.same_fds;
    emptied = λ f inside. emptied f (Bool-cases (fd == f)) (Bool-cases (mem f fds)) inside;
    kept = λ f outside. kept f (Bool-cases (fd == f)) outside;
    deleted = λ f i inside there. deleted f i (Bool-cases (fd == f)) inside there;
    gone = λ i absent. later.gone i (here.gone i absent);
  }
    where
      deleted :
          (f i : ℕ)
          → ((fd == f) ≡ true) ⊎ ((fd == f) ≡ false)
          → mem f (fd ∷ fds) ≡ true
          → mem i (ids_of (w.udata_map f)) ≡ true
          → v.heap i ≡ none
      deleted f i (inl first) inside there = later.gone i (here.deleted f i (rw first refl) there)
      deleted f i (inr other) inside there =
          later.deleted f i (subst (λ b. (if b then true else mem f fds) ≡ true) other inside)
            (subst (λ o. mem i (ids_of o) ≡ true) (sym (here.kept f (rw other refl))) there)

      emptied :
          (f : ℕ)
          → ((fd == f) ≡ true) ⊎ ((fd == f) ≡ false)
          → (mem f fds ≡ true) ⊎ (mem f fds ≡ false)
          → mem f (fd ∷ fds) ≡ true
          → ids_of (v.udata_map f) ≡ []
      emptied f first (inl inside) there = later.emptied f inside
      emptied f (inl first) (inr outside) there =
          ap ids_of (later.kept f outside) ∙ here.emptied f (rw first refl)
      emptied f (inr other) (inr outside) there =
          let clash : false ≡ true =
            sym outside ∙ subst (λ b. (if b then true else mem f fds) ≡ true) other there in
          cc

      kept :
          (f : ℕ)
          → ((fd == f) ≡ true) ⊎ ((fd == f) ≡ false)
          → mem f (fd ∷ fds) ≡ false
          → v.udata_map f ≡ w.udata_map f
      kept f (inl first) outside =
          let clash : true ≡ false =
            subst (λ b. (if b then true else mem f fds) ≡ false) first outside in
          cc
      kept f (inr other) outside =
          later.kept f (subst (λ b. (if b then true else mem f fds) ≡ false) other outside)
          ∙ here.kept f (rw other refl)

  Filed-Answering :
      (w : World) (fd id : ℕ)
      → listening fd ≡ false
      → Sound listening w
      → Filed listening w.heap fd id
      → Answering w id
  Filed-Answering w fd id accepted s (u, here, home) = elim (s.formed id u here) [
    | listener type sock ↦
        let e : u.m_client_sock ≡ some fd = home ∙ ap (λ b. if b then none else some fd) accepted in
        let clash : none ≡ some fd = sym sock ∙ e in cc
    | connection f q r type sock apart request response ↦ (u, r, here, response)
  ]

  -- Data of this socket is not data of another.
  Filed-apart :
      (w : World) (fd f id : ℕ)
      → listening fd ≡ false
      → Filed listening w.heap fd id
      → Filed listening w.heap f id
      → f ≡ fd
  Filed-apart w fd f id accepted (u, here, home) (x, there, home') =
      let one : some x ≡ some u = sym there ∙ here in
      let is_u : x ≡ u = ap (λ o. elim o [ none ↦ u | some y ↦ y ]) one in
      let sock : x.m_client_sock ≡ some fd =
        ap (λ y. y.m_client_sock) is_u ∙ (home ∙ ap (λ b. if b then none else some fd) accepted) in
      Home-apart listening x fd f sock home'

  -- The set of the socket is empty now.
  emptied_map : ℕ → World → ℕ → Option (List ℕ)
  emptied_map fd w = at fd (some []) w.udata_map

  emptied_map-kept :
      (fd : ℕ) (ids : List ℕ) (w : World)
      → listening fd ≡ false
      → w.udata_map fd ≡ some ids
      → Sound listening w
      → (f i : ℕ) → mem i (ids_of (emptied_map fd w f)) ≡ true
      → (mem i (ids_of (w.udata_map f)) ≡ true) × (mem i ids ≡ false)
  unfolding emptied_map
  emptied_map-kept fd ids w accepted present s f i there = elim (Bool-cases (f == fd)) [
    | inl same ↦
        let clash : false ≡ true =
          subst (λ b. mem i (ids_of (if b then some [] else w.udata_map f)) ≡ true) same there in
        cc
    | inr other ↦
        let stays : mem i (ids_of (w.udata_map f)) ≡ true =
          subst (λ b. mem i (ids_of (if b then some [] else w.udata_map f)) ≡ true) other there in
        (
          stays,
          elim (Bool-cases (mem i ids)) [
            | inr gone ↦ gone
            | inl inside ↦
                let e =
                  Filed-apart w fd f i accepted (s.mapped fd i (rw present inside))
                    (s.mapped f i stays) in
                let clash : true ≡ false = sym ((==_iff f fd).1 e) ∙ other in cc
          ],
        )
  ]

  emptied_map-once :
      (fd : ℕ) (w : World) → Sound listening w → (f : ℕ) → NoDup (ids_of (emptied_map fd w f))
  unfolding emptied_map
  emptied_map-once fd w s f = elim (Bool-cases (f == fd)) [
    | inl same ↦ rw same tt
    | inr other ↦ rw other (s.once f)
  ]

  mem-one : (f fd : ℕ) → mem f (fd ∷ []) ≡ (f == fd)
  mem-one f fd = elim (Bool-cases (fd == f)) [
    | inl e ↦ rw e (sym (==-sym f fd ∙ e))
    | inr e ↦ rw e (sym (==-sym f fd ∙ e))
  ]

  still_none : (b : Bool) (o : Option Udata) → o ≡ none → (if b then none else o) ≡ none
  still_none true o absent = refl
  still_none false o absent = absent

  clear_fd-Cleared :
      (fd : ℕ) (w : World)
      → listening fd ≡ false
      → Sound listening w
      → (v : World) × (clear_fd fd w ≡ next v) × Cleared (fd ∷ []) w v
  unfolding clear_fd emptied_map
  clear_fd-Cleared fd w accepted s = elim (Option-cases (w.udata_map fd)) [
    | inl absent ↦ (
      w,
      rw (absent, clear_fd) refl,
      record {
        sound = s;
        same_fds = refl;
        emptied = λ f one.
            ap (λ n. ids_of (w.udata_map n)) ((==_iff f fd).0 (sym (mem-one f fd) ∙ one))
            ∙ ap ids_of absent;
        kept = λ f other. refl;
        deleted = λ f i one there.
            let e = (==_iff f fd).0 (sym (mem-one f fd) ∙ one) in
            let clash : false ≡ true =
              subst (λ o. mem i (ids_of o) ≡ true) (ap w.udata_map e ∙ absent) there in
            absurd cc;
        gone = λ i gone. gone;
      },
    )
    | inr (ids, present) ↦
        let (x, runs, (h, c, a, same, freed)) =
          release_all-Freed ids w (subst NoDup (ap ids_of present) (s.once fd)) (λ id inside.
            Filed-Answering w fd id accepted s (s.mapped fd id (rw present inside))) in
        (
          record w {
            udata_map = emptied_map fd w;
            heap = h;
            change_list = c;
            actions = a ++ closed fd ∷ [];
          },
          rw (present, runs, clear_fd)
              (ap
                (λ y. next (record (act (closed fd) y) { udata_map = at fd (some []) y.udata_map }))
                same),
          record {
            sound =
                forget-Sound listening w (emptied_map fd w) h (λ i. mem i ids) w.fd_set freed
                  (emptied_map-kept fd ids w accepted present s) (emptied_map-once fd w s) s.doomed
                  s;
            same_fds = refl;
            emptied = λ f one. rw (sym (mem-one f fd) ∙ one) refl;
            kept = λ f other. rw (sym (mem-one f fd) ∙ other) refl;
            deleted = λ f i one there.
                let e = (==_iff f fd).0 (sym (mem-one f fd) ∙ one) in
                let inside : mem i ids ≡ true =
                  subst (λ o. mem i (ids_of o) ≡ true) (ap w.udata_map e ∙ present) there in
                freed i ∙ ap (λ b. if b then none else w.heap i) inside;
            gone = λ i absent. freed i ∙ still_none (mem i ids) (w.heap i) absent;
          },
        )
  ]

  -- The loop of clearUdata
  clear_fds-Cleared :
      (fds : List ℕ) (w : World)
      → ((fd : ℕ) → mem fd fds ≡ true → listening fd ≡ false)
      → Sound listening w
      → (v : World) × (clear_fds fds w ≡ next v) × Cleared fds w v
  unfolding clear_fds
  clear_fds-Cleared [] w accepted s = (
    w,
    refl,
    record {
      sound = s;
      same_fds = refl;
      emptied = λ f inside. absurd cc;
      kept = λ f outside. refl;
      deleted = λ f i inside there. absurd cc;
      gone = λ i gone. gone;
    },
  )
  clear_fds-Cleared (fd ∷ fds) w accepted s =
      let (x, first, here) = clear_fd-Cleared fd w (accepted fd (rw (==-refl fd) refl)) s in
      let (v, rest, later) =
        clear_fds-Cleared fds x (λ f inside. accepted f (mem-behind fd f fds inside)) here.sound in
      (v, rw (first, clear_fds) rest, Cleared-join fd fds w x v here later)

  -- In a server whose memory is sound, clearUdata follows no pointer that is NULL or freed, and keeps
  -- the invariant; afterwards no socket waits to be closed, those that did have no data left, and the
  -- others keep theirs; the data of those that did is deleted.
  pub clear_udata-Cleared :
      (w : World)
      → Sound listening w
      → (v : World) × (clear_udata w ≡ next v)
        × (v.fd_set ≡ [])
        × Sound listening v
        × ((fd : ℕ) → mem fd w.fd_set ≡ true → ids_of (v.udata_map fd) ≡ [])
        × ((fd : ℕ) → mem fd w.fd_set ≡ false → v.udata_map fd ≡ w.udata_map fd)
        × ((fd id : ℕ)
            → mem fd w.fd_set ≡ true
            → mem id (ids_of (w.udata_map fd)) ≡ true
            → v.heap id ≡ none)
  unfolding clear_udata
  clear_udata-Cleared w s =
      let (x, runs, cleared) = clear_fds-Cleared w.fd_set w s.doomed s in
      let t = cleared.sound in
      (
        record x { fd_set = [] },
        ap (λ o. bind_outcome o (λ v. next (record v { fd_set = [] }))) runs,
        refl,
        record {
          formed = t.formed;
          unused = t.unused;
          mapped = t.mapped;
          once = t.once;
          doomed = λ fd inside. absurd cc;
        },
        cleared.emptied,
        cleared.kept,
        cleared.deleted,
      )
