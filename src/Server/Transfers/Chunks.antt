-- ===== src/Server/Transfers/Chunks.antt =====
-- A file that is read in pieces (staticFileReadEvent, src/Server/event/static_file.cpp).
use create_httpserver_from_b.Common.{
  ℕ, ◌<◌, ◌≡◌, ◌∙◌, refl, sym, ap, ◌⊎◌, inl, inr, true, false, List, [], ◌∷◌, ◌++◌, append_assoc,
  append-nil, none, some, Bytes, ◌==◌, length, length-append, Bool-cases, arith,
}
use create_httpserver_from_b.Message.{Request, Response}
use create_httpserver_from_b.Server.{
  Kevent, Udata, World, Outcome, next, dangling, aborted, bind_outcome, Kernel, set_udata,
  deref_messages, at,
}
use create_httpserver_from_b.Server.Events.{respond, respond_to}
use create_httpserver_from_b.Server.Sound.Memory.{at-here, deref-eq}
use create_httpserver_from_b.Server.Transfers.{after_read, read_file, static_file_read_event}

abbrev pub concat : List Bytes → Bytes
concat [] = []
concat (b ∷ bs) = b ++ concat bs

abbrev pub reading : Kernel → Bytes → Kernel
reading k chunk = record k { read = some chunk }

-- Read events of the file, one for each piece
pub read_pieces : Kernel → Kevent → List Bytes → World → Outcome
read_pieces k e [] w = next w
read_pieces k e (c ∷ cs) w =
    bind_outcome (static_file_read_event (reading k c) e w) (read_pieces k e cs)

abbrev pub NonEmpty : List Bytes → Type 0
NonEmpty [] = Unit {0}
NonEmpty (c ∷ cs) = (0 < length c) × NonEmpty cs

at-at {ℓ} : {A : Type ℓ} (i : ℕ) (a b : A) (f : ℕ → A) → at i b (at i a f) ≡ at i b f
at-at i a b f t j = same j (Bool-cases (j == i)) t
  where
    same : (j : ℕ) → ((j == i) ≡ true) ⊎ ((j == i) ≡ false) → at i b (at i a f) j ≡ at i b f j
    same j (inl e) = rw e refl
    same j (inr e) = rw e refl

set_udata-twice :
    (id : ℕ) (u v : Udata) (w : World) → set_udata id v (set_udata id u w) ≡ set_udata id v w
set_udata-twice id u v w = ap (λ heap. record w { heap = heap }) (at-at id (some u) (some v) w.heap)

bind_outcome-next : (o : Outcome) → bind_outcome o (λ w. next w) ≡ o
bind_outcome-next (next w) = refl
bind_outcome-next dangling = refl
bind_outcome-next aborted = refl

pub deref_messages-eq :
    (u : Udata) (q : Request) (r : Response) (f : Request → Response → Outcome)
    → u.m_request ≡ some q
    → u.m_response ≡ some r
    → deref_messages u f ≡ f q r
deref_messages-eq u q r f request response =
    ap
      (λ o. elim o [
        | none ↦ dangling
        | some q' ↦ elim u.m_response [ none ↦ dangling | some r' ↦ f q' r' ]
      ])
      request
    ∙ ap (λ o. elim o [ none ↦ dangling | some r' ↦ f q r' ]) response

module _ (k : Kernel) (e : Kevent) (id : ℕ) (at_id : e.udata ≡ some id) where
  static_file_read_event-eq :
      (c : Bytes) (u : Udata) (q : Request) (r : Response) (w : World)
      → w.heap id ≡ some u
      → u.m_request ≡ some q
      → u.m_response ≡ some r
      → static_file_read_event (reading k c) e w ≡ read_file (reading k c) e id u q r w
  unfolding static_file_read_event
  static_file_read_event-eq c u q r w here request response =
      deref-eq w e.udata id u
        (λ i v. deref_messages v (λ q' r'. read_file (reading k c) e i v q' r' w)) at_id here
      ∙ deref_messages-eq u q r (λ q' r'. read_file (reading k c) e id u q' r' w) request response

  -- A piece that does not complete the file is kept.
  grown : Udata → Response → Bytes → Udata
  grown u r c = record u { m_response = some (record r { body = r.body ++ c }) }

  read_file-partly :
      (c : Bytes) (u : Udata) (q : Request) (r : Response) (w : World)
      → length (r.body ++ c) < r.static_read_file_size
      → read_file (reading k c) e id u q r w ≡ next (set_udata id (grown u r c) w)
  unfolding read_file after_read grown
  read_file-partly c u q r w short =
      let apart : (length (r.body ++ c) == r.static_read_file_size) ≡ false = ground arith in
      rw (apart, read_file, after_read) refl

  after_read-any :
      (c d : Bytes) (u : Udata) (q : Request) (r : Response) (w : World)
      → after_read (reading k c) e id u q r w ≡ after_read (reading k d) e id u q r w
  unfolding after_read respond_to respond
  after_read-any c d u q r w = refl

  -- Reading on after a piece is reading more.
  read_file-grown :
      (c d : Bytes) (u : Udata) (q : Request) (r : Response) (w : World)
      → read_file
          (reading k d)
          e
          id
          (grown u r c)
          q
          (record r { body = r.body ++ c })
          (set_udata id (grown u r c) w)
        ≡ read_file (reading k (c ++ d)) e id u q r w
  unfolding read_file after_read grown
  read_file-grown c d u q r w =
      let here : Bytes → Udata =
        λ body. record u { m_response = some (record r { body = body }) } in
      let then_after : Bytes → World → Outcome =
        λ body. after_read (reading k d) e id (here body) q (record r { body = body }) in
      ap (λ body. then_after body (set_udata id (here body) (set_udata id (grown u r c) w)))
        (append_assoc r.body c d)
      ∙ (ap (then_after (r.body ++ (c ++ d)))
            (set_udata-twice id (grown u r c) (here (r.body ++ (c ++ d))) w)
          ∙ after_read-any d (c ++ d) (here (r.body ++ (c ++ d))) q
              (record r { body = r.body ++ (c ++ d) }) (set_udata id (here (r.body ++ (c ++ d))) w))

  -- Reading a file in any pieces that have bytes, and that are the rest of the file, does the same as
  -- reading the rest at once.
  pub read_pieces-concat :
      (c : Bytes) (cs : List Bytes) (u : Udata) (q : Request) (r : Response) (w : World)
      → w.heap id ≡ some u
      → u.m_request ≡ some q
      → u.m_response ≡ some r
      → NonEmpty (c ∷ cs)
      → r.static_read_file_size ≡ length (r.body ++ concat (c ∷ cs))
      → read_pieces k e (c ∷ cs) w ≡ static_file_read_event (reading k (concat (c ∷ cs))) e w
  unfolding read_pieces grown
  read_pieces-concat c [] u q r w here request response some_bytes size =
      bind_outcome-next (static_file_read_event (reading k c) e w)
      ∙ ap (λ b. static_file_read_event (reading k b) e w) (sym (append-nil c))
  read_pieces-concat c (d ∷ ds) u q r w here request response (one, more) size =
      let r' : Response = record r { body = r.body ++ c } in
      let w' = set_udata id (grown u r c) w in
      let left = d ++ concat ds in
      let whole : r.static_read_file_size ≡ length ((r.body ++ c) ++ left) =
        size ∙ ap length (sym (append_assoc r.body c left)) in
      let short : length (r.body ++ c) < r.static_read_file_size =
        omega
          (arith, whole, length-append (r.body ++ c) left, length-append d (concat ds), more.0) in
      let first =
        static_file_read_event-eq c u q r w here request response
        ∙ read_file-partly c u q r w short in
      let rest =
        read_pieces-concat d ds (grown u r c) q r' w' (at-here id (some (grown u r c)) w.heap)
          request refl more whole in
      ap (λ o. bind_outcome o (read_pieces k e (d ∷ ds))) first
      ∙ (rest
          ∙ (static_file_read_event-eq (concat (d ∷ ds)) (grown u r c) q r' w'
                (at-here id (some (grown u r c)) w.heap) request refl
              ∙ (read_file-grown c (concat (d ∷ ds)) u q r w
                  ∙ sym (
                      static_file_read_event-eq (concat (c ∷ d ∷ ds)) u q r w here request
                        response))))
