-- ===== src/Server/Events/Delivery.antt =====
-- A response goes out over the socket (clientWriteEvent, src/Server/event/client.cpp).
use create_httpserver_from_b.Common.{
  ℕ, zero, suc, ◌+◌, ◌-◌, ◌≤◌, ◌<◌, ◌≡◌, ◌∙◌, refl, sym, ap, inl, inr, Bool, true, false, List, [],
  ◌∷◌, ◌++◌, append_assoc, none, some, ltb, length, take, drop, take-append-drop, length-drop,
  take_all, if◌then◌else◌, Bool-cases, arith,
}
use create_httpserver_from_b.Server.{
  evfilt_write, Kevent, ev_delete, Udata, sent, World, Outcome, next, bind_outcome, Kernel,
  add_change, act, set_udata, free_udata, remove_udata,
}
use create_httpserver_from_b.Server.Events.{write_client, client_write_event}
use create_httpserver_from_b.Server.Output.{sent_on, sent_on-snoc}
use create_httpserver_from_b.Server.Sound.Memory.{at-here, deref-eq}

drop-nil {ℓ} : {A : Type ℓ} (n : ℕ) → drop {A = A} n [] ≡ []
drop-nil zero = refl
drop-nil (suc n) = refl

pub drop-drop {ℓ} : {A : Type ℓ} (k o : ℕ) (xs : List A) → drop k (drop o xs) ≡ drop (o + k) xs
drop-drop k zero xs = ground arith
drop-drop k (suc o) [] = drop-nil k ∙ sym (drop-nil (suc o + k))
drop-drop k (suc o) (x ∷ xs) =
    let e : suc o + k ≡ suc (o + k) = omega arith in rw e (drop-drop k o xs)

-- The socket takes `accept n count` of `count` bytes, with `n` events to come.
abbrev pub accepting : Kernel → (ℕ → ℕ → ℕ) → ℕ → Kernel
accepting k accept n = record k { write = λ count. some (accept n count) }

-- Write events of the socket, until the data of the response is deleted
pub deliver : Kernel → (ℕ → ℕ → ℕ) → ℕ → Kevent → ℕ → World → Outcome
deliver k accept zero e id w = next w
deliver k accept (suc n) e id w = elim (w.heap id) [
  | none ↦ next w
  | some u ↦ bind_outcome (client_write_event (accepting k accept n) e w) (deliver k accept n e id)
]

module _ (k : Kernel) (e : Kevent) (id : ℕ) (at_id : e.udata ≡ some id) (opened : e.ev_eof ≡ false)
    (accept : ℕ → ℕ → ℕ)
    (takes : (n count : ℕ) → (accept n count ≤ count) × (0 < count → 0 < accept n count)) where
  next-if : (b : Bool) (v w : World) → (if b then next v else next w) ≡ next (if b then v else w)
  next-if true v w = refl
  next-if false v w = refl

  -- One write event: how many bytes it takes, and the two ways that it ends
  took : ℕ → Udata → ℕ
  took n u = accept n (u.m_response_write.length - u.m_response_write.offset)

  logged : ℕ → Udata → World → World
  logged n u w =
      let out = u.m_response_write in
      act (sent e.ident (take (took n u) (drop out.offset out.message))) w

  moved : ℕ → Udata → Udata
  moved n u =
      let out = u.m_response_write in
      record u { m_response_write = record out { offset = out.offset + took n u } }

  finished : World → World
  finished w =
      free_udata id (remove_udata e.ident id (add_change (ev_delete e.ident evfilt_write) w))

  client_write_event-step :
      (n : ℕ) (u : Udata) (w : World)
      → w.heap id ≡ some u
      → client_write_event (accepting k accept n) e w
        ≡ next (
            if ltb (u.m_response_write.offset + took n u) u.m_response_write.length
            then set_udata id (moved n u) (logged n u w)
            else finished (logged n u w))
  unfolding client_write_event write_client took logged moved finished
  client_write_event-step n u w here =
      deref-eq w e.udata id u (λ i v. write_client (accepting k accept n) e i v w) at_id here
      ∙ rw opened (
          next-if (ltb (u.m_response_write.offset + took n u) u.m_response_write.length)
            (set_udata id (moved n u) (logged n u w)) (finished (logged n u w)))

  sent_on-logged :
      (n : ℕ) (u : Udata) (w : World)
      → sent_on e.ident (logged n u w).actions
        ≡ sent_on e.ident w.actions
          ++ take (took n u) (drop u.m_response_write.offset u.m_response_write.message)
  unfolding logged
  sent_on-logged n u w =
      sent_on-snoc e.ident w.actions
        (take (took n u) (drop u.m_response_write.offset u.m_response_write.message))

  deliver-done : (n : ℕ) (w : World) → w.heap id ≡ none → deliver k accept n e id w ≡ next w
  unfolding deliver
  deliver-done zero w gone = refl
  deliver-done (suc n) w gone = rw (gone, deliver) refl

  deliver-step :
      (n : ℕ) (u : Udata) (w : World) (b : Bool)
      → w.heap id ≡ some u
      → ltb (u.m_response_write.offset + took n u) u.m_response_write.length ≡ b
      → deliver k accept (suc n) e id w
        ≡ deliver k accept n e id
            (if b then set_udata id (moved n u) (logged n u w) else finished (logged n u w))
  unfolding deliver
  deliver-step n u w b here test =
      let run : deliver k accept (suc n) e id w
          ≡ bind_outcome (client_write_event (accepting k accept n) e w) (deliver k accept n e id) =
        rw (here, deliver) refl in
      run
      ∙ ap (λ o. bind_outcome o (deliver k accept n e id))
          (client_write_event-step n u w here
            ∙ ap
                (λ c.
                  next (
                    if c then set_udata id (moved n u) (logged n u w) else finished (logged n u w)))
                test)

  took-bounds :
      (n : ℕ) (u : Udata)
      → (took n u ≤ u.m_response_write.length - u.m_response_write.offset)
        × (0 < u.m_response_write.length - u.m_response_write.offset → 0 < took n u)
  unfolding took
  took-bounds n u = takes n (u.m_response_write.length - u.m_response_write.offset)

  deliver-from :
      (n : ℕ) (u : Udata) (w : World)
      → w.heap id ≡ some u
      → u.m_response_write.length ≡ length u.m_response_write.message
      → u.m_response_write.offset ≤ u.m_response_write.length
      → u.m_response_write.length ≤ u.m_response_write.offset + n
      → 0 < n
      → (v : World) × (deliver k accept n e id w ≡ next v)
        × (v.heap id ≡ none)
        × (sent_on e.ident v.actions
            ≡ sent_on e.ident w.actions
              ++ drop u.m_response_write.offset u.m_response_write.message)
  unfolding moved finished logged remove_udata
  deliver-from zero u w here whole below enough some_left = absurd (omega arith)
  deliver-from (suc n) u w here whole below enough some_left =
      let out = u.m_response_write in
      let t = took n u in
      let (at_most, positive) = took-bounds n u in
      let rest = drop out.offset out.message in
      elim (Bool-cases (ltb (out.offset + t) out.length)) [
        | inl more ↦
            let room : out.offset + t < out.length = ground arith in
            let one : 0 < t = positive (omega arith) in
            let (v, runs, gone, bytes) =
              deliver-from n (moved n u) (set_udata id (moved n u) (logged n u w))
                (at-here id (some (moved n u)) w.heap) whole (omega arith) (omega arith)
                (omega arith) in
            (
              v,
              deliver-step n u w true here more ∙ runs,
              gone,
              bytes
                  ∙ (ap (λ s. s ++ drop (out.offset + t) out.message) (sent_on-logged n u w)
                      ∙ (append_assoc (sent_on e.ident w.actions) (take t rest)
                            (drop (out.offset + t) out.message)
                          ∙ ap (λ s. sent_on e.ident w.actions ++ s)
                              (ap (λ s. take t rest ++ s) (sym (drop-drop t out.offset out.message))
                                ∙ take-append-drop t rest))),
            )
        | inr done ↦
            let covered : out.length ≤ out.offset + t = ground arith in
            let gone = at-here id none w.heap in
            (
              finished (logged n u w),
              deliver-step n u w false here done ∙ deliver-done n (finished (logged n u w)) gone,
              gone,
              sent_on-logged n u w
                  ∙ ap (λ s. sent_on e.ident w.actions ++ s)
                      (take_all t rest (omega (arith, length-drop out.offset out.message))),
            )
      ]

  -- A response that is ready, of n bytes with n positive, is sent by at most n write events if each
  -- takes a part of what it is given, and takes at least one byte if it is given any: the bytes that
  -- were sent on the socket are then those of the whole message, each once and in their order, and
  -- the data of the response is deleted.
  pub deliver-all :
      (u : Udata) (w : World)
      → w.heap id ≡ some u
      → u.m_response_write ≡ record {
        message = u.m_response_write.message;
        length = length u.m_response_write.message;
        offset = 0;
      }
      → 0 < length u.m_response_write.message
      → (v : World) × (deliver k accept (length u.m_response_write.message) e id w ≡ next v)
        × (v.heap id ≡ none)
        × (sent_on e.ident v.actions ≡ sent_on e.ident w.actions ++ u.m_response_write.message)
  deliver-all u w here ready some_left =
      let whole = ap (λ out. out.length) ready in
      let start = ap (λ out. out.offset) ready in
      let (v, runs, gone, bytes) =
        deliver-from (length u.m_response_write.message) u w here whole (omega arith) (omega arith)
          some_left in
      (
        v,
        runs,
        gone,
        bytes ∙ ap (λ n. sent_on e.ident w.actions ++ drop n u.m_response_write.message) start,
      )
