-- ===== src/Server/Output.antt =====
-- The bytes that the handlers of src/Server/event have written to a descriptor, in their order.
use create_httpserver_from_b.Common.{
  ℕ, ◌≡◌, ◌∙◌, sym, ap, List, [], ◌∷◌, ◌++◌, append_assoc, append-nil, Bytes, ◌==◌, if◌then◌else◌,
}
use create_httpserver_from_b.Server.{Action, sent, stored}
use create_httpserver_from_b.Server.Sound.Memory.{==-refl}

abbrev pub outputs : (Action → Bytes) → List Action → Bytes
outputs f [] = []
outputs f (a ∷ log) = f a ++ outputs f log

outputs-snoc :
    (f : Action → Bytes) (log : List Action) (a : Action)
    → outputs f (log ++ a ∷ []) ≡ outputs f log ++ f a
outputs-snoc f [] a = append-nil (f a)
outputs-snoc f (b ∷ log) a =
    ap (λ s. f b ++ s) (outputs-snoc f log a) ∙ sym (append_assoc (f b) (outputs f log) (f a))

abbrev pub sent_part : ℕ → Action → Bytes
sent_part fd (sent n b) = if n == fd then b else []
sent_part fd _ = []

abbrev pub stored_part : ℕ → Action → Bytes
stored_part fd (stored n b) = if n == fd then b else []
stored_part fd _ = []

-- What was sent on a socket, and what was written to a file or a pipe
abbrev pub sent_on : ℕ → List Action → Bytes
sent_on fd = outputs (sent_part fd)

abbrev pub stored_on : ℕ → List Action → Bytes
stored_on fd = outputs (stored_part fd)

pub sent_on-snoc :
    (fd : ℕ) (log : List Action) (b : Bytes)
    → sent_on fd (log ++ sent fd b ∷ []) ≡ sent_on fd log ++ b
sent_on-snoc fd log b =
    outputs-snoc (sent_part fd) log (sent fd b)
    ∙ ap (λ c. sent_on fd log ++ (if c then b else [])) (==-refl fd)

pub stored_on-snoc :
    (fd : ℕ) (log : List Action) (b : Bytes)
    → stored_on fd (log ++ stored fd b ∷ []) ≡ stored_on fd log ++ b
stored_on-snoc fd log b =
    outputs-snoc (stored_part fd) log (stored fd b)
    ∙ ap (λ c. stored_on fd log ++ (if c then b else [])) (==-refl fd)

-- An action that writes nothing to a file or a pipe
pub stored_on-quiet :
    (fd : ℕ) (log : List Action) (a : Action)
    → stored_part fd a ≡ []
    → stored_on fd (log ++ a ∷ []) ≡ stored_on fd log
stored_on-quiet fd log a quiet =
    outputs-snoc (stored_part fd) log a
    ∙ (ap (λ s. stored_on fd log ++ s) quiet ∙ append-nil (stored_on fd log))
