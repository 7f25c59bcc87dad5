-- ===== src/Exchange/World.antt =====
-- What a handler writes to the file system, whichever way it ends.
use create_httpserver_from_b.Common.{
  Bool, true, false, if◌then◌else◌, ◌≡◌, ◌∙◌, refl, ap, List, [], ◌∷◌, ◌++◌, append-nil,
}
use create_httpserver_from_b.Exchange.{
  Effect, opened_read, opened_truncate, opened_append, removed, closed, forked, Exchange, Exec,
  returned, threw, aborted, M, bind_exec,
}

abbrev pub world {ℓ} : {A : Type ℓ} → Exec A → List Effect
world (returned a x) = x.effects
world (threw code x) = x.effects
world (aborted x) = x.effects

-- The effects that create, change or remove a file
abbrev pub writes : List Effect → List Effect
writes [] = []
writes (opened_read p ∷ es) = writes es
writes (opened_truncate p ∷ es) = opened_truncate p ∷ writes es
writes (opened_append p ∷ es) = opened_append p ∷ writes es
writes (removed p ∷ es) = removed p ∷ writes es
writes (closed fd ∷ es) = writes es
writes (forked pid ∷ es) = writes es

pub writes-append : (a b : List Effect) → writes (a ++ b) ≡ writes a ++ writes b
writes-append [] b = refl
writes-append (opened_read p ∷ a) b = writes-append a b
writes-append (opened_truncate p ∷ a) b = ap (λ es. opened_truncate p ∷ es) (writes-append a b)
writes-append (opened_append p ∷ a) b = ap (λ es. opened_append p ∷ es) (writes-append a b)
writes-append (removed p ∷ a) b = ap (λ es. removed p ∷ es) (writes-append a b)
writes-append (closed fd ∷ a) b = writes-append a b
writes-append (forked pid ∷ a) b = writes-append a b

-- An effect that writes nothing, at the end
pub writes-quiet :
    (a : List Effect) (e : Effect) → writes (e ∷ []) ≡ [] → writes (a ++ e ∷ []) ≡ writes a
writes-quiet a e quiet =
    writes-append a (e ∷ []) ∙ ap (λ es. writes a ++ es) quiet ∙ append-nil (writes a)

-- Nothing is written.
pub record Keeps {ℓ} {A : Type ℓ} (x : Exchange) (e : Exec A) : Type 0 where
  pub kept : writes (world e) ≡ writes x.effects

pub bind_exec-Keeps {ℓ κ} :
    {A : Type ℓ} {B : Type κ} (x : Exchange) (e : Exec A) (f : A → M B)
    → Keeps x e
    → ((a : A) (y : Exchange) → Keeps y (f a y))
    → Keeps x (bind_exec e f)
bind_exec-Keeps x (returned a y) f h k = record { kept = (k a y).kept ∙ h.kept }
bind_exec-Keeps x (threw code y) f h k = record { kept = h.kept }
bind_exec-Keeps x (aborted y) f h k = record { kept = h.kept }

pub if-Keeps {ℓ} :
    {A : Type ℓ} (b : Bool) (m n : M A) (x : Exchange)
    → Keeps x (m x)
    → Keeps x (n x)
    → Keeps x ((if b then m else n) x)
if-Keeps true m n x h k = h
if-Keeps false m n x h k = k

pub branch-Keeps {ℓ} :
    {A : Type ℓ} (b : Bool) (d e : Exec A) (x : Exchange)
    → Keeps x d
    → Keeps x e
    → Keeps x (if b then d else e)
branch-Keeps true d e x h k = h
branch-Keeps false d e x h k = k
