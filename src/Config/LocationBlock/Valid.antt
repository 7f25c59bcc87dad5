-- ===== src/Config/LocationBlock/Valid.antt =====
-- What holds of a location that the parser of the configuration file accepts.
use create_httpserver_from_b.Common.{
  ℕ, ◌≤◌, ◌≡◌, ◌⊎◌, inl, inr, refl, Bool, true, false, not, ◌&&◌, List, [], ◌∷◌, Bytes, codes,
  length, ◌==◌, if◌then◌else◌, empty?, eq_bytes, Bool-cases, arith,
}
use create_httpserver_from_b.Common.Decimal.{atol, is_positive}
use create_httpserver_from_b.Utils.{ft_config_split}
use create_httpserver_from_b.Config.{Location}
use create_httpserver_from_b.Config.Loaded.{
  Loaded, done, exited, undefined, stuck, bind_loaded, ContentListType, insert_new, value_of,
  is_vaild_server_block_content, is_vaild_location_block,
}
use create_httpserver_from_b.Config.LocationBlock.{
  location_words, location_lines, location_of, close_location, get_location_expand,
}

-- A root and methods, and a size limit that is a positive number or the one that is inherited.
pub record ValidLocation (inherits : Bytes) (l : Location) : Type 0 where
  pub root : empty? l.root ≡ false
  pub methods : empty? l.accepted_method ≡ false
  pub limit : (l.max_body_size ≡ inherits) ⊎ (is_positive (atol l.max_body_size) ≡ true)

-- What a result says: at least as many lines are gone, and the value has a property. The fuel
-- never runs out.
abbrev pub Gives {ℓ} : {A : Type ℓ} → ℕ → (A → Type 0) → Loaded A → Type 0
Gives n P (done a rest) = P a × (length rest ≤ n)
Gives n P exited = Unit {0}
Gives n P undefined = Unit {0}
Gives n P stuck = ⊥

pub Gives-at_most {ℓ} :
    {A : Type ℓ} (P : A → Type 0) (k n : ℕ) (r : Loaded A) → k ≤ n → Gives k P r → Gives n P r
Gives-at_most P k n (done a rest) h (p, shorter) = (p, omega arith)
Gives-at_most P k n exited h g = tt
Gives-at_most P k n undefined h g = tt
Gives-at_most P k n stuck h g = g

location_words-Gives :
    (list : ContentListType) (ws : List Bytes) (m : List (Bytes × Bytes)) (rest : List Bytes)
    (next : List (Bytes × Bytes) → Loaded (List (Bytes × Bytes))) (n : ℕ)
    → length rest ≤ n
    → ((m' : List (Bytes × Bytes)) → Gives n (λ _. Unit {0}) (next m'))
    → Gives n (λ _. Unit {0}) (location_words list ws m rest next)
unfolding location_words
location_words-Gives list [] m rest next n h k = tt
location_words-Gives list (w ∷ []) m rest next n h k = branch (eq_bytes w (codes "}"))
  where
    branch : (b : Bool) → Gives n (λ _. Unit {0}) (if b then done m rest else exited)
    branch true = (tt, h)
    branch false = tt
location_words-Gives list (w ∷ (v ∷ [])) m rest next n h k =
    branch (eq_bytes w (codes "}")) (is_vaild_server_block_content w list)
  where
    branch :
        (b c : Bool)
        → Gives n
            (λ _. Unit {0})
            (if b then done m rest else if c then exited else next (insert_new w v m))
    branch true c = (tt, h)
    branch false true = tt
    branch false false = k (insert_new w v m)
location_words-Gives list (w ∷ (v ∷ (u ∷ us))) m rest next n h k = branch (eq_bytes w (codes "}"))
  where
    branch : (b : Bool) → Gives n (λ _. Unit {0}) (if b then done m rest else exited)
    branch true = (tt, h)
    branch false = tt

location_lines-Gives :
    (list : ContentListType) (lines : List Bytes) (m : List (Bytes × Bytes)) (n : ℕ)
    → length lines ≤ n
    → Gives n (λ _. Unit {0}) (location_lines list lines m)
unfolding location_lines
location_lines-Gives list [] m n h = (tt, h)
location_lines-Gives list (line ∷ rest) m n h =
    location_words-Gives list (ft_config_split line) m rest (location_lines list rest) n
      (omega arith) (λ m'. location_lines-Gives list rest m' n (omega arith))

close_location-Gives :
    (max : Bytes) (m : List (Bytes × Bytes)) (rest : List Bytes) (n : ℕ)
    → length rest ≤ n
    → Gives n (ValidLocation max) (close_location max m rest)
unfolding close_location location_of is_vaild_location_block
close_location-Gives max m rest n h =
    let own = value_of (codes "max_body_size") m in
    elim (Bool-cases (not (empty? own) && not (is_positive (atol own)))) [
      | inl bad ↦ rw (bad, close_location) tt
      | inr fine ↦ elim (Bool-cases (is_vaild_location_block (location_of m max))) [
        | inl bad ↦ rw (fine, bad, close_location) tt
        | inr good ↦
            rw (fine, good, close_location)
              (record { root = ground arith; methods = ground arith; limit = limited own fine }, h)
      ]
    ]
  where
    limited :
        (own : Bytes)
        → (not (empty? own) && not (is_positive (atol own))) ≡ false
        → ((if empty? own then max else own) ≡ max)
          ⊎ (is_positive (atol (if empty? own then max else own)) ≡ true)
    limited [] e = inl refl
    limited (c ∷ s) e = inr (ground arith)

pub get_location_expand-Gives :
    (list : ContentListType) (size : ℕ) (max : Bytes) (lines : List Bytes)
    → Gives (length lines) (ValidLocation max) (get_location_expand list size max lines)
unfolding get_location_expand
get_location_expand-Gives list size max lines = sized (not (size == 3))
  where
    closed :
        (r : Loaded (List (Bytes × Bytes)))
        → Gives (length lines) (λ _. Unit {0}) r
        → Gives (length lines) (ValidLocation max) (bind_loaded r (close_location max))
    closed (done m rest) (_, h) = close_location-Gives max m rest (length lines) h
    closed exited h = tt
    closed undefined h = tt
    closed stuck h = h

    sized :
        (b : Bool)
        → Gives
            (length lines)
            (ValidLocation max)
            (if b then exited else bind_loaded (location_lines list lines []) (close_location max))
    sized true = tt
    sized false =
        closed (location_lines list lines [])
          (location_lines-Gives list lines [] (length lines) (omega arith))
