-- ===== src/Config/Every.antt =====
-- The values of a map of the configuration, and what insertion does to them.
use create_httpserver_from_b.Common.{
  ◌≡◌, ◌∙◌, refl, sym, inl, inr, Bool, true, false, List, [], ◌∷◌, some, Bytes, if◌then◌else◌,
  is_some, eq_bytes, eq_bytes_iff, lookup, put, lookup-put, Bool-cases,
}
use create_httpserver_from_b.Config.Loaded.{insert_new}

module _ {V : Type 0} where
  -- Every value of the map has the property.
  abbrev pub Every : (V → Type 0) → List (Bytes × V) → Type 0
  Every P [] = Unit {0}
  Every P ((k, v) ∷ m) = P v × Every P m

module _ {V : Type 0} where
  pub Every-map :
      (P Q : V → Type 0) (m : List (Bytes × V)) → ((v : V) → P v → Q v) → Every P m → Every Q m
  Every-map P Q [] f h = tt
  Every-map P Q ((k, v) ∷ m) f (h, hs) = (f v h, Every-map P Q m f hs)

  put-Every :
      (P : V → Type 0) (k : Bytes) (v : V) (m : List (Bytes × V))
      → P v
      → Every P m
      → Every P (put k v m)
  unfolding put
  put-Every P k v [] h hs = (h, tt)
  put-Every P k v ((j, w) ∷ m) h (hw, hs) = branch (eq_bytes j k) (put-Every P k v m h hs)
    where
      branch :
          (b : Bool) → Every P (put k v m) → Every P (if b then (j, v) ∷ m else (j, w) ∷ put k v m)
      branch true put_there = (h, hs)
      branch false put_there = (hw, put_there)

  pub insert_new-Every :
      (P : V → Type 0) (k : Bytes) (v : V) (m : List (Bytes × V))
      → P v
      → Every P m
      → Every P (insert_new k v m)
  unfolding insert_new
  insert_new-Every P k v m h hs = branch (is_some (lookup k m))
    where
      branch : (b : Bool) → Every P (if b then m else put k v m)
      branch true = hs
      branch false = put-Every P k v m h hs

  -- A value that is there stays.
  pub lookup-insert_new :
      (k j : Bytes) (v w : V) (m : List (Bytes × V))
      → lookup k m ≡ some v
      → lookup k (insert_new j w m) ≡ some v
  unfolding insert_new
  lookup-insert_new k j v w m here = elim (Bool-cases (is_some (lookup j m))) [
    | inl there ↦ rw (there, insert_new) here
    | inr absent ↦
        rw (absent, insert_new)
          (elim (Bool-cases (eq_bytes j k)) [
            | inl same ↦
                let e = (eq_bytes_iff j k).0 same in
                let found : is_some (lookup j m) ≡ true = rw e (rw here refl) in
                let clash : true ≡ false = sym found ∙ absent in cc
            | inr other ↦ lookup-put j k w m ∙ rw other here
          ])
  ]
