-- ===== src/Server/Sound/Memory.antt =====
-- What `new` and `delete` of a connection's data do to the invariant (src/Server/event/udata.cpp).
use mathlib.Core.Path.{subst}
use create_httpserver_from_b.Common.{
  ℕ, ◌+◌, ◌≤◌, ◌≡◌, ◌∙◌, refl, sym, ap, ◌⊎◌, inl, inr, Bool, true, false, List, [], ◌∷◌, Option,
  none, some, ◌==◌, ==_iff, if◌then◌else◌, Bool-cases, arith,
}
use create_httpserver_from_b.Server.{
  Udata, World, Outcome, deref, mem, insert, erase, at, ids_of, add_udata_map, allocate,
}
use create_httpserver_from_b.Server.Sound.{NoDup, WellFormed, Home, Filed, Sound}

pub ==-refl : (n : ℕ) → (n == n) ≡ true
==-refl n = ground arith

pub at-here {ℓ} : {A : Type ℓ} (i : ℕ) (a : A) (f : ℕ → A) → at i a f i ≡ a
at-here i a f = rw (==-refl i) refl

-- A pointer to what is there is followed.
pub deref-eq :
    (w : World) (o : Option ℕ) (id : ℕ) (u : Udata) (f : ℕ → Udata → Outcome)
    → o ≡ some id
    → w.heap id ≡ some u
    → deref w o f ≡ f id u
deref-eq w o id u f at_id here = rw (at_id, here) refl

pub mem-erase : (n m : ℕ) (ns : List ℕ) → mem m (erase n ns) ≡ true → mem m ns ≡ true
mem-erase n m [] h = h
mem-erase n m (k ∷ ns) h = elim (Bool-cases (k == m)) [
  | inl same ↦ rw same refl
  | inr other ↦ rw other (elim (Bool-cases (k == n)) [
    | inl first ↦ subst (λ b. mem m (if b then ns else k ∷ erase n ns) ≡ true) first h
    | inr later ↦ mem-erase n m ns (
        subst (λ b. (if b then true else mem m (erase n ns)) ≡ true) other
          (subst (λ b. mem m (if b then ns else k ∷ erase n ns) ≡ true) later h))
  ])
]

mem-erase_absent : (n m : ℕ) (ns : List ℕ) → mem m ns ≡ false → mem m (erase n ns) ≡ false
mem-erase_absent n m ns absent = elim (Bool-cases (mem m (erase n ns))) [
  | inl there ↦ let clash : true ≡ false = sym (mem-erase n m ns there) ∙ absent in cc
  | inr gone ↦ gone
]

pub erase-NoDup :
    (n : ℕ) (ns : List ℕ) → NoDup ns → NoDup (erase n ns) × (mem n (erase n ns) ≡ false)
erase-NoDup n [] h = (tt, refl)
erase-NoDup n (k ∷ ns) (absent, h) = elim (Bool-cases (k == n)) [
  | inl first ↦
      let same = (==_iff k n).0 first in rw first (h, subst (λ m. mem m ns ≡ false) same absent)
  | inr later ↦
      let (rest, gone) = erase-NoDup n ns h in
      rw later ((mem-erase_absent n k ns absent, rest), rw later gone)
]

insert-NoDup : (n : ℕ) (ns : List ℕ) → NoDup ns → NoDup (insert n ns)
insert-NoDup n ns h = elim (Bool-cases (mem n ns)) [
  | inl there ↦ rw there h
  | inr absent ↦ rw absent (absent, h)
]

-- A set that was made bigger has the new member, and the old ones.
mem-insert : (n m : ℕ) (ns : List ℕ) → mem m (insert n ns) ≡ true → (m ≡ n) ⊎ (mem m ns ≡ true)
mem-insert n m ns h = elim (Bool-cases (mem n ns)) [
  | inl there ↦ inr (subst (λ b. mem m (if b then ns else n ∷ ns) ≡ true) there h)
  | inr absent ↦
      front (Bool-cases (n == m)) (subst (λ b. mem m (if b then ns else n ∷ ns) ≡ true) absent h)
]
  where
    front :
        ((n == m) ≡ true) ⊎ ((n == m) ≡ false)
        → (if n == m then true else mem m ns) ≡ true
        → (m ≡ n) ⊎ (mem m ns ≡ true)
    front (inl e) h = inl (sym ((==_iff n m).0 e))
    front (inr e) h = inr (subst (λ b. (if b then true else mem m ns) ≡ true) e h)

module _ (listening : ℕ → Bool) where
  -- `new` and addUdataMap
  pub allocate-Sound :
      (fd : ℕ) (u : Udata) (w : World)
      → WellFormed listening u
      → Home listening u fd
      → Sound listening w
      → Sound listening (allocate fd u w)
  unfolding allocate add_udata_map
  allocate-Sound fd u w ok home s = record {
    formed = λ i x e. formed i x (i == w.fresh) e;
    unused = λ i h. rw (later i h) (s.unused i (omega arith));
    mapped = λ f i there. mapped f i (Bool-cases (f == fd)) there;
    once = λ f. once f (Bool-cases (f == fd));
    doomed = s.doomed;
  }
    where
      formed :
          (i : ℕ) (x : Udata) (b : Bool)
          → (if b then some u else w.heap i) ≡ some x
          → WellFormed listening x
      formed i x true e =
          subst (WellFormed listening) (ap (λ o. elim o [ none ↦ u | some y ↦ y ]) e) ok
      formed i x false e = s.formed i x e

      later : (i : ℕ) → w.fresh + 1 ≤ i → (i == w.fresh) ≡ false
      later i h = ground arith

      old :
          (f i : ℕ) → Filed listening w.heap f i → Filed listening (at w.fresh (some u) w.heap) f i
      old f i (x, there, at_home) = elim (Bool-cases (i == w.fresh)) [
        | inl e ↦
            let new = (==_iff i w.fresh).0 e in
            let gone = s.unused i (omega (arith, new)) in
            let clash : some x ≡ none = sym there ∙ gone in cc
        | inr e ↦ (x, rw e there, at_home)
      ]

      grown :
          (f i : ℕ)
          → (f ≡ fd)
          → (i ≡ w.fresh) ⊎ (mem i (ids_of (w.udata_map fd)) ≡ true)
          → Filed listening (at w.fresh (some u) w.heap) f i
      grown f i same (inl new) = (u, rw (new, ==-refl w.fresh) refl, rw same home)
      grown f i same (inr there) = old f i (s.mapped f i (rw same there))

      mapped :
          (f i : ℕ)
          → ((f == fd) ≡ true) ⊎ ((f == fd) ≡ false)
          → mem i (ids_of (at fd (some (insert w.fresh (ids_of (w.udata_map fd)))) w.udata_map f))
            ≡ true
          → Filed listening (at w.fresh (some u) w.heap) f i
      mapped f i (inl e) there = grown f i ((==_iff f fd).0 e) (
          mem-insert w.fresh i (ids_of (w.udata_map fd)) (
            subst
              (λ b.
                mem i (
                  ids_of
                    (if b then some (insert w.fresh (ids_of (w.udata_map fd))) else w.udata_map f))
                ≡ true)
              e there))
      mapped f i (inr e) there = old f i (
          s.mapped f i (
            subst
              (λ b.
                mem i (
                  ids_of
                    (if b then some (insert w.fresh (ids_of (w.udata_map fd))) else w.udata_map f))
                ≡ true)
              e there))

      once :
          (f : ℕ)
          → ((f == fd) ≡ true) ⊎ ((f == fd) ≡ false)
          → NoDup (ids_of (at fd (some (insert w.fresh (ids_of (w.udata_map fd)))) w.udata_map f))
      once f (inl e) = rw e (insert-NoDup w.fresh (ids_of (w.udata_map fd)) (s.once fd))
      once f (inr e) = rw e (s.once f)
