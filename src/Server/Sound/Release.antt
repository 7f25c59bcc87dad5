-- ===== src/Server/Sound/Release.antt =====
-- What remains of the invariant when the data of connections is deleted (src/Server/event/udata.cpp).
use mathlib.Core.Path.{subst}
use create_httpserver_from_b.Common.{
  ℕ, ◌≡◌, ◌∙◌, refl, sym, ap, ◌⊎◌, inl, inr, Bool, true, false, List, Option, none, some, ◌==◌,
  ==_iff, if◌then◌else◌, Bool-cases,
}
use create_httpserver_from_b.Server.{
  Udata, World, mem, erase, erase_in, at, free_udata, ids_of, remove_udata,
}
use create_httpserver_from_b.Server.Sound.{NoDup, WellFormed, Home, Filed, SoundParts, Sound}
use create_httpserver_from_b.Server.Sound.Memory.{mem-erase, erase-NoDup}

module _ (listening : ℕ → Bool) where
  -- The data of two sockets is not the same.
  pub Home-apart : (u : Udata) (fd f : ℕ) → u.m_client_sock ≡ some fd → Home listening u f → f ≡ fd
  Home-apart u fd f here there = branch (listening f) (sym here ∙ there)
    where
      branch : (b : Bool) → some fd ≡ (if b then none else some f) → f ≡ fd
      branch true e = absurd (cc)
      branch false e = sym (ap (λ o. elim o [ none ↦ fd | some n ↦ n ]) e)

  module _ (w : World) (filed : ℕ → Option (List ℕ)) (heap : ℕ → Option Udata)
      (gone : ℕ → Bool) where
    pub forget-Sound :
        (fd_set : List ℕ)
        → ((i : ℕ) → heap i ≡ (if gone i then none else w.heap i))
        → ((f i : ℕ)
            → mem i (ids_of (filed f)) ≡ true
            → (mem i (ids_of (w.udata_map f)) ≡ true) × (gone i ≡ false))
        → ((f : ℕ) → NoDup (ids_of (filed f)))
        → ((f : ℕ) → mem f fd_set ≡ true → listening f ≡ false)
        → Sound listening w
        → SoundParts listening fd_set filed heap w.fresh
    forget-Sound fd_set freed kept once doomed s = record {
      formed = λ i x e. formed i x (gone i) (sym (freed i) ∙ e);
      unused = λ i h. freed i ∙ unused i (gone i) (s.unused i h);
      mapped = λ f i there. mapped f i (kept f i there);
      once = once;
      doomed = doomed;
    }
      where
        formed :
            (i : ℕ) (x : Udata) (b : Bool)
            → (if b then none else w.heap i) ≡ some x
            → WellFormed listening x
        formed i x true e = absurd cc
        formed i x false e = s.formed i x e

        unused : (i : ℕ) (b : Bool) → w.heap i ≡ none → (if b then none else w.heap i) ≡ none
        unused i true e = refl
        unused i false e = e

        mapped :
            (f i : ℕ)
            → (mem i (ids_of (w.udata_map f)) ≡ true) × (gone i ≡ false)
            → Filed listening heap f i
        mapped f i (there, stays) =
            let (x, here, home) = s.mapped f i there in (x, freed i ∙ rw stays here, home)

  ids_of-erase_in : (id : ℕ) (o : Option (List ℕ)) → ids_of (erase_in id o) ≡ erase id (ids_of o)
  ids_of-erase_in id none = refl
  ids_of-erase_in id (some ids) = refl

  -- removeUdata and `delete`, for the data of this socket
  pub remove_udata-Sound :
      (fd id : ℕ) (u : Udata) (w : World)
      → w.heap id ≡ some u
      → u.m_client_sock ≡ some fd
      → Sound listening w
      → Sound listening (free_udata id (remove_udata fd id w))
  unfolding remove_udata
  remove_udata-Sound fd id u w here sock s =
      forget-Sound w (at fd (erase_in id (w.udata_map fd)) w.udata_map) (at id none w.heap)
        (λ i. i == id) w.fd_set (λ i. refl) (λ f i there. kept f i (Bool-cases (f == fd)) there)
        (λ f. once f (Bool-cases (f == fd))) s.doomed s
    where
      left : List ℕ
      left = erase id (ids_of (w.udata_map fd))

      inside :
          (f i : ℕ)
          → f ≡ fd
          → mem i left ≡ true
          → ((i == id) ≡ true) ⊎ ((i == id) ≡ false)
          → (mem i (ids_of (w.udata_map f)) ≡ true) × ((i == id) ≡ false)
      inside f i same there (inr other) =
          (rw same (mem-erase id i (ids_of (w.udata_map fd)) there), other)
      inside f i same there (inl e) =
          let gone = (erase-NoDup id (ids_of (w.udata_map fd)) (s.once fd)).1 in
          let at_id = (==_iff i id).0 e in
          let clash : true ≡ false = sym there ∙ (ap (λ j. mem j left) at_id ∙ gone) in cc

      outside :
          (f i : ℕ)
          → (f == fd) ≡ false
          → mem i (ids_of (w.udata_map f)) ≡ true
          → ((i == id) ≡ true) ⊎ ((i == id) ≡ false)
          → (mem i (ids_of (w.udata_map f)) ≡ true) × ((i == id) ≡ false)
      outside f i apart there (inr other) = (there, other)
      outside f i apart there (inl e) =
          let (x, at_i, home) = s.mapped f i there in
          let at_id = (==_iff i id).0 e in
          let one : some x ≡ some u = sym at_i ∙ (ap w.heap at_id ∙ here) in
          let is_u : x ≡ u = ap (λ o. elim o [ none ↦ u | some y ↦ y ]) one in
          let same = Home-apart x fd f (ap (λ y. y.m_client_sock) is_u ∙ sock) home in
          let clash : true ≡ false = sym ((==_iff f fd).1 same) ∙ apart in cc

      kept :
          (f i : ℕ)
          → ((f == fd) ≡ true) ⊎ ((f == fd) ≡ false)
          → mem i (ids_of (at fd (erase_in id (w.udata_map fd)) w.udata_map f)) ≡ true
          → (mem i (ids_of (w.udata_map f)) ≡ true) × ((i == id) ≡ false)
      kept f i (inl e) there =
          inside f i ((==_iff f fd).0 e)
            (subst (λ ns. mem i ns ≡ true) (ids_of-erase_in id (w.udata_map fd))
              (subst
                (λ b.
                  mem i (ids_of (if b then erase_in id (w.udata_map fd) else w.udata_map f)) ≡ true)
                e there))
            (Bool-cases (i == id))
      kept f i (inr e) there =
          outside f i e
            (subst
              (λ b.
                mem i (ids_of (if b then erase_in id (w.udata_map fd) else w.udata_map f)) ≡ true)
              e there)
            (Bool-cases (i == id))

      once :
          (f : ℕ)
          → ((f == fd) ≡ true) ⊎ ((f == fd) ≡ false)
          → NoDup (ids_of (at fd (erase_in id (w.udata_map fd)) w.udata_map f))
      once f (inl e) =
          rw (e, ids_of-erase_in id (w.udata_map fd))
            (erase-NoDup id (ids_of (w.udata_map fd)) (s.once fd)).0
      once f (inr e) = rw e (s.once f)
