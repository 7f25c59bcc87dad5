-- ===== src/Utils/Trim.antt =====
-- What ft_strtrim (src/utils/ft_strtrim.cpp) keeps and what it drops.
use create_httpserver_from_b.Common.{
  ℕ, Bool, ◌≡◌, refl, ap, ◌∙◌, true, false, inl, inr, [], ◌∷◌, ◌++◌, Bytes, Bool-cases, is_space,
  empty?, ◌&&◌, if◌then◌else◌,
}
use create_httpserver_from_b.Common.Decimal.{skip_spaces}
use create_httpserver_from_b.Utils.{trim_end, ft_strtrim}

-- Every byte is a space.
abbrev pub Spaces : Bytes → Type 0
Spaces [] = Unit {0}
Spaces (c ∷ s) = (is_space c ≡ true) × Spaces s

-- The first byte, if there is one, is no space.
abbrev pub NoSpaceFirst : Bytes → Type 0
NoSpaceFirst [] = Unit {0}
NoSpaceFirst (c ∷ s) = is_space c ≡ false

-- The last byte, if there is one, is no space.
abbrev pub NoSpaceLast : Bytes → Type 0
NoSpaceLast [] = Unit {0}
NoSpaceLast (c ∷ []) = is_space c ≡ false
NoSpaceLast (c ∷ (d ∷ s)) = NoSpaceLast (d ∷ s)

skip_spaces_lem :
    (s : Bytes)
    → (before : Bytes) × (s ≡ before ++ skip_spaces s)
      × Spaces before
      × NoSpaceFirst (skip_spaces s)
unfolding skip_spaces
skip_spaces_lem [] = ([], refl, tt, tt)
skip_spaces_lem (c ∷ s) = elim (Bool-cases (is_space c)) [
  | inl t ↦
      let (before, e, spaces, first) = skip_spaces_lem s in
      (c ∷ before, rw (t, skip_spaces) (ap (λ u. c ∷ u) e), (t, spaces), rw (t, skip_spaces) first)
  | inr f ↦ ([], rw (f, skip_spaces) refl, tt, rw (f, skip_spaces) f)
]

-- The bytes behind the last one that is kept
abbrev TrimsEnd : Bytes → Bytes → Type 0
TrimsEnd s kept = (after : Bytes) × (s ≡ kept ++ after) × Spaces after × NoSpaceLast kept

trim_end_step :
    (c : ℕ) (s rest : Bytes)
    → TrimsEnd s rest
    → TrimsEnd (c ∷ s) (if empty? rest && is_space c then [] else c ∷ rest)
trim_end_step c s [] (after, e, spaces, last) = elim (Bool-cases (is_space c)) [
  | inl t ↦ rw t (c ∷ after, ap (λ u. c ∷ u) e, (t, spaces), tt)
  | inr f ↦ rw f (after, ap (λ u. c ∷ u) e, spaces, f)
]
trim_end_step c s (d ∷ rest) (after, e, spaces, last) = (after, ap (λ u. c ∷ u) e, spaces, last)

trim_end_lem : (s : Bytes) → TrimsEnd s (trim_end s)
unfolding trim_end
trim_end_lem [] = ([], refl, tt, tt)
trim_end_lem (c ∷ s) = trim_end_step c s (trim_end s) (trim_end_lem s)

trim_end-NoSpaceFirst : (s : Bytes) → NoSpaceFirst s → NoSpaceFirst (trim_end s)
unfolding trim_end
trim_end-NoSpaceFirst [] h = tt
trim_end-NoSpaceFirst (c ∷ s) h = kept (empty? (trim_end s) && is_space c)
  where
    kept : (b : Bool) → NoSpaceFirst (if b then [] else c ∷ trim_end s)
    kept true = tt
    kept false = h

-- ft_strtrim drops spaces in front and behind, all of them, and nothing else.
pub ft_strtrim_lem :
    (s : Bytes)
    → (before : Bytes) × (after : Bytes) × (s ≡ before ++ (ft_strtrim s ++ after))
      × Spaces before
      × Spaces after
      × NoSpaceFirst (ft_strtrim s)
      × NoSpaceLast (ft_strtrim s)
unfolding ft_strtrim
ft_strtrim_lem s =
    let (before, e, front, first) = skip_spaces_lem s in
    let (after, e', back, last) = trim_end_lem (skip_spaces s) in
    (
      before,
      after,
      e ∙ ap (λ u. before ++ u) e',
      front,
      back,
      trim_end-NoSpaceFirst (skip_spaces s) first,
      last,
    )
