-- ===== src/Common/Decimal.antt =====
-- Decimal numbers: what operator<< writes for an integer, and what atol reads.
use Prim.Native.Nat.{ℕ, zero, suc, ◌+◌, ◌-◌, ◌*◌, ◌/◌, ◌%◌, ◌^◌, ◌≤◌, ◌<◌}
use mathlib.Core.Path.{◌≡◌, refl, sym, ap, ◌∙◌}
use mathlib.Core.Logic.{inl, inr}
use mathlib.Core.Bool.{Bool, true, false}
use mathlib.Core.List.{[], ◌∷◌, ◌++◌, append_assoc}
use native.Mathlib.Omega.{arith}
use create_httpserver_from_b.Common.Tests.{ltb, ◌==◌, ltb→lt, if◌then◌else◌, Bool-cases}
use create_httpserver_from_b.Common.Text.{Bytes, codes, is_space, is_digit}

-- `long`; `negsuc n` is -(n + 1).
pub data ℤ : Type 0 where
  pos : ℕ → ℤ
  negsuc : ℕ → ℤ

-- `a <= 0`, `n < a` and `n == a` for a size `n`, which a cast brings to the signed type.
abbrev pub is_positive : ℤ → Bool
is_positive (pos n) = ltb 0 n
is_positive (negsuc n) = false

abbrev pub lt_size : ℤ → ℕ → Bool
lt_size (pos a) n = ltb a n
lt_size (negsuc a) n = true

abbrev pub eq_size : ℤ → ℕ → Bool
eq_size (pos a) n = a == n
eq_size (negsuc a) n = false

abbrev pub long_max : ℕ
long_max = 2 ^ 63 - 1

-- strtol, which atol is, stops at the ends of `long`.
abbrev pub to_long : Bool → ℕ → ℤ
to_long true n = if n == 0 then pos 0 else negsuc ((if ltb long_max n then long_max + 1 else n) - 1)
to_long false n = pos (if ltb long_max n then long_max else n)

unfoldable pub read_digits : ℕ → Bytes → ℕ
read_digits acc [] = acc
read_digits acc (c ∷ s) =
    let rest = read_digits (acc * 10 + (c - b'0')) s in if is_digit c then rest else acc

unfoldable pub skip_spaces : Bytes → Bytes
skip_spaces [] = []
skip_spaces (c ∷ s) = if is_space c then skip_spaces s else c ∷ s

read_sign : Bytes → ℤ
unfolding read_digits
read_sign [] = pos 0
read_sign (c ∷ s) =
    if c == b'-'
    then to_long true (read_digits 0 s)
    else if c == b'+'
    then to_long false (read_digits 0 s)
    else to_long false (read_digits 0 (c ∷ s))

unfoldable pub atol : Bytes → ℤ
unfolding read_sign skip_spaces
atol s = read_sign (skip_spaces s)

-- The digits of a number; `fuel` bounds their count.
unfoldable pub digits : ℕ → ℕ → Bytes
digits zero n = []
digits (suc fuel) n =
    let rest = digits fuel (n / 10) in (if ltb n 10 then [] else rest) ++ (b'0' + n % 10) ∷ []

unfoldable pub show : ℕ → Bytes
unfolding digits
show n = digits (suc n) n

read_digits-digit :
    (acc d : ℕ) (t : Bytes)
    → d < 10
    → read_digits acc ((b'0' + d) ∷ t) ≡ read_digits (acc * 10 + d) t
unfolding read_digits
read_digits-digit acc d t h =
    let digit : is_digit (b'0' + d) ≡ true = ground arith in
    let value : b'0' + d - b'0' ≡ d = omega arith in rw digit (rw value)

-- Reading what `digits` wrote goes on with its number.
read_digits-digits :
    (fuel n : ℕ) (t : Bytes) → n < fuel → read_digits 0 (digits fuel n ++ t) ≡ read_digits n t
unfolding digits
read_digits-digits zero n t h = absurd (omega arith)
read_digits-digits (suc fuel) n t h = elim (Bool-cases (ltb n 10)) [
  | inl small ↦ rw small (
      read_digits-digit 0 (n % 10) t (omega arith)
      ∙ ap (λ k. read_digits k t) (ground (arith, ltb→lt n 10 small)))
  | inr large ↦
      rw (large, append_assoc (digits fuel (n / 10)) _ t)
        (read_digits-digits fuel (n / 10) ((b'0' + n % 10) ∷ t) (ground arith)
          ∙ read_digits-digit (n / 10) (n % 10) t (omega arith)
          ∙ ap (λ k. read_digits k t) (omega arith))
]

digits-head :
    (fuel n : ℕ) → n < fuel → (d : ℕ) × (s : Bytes) × (digits fuel n ≡ (b'0' + d) ∷ s) × (d < 10)
unfolding digits
digits-head zero n h = absurd (omega arith)
digits-head (suc fuel) n h = elim (Bool-cases (ltb n 10)) [
  | inl small ↦ (n % 10, [], rw small, omega arith)
  | inr large ↦
      let (d, s, e, below) = digits-head fuel (n / 10) (ground arith) in
      (d, s ++ (b'0' + n % 10) ∷ [], rw (large, e), below)
]

-- Nothing more of a number can be read.
abbrev pub NoDigit : Bytes → Type 0
NoDigit [] = Unit {0}
NoDigit (c ∷ s) = is_digit c ≡ false

read_digits_stop : (n : ℕ) (t : Bytes) → NoDigit t → read_digits n t ≡ n
unfolding read_digits
read_digits_stop n [] h = refl
read_digits_stop n (c ∷ t) h = rw h

read_sign-digit :
    (d : ℕ) (s : Bytes)
    → d < 10
    → atol ((b'0' + d) ∷ s) ≡ to_long false (read_digits 0 ((b'0' + d) ∷ s))
unfolding skip_spaces read_sign atol
read_sign-digit d s h = ground arith

to_long-pos : (n : ℕ) → n ≤ long_max → to_long false n ≡ pos n
to_long-pos n h = ground arith

-- atol reads back a number that operator<< wrote in front of something else.
pub atol-show : (n : ℕ) (t : Bytes) → n ≤ long_max → NoDigit t → atol (show n ++ t) ≡ pos n
unfolding show
atol-show n t h stop =
    let (d, s, e, below) = digits-head (suc n) n (omega arith) in
    let whole : read_digits 0 ((b'0' + d) ∷ (s ++ t)) ≡ n =
      ap (λ (w : Bytes). read_digits 0 (w ++ t)) (sym e)
      ∙ read_digits-digits (suc n) n t (omega arith)
      ∙ read_digits_stop n t stop in
    rw e (read_sign-digit d (s ++ t) below ∙ ap (to_long false) whole ∙ to_long-pos n h)

show_255 : show 255 ≡ codes "255"
unfolding show
show_255 = refl

atol_12 : atol (codes " -12x") ≡ negsuc 11
unfolding atol
atol_12 = refl
