-- ===== src/Common/Text.antt =====
-- Bytes, and the operations of std::string, std::vector<char>, std::map and std::search that the
-- server calls. A position that the C++ code tests against `npos` is an `Option`.
use Prim.Native.Char.{code}
use Prim.Native.Nat.{ℕ, zero, suc, ◌+◌, ◌<◌}
use Prim.Native.String.{String}
use mathlib.Core.Path.{◌≡◌, refl}
use mathlib.Core.Logic.{◌↔◌, inl, inr}
use mathlib.Core.Bool.{Bool, true, false, ◌&&◌, ◌||◌}
use mathlib.Core.List.{List, [], ◌∷◌, ◌++◌}
use mathlib.Core.Option.{Option, none, some}
use native.Mathlib.Omega.{arith}
use create_httpserver_from_b.Common.Tests.{leb, ◌==◌, if◌then◌else◌, Bool-cases}
use create_httpserver_from_b.Common.Lists.{length, take, drop}

abbrev pub Bytes : Type 0
Bytes = List ℕ

-- The code points of a literal: its bytes, since every literal of the source is ASCII.
abbrev pub codes : String → Bytes
codes String.[] = []
codes (String.◌∷◌ c s) = code c ∷ codes s

abbrev pub is_some {ℓ} : {A : Type ℓ} → Option A → Bool
is_some none = false
is_some (some a) = true

abbrev pub empty? {ℓ} : {A : Type ℓ} → List A → Bool
empty? [] = true
empty? (x ∷ xs) = false

-- std::string::operator==
unfoldable pub eq_bytes : Bytes → Bytes → Bool
eq_bytes [] [] = true
eq_bytes (x ∷ xs) (y ∷ ys) = x == y && eq_bytes xs ys
eq_bytes _ _ = false

pub eq_bytes_iff : (a b : Bytes) → (eq_bytes a b ≡ true) ↔ (a ≡ b)
unfolding eq_bytes
eq_bytes_iff (x ∷ a) (y ∷ b) = ground (arith, eq_bytes_iff a b)
eq_bytes_iff _ _ = ground arith

pub eq_bytes_refl : (a : Bytes) → eq_bytes a a ≡ true
eq_bytes_refl a = (eq_bytes_iff a a).1 refl

abbrev pub shift : Option ℕ → Option ℕ
shift none = none
shift (some i) = some (suc i)

-- isspace and isdigit in the C locale
abbrev pub is_space : ℕ → Bool
is_space c = (leb 9 c && leb c 13) || c == 32

abbrev pub is_digit : ℕ → Bool
is_digit c = leb b'0' c && leb c b'9'

-- find_first_of(c, 0)
unfoldable pub index_of : ℕ → Bytes → Option ℕ
index_of c [] = none
index_of c (x ∷ xs) = if x == c then some 0 else shift (index_of c xs)

abbrev pub offset_by : ℕ → Option ℕ → Option ℕ
offset_by pos none = none
offset_by pos (some i) = some (pos + i)

-- find_first_of(c, pos)
unfoldable pub index_from : ℕ → ℕ → Bytes → Option ℕ
unfolding index_of
index_from c pos s = offset_by pos (index_of c (drop pos s))

-- rfind(c)
unfoldable pub last_index_of : ℕ → Bytes → Option ℕ
last_index_of c [] = none
last_index_of c (x ∷ xs) = elim (last_index_of c xs) [
  | some i ↦ some (suc i)
  | none ↦ if x == c then some 0 else none
]

-- substr(pos, count), where `pos` is at most the size
abbrev pub substr : ℕ → ℕ → Bytes → Bytes
substr pos count s = take count (drop pos s)

unfoldable pub starts_with : Bytes → Bytes → Bool
starts_with [] s = true
starts_with (p ∷ ps) [] = false
starts_with (p ∷ ps) (c ∷ s) = p == c && starts_with ps s

-- find(pattern), and std::search with its end for `none`
unfoldable pub find_sub : Bytes → Bytes → Option ℕ
unfolding starts_with
find_sub p [] = if starts_with p [] then some 0 else none
find_sub p (c ∷ s) = if starts_with p (c ∷ s) then some 0 else shift (find_sub p s)

abbrev pub contains_sub : Bytes → Bytes → Bool
contains_sub p s = is_some (find_sub p s)

-- The last byte of a string, and the string without it (back, pop_back).
unfoldable pub last? : Bytes → Option ℕ
last? [] = none
last? (x ∷ []) = some x
last? (x ∷ (y ∷ ys)) = last? (y ∷ ys)

unfoldable pub pop_back : Bytes → Bytes
pop_back [] = []
pop_back (x ∷ []) = []
pop_back (x ∷ (y ∷ ys)) = x ∷ pop_back (y ∷ ys)

-- std::map with string keys: `lookup` is find, `put` is `m[key] = value`.
module _ {ℓ} {V : Type ℓ} where
  unfoldable pub lookup : Bytes → List (Bytes × V) → Option V
  lookup k [] = none
  lookup k ((j, v) ∷ m) = if eq_bytes j k then some v else lookup k m

  unfoldable pub put : Bytes → V → List (Bytes × V) → List (Bytes × V)
  put k v [] = (k, v) ∷ []
  put k v ((j, w) ∷ m) = if eq_bytes j k then (j, v) ∷ m else (j, w) ∷ put k v m

  pub lookup-put :
      (k j : Bytes) (v : V) (m : List (Bytes × V))
      → lookup j (put k v m) ≡ (if eq_bytes k j then some v else lookup j m)
  unfolding lookup put
  lookup-put k j v [] = refl
  lookup-put k j v ((i, w) ∷ m) =
      ground (arith, eq_bytes_iff k j, eq_bytes_iff i k, eq_bytes_iff i j, lookup-put k j v m)

pub index_of-lt : (c : ℕ) (s : Bytes) (i : ℕ) → index_of c s ≡ some i → i < length s
unfolding index_of
index_of-lt c [] i h = cc
index_of-lt c (x ∷ xs) zero h = omega arith
index_of-lt c (x ∷ xs) (suc i) h = ground (arith, index_of-lt c xs i)

-- No byte of a string is `c`.
abbrev pub Without : ℕ → Bytes → Type 0
Without c [] = Unit {0}
Without c (x ∷ xs) = ((x == c) ≡ false) × Without c xs

-- The first `c` stands behind a part that has none.
pub index_of-append :
    (c : ℕ) (s t : Bytes) → Without c s → index_of c (s ++ c ∷ t) ≡ some (length s)
unfolding index_of
index_of-append c [] t h = ground arith
index_of-append c (x ∷ s) t h = ground (arith, index_of-append c s t h.1)

pub index_of-none : (c : ℕ) (s : Bytes) → Without c s → index_of c s ≡ none
unfolding index_of
index_of-none c [] h = refl
index_of-none c (x ∷ s) h = ground (arith, index_of-none c s h.1)

pub Without-index_of : (c : ℕ) (s : Bytes) → index_of c s ≡ none → Without c s
unfolding index_of
Without-index_of c [] h = tt
Without-index_of c (x ∷ s) h = elim (Bool-cases (x == c)) [
  | inl t ↦ (let m : some (0 + 0) ≡ none = rw (t, index_of) at h in cc)
  | inr f ↦ (f, Without-index_of c s (missing (index_of c s) (rw (f, index_of) at h)))
]
  where
    missing : (o : Option ℕ) → shift o ≡ none → o ≡ none
    missing none e = refl
    missing (some i) e = (let m : some (suc i) ≡ none = e in cc)
