-- ===== src/Parser/Newline.antt =====
-- Parser::findNewline: where it finds a line end, and what lies before it.
use mathlib.Core.Path.{subst}
use native.Mathlib.Decide.{ℕ_discrete, dec_lt}
use create_httpserver_from_b.Common.{
  [], ◌∷◌, none, get_elem?, ℕ, zero, suc, ◌+◌, ◌-◌, ◌≤◌, ◌<◌, ◌≡◌, refl, ◌⊎◌, inl, inr, true, false,
  arith, Bytes, length, Bool-cases, ltb,
}
use create_httpserver_from_b.Parser.{RequestPool, newline_at, scan_newline, find_newline}

-- No line end begins in the range.
abbrev pub NoNewline : Bytes → ℕ → ℕ → Type 0
NoNewline buf from to = (j : ℕ) → from ≤ j → j < to → newline_at buf j ≡ false

-- The first line end at or behind `from`.
pub record FirstNewline (buf : Bytes) (from idx : ℕ) : Type 0 where
  pub behind : from ≤ idx
  pub here : newline_at buf idx ≡ true
  pub before : NoNewline buf from idx

abbrev Scanned : Bytes → ℕ → ℕ → ℕ → Type 0
Scanned buf rounds idx r =
    ((r ≡ 0) × NoNewline buf idx (idx + rounds)) ⊎ ((r < idx + rounds) × FirstNewline buf idx r)

NoNewline-cons :
    (buf : Bytes) (from to : ℕ)
    → newline_at buf from ≡ false
    → NoNewline buf (from + 1) to
    → NoNewline buf from to
NoNewline-cons buf from to no_here later j lo hi = elim (ℕ_discrete from j) [
  | yes e ↦ subst (λ k. newline_at buf k ≡ false) e no_here
  | no ne ↦ later j (omega arith) hi
]

scan_newline_step :
    (rounds : ℕ) (buf : Bytes) (idx r : ℕ)
    → newline_at buf idx ≡ false
    → Scanned buf rounds (idx + 1) r
    → Scanned buf (suc rounds) idx r
scan_newline_step rounds buf idx r no_here (inl (z, later)) =
    inl (z, NoNewline-cons buf idx _ no_here (λ j lo hi. later j lo (omega arith)))
scan_newline_step rounds buf idx r no_here (inr (bound, first)) = inr (
  omega arith,
  record {
    behind = omega (arith, first.behind);
    here = first.here;
    before = NoNewline-cons buf idx r no_here first.before;
  },
)

scan_newline_lem :
    (rounds : ℕ) (buf : Bytes) (idx : ℕ) → Scanned buf rounds idx (scan_newline rounds buf idx)
unfolding scan_newline
scan_newline_lem zero buf idx = inl (refl, λ j lo hi. absurd (omega arith))
scan_newline_lem (suc rounds) buf idx = elim (Bool-cases (newline_at buf idx)) [
  | inl found ↦ rw found (
      inr (
        omega arith,
        record { behind = omega arith; here = found; before = λ j lo hi. absurd (omega arith) },
      ))
  | inr no_here ↦
      rw no_here
        (scan_newline_step rounds buf idx _ no_here (scan_newline_lem rounds buf (idx + 1)))
]

get_elem?-none : (buf : Bytes) (i : ℕ) → length buf ≤ i → get_elem? buf i ≡ none
get_elem?-none [] i h = refl
get_elem?-none (x ∷ buf) zero h = absurd (omega arith)
get_elem?-none (x ∷ buf) (suc i) h = get_elem?-none buf i (omega arith)

-- The last byte begins no line end.
newline_at_end : (buf : Bytes) (i : ℕ) → length buf ≤ i + 1 → newline_at buf i ≡ false
newline_at_end buf i h = ground (arith, get_elem?-none buf (i + 1))

NoNewline-end :
    (buf : Bytes) (from to : ℕ)
    → length buf ≤ to + 1
    → NoNewline buf from to
    → NoNewline buf from (length buf)
NoNewline-end buf from to h before j lo hi = elim (dec_lt j to) [
  | yes inside ↦ before j lo inside
  | no past ↦ newline_at_end buf j (omega arith)
]

-- Either there is no line end from `offset` to the end of the pool, or the answer is the first
-- one. The answer 0 for a line end at index 0 is the second case.
pub find_newline_lem :
    (p : RequestPool) (offset : ℕ)
    → p.line_len ≡ length p.total_line
    → ((find_newline p offset ≡ 0) × NoNewline p.total_line offset (length p.total_line))
      ⊎ ((find_newline p offset + 2 ≤ p.line_len)
          × FirstNewline p.total_line offset (find_newline p offset))
unfolding find_newline
find_newline_lem p offset e = elim (Bool-cases (ltb p.line_len 2)) [
  | inl short ↦ rw short (
      inl (
        refl,
        NoNewline-end p.total_line offset 0 (ground arith) (λ j lo hi. absurd (omega arith)),
      ))
  | inr long ↦ rw long (found long (scan_newline_lem (p.line_len - 1 - offset) p.total_line offset))
]
  where
    found :
        ltb p.line_len 2 ≡ false
        → Scanned p.total_line
            (p.line_len - 1 - offset)
            offset
            (scan_newline (p.line_len - 1 - offset) p.total_line offset)
        → ((scan_newline (p.line_len - 1 - offset) p.total_line offset ≡ 0)
            × NoNewline p.total_line offset (length p.total_line))
          ⊎ ((scan_newline (p.line_len - 1 - offset) p.total_line offset + 2 ≤ p.line_len)
              × FirstNewline p.total_line offset
                  (scan_newline (p.line_len - 1 - offset) p.total_line offset))
    found long (inl (z, before)) = inl (z, NoNewline-end p.total_line offset _ (omega arith) before)
    found long (inr (bound, first)) = inr (omega (arith, first.behind), first)

-- What the steps need: an answer other than 0 lies behind `offset`, with its two bytes in the pool.
pub find_newline_bounds :
    (p : RequestPool) (offset : ℕ)
    → p.line_len ≡ length p.total_line
    → (find_newline p offset ≡ 0)
      ⊎ ((offset ≤ find_newline p offset) × (find_newline p offset + 2 ≤ p.line_len))
find_newline_bounds p offset e = elim (find_newline_lem p offset e) [
  | inl (z, _) ↦ inl z
  | inr (bound, first) ↦ inr (first.behind, bound)
]
