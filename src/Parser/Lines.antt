-- ===== src/Parser/Lines.antt =====
-- How one line of a request is found in the pool, and what the first line and a header line give.
use mathlib.Core.Path.{ap₂}
use native.Mathlib.Decide.{dec_lt}
use create_httpserver_from_b.Common.{
  ℕ, zero, suc, ◌+◌, ◌-◌, ◌≤◌, ◌<◌, ◌≡◌, inl, inr, true, false, ◌&&◌, [], ◌∷◌, ◌++◌, arith, Bytes,
  length, Without, length-append, ◌∙◌, ap,
}
use create_httpserver_from_b.Parser.Newline.{find_newline_lem}
use create_httpserver_from_b.Parser.{RequestPool, byte_is, newline_at, find_newline}

byte_is-append :
    (pre xs : Bytes) (i c : ℕ) → byte_is (pre ++ xs) (length pre + i) c ≡ byte_is xs i c
byte_is-append [] xs i c = let e : 0 + i ≡ i = omega arith in rw e
byte_is-append (x ∷ pre) xs i c =
    let e : suc (length pre) + i ≡ suc (length pre + i) = omega arith in
    rw e (byte_is-append pre xs i c)

newline_at-append :
    (pre xs : Bytes) (i : ℕ) → newline_at (pre ++ xs) (length pre + i) ≡ newline_at xs i
newline_at-append pre xs i =
    let e : length pre + i + 1 ≡ length pre + (i + 1) = omega arith in
    ap₂ ◌&&◌ (byte_is-append pre xs i b'\r')
      (ap (λ j. byte_is (pre ++ xs) j b'\n') e ∙ byte_is-append pre xs (i + 1) b'\n')

newline_at_line :
    (line rest : Bytes) (i : ℕ)
    → Without b'\r' line
    → i < length line
    → newline_at (line ++ rest) i ≡ false
newline_at_line [] rest i w h = absurd (omega arith)
newline_at_line (c ∷ line) rest zero w h = rw w.0
newline_at_line (c ∷ line) rest (suc i) w h =
    let e : suc i + 1 ≡ suc (i + 1) = omega arith in
    rw e (newline_at_line line rest i w.1 (omega arith))

newline_at_end_of_line :
    (line rest : Bytes) → newline_at (line ++ b'\r' ∷ b'\n' ∷ rest) (length line) ≡ true
newline_at_end_of_line line rest =
    let e : length line ≡ length line + 0 = omega arith in
    ap (newline_at (line ++ b'\r' ∷ b'\n' ∷ rest)) e
    ∙ newline_at-append line (b'\r' ∷ b'\n' ∷ rest) 0

module _ (p : RequestPool) (pre line rest : Bytes)
    (text : p.total_line ≡ pre ++ (line ++ b'\r' ∷ b'\n' ∷ rest))
    (sized : p.line_len ≡ length p.total_line) (no_cr : Without b'\r' line) where
  end_is_newline : newline_at p.total_line (length pre + length line) ≡ true
  end_is_newline =
      ap (λ t. newline_at t (length pre + length line)) text
      ∙ newline_at-append pre _ (length line)
      ∙ newline_at_end_of_line line rest

  line_has_none :
      (j : ℕ) → length pre ≤ j → j < length pre + length line → newline_at p.total_line j ≡ false
  line_has_none j lo hi =
      let e : j ≡ length pre + (j - length pre) = omega arith in
      ap₂ newline_at text e
      ∙ newline_at-append pre _ (j - length pre)
      ∙ newline_at_line line _ (j - length pre) no_cr (omega arith)

  end_in_pool : length pre + length line < length p.total_line
  end_in_pool = omega (
    arith,
    ap length text,
    length-append pre (line ++ b'\r' ∷ b'\n' ∷ rest),
    length-append line (b'\r' ∷ b'\n' ∷ rest),
  )

  -- The line that begins at the offset is found up to its end.
  pub find_newline-line : find_newline p (length pre) ≡ length pre + length line
  find_newline-line = elim (find_newline_lem p (length pre) sized) [
    | inl (_, nowhere) ↦
        cc (nowhere (length pre + length line) (omega arith) end_in_pool, end_is_newline)
    | inr (_, first) ↦ elim (dec_lt (find_newline p (length pre)) (length pre + length line)) [
      | yes early ↦ cc (line_has_none (find_newline p (length pre)) first.behind early, first.here)
      | no not_early ↦ elim (dec_lt (length pre + length line) (find_newline p (length pre))) [
        | yes late ↦ cc (first.before (length pre + length line) (omega arith) late, end_is_newline)
        | no not_late ↦ omega arith
      ]
    ]
  ]
