-- ===== src/Parser/Chunks.antt =====
-- Chunked bodies in the pool (src/Parser/parseChunkedBody.cpp).
use mathlib.Core.Path.{subst, subst₂, ap₂}
use create_httpserver_from_b.Common.{
  ℕ, ◌+◌, ◌-◌, ◌<◌, ◌≡◌, refl, sym, true, false, [], ◌∷◌, ◌++◌, List, arith, Bytes, length, take,
  drop, substr, length-append, drop-append, take-append, ◌∙◌, ap, ◌==◌, append_assoc, append-nil,
  Without,
}
use create_httpserver_from_b.Message.{Request, on_chunked_body, complete}
use create_httpserver_from_b.Parser.HeaderLine.{at}
use create_httpserver_from_b.Parser.Lines.{find_newline-line}
use create_httpserver_from_b.Parser.Reads.{Reads, more}
use create_httpserver_from_b.Parser.Printed.{
  through, length-through, through-append, Reads-completed, length_by_line,
}
use create_httpserver_from_b.Parser.{Session, ok, find_newline, parse_chunked_body, step_in}

-- A chunk: the line with its size, and its bytes.
pub record Chunk : Type 0 where
  pub size_line : Bytes
  pub bytes : Bytes

abbrev pub chunks_text : List Chunk → Bytes → Bytes
chunks_text [] rest = rest
chunks_text (c ∷ cs) rest =
    c.size_line ++ b'\r' ∷ b'\n' ∷ (c.bytes ++ b'\r' ∷ b'\n' ∷ chunks_text cs rest)

-- The chunk has bytes, and neither they nor the size line hold a `\r`.
pub record IsPlain (c : Chunk) : Type 0 where
  pub size_plain : Without b'\r' c.size_line
  pub bytes_plain : Without b'\r' c.bytes
  pub nonempty : 0 < length c.bytes

abbrev pub AllPlain : List Chunk → Type 0
AllPlain [] = Unit {0}
AllPlain (c ∷ cs) = IsPlain c × AllPlain cs

abbrev pub chunk_bytes : List Chunk → Bytes
chunk_bytes [] = []
chunk_bytes (c ∷ cs) = c.bytes ++ chunk_bytes cs

module _ (text pre size bytes rest : Bytes) (r : Request)
    (here : text ≡ pre ++ (size ++ b'\r' ∷ b'\n' ∷ (bytes ++ b'\r' ∷ b'\n' ∷ rest)))
    (size_plain : Without b'\r' size) (bytes_plain : Without b'\r' bytes)
    (begun : 0 < length pre) where
  abbrev start : ℕ
  start = length pre + length size + 2

  first_end : find_newline (at text (length pre) r).pool (length pre) ≡ length pre + length size
  first_end = find_newline-line (at text (length pre) r).pool pre size _ here refl size_plain

  here' : text ≡ through pre size ++ (bytes ++ b'\r' ∷ b'\n' ∷ rest)
  here' = here ∙ through-append pre size _

  second_end : find_newline (at text (length pre) r).pool start ≡ start + length bytes
  second_end =
      subst (λ n. find_newline (at text (length pre) r).pool n ≡ n + length bytes)
        (length-through pre size)
        (find_newline-line (at text (length pre) r).pool (through pre size) bytes rest here' refl
          bytes_plain)

  bytes_cut : substr start (start + length bytes - start) text ≡ bytes
  bytes_cut =
      ap₂ (λ n t. take (start + length bytes - start) (drop n t)) (sym (length-through pre size))
        here'
      ∙ ap (take (start + length bytes - start))
          (drop-append (through pre size) _ (length (through pre size)) refl)
      ∙ take-append bytes _ _ (omega arith)

  parse_chunk :
      0 < length bytes
      → parse_chunked_body (at text (length pre) r)
        ≡ ok (at text (start + length bytes + 2) (record r { body = r.body ++ bytes }))
  unfolding parse_chunked_body
  parse_chunk nonempty =
      let t1 : (length pre + length size == 0) ≡ false = ground arith in
      let t2 : (start + length bytes == 0) ≡ false = ground arith in
      let t3 : (length pre + length size == start + length bytes - 2) ≡ false = ground arith in
      rw first_end (rw second_end (rw (t1, t2, t3) (rw bytes_cut)))

  -- An empty chunk ends the body, and the offset stays in front of it.
  parse_last_chunk :
      bytes ≡ []
      → parse_chunked_body (at text (length pre) r)
        ≡ ok (at text (length pre) (record r { validation_phase = complete }))
  unfolding parse_chunked_body
  parse_last_chunk empty =
      let none_left : length bytes ≡ 0 = ap length empty in
      let t1 : (length pre + length size == 0) ≡ false = ground arith in
      let t2 : (start + length bytes == 0) ≡ false = ground arith in
      let t3 : (length pre + length size == start + length bytes - 2) ≡ true = ground arith in
      rw first_end (rw second_end (rw (t1, t2, t3)))

step_on_chunked_body :
    (s : Session)
    → s.request.validation_phase ≡ on_chunked_body
    → step_in s.request.validation_phase s ≡ parse_chunked_body s
unfolding step_in
step_on_chunked_body s e = ap (λ phase. step_in phase s) e

-- What ends a chunked body: a last size line and an empty chunk, before anything else.
abbrev pub last_text : Bytes → Bytes → Bytes
last_text size rest = size ++ b'\r' ∷ b'\n' ∷ b'\r' ∷ b'\n' ∷ rest

length-last_text :
    (size rest : Bytes) → length (last_text size rest) ≡ length size + 4 + length rest
length-last_text size rest =
    omega (arith, length-append size (b'\r' ∷ b'\n' ∷ b'\r' ∷ b'\n' ∷ rest))

-- The text that is left, behind the chunks.
abbrev pub left_over : Bytes → Bytes → Bytes → ℕ
left_over text size rest = length text - (length size + 4 + length rest)

pub nonempty_rest :
    (cs : List Chunk) (size rest : Bytes) → 0 < length (chunks_text cs (last_text size rest))
nonempty_rest [] size rest = omega (arith, length-last_text size rest)
nonempty_rest (c ∷ cs) size rest = omega (
  arith,
  length-append c.size_line
      (b'\r' ∷ b'\n' ∷ (c.bytes ++ b'\r' ∷ b'\n' ∷ chunks_text cs (last_text size rest))),
)

-- The bytes of all chunks are the body, in order. What the size lines say is not looked at.
pub chunks-Reads :
    (cs : List Chunk) (text pre size rest : Bytes) (r : Request)
    → r.validation_phase ≡ on_chunked_body
    → text ≡ pre ++ chunks_text cs (last_text size rest)
    → 0 < length pre
    → AllPlain cs
    → Without b'\r' size
    → Reads (at text (length pre) r) (
        at text
          (left_over text size rest)
          (record r { validation_phase = complete; body = r.body ++ chunk_bytes cs }))
chunks-Reads [] text pre size rest r phase here begun plain size_plain =
    let offset : length text - (length size + 4 + length rest) ≡ length pre = omega (
      arith,
      ap length here,
      length-append pre (last_text size rest),
      length-last_text size rest,
    ) in
    rw offset (
      rw append-nil (
        Reads-completed (rw phase)
          (step_on_chunked_body (at text (length pre) r) phase
            ∙ parse_last_chunk text pre size [] rest r here size_plain tt begun refl)
          refl))
chunks-Reads (c ∷ cs) text pre size rest r phase here begun (plain, plains) size_plain =
    let tail = chunks_text cs (last_text size rest) in
    let pre1 = through pre c.size_line in
    let pre2 = through pre1 c.bytes in
    let here1 = here ∙ through-append pre c.size_line (c.bytes ++ b'\r' ∷ b'\n' ∷ tail) in
    let here2 = here1 ∙ through-append pre1 c.bytes tail in
    let offset : length pre2 ≡ length pre + length c.size_line + 2 + length c.bytes + 2 =
      omega (arith, length-through pre c.size_line, length-through pre1 c.bytes) in
    let r' = record r { body = r.body ++ c.bytes } in
    let final : Bytes → Session = λ b.
      at text (left_over text size rest) (record r { validation_phase = complete; body = b }) in
    more (rw phase)
      (step_on_chunked_body (at text (length pre) r) phase
        ∙ parse_chunk text pre c.size_line c.bytes tail r here plain.size_plain plain.bytes_plain
            begun plain.nonempty)
      (ground (
        arith,
        length_by_line text pre1 c.bytes tail here1,
        length-through pre c.size_line,
        nonempty_rest cs size rest,
      ))
      (subst₂ (λ n b. Reads (at text n r') (final b)) offset
        (append_assoc r.body c.bytes (chunk_bytes cs))
        (chunks-Reads cs text pre2 size rest r' phase here2 (omega (arith, offset)) plains
          size_plain))
