-- ===== src/Config/ServerBlock/FirstEntry.antt =====
-- A server block without locations (Config::get_parse_server_block, src/Config/content.cpp).
use mathlib.Core.Path.{subst}
use create_httpserver_from_b.Common.{
  ℕ, zero, suc, ◌+◌, ◌≤◌, ◌≡◌, ◌∙◌, refl, sym, ap, inl, inr, true, false, List, [], ◌∷◌, ◌++◌,
  Option, none, some, Bytes, codes, length, length-append, if◌then◌else◌, is_some, eq_bytes,
  eq_bytes_iff, lookup, lookup-put, Bool-cases, arith,
}
use create_httpserver_from_b.Utils.{ft_config_split}
use create_httpserver_from_b.Config.Loaded.{
  done, bind_loaded, ContentListType, insert_new, is_vaild_server_block_content,
}
use create_httpserver_from_b.Config.ServerBlock.{
  Block, server_words, server_lines, PageReads, close_server, empty_block, get_parse_server_block,
}

-- Lines that each give words to a name of the list
abbrev pub Entries : ContentListType → List Bytes → List (Bytes × List Bytes) → Type 0
Entries list [] [] = Unit {0}
Entries list [] (d ∷ ds) = ⊥
Entries list (line ∷ lines) [] = ⊥
Entries list (line ∷ lines) ((w, ws) ∷ ds) =
    (ft_config_split line ≡ w ∷ ws)
    × (eq_bytes w (codes "}") ≡ false)
    × (is_vaild_server_block_content w list ≡ false)
    × (eq_bytes w (codes "location") ≡ false)
    × Entries list lines ds

-- The map behind these lines
abbrev pub filled :
    List (Bytes × List Bytes) → List (Bytes × List Bytes) → List (Bytes × List Bytes)
filled [] conf = conf
filled ((w, ws) ∷ ds) conf = filled ds (insert_new w ws conf)

or_else {ℓ} : {A : Type ℓ} → Option A → Option A → Option A
or_else none p = p
or_else (some a) p = some a

or_else-none {ℓ} : {A : Type ℓ} (o : Option A) → or_else o none ≡ o
unfolding or_else
or_else-none none = refl
or_else-none (some a) = refl

or_else_there {ℓ} : {A : Type ℓ} (o p : Option A) → is_some o ≡ true → o ≡ or_else o p
unfolding or_else
or_else_there none p h = absurd cc
or_else_there (some a) p h = refl

or_else_absent {ℓ} : {A : Type ℓ} (o p : Option A) → is_some o ≡ false → p ≡ or_else o p
unfolding or_else
or_else_absent none p h = refl
or_else_absent (some a) p h = absurd cc

lookup-insert_other :
    {V : Type 0} (k w : Bytes) (v : V) (m : List (Bytes × V))
    → eq_bytes w k ≡ false
    → lookup k (insert_new w v m) ≡ lookup k m
unfolding insert_new
lookup-insert_other k w v m other = elim (Bool-cases (is_some (lookup w m))) [
  | inl there ↦ rw (there, insert_new) refl
  | inr absent ↦ rw (absent, insert_new) (lookup-put w k v m ∙ rw other refl)
]

lookup-insert_same :
    {V : Type 0} (w : Bytes) (v : V) (m : List (Bytes × V))
    → lookup w (insert_new w v m) ≡ or_else (lookup w m) (some v)
unfolding insert_new
lookup-insert_same w v m = elim (Bool-cases (is_some (lookup w m))) [
  | inl there ↦ rw (there, insert_new) (or_else_there (lookup w m) (some v) there)
  | inr absent ↦
      rw (absent, insert_new)
        (lookup-put w w v m
          ∙ (ap (λ b. if b then some v else lookup w m) ((eq_bytes_iff w w).1 refl)
              ∙ or_else_absent (lookup w m) (some v) absent))
]

or_else_assoc {ℓ} :
    {A : Type ℓ} (o : Option A) (a : A) (p : Option A)
    → or_else (or_else o (some a)) p ≡ or_else o (some a)
unfolding or_else
or_else_assoc none a p = refl
or_else_assoc (some b) a p = refl

filled-lookup :
    (k : Bytes) (ds conf : List (Bytes × List Bytes))
    → lookup k (filled ds conf) ≡ or_else (lookup k conf) (lookup k ds)
unfolding lookup
filled-lookup k [] conf = sym (or_else-none (lookup k conf))
filled-lookup k ((w, ws) ∷ ds) conf =
    filled-lookup k ds (insert_new w ws conf) ∙ elim (Bool-cases (eq_bytes w k)) [
      | inl same ↦
          let e = (eq_bytes_iff w k).0 same in
          let first : lookup k (insert_new w ws conf) ≡ or_else (lookup k conf) (some ws) =
            subst (λ j. lookup j (insert_new w ws conf) ≡ or_else (lookup j conf) (some ws)) e
              (lookup-insert_same w ws conf) in
          ap (λ o. or_else o (lookup k ds)) first
          ∙ (or_else_assoc (lookup k conf) ws (lookup k ds)
              ∙ ap (λ b. or_else (lookup k conf) (if b then some ws else lookup k ds)) (sym same))
      | inr other ↦
          ap (λ o. or_else o (lookup k ds)) (lookup-insert_other k w ws conf other)
          ∙ ap (λ b. or_else (lookup k conf) (if b then some ws else lookup k ds)) (sym other)
    ]

server_lines-Entries :
    (list : ContentListType) (lines rest : List Bytes) (ds : List (Bytes × List Bytes)) (b : Block)
    (close : Bytes) (fuel : ℕ) (more : List Bytes)
    → Entries list lines ds
    → ft_config_split close ≡ codes "}" ∷ more
    → length lines + 1 ≤ fuel
    → server_lines list fuel b (lines ++ close ∷ rest)
      ≡ done (record b { conf = filled ds b.conf }) rest
unfolding server_lines server_words eq_bytes
server_lines-Entries list lines rest ds b close zero more entries ends enough = absurd (omega arith)
server_lines-Entries list [] rest [] b close (suc fuel) more entries ends enough =
    rw (ends, server_lines, server_words) refl
server_lines-Entries list [] rest (d ∷ ds) b close (suc fuel) more entries ends enough =
    absurd entries
server_lines-Entries list (line ∷ lines) rest [] b close (suc fuel) more entries ends enough =
    absurd entries
server_lines-Entries list (line ∷ lines) rest ((w, ws) ∷ ds) b close (suc fuel) more
      (split, open_, valid, plain, entries) ends enough =
    rw (split, open_, valid, plain, server_lines, server_words)
      (server_lines-Entries list lines rest ds (record b { conf = insert_new w ws b.conf }) close
        fuel more entries ends (omega arith))

-- Lines that each give words to a name of the list, other than location, with a closing line behind
-- them: the block ends there, its contents are those of the names, and a name that stands in several
-- lines has the words of the first one.
pub get_parse_server_block-first :
    (pages : PageReads) (list : ContentListType) (lines rest : List Bytes)
    (ds : List (Bytes × List Bytes)) (close : Bytes) (more : List Bytes)
    → Entries list lines ds
    → ft_config_split close ≡ codes "}" ∷ more
    → (get_parse_server_block pages list (lines ++ close ∷ rest)
        ≡ close_server pages (record { conf = filled ds []; locations = [] }) rest)
      × ((k : Bytes) → lookup k (filled ds []) ≡ lookup k ds)
unfolding get_parse_server_block lookup or_else
get_parse_server_block-first pages list lines rest ds close more entries ends =
    let all = lines ++ close ∷ rest in
    (
      ap (λ o. bind_loaded o (close_server pages))
          (server_lines-Entries list lines rest ds empty_block close (length all + 1) more entries
            ends (omega (arith, length-append lines (close ∷ rest)))),
      λ k. filled-lookup k ds [],
    )
