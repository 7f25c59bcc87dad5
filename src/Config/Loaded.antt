-- ===== src/Config/Loaded.antt =====
-- What the parser of the configuration file (src/Config) shares: outcomes, lines, maps, and the list of
-- the names that a block may have. The files are given by their contents.
use create_httpserver_from_b.Common.{
  ℕ, ◌+◌, Bool, true, not, ◌||◌, List, [], ◌∷◌, Option, none, some, Bytes, ◌==◌, if◌then◌else◌,
  is_some, empty?, lookup, put,
}
use create_httpserver_from_b.Common.Decimal.{atol, is_positive}
use create_httpserver_from_b.Utils.{ft_config_split}
use create_httpserver_from_b.Config.{Location, ServerConf}

-- The value that was read, with the lines that are left; the process has exited with EXIT_FAILURE;
-- an element of an empty vector was read; or the fuel ran out.
pub data Loaded {ℓ} (A : Type ℓ) : Type ℓ where
  done : A → List Bytes → Loaded A
  exited : Loaded A
  undefined : Loaded A
  stuck : Loaded A

abbrev pub bind_loaded {ℓ κ} :
    {A : Type ℓ} {B : Type κ} → Loaded A → (A → List Bytes → Loaded B) → Loaded B
bind_loaded (done a rest) f = f a rest
bind_loaded exited f = exited
bind_loaded undefined f = undefined
bind_loaded stuck f = stuck

-- std::getline: the last line may end with the file.
abbrev push_line : ℕ → List Bytes → List Bytes
push_line c [] = (c ∷ []) ∷ []
push_line c (line ∷ lines) = (c ∷ line) ∷ lines

unfoldable pub lines_of : Bytes → List Bytes
lines_of [] = []
lines_of (c ∷ s) = let rest = lines_of s in if c == b'\n' then [] ∷ rest else push_line c rest

-- std::map::insert, which keeps an old value
unfoldable pub insert_new {ℓ} : {V : Type ℓ} → Bytes → V → List (Bytes × V) → List (Bytes × V)
insert_new k v m = if is_some (lookup k m) then m else put k v m

abbrev pub ContentListType : Type 0
ContentListType = List (Bytes × ℕ)

-- set_vaild_content_list: `split_line[0]` of an empty line is undefined.
content_line : List Bytes → ℕ → ContentListType → Option ContentListType
content_line [] i list = none
content_line (w ∷ ws) i list = some (insert_new w i list)

unfoldable pub set_vaild_content_list : List Bytes → ℕ → ContentListType → Option ContentListType
unfolding content_line
set_vaild_content_list [] i list = some list
set_vaild_content_list (line ∷ lines) i list = elim (content_line (ft_config_split line) i list) [
  | none ↦ none
  | some list' ↦ set_vaild_content_list lines (i + 1) list'
]

-- isVaildServerBlockContent: it answers true for a name that is not valid.
unfoldable pub is_vaild_server_block_content : Bytes → ContentListType → Bool
is_vaild_server_block_content content list = not (is_some (lookup content list))

-- isVaildServerBlock and isVaildLocationBlock answer true for a block that is not valid.
unfoldable pub is_vaild_server_block : ServerConf → Bool
is_vaild_server_block server =
    empty? server.listen
    || elim server.max_body_size [ [] ↦ true | size ∷ _ ↦ not (is_positive (atol size)) ]

unfoldable pub is_vaild_location_block : Location → Bool
is_vaild_location_block location = empty? location.root || empty? location.accepted_method

-- `map[key]`
abbrev pub value_of : Bytes → List (Bytes × Bytes) → Bytes
value_of key m = elim (lookup key m) [ none ↦ [] | some v ↦ v ]

abbrev pub values_of : Bytes → List (Bytes × List Bytes) → List Bytes
values_of key m = elim (lookup key m) [ none ↦ [] | some v ↦ v ]
