-- ===== src/Utils.antt =====
-- src/utils: ft_strtrim, ft_toLower and ft_config_split.
pub mod Trim
mod Tests
use create_httpserver_from_b.Common.{
  ℕ, ◌+◌, Bool, true, false, ◌&&◌, List, [], ◌∷◌, map, Bytes, leb, if◌then◌else◌, is_space, empty?,
}
use create_httpserver_from_b.Common.Decimal.{skip_spaces}

-- The loop of ft_strtrim at the end of the string: it drops the spaces behind the last other byte.
unfoldable pub trim_end : Bytes → Bytes
trim_end [] = []
trim_end (c ∷ s) = let rest = trim_end s in if empty? rest && is_space c then [] else c ∷ rest

unfoldable pub ft_strtrim : Bytes → Bytes
unfolding trim_end skip_spaces
ft_strtrim s = trim_end (skip_spaces s)

-- std::tolower in the C locale
unfoldable pub to_lower : ℕ → ℕ
to_lower c = if leb b'A' c && leb c b'Z' then c + 32 else c

unfoldable pub ft_to_lower : Bytes → Bytes
unfolding to_lower
ft_to_lower s = map to_lower s

-- A word in front of the words read so far, unless it is empty.
abbrev pub push_word : Bytes → List Bytes → List Bytes
push_word [] ws = ws
push_word (c ∷ w) ws = (c ∷ w) ∷ ws

-- `while (iss >> buffer)`: the first part is the word that the rest of the line begins with.
unfoldable pub split_words : Bytes → Bytes × List Bytes
split_words [] = ([], [])
split_words (c ∷ s) =
    let (w, ws) = split_words s in if is_space c then ([], push_word w ws) else (c ∷ w, ws)

unfoldable pub ft_config_split : Bytes → List Bytes
unfolding split_words
ft_config_split line = let (w, ws) = split_words line in push_word w ws
