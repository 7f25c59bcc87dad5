-- ===== src/Utils/Tests.antt =====
-- ft_strtrim at a concrete string.
use create_httpserver_from_b.Common.{◌≡◌, ◌++◌, Bytes, codes}
use create_httpserver_from_b.Utils.{ft_strtrim}
use create_httpserver_from_b.Utils.Trim.{Spaces, NoSpaceFirst, NoSpaceLast, ft_strtrim_lem}

ft_strtrim_lem_example :
    (before : Bytes) × (after : Bytes) × (codes "  a b "
      ≡ before ++ (ft_strtrim (codes "  a b ") ++ after))
    × Spaces before
    × Spaces after
    × NoSpaceFirst (ft_strtrim (codes "  a b "))
    × NoSpaceLast (ft_strtrim (codes "  a b "))
ft_strtrim_lem_example = ft_strtrim_lem (codes "  a b ")
