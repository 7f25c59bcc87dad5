-- ===== src/Mime.antt =====
-- src/ResponseGenerator/Mime.cpp: the media type of a file name.
use create_httpserver_from_b.Common.{
  ℕ, List, [], ◌∷◌, Option, none, some, Bytes, codes, drop, last_index_of, lookup,
}

-- `m_mime_map`, as the constructor fills it; the second insertion of ".ico" does nothing.
abbrev pub mime_map : List (Bytes × Bytes)
mime_map =
    (codes ".html", codes "text/html")
    ∷ (codes ".htm", codes "text/html")
    ∷ (codes ".css", codes "text/css")
    ∷ (codes ".ico", codes "image/x-icon")
    ∷ (codes ".avi", codes "video/x-msvideo")
    ∷ (codes ".bmp", codes "image/bmp")
    ∷ (codes ".doc", codes "application/msword")
    ∷ (codes ".gif", codes "image/gif")
    ∷ (codes ".gz", codes "application/x-gzip")
    ∷ (codes ".jpg", codes "image/jpeg")
    ∷ (codes ".jpeg", codes "image/jpeg")
    ∷ (codes ".png", codes "image/png")
    ∷ (codes ".txt", codes "text/plain")
    ∷ (codes ".mp3", codes "audio/mp3")
    ∷ (codes ".pdf", codes "application/pdf")
    ∷ (codes "default", codes "text/html")
    ∷ []

or_default : Option Bytes → Bytes
or_default none = codes "text/html"
or_default (some mime) = mime

extension_from : Bytes → Option ℕ → Bytes
extension_from file none = []
extension_from file (some dot) = drop dot file

unfoldable pub get_mime : Bytes → Bytes
unfolding or_default extension_from lookup last_index_of
get_mime target_file =
    or_default (lookup (extension_from target_file (last_index_of b'.' target_file)) mime_map)
