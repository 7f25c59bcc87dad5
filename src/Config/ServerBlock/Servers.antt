-- ===== src/Config/ServerBlock/Servers.antt =====
-- What the reading of a whole configuration (Config::Config, Config::set_m_server_conf) ends with.
use create_httpserver_from_b.Common.{
  ℕ, zero, suc, ◌+◌, ◌≤◌, ◌<◌, Bool, true, false, List, [], ◌∷◌, ◌++◌, Option, none, some, Bytes,
  length, if◌then◌else◌, arith,
}
use create_httpserver_from_b.Utils.{ft_config_split}
use create_httpserver_from_b.Config.{ServerConf}
use create_httpserver_from_b.Config.Loaded.{
  Loaded, done, exited, undefined, stuck, bind_loaded, ContentListType, lines_of,
  set_vaild_content_list,
}
use create_httpserver_from_b.Config.LocationBlock.Valid.{Gives}
use create_httpserver_from_b.Config.ServerBlock.{
  PageReads, get_parse_server_block, opens_server, conf_lines, set_m_server_conf, contents_read,
  load_config,
}
use create_httpserver_from_b.Config.ServerBlock.Valid.{ValidServer, get_parse_server_block-Gives}

abbrev pub ValidServers : List ServerConf → Type 0
ValidServers [] = Unit {0}
ValidServers (s ∷ ss) = ValidServer s × ValidServers ss

append-ValidServers :
    (ss : List ServerConf) (s : ServerConf)
    → ValidServers ss
    → ValidServer s
    → ValidServers (ss ++ s ∷ [])
append-ValidServers [] s hs h = (h, tt)
append-ValidServers (t ∷ ts) s (h, hs) new = (h, append-ValidServers ts s hs new)

module _ (n : ℕ) (next : ServerConf → List Bytes → Loaded (List ServerConf))
    (go : (server : ServerConf) (lines : List Bytes)
      → ValidServer server
      → length lines ≤ n
      → Gives 0 ValidServers (next server lines)) where
  block-Gives :
      (r : Loaded ServerConf) → Gives n ValidServer r → Gives 0 ValidServers (bind_loaded r next)
  block-Gives (done server ls) (h, shorter) = go server ls h shorter
  block-Gives exited h = tt
  block-Gives undefined h = tt
  block-Gives stuck h = h

  opened-Gives :
      (b : Bool) (r : Loaded ServerConf)
      → Gives n ValidServer r
      → Gives 0 ValidServers (if b then bind_loaded r next else exited)
  opened-Gives true r h = block-Gives r h
  opened-Gives false r h = tt

conf_lines-Gives :
    (pages : PageReads) (list : ContentListType) (fuel : ℕ) (servers : List ServerConf)
    (lines : List Bytes)
    → length lines < fuel
    → ValidServers servers
    → Gives 0 ValidServers (conf_lines pages list fuel servers lines)
unfolding conf_lines
conf_lines-Gives pages list zero servers lines enough hs = absurd (omega arith)
conf_lines-Gives pages list (suc fuel) servers [] enough hs = (hs, omega arith)
conf_lines-Gives pages list (suc fuel) servers (line ∷ rest) enough hs =
    opened-Gives (length rest) (λ server. conf_lines pages list fuel (servers ++ server ∷ []))
      (λ server ls valid shorter.
        conf_lines-Gives pages list fuel (servers ++ server ∷ []) ls (omega arith)
          (append-ValidServers servers server hs valid))
      (opens_server (ft_config_split line)) (get_parse_server_block pages list rest)
      (get_parse_server_block-Gives pages list rest)

-- Whatever the list of names and the configuration file hold, and whatever the reads of the error
-- pages answer, the loops of the loader end. When it produces servers, it has read every line, and
-- each server has a port, a positive size limit, and only locations with a root and methods whose
-- size limit is positive or empty.
pub load_config-Gives :
    (pages : PageReads) (conf list : Option Bytes)
    → Gives 0 ValidServers (load_config pages conf list)
unfolding load_config set_m_server_conf
load_config-Gives pages conf none = tt
load_config-Gives pages conf (some text) = listed (set_vaild_content_list (lines_of text) 0 []) conf
  where
    listed :
        (list : Option ContentListType) (conf : Option Bytes)
        → Gives 0 ValidServers (contents_read pages list conf)
    listed none conf = tt
    listed (some list) none = tt
    listed (some list) (some text') =
        conf_lines-Gives pages list (length (lines_of text') + 1) [] (lines_of text') (omega arith)
          tt
