-- ===== src/Exchange/Fixture.antt =====
-- A system, a server and exchanges for the tests of the handlers.
use create_httpserver_from_b.Common.{
  Bool, List, true, ◌||◌, [], ◌∷◌, none, some, Bytes, codes, eq_bytes, if◌then◌else◌,
}
use create_httpserver_from_b.Message.{new_request, new_response}
use create_httpserver_from_b.Config.{Location, ServerConf, empty_server}
use create_httpserver_from_b.Exchange.{System, FileInfo, Exchange}

-- `www` has the file `a.html`, and everything that is opened is opened.
pub insert_by : (FileInfo → FileInfo → Bool) → FileInfo → List FileInfo → List FileInfo
insert_by less f [] = f ∷ []
insert_by less f (g ∷ gs) = if less g f then g ∷ insert_by less f gs else f ∷ g ∷ gs

pub sort_by : (FileInfo → FileInfo → Bool) → List FileInfo → List FileInfo
unfolding insert_by
sort_by less [] = []
sort_by less (f ∷ fs) = insert_by less f (sort_by less fs)

unfoldable pub sample_system : System
unfolding eq_bytes
sample_system = record {
  access_ok = λ path. eq_bytes path (codes "www") || eq_bytes path (codes "www/a.html");
  opendir_ok = λ path. eq_bytes path (codes "www") || eq_bytes path (codes "www/");
  readdir = λ path. [];
  stat = λ path. none;
  open_read = λ path. some 7;
  open_truncate = λ path. some 8;
  open_append = λ path. some 9;
  remove_ok = λ path. true;
  local_date = λ date. codes "today";
  pipe_to_child = some (record { read_end = 3; write_end = 4 });
  pipe_to_parent = none;
  fork = none;
  sort = sort_by;
}

abbrev pub sample_location : Location
sample_location = record {
  language = [];
  root = codes "www";
  auto_index = [];
  index = codes "index.html";
  ourcgi_pass = [];
  ourcgi_index = [];
  uploaded_path = [];
  accepted_method = codes "GET POST";
  redirection = [];
  max_body_size = codes "100";
}

abbrev pub sample_server : ServerConf
sample_server = record empty_server {
  listen = codes "80" ∷ [];
  locations = (codes "/", sample_location) ∷ [];
}

abbrev pub asking : Bytes → Bytes → Exchange
asking method uri = record {
  request = record new_request { method = method; uri = uri };
  response = new_response;
  effects = [];
}
