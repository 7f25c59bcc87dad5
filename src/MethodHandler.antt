-- ===== src/MethodHandler.antt =====
-- src/HttpProcessor/MethodHandler.cpp: the handlers of requests that no CGI program answers.
pub mod ReadOnly
pub mod OneWrite
use create_httpserver_from_b.Common.{
  ℕ, Bool, true, false, not, ◌&&◌, List, [], ◌∷◌, ◌++◌, Option, none, some, Bytes, codes, ltb, ◌==◌,
  if◌then◌else◌, eq_bytes, contains_sub, last?, pop_back,
}
use create_httpserver_from_b.Common.Decimal.{show}
use create_httpserver_from_b.Status.{bad_request_400, not_found_404, internal_server_error_500}
use create_httpserver_from_b.Message.{Request, Response}
use create_httpserver_from_b.Exchange.{
  System, FileInfo, FileStat, Effect, opened_read, opened_truncate, opened_append, removed, M,
  Exchange, returned, threw, aborted, bind_exec, ◌>>=◌, ◌>>◌, return, throw, abort, update_response,
  note,
}

-- std::string::operator<
pub bytes_lt : Bytes → Bytes → Bool
bytes_lt [] [] = false
bytes_lt [] (y ∷ ys) = true
bytes_lt (x ∷ xs) [] = false
bytes_lt (x ∷ xs) (y ∷ ys) = if x == y then bytes_lt xs ys else ltb x y

-- MethodHandler::fileInfoCompare
file_info_compare : FileInfo → FileInfo → Bool
unfolding bytes_lt
file_info_compare f g = bytes_lt f.name g.name

generate_size : ℕ → Bytes
unfolding show
generate_size size = show size ++ codes " Byte"

-- The table row of one entry; `base` is the URI without its last slash.
info_row : System → Bytes → FileInfo → Bytes
unfolding generate_size
info_row os base f =
    codes "\t\t\t<tr><td><a href=\""
    ++ ((if eq_bytes base (codes "/") then [] else base)
        ++ (codes "/"
            ++ (f.name
                ++ (codes "\">"
                    ++ (f.name
                        ++ (f.is_dir
                            ++ (codes "</a></td><td>"
                                ++ (os.local_date f.date
                                    ++ (codes "</td><td>"
                                        ++ (generate_size f.size ++ codes "</td></tr>\n"))))))))))

info_rows : System → Bytes → List FileInfo → Bytes
unfolding info_row
info_rows os base [] = []
info_rows os base (f ∷ fs) = info_row os base f ++ info_rows os base fs

index_head : Bytes → Bytes
index_head uri =
    codes "<html>\n\t<head>\n\t\t<style>\n\t\t\ttable { width: 70%; }\n"
    ++ (codes "\t\t\tth, td { text-align: left; }\n\t\t</style>\n\t</head>\n\t<body>\n"
        ++ (codes "\t\t<h1>Index of "
            ++ (uri
                ++ (codes "</h1>\n\t\t<table>\n"
                    ++ codes "\t\t\t<tr><th>Name</th><th>Last Modified</th><th>Size</th></tr>\n"))))

abbrev index_foot : Bytes
index_foot = codes "\t\t</table>\n\t</body>\n</html>"

-- `if (uri != "/" && uri[uri.length() - 1] == '/') uri.pop_back();`
pub row_base : Bytes → Bytes
row_base uri = elim (last? uri) [
  | none ↦ uri
  | some c ↦ if not (eq_bytes uri (codes "/")) && c == b'/' then pop_back uri else uri
]

-- The loop over readdir: an entry that stat refuses is left out.
entry_info : Bytes → Option FileStat → List FileInfo → List FileInfo
entry_info file_name none infos = infos
entry_info file_name (some st) infos =
    record {
      is_dir = if st.is_directory then codes "/" else [];
      name = file_name;
      date = st.mtime;
      size = st.byte_size;
    }
    ∷ infos

pub read_entries : System → Bytes → List Bytes → List FileInfo
unfolding entry_info
read_entries os target_directory [] = []
read_entries os target_directory (file_name ∷ names) =
    entry_info file_name (os.stat (target_directory ++ file_name))
      (read_entries os target_directory names)

-- `fileList.erase(fileList.begin())`, which is undefined on an empty list
pub erase_first : List FileInfo → M (List FileInfo)
erase_first [] = abort
erase_first (f ∷ fs) = return fs

pub set_uri : Bytes → M (Unit {0})
set_uri uri x = let r = x.request in returned tt (record x { request = record r { uri = uri } })

-- The page is written behind the body, and the URI loses its last slash.
pub write_index : System → List FileInfo → M (Unit {0})
unfolding index_head info_rows set_uri
write_index os infos x =
    let uri = x.request.uri in
    let page = index_head uri ++ (info_rows os (row_base uri) infos ++ index_foot) in
    (do set_uri (row_base uri); update_response (λ r. record r { body = r.body ++ page })) x

pub drop_double_slash : Bytes → Bytes
drop_double_slash uri = if contains_sub (codes "//") uri then pop_back uri else uri

-- MethodHandler::autoIndexToBody
pub auto_index_to_body : System → Bytes → M (Unit {0})
unfolding drop_double_slash
auto_index_to_body os target_directory x =
    let r = x.response in
    if not (eq_bytes r.file_path (r.file_path ++ r.file_name))
    then threw not_found_404 x
    else (do
      set_uri (drop_double_slash x.request.uri)
      if os.opendir_ok target_directory
          then (do
            infos ← erase_first (
                os.sort file_info_compare
                  (read_entries os target_directory (os.readdir target_directory)))
            infos' ←
                (if eq_bytes target_directory (r.root_path ++ codes "/")
                  then erase_first infos
                  else return infos)
            write_index os infos')
          else throw internal_server_error_500)
        x

-- `open(…, O_RDONLY)` and what both callers do with the descriptor
pub open_static : System → Bytes → M (Unit {0})
open_static os path = do
  note (opened_read path)
  elim (os.open_read path) [
    | none ↦ throw not_found_404
    | some fd ↦ update_response (λ r. record r { static_read_file_fd = some fd })
  ]

-- GetMethodHandler::methodRun
pub run_get : System → M (Unit {0})
unfolding open_static
run_get os x =
    let r = x.response in
    (if not r.path_exist
        then throw not_found_404
        else if r.file_exist
        then open_static os (r.file_path ++ r.file_name)
        else if not (eq_bytes r.file_name [])
        then throw not_found_404
        else if r.index_exist
        then open_static os (r.file_path ++ r.index_name)
        else if r.auto_index
        then auto_index_to_body os r.file_path
        else throw not_found_404)
      x

-- The name that a body without a file name is written to (POST and PUT)
pub target_name : Response → Bytes
target_name r =
    if not r.file_exist && eq_bytes r.file_name []
    then (if eq_bytes r.index_name [] then codes "default.temp" else r.index_name)
    else r.file_name

-- `if (access(file_name) == 0) file_exist = true;`, which only POST has, in the same case
post_exists : System → Response → Bool
post_exists os r =
    if not r.file_exist && eq_bytes r.file_name []
    then os.access_ok (target_name r)
    else r.file_exist

pub write_static : Option ℕ → M (Unit {0})
write_static none = throw internal_server_error_500
write_static (some fd) = update_response (λ r. record r { static_write_file_fd = some fd })

-- PostMethodHandler::methodRun
pub run_post : System → M (Unit {0})
unfolding target_name post_exists write_static
run_post os x =
    let r = x.response in
    let path = r.file_path ++ target_name r in
    (if not r.path_exist then throw bad_request_400 else (do
      update_response (λ q. record q { file_name = target_name r; file_exist = post_exists os r })
      note (opened_truncate path)
      write_static (os.open_truncate path)))
      x

-- PutMethodHandler::methodRun
pub run_put : System → M (Unit {0})
unfolding target_name write_static
run_put os x =
    let r = x.response in
    let path = r.file_path ++ target_name r in
    (if not r.path_exist then throw bad_request_400 else (do
      update_response (λ q. record q { file_name = target_name r })
      note (opened_append path)
      write_static (os.open_append path)))
      x

-- DeleteMethodHandler::methodRun
pub run_delete : System → M (Unit {0})
run_delete os x =
    let r = x.response in
    let path = r.file_path ++ r.file_name in
    (if not r.path_exist
        then throw bad_request_400
        else if r.file_exist
        then (do
          note (removed path)
          if os.remove_ok path then return tt else throw internal_server_error_500)
        else return tt)
      x
