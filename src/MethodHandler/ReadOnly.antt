-- ===== src/MethodHandler/ReadOnly.antt =====
-- GetMethodHandler (src/HttpProcessor/MethodHandler.cpp) and the effects that write.
use create_httpserver_from_b.Common.{
  refl, inl, inr, not, ◌∷◌, [], ◌++◌, Bytes, codes, List, if◌then◌else◌, eq_bytes, Option-cases,
}
use create_httpserver_from_b.Status.{StatusCode, not_found_404, internal_server_error_500}
use create_httpserver_from_b.Exchange.{
  System, FileInfo, opened_read, Exchange, threw, M, throw, return, ◌>>=◌, ◌>>◌,
}
use create_httpserver_from_b.Exchange.World.{
  Keeps, bind_exec-Keeps, if-Keeps, branch-Keeps, writes-quiet,
}
use create_httpserver_from_b.MethodHandler.{
  open_static, set_uri, file_info_compare, read_entries, erase_first, write_index,
  drop_double_slash, auto_index_to_body, run_get,
}

module _ (os : System) where
  open_static-Keeps : (path : Bytes) (x : Exchange) → Keeps x (open_static os path x)
  unfolding open_static
  open_static-Keeps path x = elim (Option-cases (os.open_read path)) [
    | inl none_left ↦
        rw (none_left, open_static)
          (record { kept = writes-quiet x.effects (opened_read path) refl })
    | inr (fd, e) ↦
        rw (e, open_static) (record { kept = writes-quiet x.effects (opened_read path) refl })
  ]

  erase_first-Keeps : (infos : List FileInfo) (x : Exchange) → Keeps x (erase_first infos x)
  unfolding erase_first
  erase_first-Keeps [] x = record { kept = refl }
  erase_first-Keeps (f ∷ fs) x = record { kept = refl }

  write_index-Keeps : (infos : List FileInfo) (x : Exchange) → Keeps x (write_index os infos x)
  unfolding write_index
  write_index-Keeps infos x = record { kept = refl }

  quiet : (code : StatusCode) (x : Exchange) → Keeps x (throw {A = Unit {0}} code x)
  quiet code x = record { kept = refl }

  -- What autoIndexToBody does with the sorted entries
  entries_page : Bytes → Bytes → List FileInfo → M (Unit {0})
  entries_page root_path dir infos =
      ◌>>=◌ (if eq_bytes dir (root_path ++ codes "/") then erase_first infos else return infos)
        (write_index os)

  entries_page-Keeps :
      (root_path dir : Bytes) (infos : List FileInfo) (x : Exchange)
      → Keeps x (entries_page root_path dir infos x)
  unfolding entries_page
  entries_page-Keeps root_path dir infos x =
      bind_exec-Keeps x _ (write_index os)
        (if-Keeps (eq_bytes dir (root_path ++ codes "/")) (erase_first infos) (return infos) x
          (erase_first-Keeps infos x) (record { kept = refl }))
        write_index-Keeps

  auto_index-Keeps : (dir : Bytes) (x : Exchange) → Keeps x (auto_index_to_body os dir x)
  unfolding auto_index_to_body set_uri entries_page
  auto_index-Keeps dir x =
      let r = x.response in
      let infos = os.sort file_info_compare (read_entries os dir (os.readdir dir)) in
      let listed : M (Unit {0}) = ◌>>=◌ (erase_first infos) (entries_page r.root_path dir) in
      let failed : M (Unit {0}) = throw internal_server_error_500 in
      let go : M (Unit {0}) =
        set_uri (drop_double_slash x.request.uri)
        >> (if os.opendir_ok dir then listed else failed) in
      branch-Keeps (not (eq_bytes r.file_path (r.file_path ++ r.file_name))) (threw not_found_404 x)
        (go x) x (quiet not_found_404 x)
        (bind_exec-Keeps x (set_uri (drop_double_slash x.request.uri) x) _ (record { kept = refl })
          (λ _ y.
            if-Keeps (os.opendir_ok dir) listed failed y
              (bind_exec-Keeps y (erase_first infos y) (entries_page r.root_path dir)
                (erase_first-Keeps infos y) (entries_page-Keeps r.root_path dir))
              (quiet internal_server_error_500 y)))

  pub run_get-Keeps : (x : Exchange) → Keeps x (run_get os x)
  unfolding run_get
  run_get-Keeps x =
      let r = x.response in
      let missing : M (Unit {0}) = throw not_found_404 in
      let listed = if r.auto_index then auto_index_to_body os r.file_path else missing in
      let index = if r.index_exist then open_static os (r.file_path ++ r.index_name) else listed in
      let unnamed = if not (eq_bytes r.file_name []) then missing else index in
      let file = if r.file_exist then open_static os (r.file_path ++ r.file_name) else unnamed in
      if-Keeps (not r.path_exist) missing file x (quiet not_found_404 x) (
        if-Keeps r.file_exist (open_static os (r.file_path ++ r.file_name)) unnamed x
          (open_static-Keeps (r.file_path ++ r.file_name) x)
          (if-Keeps (not (eq_bytes r.file_name [])) missing index x (quiet not_found_404 x) (
            if-Keeps r.index_exist (open_static os (r.file_path ++ r.index_name)) listed x
              (open_static-Keeps (r.file_path ++ r.index_name) x)
              (if-Keeps r.auto_index (auto_index_to_body os r.file_path) missing x
                (auto_index-Keeps r.file_path x) (quiet not_found_404 x)))))
