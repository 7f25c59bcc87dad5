-- ===== src/MethodHandler/OneWrite.antt =====
-- What POST, PUT and DELETE (src/HttpProcessor/MethodHandler.cpp) change in the file system.
use create_httpserver_from_b.Common.{
  ℕ, ◌≡◌, ◌∙◌, refl, ap, Bool, true, false, not, [], ◌∷◌, ◌++◌, Option, none, some, Bytes,
  if◌then◌else◌,
}
use create_httpserver_from_b.Status.{bad_request_400, internal_server_error_500}
use create_httpserver_from_b.Exchange.{
  System, Effect, opened_read, opened_truncate, opened_append, removed, closed, forked, Exchange,
  Exec, M, throw, return, note, update_response, ◌>>◌,
}
use create_httpserver_from_b.Exchange.World.{world, writes, writes-append}
use create_httpserver_from_b.MethodHandler.{
  target_name, post_exists, write_static, run_post, run_put, run_delete,
}

abbrev pub WritesAt : Bytes → Effect → Type 0
WritesAt path (opened_truncate p) = p ≡ path
WritesAt path (opened_append p) = p ≡ path
WritesAt path (removed p) = p ≡ path
WritesAt path (opened_read p) = ⊥
WritesAt path (closed fd) = ⊥
WritesAt path (forked pid) = ⊥

-- Nothing is written, or one file, whose path is the response's file path and a name.
pub data OneWrite (x : Exchange) (e : Exec (Unit {0})) : Type 0 where
  nothing : writes (world e) ≡ writes x.effects → OneWrite x e
  one :
      (name : Bytes) (w : Effect)
      → WritesAt (x.response.file_path ++ name) w
      → writes (world e) ≡ writes x.effects ++ w ∷ []
      → OneWrite x e

pub if-OneWrite :
    (b : Bool) (m n : M (Unit {0})) (x : Exchange)
    → OneWrite x (m x)
    → OneWrite x (n x)
    → OneWrite x ((if b then m else n) x)
if-OneWrite true m n x h k = h
if-OneWrite false m n x h k = k

write_static-world : (o : Option ℕ) (x : Exchange) → world (write_static o x) ≡ x.effects
unfolding write_static
write_static-world none x = refl
write_static-world (some fd) x = refl

module _ (os : System) where
  pub run_post-OneWrite : (x : Exchange) → OneWrite x (run_post os x)
  unfolding run_post
  run_post-OneWrite x =
      let r = x.response in
      let path = r.file_path ++ target_name r in
      let refuse : M (Unit {0}) = throw bad_request_400 in
      let go : M (Unit {0}) =
        update_response (λ q. record q { file_name = target_name r; file_exist = post_exists os r })
        >> (note (opened_truncate path) >> write_static (os.open_truncate path)) in
      if-OneWrite (not r.path_exist) refuse go x (nothing refl) (
        one (target_name r) (opened_truncate path) refl (
          ap writes (write_static-world (os.open_truncate path) _)
          ∙ writes-append x.effects (opened_truncate path ∷ [])))

  pub run_put-OneWrite : (x : Exchange) → OneWrite x (run_put os x)
  unfolding run_put
  run_put-OneWrite x =
      let r = x.response in
      let path = r.file_path ++ target_name r in
      let refuse : M (Unit {0}) = throw bad_request_400 in
      let go : M (Unit {0}) =
        update_response (λ q. record q { file_name = target_name r })
        >> (note (opened_append path) >> write_static (os.open_append path)) in
      if-OneWrite (not r.path_exist) refuse go x (nothing refl) (
        one (target_name r) (opened_append path) refl (
          ap writes (write_static-world (os.open_append path) _)
          ∙ writes-append x.effects (opened_append path ∷ [])))

  removal-world :
      (b : Bool) (x : Exchange)
      → world ((if b then return tt else throw {A = Unit {0}} internal_server_error_500) x)
        ≡ x.effects
  removal-world true x = refl
  removal-world false x = refl

  pub run_delete-OneWrite : (x : Exchange) → OneWrite x (run_delete os x)
  unfolding run_delete
  run_delete-OneWrite x =
      let r = x.response in
      let path = r.file_path ++ r.file_name in
      let refuse : M (Unit {0}) = throw bad_request_400 in
      let ends : M (Unit {0}) =
        if os.remove_ok path then return tt else throw internal_server_error_500 in
      let remove : M (Unit {0}) = note (removed path) >> ends in
      let go : M (Unit {0}) = if r.file_exist then remove else return tt in
      if-OneWrite (not r.path_exist) refuse go x (nothing refl) (
        if-OneWrite r.file_exist remove (return tt) x
          (one r.file_name (removed path) refl (
            ap writes (removal-world (os.remove_ok path) _)
            ∙ writes-append x.effects (removed path ∷ [])))
          (nothing refl))
