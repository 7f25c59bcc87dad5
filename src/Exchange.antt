-- ===== src/Exchange.antt =====
-- What the handlers of one request share: the request and response that they write, a record of
-- what they did to the file system and to processes, and exceptions. The operating system is a
-- parameter: `System` holds what its calls answer, and nothing is assumed of the answers.
pub mod World
pub mod Fixture
use create_httpserver_from_b.Common.{ℕ, Bool, true, false, List, [], ◌∷◌, ◌++◌, Option, Bytes}
use create_httpserver_from_b.Status.{StatusCode}
use create_httpserver_from_b.Message.{Request, Response}

-- A directory entry of a listing (include/MethodHandler.hpp).
pub record FileInfo : Type 0 where
  pub is_dir : Bytes
  pub name : Bytes
  pub date : ℕ
  pub size : ℕ

-- What stat answers, of the fields that are read
pub record FileStat : Type 0 where
  pub is_directory : Bool
  pub mtime : ℕ
  pub byte_size : ℕ

pub record Pipe : Type 0 where
  pub read_end : ℕ
  pub write_end : ℕ

-- `sort` is std::sort, with the comparison that it is given.
pub record System : Type 0 where
  pub access_ok : Bytes → Bool
  pub opendir_ok : Bytes → Bool
  pub readdir : Bytes → List Bytes
  pub stat : Bytes → Option FileStat
  pub open_read : Bytes → Option ℕ
  pub open_truncate : Bytes → Option ℕ
  pub open_append : Bytes → Option ℕ
  pub remove_ok : Bytes → Bool
  pub local_date : ℕ → Bytes
  pub pipe_to_child : Option Pipe
  pub pipe_to_parent : Option Pipe
  pub fork : Option ℕ
  pub sort : (FileInfo → FileInfo → Bool) → List FileInfo → List FileInfo

pub data Effect : Type 0 where
  opened_read opened_truncate opened_append removed : Bytes → Effect
  closed forked : ℕ → Effect

pub record Exchange : Type 0 where
  pub request : Request
  pub response : Response
  pub effects : List Effect

-- A handler returns, throws a StatusCode, or aborts: it reads or erases where there is nothing, or
-- an exception that no handler catches leaves it.
pub data Exec {ℓ} (A : Type ℓ) : Type ℓ where
  returned : A → Exchange → Exec A
  threw : StatusCode → Exchange → Exec A
  aborted : Exchange → Exec A

abbrev pub M {ℓ} : Type ℓ → Type ℓ
M A = Exchange → Exec A

abbrev pub bind_exec {ℓ κ} : {A : Type ℓ} {B : Type κ} → Exec A → (A → M B) → Exec B
bind_exec (returned a x) f = f a x
bind_exec (threw code x) f = threw code x
bind_exec (aborted x) f = aborted x

infixl 5 ◌>>=◌ ◌>>◌
abbrev pub ◌>>=◌ {ℓ κ} : {A : Type ℓ} {B : Type κ} → M A → (A → M B) → M B
◌>>=◌ m f x = bind_exec (m x) f

abbrev pub ◌>>◌ {ℓ} : {B : Type ℓ} → M (Unit {0}) → M B → M B
◌>>◌ m k x = bind_exec (m x) (λ _. k)

abbrev pub return {ℓ} : {A : Type ℓ} → A → M A
return a x = returned a x

abbrev pub throw {ℓ} : {A : Type ℓ} → StatusCode → M A
throw code x = threw code x

abbrev pub abort {ℓ} : {A : Type ℓ} → M A
abort x = aborted x

abbrev pub update_response : (Response → Response) → M (Unit {0})
update_response f x = returned tt (record x { response = f x.response })

abbrev pub note : Effect → M (Unit {0})
note e x = returned tt (record x { effects = x.effects ++ e ∷ [] })
