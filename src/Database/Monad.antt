-- ===== src/Database/Monad.antt =====
-- Sessions, and the monad of code that reads and writes one and may raise.
use jarvis_ai_coo.Prelude.{ℕ, Text, ◌+◌, Option, none, some, Bool, if◌then◌else◌}
use jarvis_ai_coo.Models.{Database}
use jarvis_ai_coo.Tenant.{TenantContext}
use jarvis_ai_coo.Errors.{Error}

-- What the program takes from the standard library: the n-th value of `uuid.uuid4`, the n-th
-- reading of `datetime.now`, the hexadecimal SHA-256 of a text's UTF-8 bytes, and `str.lower` and
-- `str.isalnum` (of one character), which go by the tables of Unicode.
pub record Env : Type 0 where
  pub uuid4 : ℕ → Text
  pub now : ℕ → ℕ
  pub sha256_hex : Text → Text
  pub lower : Text → Text
  pub is_alnum : ℕ → Bool

pub record Session : Type 0 where
  pub tenant : Option TenantContext
  pub stored : Database
  pub working : Database
  pub draws : ℕ

pub data Result {ℓ} (A : Type ℓ) : Type ℓ where
  ok : A → Result A
  raised : Error → Result A

abbrev pub Action : Type 0 → Type 0
Action A = Session → Result A × Session

module _ {A : Type 0} where
  unfoldable pub pure : A → Action A
  pure a s = (ok a, s)

  unfoldable pub raise : Error → Action A
  raise e s = (raised e, s)

  unfoldable pub or_raise : Option A → Error → Action A
  or_raise none e s = (raised e, s)
  or_raise (some a) e s = (ok a, s)

  unfoldable pub gets : (Session → A) → Action A
  gets f s = (ok (f s), s)

unfoldable pub raise_if : Bool → Error → Action Unit
raise_if c e s = (if c then raised e else ok tt, s)

-- A write of the session's own transaction.
unfoldable pub modify : (Database → Database) → Action Unit
modify f s = (ok tt, record s { working = f s.working })

abbrev pub resume : {A B : Type 0} → Result A → (A → Action B) → Action B
resume (ok a) f s = f a s
resume (raised e) f s = (raised e, s)

infixl 5 ◌>>=◌ ◌>>◌
-- To unfold this is to unfold the actions above.
unfoldable pub ◌>>=◌ : {A B : Type 0} → Action A → (A → Action B) → Action B
unfolding pure raise or_raise gets raise_if modify
◌>>=◌ m f s = let (r, s') = m s in resume r f s'

abbrev pub ◌>>◌ : {A B : Type 0} → Action A → Action B → Action B
m >> k = m >>= λ _. k

-- `await db.commit()`
unfoldable pub commit : Action Unit
commit s = (ok tt, record s { stored = s.working })

-- `new_uuid` and `utcnow` of app/models.py
unfoldable pub new_uuid : Env → Action Text
new_uuid env s = (ok (env.uuid4 s.draws), record s { draws = s.draws + 1 })

unfoldable pub utcnow : Env → Action ℕ
utcnow env s = (ok (env.now s.draws), record s { draws = s.draws + 1 })

-- The database outlives the request.
pub record Server : Type 0 where
  pub database : Database
  pub draws : ℕ

-- `AsyncSessionLocal()` as `get_db` uses it: a session for one request, with no tenant yet.
unfoldable pub open_session : Server → Session
open_session server = record {
  tenant = none;
  stored = server.database;
  working = server.database;
  draws = server.draws;
}

-- `get_db`: the session is closed behind the request, and what it did not commit is lost.
unfoldable pub get_db : {A : Type 0} → Action A → Server → Result A × Server
unfolding open_session
get_db request server =
    let (r, s) = request (open_session server) in
    (r, record { database = s.stored; draws = s.draws })
