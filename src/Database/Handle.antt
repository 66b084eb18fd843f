-- ===== src/Database/Handle.antt =====
-- plugin/Database.cpp as the database of a worker of plugin/Worker.cpp.
use zql.Prelude.{ℕ, ◌<◌, ◌≡◌, refl, false, some, List, if◌then◌else◌, length}
use zql.Objects.Row.{Str, Row, find}
use zql.Objects.Request.{RequestGet}
use zql.Objects.Response.{get_ok, get_empty}
use zql.Worker.{Database, WorkerState}
use zql.Worker.Answer.{answer_get}
use zql.Database.{Server}
use zql.Database.Access.{get, add, close}
use zql.Database.Reading.{Finds, any, field_of, get-Finds}

-- The fuel of `get` is one more than a bound of the rows that the index yields for a key.
abbrev pub database_of {ℓ} : {S : Type ℓ} → (fuel : ℕ) → Server S → Database S
database_of fuel server = record { get = get server fuel; add = add server }

module _ {ℓ} {S : Type ℓ} (server : Server S) (r : RequestGet) (s : WorkerState S) where
  -- A request for a row is answered with the fields of the last row that the index yields for the
  -- key, if it yields one, and else with the response that there is none. Nothing else of the worker
  -- changes.
  pub answer_get-Finds :
      (fuel : ℕ) (names : List Str) (rows : List S) (last : S)
      → Finds server r.database r.table r.pk s.database names rows last
      → length rows < fuel
      → (values : Row) × (answer_get (database_of fuel server) r s
          ≡ some (
            if any server rows false then get_ok (record { values = values }) else get_empty,
            record s { database = close server last },
          ))
        × ((f : Str) → find f values ≡ field_of server names rows f)
  unfolding answer_get
  answer_get-Finds fuel names rows last finds more =
      let (values, whole, fields) =
        get-Finds server fuel r.database r.table r.pk s.database last names rows finds more in
      (values, rw (whole, answer_get) refl, fields)
