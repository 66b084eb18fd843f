-- ===== src/Client.antt =====
-- plugin/test.cpp: the client. An executor inserts one row: it sends the row, answers each question
-- of the worker with a comparison, and ends at the worker's last response.
pub mod Conversation
pub mod Insertion
pub mod Executor
pub mod Listener
pub mod Exchange
pub mod Queue
use Prim.Native.Nat.{Ordering}
use zql.Prelude.{ℕ, ℤ, pos, negsuc, List, [], ◌∷◌, if◌then◌else◌}
use zql.Objects.Row.{Str, Row, compare_str}
use zql.Objects.Request.{Request, RequestAdd, RequestAddContinue, add, add_continue}
use zql.Objects.Response.{ResponseAddTraverse}
use zql.Worker.Fields.{has_ending, ope}

unfoldable pub encrypt : Str → Str
encrypt text = text

unfoldable pub decrypt : Str → Str
decrypt text = text

-- `compare`: the sign of `a.compare(b)`.
unfoldable pub compare : Str → Str → ℤ
compare a b = elim (compare_str a b) [
  | Ordering.lt ↦ negsuc 0
  | Ordering.gt ↦ pos 1
  | Ordering.eq ↦ pos 0
]

-- The members of InsertExecutor that its requests are made of.
pub record InsertExecutor : Type 0 where
  pub database : Str
  pub table : Str
  pub row : Row
  pub ope_value : Str

-- The loop of the constructor.
unfoldable pub encrypt_row : Row → Row
unfolding encrypt
encrypt_row [] = []
encrypt_row ((key, value) ∷ row) =
    (key, if has_ending key ope then encrypt value else value) ∷ encrypt_row row

unfoldable pub last_value : Str → Row → Str
last_value found [] = found
last_value found ((key, value) ∷ row) = last_value (if has_ending key ope then value else found) row

unfoldable pub new_insert_executor : Str → Str → Row → InsertExecutor
unfolding encrypt_row last_value
new_insert_executor database table row = record {
  database = database;
  table = table;
  row = encrypt_row row;
  ope_value = last_value [] row;
}

-- The request of `Run`.
unfoldable pub run_request : InsertExecutor → Request
run_request e = add (record { database = e.database; table = e.table; row = e.row })

-- The request of `OnResponseAddTraverse`.
unfoldable pub continue_request : InsertExecutor → ResponseAddTraverse → RequestAddContinue
unfolding compare decrypt
continue_request e response = record {
  init_request_id = response.init_request_id;
  compare_result = compare (decrypt response.ciphertext) e.ope_value;
}
