-- ===== src/Tests/Storage.antt =====
-- A table of plugin/Database.cpp with one column, at a server that keeps rows in a list.
use zql.Prelude.{ℤ, pos, ◌≡◌, refl, Bool, true, false, some, List, [], ◌∷◌, if◌then◌else◌, arith}
use zql.Objects.Row.{Str, Row, same_str, find}
use zql.Objects.Response.{get_ok, get_empty}
use zql.Objects.Request.{RequestGet}
use zql.Worker.{WorkerState}
use zql.Worker.Answer.{answer_get}
use zql.Database.{Server}
use zql.Database.Access.{add, get, close, look_up, lock_tables, prepare_keybuf, unlock_tables}
use zql.Database.Reading.{Finds, ended, yields, any, field_of, get-Finds}
use zql.Database.Adding.{KeepsFields, Writes, add-Writes}
use zql.Database.Handle.{database_of, answer_get-Finds}

pub record Store : Type 0 where
  columns : List Str
  values : Str → Str
  nulls : Str → Bool
  upcoming : List Str
  rows : List Str

-- "p"
abbrev column : Str
column = 112 ∷ []

abbrev next : Store → ℤ × Store
next s = elim s.upcoming [
  | [] ↦ (pos 1, s)
  | v ∷ later ↦ (pos 0, record s { values = λ g. v; nulls = λ g. false; upcoming = later })
]

abbrev pub lists : Server Store
lists = record {
  open_table = λ write database table s. (true, s);
  use_all_columns = λ write s. s;
  mysql_lock_tables = λ s. s;
  trans_commit_stmt = λ s. s;
  mysql_unlock_tables = λ s. s;
  close_thread_tables = λ s. s;
  release_transactional_locks = λ s. s;
  field_names = λ s. s.columns;
  key_field = λ index s. column;
  store_length = λ index s. 4;
  key_copy = λ index n s. s.values column;
  is_null = λ f s. s.nulls f;
  val_str = λ f s. s.values f;
  set_null = λ f s. record s { nulls = λ g. if same_str g f then true else s.nulls g };
  set_notnull = λ f s. record s { nulls = λ g. if same_str g f then false else s.nulls g };
  store = λ f v s. record s { values = λ g. if same_str g f then v else s.values g };
  read_all_columns = λ s. s;
  init_table_handle = λ s. s;
  index_or_rnd_end = λ s. record s { upcoming = [] };
  index_init = λ index s. record s { upcoming = s.rows };
  index_read_map = λ key s. next s;
  index_next_same = λ key n s. next s;
  empty_record = λ s. record s { values = λ g. [] };
  clear_null_bytes = λ s. record s { nulls = λ g. false };
  use_next_number = λ s. s;
  write_row = λ s. (pos 0, record s { rows = s.values column ∷ s.rows });
  reset_next_number = λ s. s;
  atoi = λ text. pos 0;
}

lists-KeepsFields : KeepsFields lists (λ f. true) (λ f v. v)
lists-KeepsFields = record {
  null_cleared = λ f s. refl;
  null_stored = λ f g v s. refl;
  value_stored = λ f g v s. refl;
  null_set = λ f g s. refl;
  value_set = λ f g s. refl;
}

abbrev pub one_row : Store
one_row = record {
  columns = column ∷ [];
  values = λ g. [];
  nulls = λ g. false;
  upcoming = [];
  rows = (53 ∷ []) ∷ [];
}

abbrev at_row : Store
at_row = record {
  columns = column ∷ [];
  values = λ g. 53 ∷ [];
  nulls = λ g. false;
  upcoming = [];
  rows = (53 ∷ []) ∷ [];
}

one_row-Finds : Finds lists (100 ∷ []) (116 ∷ []) 7 one_row (column ∷ []) (at_row ∷ []) at_row
unfolding look_up lock_tables prepare_keybuf
one_row-Finds = record {
  opened = refl;
  looked_up = yields refl (ended refl);
  same_names = (refl, tt);
}

get-Finds_example :
    (result : Row) × (get lists 2 (100 ∷ []) (116 ∷ []) 7 one_row
      ≡ some (true, result, close lists at_row))
    × ((f : Str) → find f result ≡ field_of lists (column ∷ []) (at_row ∷ []) f)
get-Finds_example =
    get-Finds lists 2 (100 ∷ []) (116 ∷ []) 7 one_row at_row (column ∷ []) (at_row ∷ [])
      one_row-Finds (omega arith)

abbrev getting : RequestGet
getting = record { database = 100 ∷ []; table = 116 ∷ []; pk = 7 }

abbrev serving : WorkerState Store
serving = record {
  database = one_row;
  forest = record { forest = []; nodes = [] };
  holder = record { traverses = []; heap = [] };
  replies = [];
}

answer_get-Finds_example :
    (values : Row) × (answer_get (database_of 2 lists) getting serving
      ≡ some (
        if any lists (at_row ∷ []) false then get_ok (record { values = values }) else get_empty,
        record serving { database = close lists at_row },
      ))
    × ((f : Str) → find f values ≡ field_of lists (column ∷ []) (at_row ∷ []) f)
answer_get-Finds_example =
    answer_get-Finds lists getting serving 2 (column ∷ []) (at_row ∷ []) at_row one_row-Finds
      (omega arith)

abbrev priced : Row
priced = (column, 51 ∷ []) ∷ []

add-Writes_example :
    (written : Store) × Writes lists
      (λ f. true)
      (λ f v. v)
      lists-KeepsFields
      priced
      (100 ∷ [])
      (116 ∷ [])
      one_row
      written
    × (add lists (100 ∷ []) (116 ∷ []) priced one_row ≡ (
      true,
      unlock_tables lists (record written { rows = written.values column ∷ written.rows }),
    ))
add-Writes_example =
    add-Writes lists (λ f. true) (λ f v. v) lists-KeepsFields priced (100 ∷ []) (116 ∷ []) one_row
