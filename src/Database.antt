-- ===== src/Database.antt =====
-- plugin/Database.h and Database.cpp: a handle of the MySQL server, through which a row is read or
-- added. What the server does is an argument: `S` is its state with that of the handle's thread,
-- the table that is opened and the record in that table's buffer.
pub mod Access
pub mod Reading
pub mod Adding
pub mod Handle
pub mod Threads
use zql.Prelude.{ℕ, ℤ, Bool, List}
use zql.Objects.Row.{Str}

-- The calls of the server. Fields of the opened table go by their names.
pub record Server {ℓ} (S : Type ℓ) : Type ℓ where
  -- `init_one_table`, `mdl_request.init` and `open_table`: whether there is a table then.
  pub open_table : (for_write : Bool) → (database table : Str) → S → Bool × S
  -- `table->reginfo.lock_type` and `use_all_columns`
  pub use_all_columns : (for_write : Bool) → S → S
  pub mysql_lock_tables : S → S
  pub trans_commit_stmt : S → S
  -- with `thd->lock = 0`
  pub mysql_unlock_tables : S → S
  pub close_thread_tables : S → S
  pub release_transactional_locks : S → S
  -- `table->field`
  pub field_names : S → List Str
  -- `table->key_info[index].key_part[0]`: the field and `store_length`
  pub key_field : (index : ℤ) → S → Str
  pub store_length : (index : ℤ) → S → ℕ
  pub key_copy : (index : ℤ) → (length : ℕ) → S → List ℕ
  pub is_null : Str → S → Bool
  pub val_str : Str → S → Str
  pub set_null : Str → S → S
  pub set_notnull : Str → S → S
  pub store : (field value : Str) → S → S
  -- `table->read_set = &table->s->all_set`
  pub read_all_columns : S → S
  pub init_table_handle : S → S
  pub index_or_rnd_end : S → S
  pub index_init : (index : ℤ) → S → S
  pub index_read_map : (key : List ℕ) → S → ℤ × S
  pub index_next_same : (key : List ℕ) → (length : ℕ) → S → ℤ × S
  pub empty_record : S → S
  -- `memset(buf, 0, table->s->null_bytes)`
  pub clear_null_bytes : S → S
  -- `table->next_number_field = table->found_next_number_field`, and its reset
  pub use_next_number : S → S
  pub write_row : S → ℤ × S
  pub reset_next_number : S → S
  pub atoi : Str → ℤ
