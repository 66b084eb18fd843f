-- ===== src/Worker.antt =====
-- plugin/Worker.h and Worker.cpp: a worker of the daemon. It keeps a database handle, and shares the
-- trees and the walks of lib/BTree.h with the other workers; a message is handled as one step.
-- The database is an interface here: plugin/Database.cpp fills it.
pub mod Fields
pub mod Answer
pub mod Listener
pub mod Wire
pub mod Walks
pub mod Starts
pub mod Turns
pub mod Standing
pub mod Steering
pub mod Decimal
pub mod Faults
pub mod Clients
pub mod Serving
pub mod Holding
use zql.Prelude.{ℕ, Bool, Option, List}
use zql.Objects.Row.{Str, Row}
use zql.BTree.{BTreeForest}
use zql.BTree.Holder.{BTreeTraverseHolder}

-- `Database::get` and `Database::add`, over what the handle refers to. `get` starts from an empty
-- map and gives what it has put into it; `none` is where its loop over the rows goes on for ever.
pub record Database {ℓ} (D : Type ℓ) : Type ℓ where
  pub get : (database table : Str) (pk : ℕ) → D → Option (Bool × Row × D)
  pub add : (database table : Str) (row : Row) → D → Bool × D

-- `replies` are the messages that `zmq_send` was given, the oldest first.
pub record WorkerState {ℓ} (D : Type ℓ) : Type ℓ where
  pub database : D
  pub forest : BTreeForest
  pub holder : BTreeTraverseHolder
  pub replies : List (List ℕ)
