-- ===== src/Worker/Clients.antt =====
-- Several clients at the worker of plugin/Worker.cpp: the messages that it handles come in any order,
-- and between them the bytes of the ciphertexts may become any others.
use zql.Prelude.{ℕ, ◌≡◌, ◌<◌, ◌==◌, Option, none, some, List, [], ◌∷◌, length, if◌then◌else◌}
use zql.Objects.Row.{Str}
use zql.Objects.Request.{RequestGet, RequestAdd, RequestAddContinue}
use zql.Objects.Response.{Ciphertext, Response, add_ok, add_traverse}
use zql.BTree.{get_tree}
use zql.BTree.Nodes.{Side}
use zql.BTree.Holder.{find_traverse}
use zql.BTree.Memory.{IsPlanted, fade}
use zql.Worker.{Database, WorkerState}
use zql.Worker.Fields.{first_ope}
use zql.Worker.Answer.{answer_get, answer_add, answer_continue}
use zql.Worker.Standing.{Standing, turn_of}
use zql.Worker.Holding.{IsKept}

-- A client that inserts the row of `request`: its walk has come to `place`.
pub record Inserter : Type 0 where
  pub root : ℕ
  pub request : RequestAdd
  pub place : List Side

-- The clients, by the ids of their first requests.
abbrev pub Inserters : Type 0
Inserters = ℕ → Option Inserter

abbrev pub put : ℕ → Option Inserter → Inserters → Inserters
put i o live j = if j == i then o else live j

module _ {ℓ} {D : Type ℓ} (db : Database D) where
  -- A message and its answer, or what becomes of the bytes of the ciphertexts between two messages. A
  -- client may answer anything. Ids of requests are those of no client whose row waits, and the last
  -- request of a walk has an id that no walk is held under.
  pub data Step (s : WorkerState D) (live : Inserters) : WorkerState D → Inserters → Type ℓ where
    gets :
        (id : ℕ) (r : RequestGet) (response : Response) (s' : WorkerState D)
        → answer_get db r s ≡ some (response, s')
        → Step s live s' live
    adds :
        (id : ℕ) (r : RequestAdd) (s' : WorkerState D)
        → answer_add db id r s ≡ some (add_ok, s')
        → Step s live s' live
    starts :
        (id : ℕ) (r : RequestAdd) (field value : Str) (root : ℕ) (c : Ciphertext)
        (s' : WorkerState D)
        → live id ≡ none
        → first_ope r.row ≡ some (field, value)
        → get_tree r.database r.table s.forest ≡ some root
        → answer_add db id r s
          ≡ some (add_traverse (record { init_request_id = id; ciphertext = c }), s')
        → Step s live s' (put id (some (record { root = root; request = r; place = [] })) live)
    goes_on :
        (i id : ℕ) (w : Inserter) (q : RequestAddContinue) (d : Side) (b : Ciphertext)
        (s' : WorkerState D)
        → live i ≡ some w
        → q.init_request_id ≡ i
        → length w.place < 63
        → turn_of q.compare_result ≡ some d
        → answer_continue db id q s
          ≡ some (add_traverse (record { init_request_id = i; ciphertext = b }), s')
        → Step s live s' (put i (some (record w { place = d ∷ w.place })) live)
    ends :
        (i id : ℕ) (w : Inserter) (q : RequestAddContinue) (s' : WorkerState D)
        → live i ≡ some w
        → find_traverse id s.holder.traverses ≡ none
        → q.init_request_id ≡ i
        → length w.place < 63
        → answer_continue db id q s ≡ some (add_ok, s')
        → Step s live s' (put i none live)
    fades :
        (memory : ℕ → Ciphertext → Ciphertext)
        → Step s live (record s { forest = fade memory s.forest }) live

  -- What a run of messages reaches from a worker without trees, walks and clients.
  pub data Reached (start : D) : WorkerState D → Inserters → Type ℓ where
    first :
        Reached start
          (record {
            database = start;
            forest = record { forest = []; nodes = [] };
            holder = record { traverses = []; heap = [] };
            replies = [];
          })
          (λ i. none)
    then_step :
        {s s' : WorkerState D} {live live' : Inserters}
        → Reached start s live
        → Step s live s' live'
        → Reached start s' live'

  -- The trees are trees, and the walk of each client that waits is where its answers have led it.
  pub record IsServing (s : WorkerState D) (live : Inserters) : Type 0 where
    pub forest : IsPlanted s.forest
    pub kept : IsKept s.holder
    pub walking :
        (i : ℕ) (w : Inserter)
        → live i ≡ some w
        → Standing s.forest s.holder i w.root w.request w.place
