-- ===== src/Worker/Serving/Reach.antt =====
-- The states that messages of clients bring the worker of plugin/Worker.cpp to.
use zql.Prelude.{ℕ, ◌≡◌, ◌<◌, refl, none, some, List, length}
use zql.Objects.Request.{RequestAdd, RequestAddContinue}
use zql.BTree.{find_tree}
use zql.Objects.Response.{Response}
use zql.BTree.Nodes.{Side, child}
use zql.BTree.Memory.{fade, fade-IsPlanted, Reaches-overwrite}
use zql.BTree.Holder.{find_traverse}
use zql.Worker.{Database, WorkerState}
use zql.Worker.Answer.{Answered, answer_continue}
use zql.Worker.Standing.{Steered, asks, stores, ignores}
use zql.Worker.Steering.{answer_continue-Steered}
use zql.Worker.Clients.{
  Inserter, Inserters, Step, gets, adds, starts, goes_on, ends, fades, Reached, first, then_step,
  IsServing,
}
use zql.Worker.Serving.{grown_trees}
use zql.Worker.Serving.Requests.{gets-IsServing, adds-IsServing, starts-IsServing}
use zql.Worker.Serving.Answers.{goes_on-IsServing, ends-IsServing}

module _ {ℓ} {D : Type ℓ} (db : Database D) where
  Step-IsServing :
      {s s' : WorkerState D} {live live' : Inserters}
      → IsServing db s live
      → Step db s live s' live'
      → IsServing db s' live'
  unfolding fade
  Step-IsServing ok (gets id r response s' h) = gets-IsServing db ok r response s' h
  Step-IsServing ok (adds id r s' h) = adds-IsServing db ok id r s' h
  Step-IsServing ok (starts id r field value root c s' new e named h) =
      starts-IsServing db ok id r field value root c s' new e named h
  Step-IsServing ok (goes_on i id w q d b s' waits asked room turned h) =
      goes_on-IsServing db ok i id w q waits asked room d b s' turned h
  Step-IsServing ok (ends i id w q s' waits new asked room h) =
      ends-IsServing db ok i id w q waits asked room s' new h
  Step-IsServing {s} ok (fades memory) =
      grown_trees db ok (record s { forest = fade memory s.forest })
        (fade-IsPlanted memory s.forest ok.forest) (λ root p m way. Reaches-overwrite memory way)
        (λ j q named. named) refl

  -- In every state that messages of any number of clients bring the worker to, in any order, whatever
  -- the clients answer and whatever becomes of the bytes of the ciphertexts between two messages: the
  -- trees of all tables are trees of nodes that have ciphertexts, and the walk of each client that
  -- waits is where its answers have led it. The ids of requests are those of no client that waits,
  -- the last request of a walk has an id that no walk is held under, and walks stay above depth 64.
  pub Reached-IsServing :
      (start : D) (s : WorkerState D) (live : Inserters)
      → Reached db start s live
      → IsServing db s live
  unfolding find_tree child find_traverse
  Reached-IsServing start s live first = record {
    forest = record {
      linked = λ d n m e. cc;
      filled = λ a n e. absurd (cc);
      tree = λ id r e. absurd (cc);
    };
    kept = record { inside = λ i a e. absurd (cc); apart = λ i j a e e'. absurd (cc) };
    walking = λ i w e. absurd (cc);
  }
  Reached-IsServing start s live (then_step before step) =
      Step-IsServing (Reached-IsServing start _ _ before) step

  abbrev pub Answers : Answered db → Type ℓ
  Answers o = (response : Response) × (s' : WorkerState D) × (o ≡ some (response, s'))

  Steered-Answers :
      {s : WorkerState D} {i id root : ℕ} {r : RequestAdd} {q : RequestAddContinue}
      {place : List Side} (o : Answered db)
      → Steered db s i id root r q place o
      → Answers o
  Steered-Answers o (asks s1 d b turned trees base walk changed) = (_, s1, refl)
  Steered-Answers o (stores s1 d a turned same base grown there grew between changed removed) =
      (_, s1, refl)
  Steered-Answers o (ignores s1 equal trees base untouched) = (_, s1, refl)

  -- In every such state the worker answers whatever a client answers whose walk stands above depth 63,
  -- in a request with an id that no walk is held under: it neither dereferences NULL nor shifts by a
  -- negative number.
  pub Reached-answer_continue :
      (start : D) (s : WorkerState D) (live : Inserters) (i id : ℕ) (q : RequestAddContinue)
      (w : Inserter)
      → Reached db start s live
      → live i ≡ some w
      → find_traverse id s.holder.traverses ≡ none
      → q.init_request_id ≡ i
      → length w.place < 63
      → Answers (answer_continue db id q s)
  Reached-answer_continue start s live i id q w before waits new asked room =
      let ok = Reached-IsServing start s live before in
      Steered-Answers (answer_continue db id q s) (
        answer_continue-Steered db s ok.forest i id w.root w.request q w.place
          (ok.walking i w waits) asked room)
