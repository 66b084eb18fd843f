-- ===== src/Tests/Serving.antt =====
-- The worker of plugin/Worker.cpp over messages of clients, at concrete values.
use zql.Tests.Rows.{rows}
use zql.Prelude.{ℕ, pos, ◌≡◌, ◌≤◌, List, [], ◌∷◌, length, length-replicate, replicate, arith, All}
use zql.Objects.Row.{Row}
use zql.Objects.Request.{RequestWrapper, add, add_continue}
use zql.Objects.Parser.{ObjectParser, Object, init}
use zql.Cbor.Writer.Heads.{head}
use zql.Cbor.Writer.Items.{item_string, item_int32}
use zql.Objects.Wire.Encoding.{IsWritableRow, encode_row, encode_request, encode_request_wrapper}
use zql.Worker.{WorkerState}
use zql.Worker.Listener.{serve}
use zql.Worker.Wire.{IsSent, bytes_of, handle_all, serve-bytes_of}

unfoldable buffer : List ℕ
buffer = replicate 10000 0

length-buffer : length buffer ≡ 10000
unfolding buffer
length-buffer = length-replicate {A = ℕ} 10000 0

-- "p_ope" with the value "3"
abbrev priced : Row
priced = (112 ∷ 95 ∷ 111 ∷ 112 ∷ 101 ∷ [], 51 ∷ []) ∷ []

priced-IsWritableRow : IsWritableRow priced
priced-IsWritableRow = record {
  sorted = (tt, tt);
  some_pair = λ e. cc;
  few = omega arith;
  short = ((omega arith, omega arith), tt);
}

abbrev adding : RequestWrapper
adding = record {
  id = 300;
  request = add (record { database = 100 ∷ []; table = 116 ∷ []; row = priced });
}

abbrev answering : RequestWrapper
answering = record {
  id = 301;
  request = add_continue (record { init_request_id = 7; compare_result = pos 0 });
}

length-adding : length (encode_request_wrapper adding) ≤ 10000
unfolding encode_request_wrapper encode_request encode_row head item_string
length-adding = omega arith

length-answering : length (encode_request_wrapper answering) ≤ 10000
unfolding encode_request_wrapper encode_request encode_row head item_string item_int32
length-answering = omega arith

both-IsSent : All (IsSent buffer) (adding ∷ answering ∷ [])
both-IsSent = (
  record {
    id = omega arith;
    writable = (omega arith, omega arith, priced-IsWritableRow);
    allocated = length-buffer;
    fits = length-adding;
  },
  (
    record {
      id = omega arith;
      writable = (omega arith, omega arith);
      allocated = length-buffer;
      fits = length-answering;
    },
    tt,
  ),
)

abbrev idle_worker : WorkerState (List Row)
idle_worker = record {
  database = [];
  forest = record { forest = []; nodes = [] };
  holder = record { traverses = []; heap = [] };
  replies = [];
}

abbrev fresh_parser : ObjectParser
fresh_parser = record {
  current_key = [];
  elements = pos 0;
  state = init;
  current_object = Object.unset;
  current_request_id = 0;
}

serve-bytes_of_example :
    serve rows
      (λ n. replicate n 0)
      (pos 0)
      fresh_parser
      (bytes_of rows (λ n. replicate n 0) buffer (adding ∷ answering ∷ []))
      idle_worker
    ≡ handle_all rows (λ n. replicate n 0) (adding ∷ answering ∷ []) idle_worker
serve-bytes_of_example =
    serve-bytes_of rows (λ n. replicate n 0) buffer (adding ∷ answering ∷ []) (pos 0) fresh_parser
      idle_worker both-IsSent
