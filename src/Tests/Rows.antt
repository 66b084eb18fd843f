-- ===== src/Tests/Rows.antt =====
-- A database for the worker of plugin/Worker.cpp that keeps the rows it is given.
use zql.Prelude.{true, false, some, List, [], ◌∷◌}
use zql.Objects.Row.{Row}
use zql.Worker.{Database}

abbrev pub rows : Database (List Row)
rows = record {
  get = λ database table pk kept. some (false, [], kept);
  add = λ database table row kept. (true, row ∷ kept);
}
