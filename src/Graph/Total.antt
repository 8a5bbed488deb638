-- ===== src/Graph/Total.antt =====
-- src/compiler.rs, `parse`: the reader of graphs on any bytes.
use rust_hotpath_ipc.Prelude.{◌≡◌, ◌<◌, ℕ, length, Option, none, some, []}
use rust_hotpath_ipc.Prelude.Text.{Text, codes}
use rust_hotpath_ipc.Json.{Json, get}
use rust_hotpath_ipc.Json.Total.{Leaves, left, failed, parse-Leaves, Leaves-bind}
use rust_hotpath_ipc.Graph.{spec_of, parse}

module _ {A : Type 0} where
  spec_of-Leaves :
      (canvas : Option (Json A)) (rest : Text) (n : ℕ)
      → length rest < n
      → Leaves n (spec_of canvas rest)
  unfolding spec_of
  spec_of-Leaves none rest n h = failed
  spec_of-Leaves (some canvas) rest n h = left h

  -- On every text the reader of graphs ends: it gives an error, or a graph with at least one byte
  -- read. The fuel that it is given, twice the text's length and one, never runs out, provided
  -- that the empty text is no number.
  pub parse-total :
      (parse_f64 : Text → Option A) (json : Text)
      → parse_f64 [] ≡ none
      → Leaves (length json) (parse parse_f64 json)
  unfolding parse
  parse-total parse_f64 json empty =
      Leaves-bind (parse-Leaves parse_f64 empty json)
        λ v rest h. spec_of-Leaves (get v (codes "canvas")) rest (length json) h
