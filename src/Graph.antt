-- ===== src/Graph.antt =====
-- src/compiler.rs, `parse`: the strategy graph in the JSON that the builder sends.
pub mod Encode
mod Maps
pub mod RoundTrip
pub mod Total
use rust_hotpath_ipc.Prelude.{
  Bool, true, false, Option, none, some, List, [], ◌∷◌, ◌&&◌, not, if◌then◌else◌,
}
use rust_hotpath_ipc.Prelude.Text.{Text, codes}
use rust_hotpath_ipc.Json
use rust_hotpath_ipc.Json.{
  Json, Items, Fields, no_items, item, no_fields, field, get, as_array, as_object, as_str, as_f64,
  Parsed, ok, err, ◌>>=◌, missing_canvas,
}
use rust_hotpath_ipc.Compiler.{GNode, GraphSpec}

abbrev pub or_empty : Option Text → Text
or_empty none = []
or_empty (some s) = s

abbrev pub is_empty : Text → Bool
is_empty [] = true
is_empty (c ∷ s) = false

module _ {A : Type 0} where
  -- `v.get(key).and_then(|x| x.as_str()).unwrap_or("")`
  unfoldable pub text_at : Json A → Text → Text
  unfolding get as_str
  text_at v key = elim (get v key) [ none ↦ [] | some x ↦ or_empty (as_str x) ]

  -- The properties that are numbers, and those that are strings. A key stands once in the map.
  unfoldable pub nums_of : Fields A → List (Text × A)
  unfolding as_f64
  nums_of no_fields = []
  nums_of (field k v m) =
      let rest = nums_of m in elim (as_f64 v) [ none ↦ rest | some f ↦ (k, f) ∷ rest ]

  unfoldable pub strs_of : Fields A → List (Text × Text)
  unfolding as_str
  strs_of no_fields = []
  strs_of (field k v m) =
      let rest = strs_of m in elim (as_str v) [ none ↦ rest | some s ↦ (k, s) ∷ rest ]

  unfoldable pub properties : Json A → Fields A
  unfolding get as_object
  properties n = elim (get n (codes "properties")) [
    | none ↦ no_fields
    | some p ↦ elim (as_object p) [ none ↦ no_fields | some m ↦ m ]
  ]

  unfoldable pub node_of : Json A → GNode A
  unfolding text_at nums_of strs_of properties
  node_of n = record {
    id = text_at n (codes "id");
    ntype = text_at n (codes "type");
    nums = nums_of (properties n);
    strs = strs_of (properties n);
  }

  unfoldable pub nodes_of : Items A → List (GNode A)
  unfolding node_of
  nodes_of no_items = []
  nodes_of (item n ns) = node_of n ∷ nodes_of ns

  -- A connection without its two ends is dropped.
  unfoldable pub connections_of : Items A → List (Text × Text)
  unfolding text_at
  connections_of no_items = []
  connections_of (item c cs) =
      let rest = connections_of cs in
      let from = text_at c (codes "from") in
      let to = text_at c (codes "to") in
      if not (is_empty from) && not (is_empty to) then (from, to) ∷ rest else rest

  -- `canvas.get(key).and_then(|n| n.as_array())`, no elements where there is no array.
  unfoldable pub elements : Json A → Text → Items A
  unfolding get as_array
  elements v key = elim (get v key) [
    | none ↦ no_items
    | some x ↦ elim (as_array x) [ none ↦ no_items | some a ↦ a ]
  ]

  unfoldable pub spec_of : Option (Json A) → Text → Parsed (GraphSpec A)
  unfolding nodes_of connections_of elements
  spec_of none rest = err missing_canvas
  spec_of (some canvas) rest =
      ok
        (record {
          nodes = nodes_of (elements canvas (codes "nodes"));
          connections = connections_of (elements canvas (codes "connections"));
        })
        rest

-- The bytes behind the value, which the result names, are dropped.
module _ {A : Type 0} (parse_f64 : Text → Option A) where
  -- The result also names the bytes behind the value, which the source drops.
  unfoldable pub parse : Text → Parsed (GraphSpec A)
  unfolding spec_of get
  parse json = Json.parse parse_f64 json >>= (λ v rest. spec_of (get v (codes "canvas")) rest)
