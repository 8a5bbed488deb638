-- ===== src/Graph/Encode.antt =====
-- The JSON of a strategy graph, as the builder sends it to `parse` of src/compiler.rs.
use rust_hotpath_ipc.Prelude.{◌≡◌, ◌≢◌, true, none, Option, List, [], ◌∷◌}
use rust_hotpath_ipc.Prelude.Text.{Text, codes}
use rust_hotpath_ipc.Json.{
  Json, Items, Fields, num, str, arr, obj, no_items, item, no_fields, field, find,
}
use rust_hotpath_ipc.Json.Print.{IsShown, is_ascii}
use rust_hotpath_ipc.Compiler.{GNode, GraphSpec}

module _ {A : Type 0} where
  unfoldable pub str_fields : List (Text × Text) → Fields A
  str_fields [] = no_fields
  str_fields ((k, s) ∷ r) = field k (str s) (str_fields r)

  -- The numbers first, then the strings.
  unfoldable pub property_fields : List (Text × A) → List (Text × Text) → Fields A
  unfolding str_fields
  property_fields [] strs = str_fields strs
  property_fields ((k, a) ∷ r) strs = field k (num a) (property_fields r strs)

  unfoldable pub encode_node : GNode A → Json A
  unfolding property_fields
  encode_node n = obj (
      field (codes "id") (str n.id) (
        field (codes "type") (str n.ntype)
          (field (codes "properties") (obj (property_fields n.nums n.strs)) no_fields)))

  unfoldable pub encode_nodes : List (GNode A) → Items A
  unfolding encode_node
  encode_nodes [] = no_items
  encode_nodes (n ∷ ns) = item (encode_node n) (encode_nodes ns)

  unfoldable pub encode_connections : List (Text × Text) → Items A
  encode_connections [] = no_items
  encode_connections ((a, b) ∷ cs) =
      item (obj (field (codes "from") (str a) (field (codes "to") (str b) no_fields)))
        (encode_connections cs)

  unfoldable pub encode : GraphSpec A → Json A
  unfolding encode_nodes encode_connections
  encode spec = obj (
      field (codes "canvas")
        (obj (
          field (codes "nodes") (arr (encode_nodes spec.nodes))
            (field (codes "connections") (arr (encode_connections spec.connections)) no_fields)))
        no_fields)

unfoldable pub PairsAreAscii : List (Text × Text) → Type 0
unfolding is_ascii
PairsAreAscii [] = Unit {0}
PairsAreAscii ((a, b) ∷ r) = (is_ascii a ≡ true) × (is_ascii b ≡ true) × PairsAreAscii r

module _ {A : Type 0} where
  -- No key stands twice.
  unfoldable pub KeysDiffer : Fields A → Type 0
  KeysDiffer no_fields = Unit {0}
  KeysDiffer (field k v m) = (find k m ≡ none) × KeysDiffer m

module _ {A : Type 0} (parse_f64 : Text → Option A) (show : A → Text) where
  -- Names of ASCII characters, and numbers that are read as they are written.
  unfoldable pub AllShown : List (Text × A) → Type 0
  unfolding is_ascii
  AllShown [] = Unit {0}
  AllShown ((k, a) ∷ r) = (is_ascii k ≡ true) × IsShown parse_f64 show a × AllShown r

  -- The node's texts are of ASCII characters, its properties have different names, and its numbers
  -- are read as they are written.
  pub record IsWritable (n : GNode A) : Type 0 where
    pub ascii_id : is_ascii n.id ≡ true
    pub ascii_ntype : is_ascii n.ntype ≡ true
    pub ascii_strs : PairsAreAscii n.strs
    pub shown_nums : AllShown n.nums
    pub keys_differ : KeysDiffer (property_fields n.nums n.strs)

  unfoldable pub NodesAreWritable : List (GNode A) → Type 0
  NodesAreWritable [] = Unit {0}
  NodesAreWritable (n ∷ ns) = IsWritable n × NodesAreWritable ns

unfoldable pub EndsAreNamed : List (Text × Text) → Type 0
EndsAreNamed [] = Unit {0}
EndsAreNamed ((a, b) ∷ cs) = (a ≢ []) × (b ≢ []) × EndsAreNamed cs
