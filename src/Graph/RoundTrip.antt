-- ===== src/Graph/RoundTrip.antt =====
-- src/compiler.rs, `parse`: what it makes of a graph's JSON.
use rust_hotpath_ipc.Prelude.{◌≡◌, refl, ap, ap₂, true, Option, none, List, [], ◌∷◌, ◌++◌}
use rust_hotpath_ipc.Prelude.Text.{Text, codes, text_eq}
use rust_hotpath_ipc.Json.{item, insert, ok, get}
use rust_hotpath_ipc.Json.Print.{
  is_ascii, print, settle, settle_items, IsPrintable, ArePrintable, HavePrintable,
}
use rust_hotpath_ipc.Json.Pieces.{ends_number}
use rust_hotpath_ipc.Json.RoundTrip.{parse-print}
use rust_hotpath_ipc.Compiler.{GNode, GraphSpec}
use rust_hotpath_ipc.Graph.{nums_of, strs_of, node_of, nodes_of, connections_of, spec_of, parse}
use rust_hotpath_ipc.Graph.Maps.{settle-encode_node}
use rust_hotpath_ipc.Graph.Encode.{
  str_fields, property_fields, encode_node, encode_nodes, encode_connections, encode, AllShown,
  NodesAreWritable, EndsAreNamed, PairsAreAscii,
}

module _ (A : Type 0) where
  nums_of-str_fields : (strs : List (Text × Text)) → nums_of (str_fields {A = A} strs) ≡ []
  unfolding nums_of str_fields
  nums_of-str_fields [] = refl
  nums_of-str_fields ((k, s) ∷ r) = nums_of-str_fields r

  strs_of-str_fields : (strs : List (Text × Text)) → strs_of (str_fields {A = A} strs) ≡ strs
  unfolding strs_of str_fields
  strs_of-str_fields [] = refl
  strs_of-str_fields ((k, s) ∷ r) = ap (◌∷◌ (k, s)) (strs_of-str_fields r)

module _ {A : Type 0} where
  nums_of-property_fields :
      (nums : List (Text × A)) (strs : List (Text × Text))
      → nums_of (property_fields nums strs) ≡ nums
  unfolding nums_of property_fields
  nums_of-property_fields [] strs = nums_of-str_fields A strs
  nums_of-property_fields ((k, a) ∷ r) strs = ap (◌∷◌ (k, a)) (nums_of-property_fields r strs)

  strs_of-property_fields :
      (nums : List (Text × A)) (strs : List (Text × Text))
      → strs_of (property_fields nums strs) ≡ strs
  unfolding strs_of property_fields
  strs_of-property_fields [] strs = strs_of-str_fields A strs
  strs_of-property_fields ((k, a) ∷ r) strs = strs_of-property_fields r strs

  node_of-encode_node : (n : GNode A) → node_of (encode_node n) ≡ n
  unfolding node_of encode_node text_eq
  node_of-encode_node n = λ i. record n {
    nums = nums_of-property_fields n.nums n.strs i;
    strs = strs_of-property_fields n.nums n.strs i;
  }

  nodes_of-encode_nodes : (ns : List (GNode A)) → nodes_of (encode_nodes ns) ≡ ns
  unfolding nodes_of encode_nodes
  nodes_of-encode_nodes [] = refl
  nodes_of-encode_nodes (n ∷ ns) = ap₂ ◌∷◌ (node_of-encode_node n) (nodes_of-encode_nodes ns)

  module _ (parse_f64 : Text → Option A) (show : A → Text) where
    settle-encode_nodes :
        (ns : List (GNode A))
        → NodesAreWritable parse_f64 show ns
        → settle_items (encode_nodes ns) ≡ encode_nodes ns
    unfolding settle encode_nodes NodesAreWritable
    settle-encode_nodes [] w = refl
    settle-encode_nodes (n ∷ ns) w =
        ap₂ item (settle-encode_node n w.0.keys_differ) (settle-encode_nodes ns w.1)

    str_fields-printable :
        (strs : List (Text × Text))
        → PairsAreAscii strs
        → HavePrintable parse_f64 show (str_fields strs)
    unfolding IsPrintable str_fields PairsAreAscii
    str_fields-printable [] h = tt
    str_fields-printable ((k, s) ∷ r) h = (h.0, h.1, str_fields-printable r h.2)

    property_fields-printable :
        (nums : List (Text × A)) (strs : List (Text × Text))
        → AllShown parse_f64 show nums
        → PairsAreAscii strs
        → HavePrintable parse_f64 show (property_fields nums strs)
    unfolding IsPrintable property_fields AllShown
    property_fields-printable [] strs w h = str_fields-printable strs h
    property_fields-printable ((k, a) ∷ r) strs w h =
        (w.0, w.1, property_fields-printable r strs w.2 h)

    encode_nodes-printable :
        (ns : List (GNode A))
        → NodesAreWritable parse_f64 show ns
        → ArePrintable parse_f64 show (encode_nodes ns)
    unfolding IsPrintable encode_nodes NodesAreWritable is_ascii
    encode_nodes-printable [] w = tt
    encode_nodes-printable (n ∷ ns) (w, ws) =
        let props = property_fields-printable n.nums n.strs w.shown_nums w.ascii_strs in
        ((refl, w.ascii_id, (refl, w.ascii_ntype, (refl, props, tt))), encode_nodes-printable ns ws)

    encode_connections-printable :
        (cs : List (Text × Text))
        → PairsAreAscii cs
        → ArePrintable parse_f64 show (encode_connections cs)
    unfolding IsPrintable encode_connections PairsAreAscii is_ascii
    encode_connections-printable [] h = tt
    encode_connections-printable ((a, b) ∷ cs) h =
        ((refl, h.0, (refl, h.1, tt)), encode_connections-printable cs h.2)

    encode-IsPrintable :
        (spec : GraphSpec A)
        → NodesAreWritable parse_f64 show spec.nodes
        → PairsAreAscii spec.connections
        → IsPrintable parse_f64 show (encode spec)
    unfolding IsPrintable encode is_ascii
    encode-IsPrintable spec w h =
        let conns = encode_connections-printable spec.connections h in
        (refl, (refl, encode_nodes-printable spec.nodes w, (refl, conns, tt)), tt)

module _ (A : Type 0) where
  settle-encode_connections :
      (cs : List (Text × Text))
      → settle_items (encode_connections {A = A} cs) ≡ encode_connections cs
  unfolding settle encode_connections insert text_eq
  settle-encode_connections [] = refl
  settle-encode_connections ((a, b) ∷ cs) = rw (settle-encode_connections cs)

  connections_of-encode_connections :
      (cs : List (Text × Text))
      → EndsAreNamed cs
      → connections_of (encode_connections {A = A} cs) ≡ cs
  unfolding connections_of encode_connections EndsAreNamed text_eq
  connections_of-encode_connections [] h = refl
  connections_of-encode_connections (([], b) ∷ cs) h = absurd (h.0 refl)
  connections_of-encode_connections ((a ∷ s, []) ∷ cs) h = absurd (h.1 refl)
  connections_of-encode_connections ((a ∷ s, b ∷ t) ∷ cs) h =
      ap (◌∷◌ (a ∷ s, b ∷ t)) (connections_of-encode_connections cs h.2)

module _ {A : Type 0} (parse_f64 : Text → Option A) (show : A → Text) where
  settle-encode :
      (spec : GraphSpec A)
      → NodesAreWritable parse_f64 show spec.nodes
      → settle (encode spec) ≡ encode spec
  unfolding settle encode insert text_eq
  settle-encode spec w = rw (
    settle-encode_nodes parse_f64 show spec.nodes w,
    settle-encode_connections A spec.connections,
  )

  spec_of-encode :
      (spec : GraphSpec A) (rest : Text)
      → EndsAreNamed spec.connections
      → spec_of (get (encode spec) (codes "canvas")) rest ≡ ok spec rest
  unfolding spec_of encode get text_eq
  spec_of-encode spec rest h = λ i.
      ok
        (record {
          nodes = nodes_of-encode_nodes spec.nodes i;
          connections = connections_of-encode_connections A spec.connections h i;
        })
        rest

  -- The graph that the JSON of a graph is read as is that graph, all nodes, properties and
  -- connections in order, whatever follows that does not go on with a character of a number:
  -- provided that the empty text is no number, that all texts are of ASCII characters, that a
  -- node's properties have different names and numbers that are read as they are written, and that
  -- each connection names its two ends.
  pub parse-encode :
      (empty : parse_f64 [] ≡ none) (spec : GraphSpec A) (rest : Text)
      → NodesAreWritable parse_f64 show spec.nodes
      → PairsAreAscii spec.connections
      → EndsAreNamed spec.connections
      → ends_number rest ≡ true
      → parse parse_f64 (print show (encode spec) ++ rest) ≡ ok spec rest
  unfolding parse
  parse-encode empty spec rest w ascii h e =
      rw
        (
          parse-print show parse_f64 empty (encode spec) rest
              (encode-IsPrintable parse_f64 show spec w ascii) e,
          settle-encode spec w,
        )
        (spec_of-encode spec rest h)
