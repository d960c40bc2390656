-- ===== src/Nebula/Storage.antt =====
-- nebula_graph/core/storage.py: the nodes, the edges, and for each node its outgoing and incoming
-- edges. An operation that raises gives the exception alone: what a deletion has changed before a
-- KeyError is not kept in the model.
pub mod Adjacency
pub mod Insertion
pub mod Deletion
use python_portfolio.Prelude.{
  ℕ, ◌+◌, Bool, true, not, ◌||◌, Option, none, some, List, [], ◌∷◌, ◌++◌, arith, length, any,
  Result, ok, err, ◌>>=◌, ◌>>◌, or_raise, and_then, ℤ, leb, if◌then◌else◌, ◌==◌, nat_eq, bytes_eq,
  string_eq,
}
use python_portfolio.Prelude.Dict
use python_portfolio.Prelude.Dict.{Dict}
use python_portfolio.Nebula.Primitives.{Text, Property, Node, Edge, new_node}

-- A node with no edge has no entry in an adjacency list.
abbrev pub Adjacency : Type 0
Adjacency = Dict ℕ (List Edge)

pub record GraphStorage : Type 0 where
  pub nodes : Dict ℕ Node
  pub edges : Dict ℕ Edge
  pub out_edges : Adjacency
  pub in_edges : Adjacency
  pub node_seq : ℕ
  pub edge_seq : ℕ
  pub capacity_limit : ℕ

pub data GraphError : Type 0 where
  resource_exhausted key_error is_a_directory : GraphError
  node_not_found : ℕ → GraphError

-- __init__
abbrev pub empty : ℕ → GraphStorage
empty capacity_limit = record {
  nodes = [];
  edges = [];
  out_edges = [];
  in_edges = [];
  node_seq = 0;
  edge_seq = 0;
  capacity_limit = capacity_limit;
}

abbrev pub or_empty : Option (List Edge) → List Edge
or_empty none = []
or_empty (some es) = es

unfoldable pub add_node :
    List Text → Dict Text Property → GraphStorage → Result GraphError (Node × GraphStorage)
add_node labels properties g =
    if leb g.capacity_limit (length g.nodes)
    then err resource_exhausted
    else (let node = new_node (g.node_seq + 1) labels properties in
        ok (node, record g { node_seq = g.node_seq + 1; nodes = Dict.put g.nodes node.id node }))

unfoldable pub get_node : ℕ → GraphStorage → Result GraphError Node
get_node id g = or_raise (Dict.get g.nodes id) (node_not_found id)

-- _add_to_adj_list
unfoldable pub add_to_adj_list : Adjacency → ℕ → Edge → Adjacency
add_to_adj_list adj key edge = Dict.put adj key (or_empty (Dict.get adj key) ++ (edge ∷ []))

-- list.remove of an edge, which is found by its identity; `none` is the ValueError
unfoldable pub remove_first : ℕ → List Edge → Option (List Edge)
remove_first id [] = none
remove_first id (e ∷ es) =
    let rest = and_then (remove_first id es) (λ l. some (e ∷ l)) in
    if e.id == id then some es else rest

abbrev pub store_rest : Adjacency → ℕ → Option (List Edge) → Adjacency
store_rest adj key none = adj
store_rest adj key (some []) = Dict.remove adj key
store_rest adj key (some (e ∷ es)) = Dict.put adj key (e ∷ es)

-- _remove_inverse_edge_ref
unfoldable pub remove_inverse_edge_ref : Adjacency → ℕ → Edge → Adjacency
unfolding remove_first
remove_inverse_edge_ref adj key edge =
    store_rest adj key (remove_first edge.id (or_empty (Dict.get adj key)))

-- The two loops of the cascade: each edge leaves the other end's list, and the edges. `key` is its other
-- end.
unfoldable pub drop_edges :
    (Edge → ℕ) → List Edge → Adjacency → Dict ℕ Edge → Result GraphError (Adjacency × Dict ℕ Edge)
unfolding remove_inverse_edge_ref
drop_edges key [] adj edges = ok (adj, edges)
drop_edges key (e ∷ es) adj edges =
    let rest = drop_edges key es (remove_inverse_edge_ref adj (key e) e) (Dict.remove edges e.id) in
    if Dict.has edges e.id then rest else err key_error

abbrev pub src_of : Edge → ℕ
src_of e = e.src

abbrev pub dst_of : Edge → ℕ
dst_of e = e.dst

unfoldable pub cascade : ℕ → GraphStorage → Result GraphError GraphStorage
unfolding drop_edges
cascade id g =
    drop_edges dst_of (or_empty (Dict.get g.out_edges id)) g.in_edges g.edges >>= λ first.
    drop_edges src_of (or_empty (Dict.get first.0 id)) (Dict.remove g.out_edges id) first.1
    >>= λ second. ok (record g {
      in_edges = Dict.remove first.0 id;
      out_edges = second.0;
      edges = second.1;
      nodes = Dict.remove g.nodes id;
    })

unfoldable pub delete_node : ℕ → Bool → GraphStorage → Result GraphError GraphStorage
unfolding cascade
delete_node id with_edges g =
    if Dict.has g.nodes id
    then if Dict.has g.out_edges id || Dict.has g.in_edges id
      then if with_edges then cascade id g else err is_a_directory
      else ok (record g { nodes = Dict.remove g.nodes id })
    else err (node_not_found id)

unfoldable pub add_edge :
    ℕ → ℕ → Text → ℤ → Dict Text Property → GraphStorage → Result GraphError (Edge × GraphStorage)
unfolding add_to_adj_list
add_edge src dst rel_type weight properties g =
    if not (Dict.has g.nodes src)
    then err (node_not_found src)
    else if not (Dict.has g.nodes dst)
    then err (node_not_found dst)
    else (let edge : Edge = record {
      id = g.edge_seq + 1;
      src = src;
      dst = dst;
      rel_type = rel_type;
      weight = weight;
      properties = properties;
    } in
        ok (
          edge,
          record g {
            edge_seq = g.edge_seq + 1;
            edges = Dict.put g.edges edge.id edge;
            out_edges = add_to_adj_list g.out_edges src edge;
            in_edges = add_to_adj_list g.in_edges dst edge;
          },
        ))

abbrev pub filter : (Edge → Bool) → List Edge → List Edge
filter p [] = []
filter p (e ∷ es) = let rest = filter p es in if p e then e ∷ rest else rest

-- `if type_filter:`, which an empty text is not
abbrev pub matches : Option Text → Edge → Bool
matches none e = true
matches (some []) e = true
matches (some (c ∷ cs)) e = e.rel_type == (c ∷ cs)

unfoldable pub iter_out_edges : ℕ → Option Text → GraphStorage → List Edge
iter_out_edges id type_filter g = filter (matches type_filter) (or_empty (Dict.get g.out_edges id))
