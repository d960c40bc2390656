-- ===== src/Nebula/Storage/Insertion.antt =====
-- nebula_graph/core/storage.py: the list of edges that a store stands for, and what is added to it.
use python_portfolio.Prelude.{
  ℕ, ◌+◌, ◌≤◌, ◌≡◌, refl, sym, ap, ◌∙◌, inl, inr, Bool, true, false, ◌&&◌, Option, some, List, [],
  ◌∷◌, ◌++◌, append-nil, arith, length, All, All-append, ok, err, or_raise, ℤ, leb, if◌then◌else◌,
  nat_beq_iff, Bool-cases, ◌==◌, nat_eq, bytes_eq, string_eq,
}
use python_portfolio.Prelude.Dict
use python_portfolio.Prelude.Dict.{Dict, get-put, has-get}
use python_portfolio.Nebula.Primitives.{Text, Property, Edge, Node, new_node}
use python_portfolio.Nebula.Storage.{
  Adjacency, GraphStorage, or_empty, filter, add_to_adj_list, add_edge, src_of, dst_of, matches,
  iter_out_edges, empty, add_node, get_node, resource_exhausted, node_not_found,
}
use python_portfolio.Nebula.Storage.Adjacency.{
  nonempty, at_key, Lists, Distinct, or_empty-nonempty, filter-append, entries,
}

-- Both ends of an edge are nodes.
abbrev pub HasEnds : Dict ℕ Node → Edge → Type 0
HasEnds nodes e = (Dict.has nodes e.src ≡ true) × (Dict.has nodes e.dst ≡ true)

-- The store holds just these edges, in this order, in all of its three structures.
pub record Represents (g : GraphStorage) (es : List Edge) : Type 0 where
  pub edges : g.edges ≡ entries es
  pub distinct : Distinct es
  pub numbered : All (λ (e : Edge). e.id ≤ g.edge_seq) es
  pub outs : Lists src_of g.out_edges es
  pub ins : Lists dst_of g.in_edges es
  pub ends : All (HasEnds g.nodes) es

pub empty-Represents : (capacity : ℕ) → Represents (empty capacity) []
unfolding Dict.get
empty-Represents capacity = record {
  edges = refl;
  distinct = tt;
  numbered = tt;
  outs = λ n. refl;
  ins = λ n. refl;
  ends = tt;
}

put-entries :
    (es : List Edge) (e : Edge) (m : ℕ)
    → All (λ (k : Edge). k.id ≤ m) es
    → e.id ≡ m + 1
    → Dict.put (entries es) e.id e ≡ entries (es ++ (e ∷ []))
unfolding Dict.put
put-entries [] e m h n = refl
put-entries (k ∷ es) e m h n = ground (arith, put-entries es e m h.1 n, h.0)

All-le :
    (es : List Edge) (m : ℕ) → All (λ (k : Edge). k.id ≤ m) es → All (λ (k : Edge). k.id ≤ m + 1) es
All-le [] m h = tt
All-le (k ∷ es) m h = (omega (arith, h.0), All-le es m h.1)

Distinct-append :
    (es : List Edge) (e : Edge) (m : ℕ)
    → All (λ (k : Edge). k.id ≤ m) es
    → e.id ≡ m + 1
    → Distinct es
    → Distinct (es ++ (e ∷ []))
Distinct-append [] e m h n d = (tt, tt)
Distinct-append (k ∷ es) e m h n d = (
  All-append (λ (j : Edge). (j.id == k.id) ≡ false) es (e ∷ []) d.0 (ground (arith, h.0), tt),
  Distinct-append es e m h.1 n d.1,
)

nonempty-append : (es : List Edge) (e : Edge) → nonempty (es ++ (e ∷ [])) ≡ some (es ++ (e ∷ []))
nonempty-append [] e = refl
nonempty-append (k ∷ es) e = refl

add_to_adj_list-Lists :
    (key : Edge → ℕ) (adj : Adjacency) (es : List Edge) (e : Edge)
    → Lists key adj es
    → Lists key (add_to_adj_list adj (key e) e) (es ++ (e ∷ []))
unfolding add_to_adj_list
add_to_adj_list-Lists key adj es e l n =
    get-put adj (key e) (or_empty (Dict.get adj (key e)) ++ (e ∷ [])) n
    ∙ elim (Bool-cases (key e == n)) [
      | inl same ↦
          rw
            (
              same,
              l (key e),
              or_empty-nonempty (filter (at_key key (key e)) es),
              filter-append (at_key key n) es (e ∷ []),
              same,
            )
            (ap (λ m. some (filter (at_key key m) es ++ (e ∷ []))) ((nat_beq_iff (key e) n).0 same)
              ∙ sym (nonempty-append (filter (at_key key n) es) e))
      | inr apart ↦ rw (apart, filter-append (at_key key n) es (e ∷ []), apart, append-nil) (l n)
    ]

added : Edge → GraphStorage → GraphStorage
added e g = record g {
  edge_seq = g.edge_seq + 1;
  edges = Dict.put g.edges e.id e;
  out_edges = add_to_adj_list g.out_edges e.src e;
  in_edges = add_to_adj_list g.in_edges e.dst e;
}

-- An edge between two nodes that are there gets the next number and goes behind all others, in the
-- list of all edges and in the lists of its two ends.
pub add_edge-Represents :
    (src dst : ℕ) (rel_type : Text) (weight : ℤ) (properties : Dict Text Property)
    (g : GraphStorage) (es : List Edge)
    → Represents g es
    → Dict.has g.nodes src ≡ true
    → Dict.has g.nodes dst ≡ true
    → let e : Edge = record {
      id = g.edge_seq + 1;
      src = src;
      dst = dst;
      rel_type = rel_type;
      weight = weight;
      properties = properties;
    } in
      (g' : GraphStorage) × (add_edge src dst rel_type weight properties g ≡ ok (e, g'))
      × Represents g' (es ++ (e ∷ []))
      × (g'.nodes ≡ g.nodes)
unfolding add_edge added
add_edge-Represents src dst rel_type weight properties g es r hs hd =
    let e : Edge = record {
      id = g.edge_seq + 1;
      src = src;
      dst = dst;
      rel_type = rel_type;
      weight = weight;
      properties = properties;
    } in
    (
      added e g,
      rw (hs, hd),
      record {
        edges = ap (λ d. Dict.put d e.id e) r.edges ∙ put-entries es e g.edge_seq r.numbered refl;
        distinct = Distinct-append es e g.edge_seq r.numbered refl r.distinct;
        numbered =
            All-append (λ (k : Edge). k.id ≤ g.edge_seq + 1) es (e ∷ [])
              (All-le es g.edge_seq r.numbered) (omega arith, tt);
        outs = add_to_adj_list-Lists src_of g.out_edges es e r.outs;
        ins = add_to_adj_list-Lists dst_of g.in_edges es e r.ins;
        ends = All-append (HasEnds g.nodes) es (e ∷ []) r.ends ((hs, hd), tt);
      },
      refl,
    )

filter-filter :
    (p q : Edge → Bool) (es : List Edge) → filter q (filter p es) ≡ filter (λ e. p e && q e) es
filter-filter p q [] = refl
filter-filter p q (e ∷ es) = ground (arith, filter-filter p q es)

pub iter_out_edges-Represents :
    (id : ℕ) (type_filter : Option Text) (g : GraphStorage) (es : List Edge)
    → Represents g es
    → iter_out_edges id type_filter g ≡ filter (λ e. (e.src == id) && matches type_filter e) es
unfolding iter_out_edges
iter_out_edges-Represents id type_filter g es r =
    ap (λ o. filter (matches type_filter) (or_empty o)) (r.outs id)
    ∙ ap (filter (matches type_filter)) (or_empty-nonempty (filter (at_key src_of id) es))
    ∙ filter-filter (at_key src_of id) (matches type_filter) es

has-put :
    (nodes : Dict ℕ Node) (k : ℕ) (v : Node) (n : ℕ)
    → Dict.has nodes n ≡ true
    → Dict.has (Dict.put nodes k v) n ≡ true
has-put nodes k v n h =
    ground (arith, h, has-get nodes n, has-get (Dict.put nodes k v) n, get-put nodes k v n)

HasEnds-put :
    (nodes : Dict ℕ Node) (k : ℕ) (v : Node) (es : List Edge)
    → All (HasEnds nodes) es
    → All (HasEnds (Dict.put nodes k v)) es
HasEnds-put nodes k v [] h = tt
HasEnds-put nodes k v (e ∷ es) ((s, t), hs) =
    ((has-put nodes k v e.src s, has-put nodes k v e.dst t), HasEnds-put nodes k v es hs)

-- At its capacity, the store refuses a node. Below it, the node gets the next number: `get_node` finds it
-- there, finds what it found before under any other number, and the edges are the same.
add_node-Represents :
    (labels : List Text) (properties : Dict Text Property) (j : ℕ) (g : GraphStorage)
    (es : List Edge)
    → Represents g es
    → let node = new_node (g.node_seq + 1) labels properties in
      (g' : GraphStorage) × (add_node labels properties g
        ≡ (if leb g.capacity_limit (length g.nodes) then err resource_exhausted else ok (node, g')))
      × Represents g' es
      × (get_node j g' ≡ (if node.id == j then ok node else get_node j g))
unfolding add_node get_node
add_node-Represents labels properties j g es r =
    let node = new_node (g.node_seq + 1) labels properties in
    (
      record g { node_seq = g.node_seq + 1; nodes = Dict.put g.nodes node.id node },
      refl,
      record {
        edges = r.edges;
        distinct = r.distinct;
        numbered = r.numbered;
        outs = r.outs;
        ins = r.ins;
        ends = HasEnds-put g.nodes node.id node es r.ends;
      },
      ap (λ o. or_raise o (node_not_found j)) (get-put g.nodes node.id node j) ∙ ground arith,
    )
