-- ===== src/Nebula/Storage/Deletion.antt =====
-- nebula_graph/core/storage.py: `delete_node`, with and without `cascade`.
use python_portfolio.Prelude.{
  ℕ, ◌≤◌, ◌≡◌, refl, sym, ap, ◌∙◌, inl, inr, Bool, true, false, not, ◌||◌, none, some, List, [],
  ◌∷◌, ◌++◌, append_assoc, arith, All, any, ok, err, if◌then◌else◌, Bool-cases, ◌==◌, nat_eq,
  bytes_eq, string_eq,
}
use mathlib.Core.Path.{subst}
use python_portfolio.Prelude.Dict
use python_portfolio.Prelude.Dict.{Dict, get-remove, has-get}
use python_portfolio.Nebula.Primitives.{Edge, Node}
use python_portfolio.Nebula.Storage.{
  Adjacency, GraphStorage, or_empty, filter, remove_inverse_edge_ref, drop_edges, cascade,
  delete_node, src_of, dst_of, is_a_directory,
}
use python_portfolio.Nebula.Storage.Adjacency.{
  nonempty, at_key, Lists, Distinct, or_empty-nonempty, entries, All-filter, Distinct-without,
  remove-entries_middle, has-entries, remove_inverse_edge_ref-Lists,
}
use python_portfolio.Nebula.Storage.Insertion.{HasEnds, Represents}

-- The edges for which the test fails.
abbrev pub reject : (Edge → Bool) → List Edge → List Edge
reject p es = filter (λ e. not (p e)) es

Distinct-filter : (p : Edge → Bool) (es : List Edge) → Distinct es → Distinct (filter p es)
Distinct-filter p [] d = tt
Distinct-filter p (e ∷ es) d = elim (Bool-cases (p e)) [
  | inl kept ↦
      rw kept (All-filter (λ (k : Edge). (k.id == e.id) ≡ false) p es d.0, Distinct-filter p es d.1)
  | inr dropped ↦ rw dropped (Distinct-filter p es d.1)
]

-- The loop of the cascade over the edges that pass a test, with those before them that it has kept.
drop_edges-Lists :
    (key : Edge → ℕ) (p : Edge → Bool) (kept rest : List Edge) (adj : Adjacency)
    {es gone : List Edge}
    → es ≡ kept ++ rest
    → gone ≡ kept ++ reject p rest
    → Distinct es
    → Lists key adj es
    → (adj' : Adjacency) × (drop_edges key (filter p rest) adj (entries es)
        ≡ ok (adj', entries gone))
      × Lists key adj' gone
unfolding drop_edges
drop_edges-Lists key p kept [] adj {es} {gone} e f d l =
    let same : es ≡ gone = e ∙ sym f in
    (adj, ap (λ x. ok (adj, entries x)) same, subst (Lists key adj) same l)
drop_edges-Lists key p kept (x ∷ rest) adj {es} {gone} e f d l = elim (Bool-cases (p x)) [
  | inl passes ↦
      let d₁ : Distinct (kept ++ (x ∷ rest)) = subst Distinct e d in
      let l₁ : Lists key adj (kept ++ (x ∷ rest)) = subst (Lists key adj) e l in
      let (adj', step, l') =
        drop_edges-Lists key p kept rest (remove_inverse_edge_ref adj (key x) x) {es = kept ++ rest}
          {gone = gone} refl (rw passes at f) (Distinct-without x kept rest d₁)
          (remove_inverse_edge_ref-Lists x key adj kept rest d₁ l₁) in
      (adj', rw (passes, e, has-entries x kept rest, remove-entries_middle x kept rest d₁) step, l')
  | inr fails ↦
      let (adj', step, l') =
        drop_edges-Lists key p (kept ++ (x ∷ [])) rest adj {es = es} {gone = gone}
          (e ∙ sym (append_assoc kept (x ∷ []) rest))
          ((rw fails at f) ∙ sym (append_assoc kept (x ∷ []) (reject p rest))) d l in
      (adj', rw fails step, l')
]

filter-reject :
    (key : Edge → ℕ) (id n : ℕ) (es : List Edge)
    → filter (at_key key n) (reject (at_key key id) es)
      ≡ (if id == n then [] else filter (at_key key n) es)
filter-reject key id n [] = ground arith
filter-reject key id n (e ∷ es) = ground (arith, filter-reject key id n es)

-- A node's entry is popped.
Lists-popped :
    (key : Edge → ℕ) (id : ℕ) (adj : Adjacency) (es : List Edge)
    → Lists key adj es
    → Lists key (Dict.remove adj id) (reject (at_key key id) es)
Lists-popped key id adj es l n = get-remove adj id n ∙ elim (Bool-cases (id == n)) [
  | inl same ↦ rw (same, filter-reject key id n es, same)
  | inr apart ↦ rw (apart, filter-reject key id n es, apart) (l n)
]

-- All edges but those of a node.
abbrev pub without_node : ℕ → List Edge → List Edge
without_node id es = reject (at_key dst_of id) (reject (at_key src_of id) es)

has-remove :
    (nodes : Dict ℕ Node) (id n : ℕ)
    → Dict.has (Dict.remove nodes id) n ≡ (if id == n then false else Dict.has nodes n)
has-remove nodes id n =
    ground (arith, has-get (Dict.remove nodes id) n, has-get nodes n, get-remove nodes id n)

without_node-HasEnds :
    (nodes : Dict ℕ Node) (id : ℕ) (es : List Edge)
    → All (HasEnds nodes) es
    → All (HasEnds (Dict.remove nodes id)) (without_node id es)
without_node-HasEnds nodes id [] h = tt
without_node-HasEnds nodes id (e ∷ es) (h, hs) =
    let rest = without_node-HasEnds nodes id es hs in
    let s = has-remove nodes id e.src in
    let t = has-remove nodes id e.dst in
    elim (Bool-cases (at_key src_of id e)) [
      | inl from ↦ rw from rest
      | inr a ↦ elim (Bool-cases (at_key dst_of id e)) [
        | inl to ↦ rw (a, to) rest
        | inr b ↦ rw (a, b) ((ground (arith, a, h, s), ground (arith, b, h, t)), rest)
      ]
    ]

-- An edge has the node at one of its ends.
abbrev pub touches : ℕ → Edge → Bool
touches id e = at_key src_of id e || at_key dst_of id e

filter-any :
    (p : Edge → Bool) (es : List Edge)
    → elim (nonempty (filter p es)) [ none ↦ false | some _ ↦ true ] ≡ any p es
filter-any p [] = refl
filter-any p (e ∷ es) = elim (Bool-cases (p e)) [
  | inl kept ↦ rw (kept, any)
  | inr dropped ↦ rw (dropped, any) (filter-any p es)
]

has-any :
    (key : Edge → ℕ) (adj : Adjacency) (es : List Edge) (id : ℕ)
    → Lists key adj es
    → Dict.has adj id ≡ any (at_key key id) es
has-any key adj es id l = has-get adj id ∙ rw (l id) (filter-any (at_key key id) es)

any-touches :
    (id : ℕ) (es : List Edge)
    → any (touches id) es ≡ (any (at_key src_of id) es || any (at_key dst_of id) es)
any-touches id [] = refl
any-touches id (e ∷ es) = ground (arith, any-touches id es)

reject_none : (p : Edge → Bool) (es : List Edge) → any p es ≡ false → reject p es ≡ es
reject_none p [] h = refl
reject_none p (e ∷ es) h = elim (Bool-cases (p e)) [
  | inl kept ↦ ground (arith, kept)
  | inr dropped ↦ rw dropped (ap (λ l. e ∷ l) (reject_none p es (rw (dropped, any) at h)))
]

deleted : ℕ → Adjacency → Adjacency → List Edge → GraphStorage → GraphStorage
deleted id outs ins es g = record g {
  in_edges = Dict.remove ins id;
  out_edges = outs;
  edges = entries es;
  nodes = Dict.remove g.nodes id;
}

module _ (id : ℕ) (g : GraphStorage) (es : List Edge) (r : Represents g es) where
  cascade-Represents :
      (g' : GraphStorage) × (cascade id g ≡ ok g')
      × Represents g' (without_node id es)
      × (g'.nodes ≡ Dict.remove g.nodes id)
  unfolding cascade deleted
  cascade-Represents =
      let es₁ = reject (at_key src_of id) es in
      let es₂ = reject (at_key dst_of id) es₁ in
      let d₁ = Distinct-filter (λ e. not (at_key src_of id e)) es r.distinct in
      let (ins, first, l₁) =
        drop_edges-Lists dst_of (at_key src_of id) [] es g.in_edges {es = es} {gone = es₁} refl refl
          r.distinct r.ins in
      let (outs, second, l₂) =
        drop_edges-Lists src_of (at_key dst_of id) [] es₁ (Dict.remove g.out_edges id) {es = es₁}
          {gone = es₂} refl refl d₁ (Lists-popped src_of id g.out_edges es r.outs) in
      let out_list = ap or_empty (r.outs id) ∙ or_empty-nonempty (filter (at_key src_of id) es) in
      let in_list = ap or_empty (l₁ id) ∙ or_empty-nonempty (filter (at_key dst_of id) es₁) in
      (
        deleted id outs ins es₂ g,
        rw (out_list, r.edges, first, in_list, second),
        record {
          edges = refl;
          distinct = Distinct-filter (λ e. not (at_key dst_of id e)) es₁ d₁;
          numbered =
              All-filter (λ (e : Edge). e.id ≤ g.edge_seq) (λ e. not (at_key dst_of id e)) es₁
                (All-filter (λ (e : Edge). e.id ≤ g.edge_seq) (λ e. not (at_key src_of id e)) es
                  r.numbered);
          outs = l₂;
          ins = Lists-popped dst_of id ins es₁ l₁;
          ends = without_node-HasEnds g.nodes id es r.ends;
        },
        refl,
      )

  has_edges : (Dict.has g.out_edges id || Dict.has g.in_edges id) ≡ any (touches id) es
  has_edges =
      rw (has-any src_of g.out_edges es id r.outs, has-any dst_of g.in_edges es id r.ins)
        (sym (any-touches id es))

  untouched : any (touches id) es ≡ false → without_node id es ≡ es
  untouched h =
      let s : any (at_key src_of id) es ≡ false = ground (arith, h, any-touches id es) in
      let t : any (at_key dst_of id) es ≡ false = ground (arith, h, any-touches id es) in
      rw (reject_none (at_key src_of id) es s) (reject_none (at_key dst_of id) es t)

  alone-Represents :
      any (touches id) es ≡ false
      → Represents (record g { nodes = Dict.remove g.nodes id }) (without_node id es)
  alone-Represents h =
      let same = untouched h in
      let ends =
        subst (All (HasEnds (Dict.remove g.nodes id))) same
          (without_node-HasEnds g.nodes id es r.ends) in
      rw same (record {
        edges = r.edges;
        distinct = r.distinct;
        numbered = r.numbered;
        outs = r.outs;
        ins = r.ins;
        ends = ends;
      })

  -- A deletion with `cascade` of a node that is there removes the node and just the edges that it is an
  -- end of, a loop among them, from all three structures; it never fails in between.
  pub delete_node-Represents :
      Dict.has g.nodes id ≡ true
      → (g' : GraphStorage) × (delete_node id true g ≡ ok g')
        × Represents g' (without_node id es)
        × (g'.nodes ≡ Dict.remove g.nodes id)
  unfolding delete_node
  delete_node-Represents there = elim (Bool-cases (any (touches id) es)) [
    | inl some_edge ↦
        let (g', e, r', n) = cascade-Represents in (g', rw (there, has_edges, some_edge) e, r', n)
    | inr no_edge ↦ (
      record g { nodes = Dict.remove g.nodes id },
      rw (there, has_edges, no_edge),
      alone-Represents no_edge,
      refl,
    )
  ]

  -- Without `cascade`, the deletion of a node is refused exactly if an edge has the node at an end, and
  -- else does what it does with `cascade`.
  pub delete_node_alone :
      Dict.has g.nodes id ≡ true
      → delete_node id false g
        ≡ (if any (touches id) es then err is_a_directory else delete_node id true g)
  unfolding delete_node
  delete_node_alone there = elim (Bool-cases (any (touches id) es)) [
    | inl some_edge ↦ rw (there, has_edges, some_edge)
    | inr no_edge ↦ rw (there, has_edges, no_edge)
  ]
