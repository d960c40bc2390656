-- ===== src/Nebula/Index/Search.antt =====
-- nebula_graph/index/inverted.py: what a search finds.
use python_portfolio.Prelude.{
  ℕ, ◌≡◌, refl, sym, ap, ◌∙◌, inl, inr, Bool, true, not, ◌&&◌, ◌||◌, Option, none, some, List, [],
  ◌∷◌, ◌++◌, arith, any, and_then, if◌then◌else◌, nat_beq_iff, Bool-cases, ◌==◌, nat_eq, bytes_eq,
  string_eq, bytes_beq_iff,
}
use python_portfolio.Prelude.Dict
use python_portfolio.Prelude.Dict.{Dict, get-put, get-remove, has-get, get-has}
use python_portfolio.Nebula.Primitives.{Text, Property, property_eq, Node}
use python_portfolio.Nebula.Index.{
  PropertyIndex, IndexManager, has_id, or_empty, add_id, discard_id, add, store_ids, remove, lookup,
  index_property, index_properties, on_node_created, lookup_in, search,
}

any-append : (p : ℕ → Bool) (xs ys : List ℕ) → any p (xs ++ ys) ≡ (any p xs || any p ys)
any-append p [] ys = refl
any-append p (x ∷ xs) ys = ground (arith, any-append p xs ys)

has_id-add_id : (ids : List ℕ) (i j : ℕ) → has_id (add_id ids i) j ≡ ((i == j) || has_id ids j)
has_id-add_id ids i j = elim (Bool-cases (has_id ids i)) [
  | inl old ↦ rw old (elim (Bool-cases (i == j)) [
    | inl same ↦ rw same (ap (λ k. has_id ids k) (sym ((nat_beq_iff i j).0 same)) ∙ old)
    | inr apart ↦ rw apart
  ])
  | inr new ↦ rw new (ground (arith, any-append (λ k. k == j) ids (i ∷ [])))
]

has_id-discard_id :
    (ids : List ℕ) (i j : ℕ) → has_id (discard_id ids i) j ≡ (not (i == j) && has_id ids j)
has_id-discard_id [] i j = ground arith
has_id-discard_id (k ∷ ids) i j = ground (arith, has_id-discard_id ids i j)

lookup-add :
    (value : Property) (id : ℕ) (idx : PropertyIndex) (v : Property)
    → lookup v (add value id idx)
      ≡ (if value == v then add_id (lookup value idx) id else lookup v idx)
unfolding lookup add
lookup-add value id idx v =
    ap or_empty (get-put idx.items value (add_id (or_empty (Dict.get idx.items value)) id) v)
    ∙ ground arith

store_ids-lookup :
    (items : Dict Property (List ℕ)) (value : Property) (ids : List ℕ) (v : Property)
    → or_empty (Dict.get (store_ids items value ids) v)
      ≡ (if value == v then ids else or_empty (Dict.get items v))
store_ids-lookup items value [] v = ap or_empty (get-remove items value v) ∙ ground arith
store_ids-lookup items value (i ∷ ids) v =
    ap or_empty (get-put items value (i ∷ ids) v) ∙ ground arith

-- After an entry is removed from an index, a lookup finds what it found before, without that node under that
-- value.
pub lookup-remove :
    (value : Property) (id : ℕ) (idx : PropertyIndex) (v : Property) (j : ℕ)
    → has_id (lookup v (remove value id idx)) j
      ≡ (not (value == v && id == j) && has_id (lookup v idx) j)
unfolding lookup remove
lookup-remove value id idx v j = elim (Bool-cases (Dict.has idx.items value)) [
  | inl there ↦ rw there (
      ap (λ l. has_id l j)
        (store_ids-lookup idx.items value (discard_id (or_empty (Dict.get idx.items value)) id) v)
      ∙ elim (Bool-cases (value == v)) [
        | inl same ↦ rw same (
            has_id-discard_id (or_empty (Dict.get idx.items value)) id j
            ∙ ap (λ x. not (id == j) && has_id (or_empty (Dict.get idx.items x)) j)
                ((property_eq.beq_iff value v).0 same))
        | inr apart ↦ rw apart
      ])
  | inr missing ↦ rw missing (elim (Bool-cases (value == v)) [
    | inl same ↦
        let none_there : Dict.get idx.items v ≡ none =
          ap (Dict.get idx.items) (sym ((property_eq.beq_iff value v).0 same))
          ∙ get-has idx.items value missing in
        rw (same, none_there) (ground arith)
    | inr apart ↦ rw apart
  ])
]

indexed : ℕ → Property → Option PropertyIndex → Option PropertyIndex
indexed id value o = and_then o (λ idx. some (add value id idx))

get-index_property :
    (id : ℕ) (p : Text) (w : Property) (m : IndexManager) (prop : Text)
    → Dict.get (index_property id p w m) prop
      ≡ (if p == prop then indexed id w (Dict.get m prop) else Dict.get m prop)
unfolding index_property indexed
get-index_property id p w m prop = cases (Dict.get m p) refl
  where
    cases :
        (o : Option PropertyIndex)
        → Dict.get m p ≡ o
        → Dict.get (elim o [ none ↦ m | some idx ↦ Dict.put m p (add w id idx) ]) prop ≡ (
            if p == prop
            then and_then (Dict.get m prop) (λ idx. some (add w id idx))
            else Dict.get m prop)
    cases none e = elim (Bool-cases (p == prop)) [
      | inl same ↦ rw (same, ap (Dict.get m) (sym ((bytes_beq_iff p prop).0 same)) ∙ e)
      | inr apart ↦ rw apart
    ]
    cases (some idx) e = get-put m p (add w id idx) prop ∙ elim (Bool-cases (p == prop)) [
      | inl same ↦ rw (same, ap (Dict.get m) (sym ((bytes_beq_iff p prop).0 same)) ∙ e)
      | inr apart ↦ rw apart
    ]

-- An entry of a node's properties is the property with the value.
abbrev pub is_entry : Text → Property → Text × Property → Bool
is_entry prop v (p, w) = p == prop && w == v

abbrev pub has_property : Text → Property → Node → Bool
has_property prop v n = any (is_entry prop v) n.properties

found : Property → Option PropertyIndex → ℕ → Bool
found v o j = has_id (lookup_in v o) j

has-index_property :
    (id : ℕ) (p : Text) (w : Property) (m : IndexManager) (prop : Text)
    → Dict.has (index_property id p w m) prop ≡ Dict.has m prop
unfolding indexed
has-index_property id p w m prop = ground (
  arith,
  has-get (index_property id p w m) prop,
  has-get m prop,
  get-index_property id p w m prop,
)

search-index_property :
    (id : ℕ) (p : Text) (w : Property) (m : IndexManager) (prop : Text) (v : Property) (j : ℕ)
    → Dict.has m prop ≡ true
    → has_id (search prop v (index_property id p w m)) j
      ≡ ((is_entry prop v (p, w) && id == j) || has_id (search prop v m) j)
unfolding search found indexed
search-index_property id p w m prop v j there =
    ap (λ o. found v o j) (get-index_property id p w m prop) ∙ elim (Bool-cases (p == prop)) [
      | inl same ↦ rw same (stored (Dict.get m prop) refl)
      | inr apart ↦ rw apart
    ]
  where
    stored :
        (o : Option PropertyIndex)
        → Dict.get m prop ≡ o
        → found v (indexed id w o) j ≡ ((w == v && id == j) || has_id (lookup_in v o) j)
    stored none e = ground (arith, there, has-get m prop, e)
    stored (some idx) e =
        ap (λ l. has_id l j) (lookup-add w id idx v) ∙ elim (Bool-cases (w == v)) [
          | inl equal ↦ rw equal (
              has_id-add_id (lookup w idx) id j
              ∙ ap (λ x. (id == j) || has_id (lookup x idx) j) ((property_eq.beq_iff w v).0 equal))
          | inr unequal ↦ rw unequal
        ]

search-index_properties :
    (id : ℕ) (ps : Dict Text Property) (m : IndexManager) (prop : Text) (v : Property) (j : ℕ)
    → Dict.has m prop ≡ true
    → (Dict.has (index_properties id ps m) prop ≡ true)
      × (has_id (search prop v (index_properties id ps m)) j
          ≡ ((any (is_entry prop v) ps && id == j) || has_id (search prop v m) j))
unfolding index_properties
search-index_properties id [] m prop v j there = (there, refl)
search-index_properties id ((p, w) ∷ ps) m prop v j there =
    let (kept, rest) =
      search-index_properties id ps (index_property id p w m) prop v j
        (has-index_property id p w m prop ∙ there) in
    (kept, rest ∙ rw (search-index_property id p w m prop v j there) (ground arith))

-- The nodes created one after the other.
unfoldable pub all_created : List Node → IndexManager → IndexManager
all_created [] m = m
all_created (n ∷ ns) m = all_created ns (on_node_created n m)

abbrev pub is_hit : Text → Property → ℕ → Node → Bool
is_hit prop v j n = has_property prop v n && n.id == j

-- Where a property has an index, a search for a value finds, besides what it found before, just the
-- nodes created since that have the property with the value.
pub search-all_created :
    (ns : List Node) (m : IndexManager) (prop : Text) (v : Property) (j : ℕ)
    → Dict.has m prop ≡ true
    → has_id (search prop v (all_created ns m)) j
      ≡ (any (is_hit prop v j) ns || has_id (search prop v m) j)
unfolding all_created on_node_created
search-all_created [] m prop v j there = refl
search-all_created (n ∷ ns) m prop v j there =
    let (kept, first) = search-index_properties n.id n.properties m prop v j there in
    search-all_created ns (on_node_created n m) prop v j kept ∙ rw first (ground arith)
