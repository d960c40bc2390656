-- ===== src/Nebula/Index.antt =====
-- nebula_graph/index/inverted.py: from the value of a property to the nodes that have it. A set of
-- identifiers is a list with none twice.
pub mod Search
use python_portfolio.Prelude.{
  ℕ, ◌+◌, Bool, Option, none, some, List, [], ◌∷◌, ◌++◌, arith, any, if◌then◌else◌, ◌==◌, nat_eq,
  bytes_eq, string_eq,
}
use python_portfolio.Prelude.Dict
use python_portfolio.Prelude.Dict.{Dict}
use python_portfolio.Nebula.Primitives.{Text, Property, property_eq, Node}

pub record PropertyIndex : Type 0 where
  pub property_name : Text
  pub items : Dict Property (List ℕ)

abbrev pub IndexManager : Type 0
IndexManager = Dict Text PropertyIndex

abbrev pub has_id : List ℕ → ℕ → Bool
has_id ids j = any (λ i. i == j) ids

abbrev pub or_empty : Option (List ℕ) → List ℕ
or_empty none = []
or_empty (some ids) = ids

-- set.add
abbrev pub add_id : List ℕ → ℕ → List ℕ
add_id ids j = if has_id ids j then ids else ids ++ (j ∷ [])

-- set.discard
abbrev pub discard_id : List ℕ → ℕ → List ℕ
discard_id [] j = []
discard_id (i ∷ ids) j = let rest = discard_id ids j in if i == j then rest else i ∷ rest

-- PropertyIndex.add, on a defaultdict
unfoldable pub add : Property → ℕ → PropertyIndex → PropertyIndex
add value node_id idx = record idx {
  items = Dict.put idx.items value (add_id (or_empty (Dict.get idx.items value)) node_id);
}

abbrev pub store_ids : Dict Property (List ℕ) → Property → List ℕ → Dict Property (List ℕ)
store_ids items value [] = Dict.remove items value
store_ids items value (i ∷ ids) = Dict.put items value (i ∷ ids)

-- PropertyIndex.remove
unfoldable pub remove : Property → ℕ → PropertyIndex → PropertyIndex
remove value node_id idx =
    if Dict.has idx.items value
    then record idx {
      items = store_ids idx.items value (discard_id (or_empty (Dict.get idx.items value)) node_id);
    }
    else idx

-- PropertyIndex.lookup
unfoldable pub lookup : Property → PropertyIndex → List ℕ
lookup value idx = or_empty (Dict.get idx.items value)

unfoldable pub create_index : Text → IndexManager → IndexManager
create_index name m =
    if Dict.has m name then m else Dict.put m name (record { property_name = name; items = [] })

unfoldable pub drop_index : Text → IndexManager → IndexManager
drop_index name m = Dict.remove m name

-- One entry of `node.properties.items()`
unfoldable pub index_property : ℕ → Text → Property → IndexManager → IndexManager
unfolding add
index_property node_id prop value m = elim (Dict.get m prop) [
  | none ↦ m
  | some idx ↦ Dict.put m prop (add value node_id idx)
]

unfoldable pub index_properties : ℕ → Dict Text Property → IndexManager → IndexManager
unfolding index_property
index_properties node_id [] m = m
index_properties node_id ((prop, value) ∷ ps) m =
    index_properties node_id ps (index_property node_id prop value m)

unfoldable pub on_node_created : Node → IndexManager → IndexManager
unfolding index_properties
on_node_created node m = index_properties node.id node.properties m

abbrev pub lookup_in : Property → Option PropertyIndex → List ℕ
lookup_in value none = []
lookup_in value (some idx) = lookup value idx

unfoldable pub search : Text → Property → IndexManager → List ℕ
unfolding lookup
search name value m = lookup_in value (Dict.get m name)
