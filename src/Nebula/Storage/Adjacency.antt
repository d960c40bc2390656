-- ===== src/Nebula/Storage/Adjacency.antt =====
-- nebula_graph/core/storage.py: an adjacency list and the list of all edges that it stands for.
use python_portfolio.Prelude.{
  ℕ, ◌≡◌, refl, ap, ◌∙◌, inl, inr, Bool, true, false, Option, none, some, List, [], ◌∷◌, ◌++◌,
  arith, All, if◌then◌else◌, nat_beq_iff, nat_beq_refl, Bool-cases, ◌==◌, nat_eq, bytes_eq,
  string_eq,
}
use python_portfolio.Prelude.Dict
use python_portfolio.Prelude.Dict.{Dict, get-put, get-remove}
use python_portfolio.Nebula.Primitives.{Edge}
use python_portfolio.Nebula.Storage.{
  Adjacency, or_empty, filter, remove_first, store_rest, remove_inverse_edge_ref,
}

-- A list of edges, if there is one.
abbrev pub nonempty : List Edge → Option (List Edge)
nonempty [] = none
nonempty (e ∷ es) = some (e ∷ es)

abbrev pub at_key : (Edge → ℕ) → ℕ → Edge → Bool
at_key key n e = key e == n

-- The adjacency list holds, for each node, the edges of the list that have it at the end `key`, in their
-- order, and no entry where there are none.
abbrev pub Lists : (Edge → ℕ) → Adjacency → List Edge → Type 0
Lists key adj es = (n : ℕ) → Dict.get adj n ≡ nonempty (filter (at_key key n) es)

-- No two edges have one identifier.
abbrev pub Distinct : List Edge → Type 0
Distinct [] = Unit
Distinct (e ∷ es) = All (λ (k : Edge). (k.id == e.id) ≡ false) es × Distinct es

pub or_empty-nonempty : (es : List Edge) → or_empty (nonempty es) ≡ es
or_empty-nonempty [] = refl
or_empty-nonempty (e ∷ es) = refl

pub filter-append :
    (p : Edge → Bool) (xs ys : List Edge) → filter p (xs ++ ys) ≡ filter p xs ++ filter p ys
filter-append p [] ys = refl
filter-append p (x ∷ xs) ys = ground (arith, filter-append p xs ys)

pub All-filter :
    (P : Edge → Type 0) (p : Edge → Bool) (es : List Edge) → All P es → All P (filter p es)
All-filter P p [] h = tt
All-filter P p (e ∷ es) h = elim (Bool-cases (p e)) [
  | inl kept ↦ rw kept (h.0, All-filter P p es h.1)
  | inr dropped ↦ rw dropped (All-filter P p es h.1)
]

-- The edges as `_edges` holds them.
abbrev pub entries : List Edge → Dict ℕ Edge
entries [] = []
entries (e ∷ es) = (e.id, e) ∷ entries es

get-store_rest :
    (adj : Adjacency) (k : ℕ) (es : List Edge) (n : ℕ)
    → Dict.get (store_rest adj k (some es)) n ≡ (if k == n then nonempty es else Dict.get adj n)
get-store_rest adj k [] n = get-remove adj k n
get-store_rest adj k (e ∷ es) n = get-put adj k (e ∷ es) n

-- An edge leaves the middle of a list.
module _ (x : Edge) where
  abbrev Other : Edge → Type 0
  Other k = (k.id == x.id) ≡ false

  All-middle : (P : Edge → Type 0) (b a : List Edge) → All P (b ++ (x ∷ a)) → P x
  All-middle P [] a h = h.0
  All-middle P (y ∷ b) a h = All-middle P b a h.1

  pub All-without : (P : Edge → Type 0) (b a : List Edge) → All P (b ++ (x ∷ a)) → All P (b ++ a)
  All-without P [] a h = h.1
  All-without P (y ∷ b) a h = (h.0, All-without P b a h.1)

  pub Distinct-without : (b a : List Edge) → Distinct (b ++ (x ∷ a)) → Distinct (b ++ a)
  Distinct-without [] a d = d.1
  Distinct-without (y ∷ b) a d =
      (All-without (λ (k : Edge). (k.id == y.id) ≡ false) b a d.0, Distinct-without b a d.1)

  before-Other : (b a : List Edge) → Distinct (b ++ (x ∷ a)) → All Other b
  before-Other [] a d = tt
  before-Other (y ∷ b) a (fresh, d) = (
    ground (arith, All-middle (λ (k : Edge). (k.id == y.id) ≡ false) b a fresh),
    before-Other b a d,
  )

  after-Other : (b a : List Edge) → Distinct (b ++ (x ∷ a)) → All Other a
  after-Other [] a d = d.0
  after-Other (y ∷ b) a d = after-Other b a d.1

  remove_first-middle :
      (b a : List Edge) → All Other b → remove_first x.id (b ++ (x ∷ a)) ≡ some (b ++ a)
  unfolding remove_first
  remove_first-middle [] a h = rw (nat_beq_refl x.id)
  remove_first-middle (y ∷ b) a h = rw (remove_first-middle b a h.1, h.0)

  remove-entries-Other : (a : List Edge) → All Other a → Dict.remove (entries a) x.id ≡ entries a
  unfolding Dict.remove
  remove-entries-Other [] h = refl
  remove-entries-Other (y ∷ a) h = rw (h.0, remove-entries-Other a h.1)

  remove-entries :
      (b a : List Edge)
      → All Other b
      → All Other a
      → Dict.remove (entries (b ++ (x ∷ a))) x.id ≡ entries (b ++ a)
  unfolding Dict.remove
  remove-entries [] a hb ha = rw (nat_beq_refl x.id) (remove-entries-Other a ha)
  remove-entries (y ∷ b) a hb ha = rw (hb.0, remove-entries b a hb.1 ha)

  -- What `del self._edges[edge.id]` does to a dictionary that has the edge.
  pub remove-entries_middle :
      (b a : List Edge)
      → Distinct (b ++ (x ∷ a))
      → Dict.remove (entries (b ++ (x ∷ a))) x.id ≡ entries (b ++ a)
  remove-entries_middle b a d = remove-entries b a (before-Other b a d) (after-Other b a d)

  pub has-entries : (b a : List Edge) → Dict.has (entries (b ++ (x ∷ a))) x.id ≡ true
  unfolding Dict.has
  has-entries [] a = rw (nat_beq_refl x.id)
  has-entries (y ∷ b) a = ground (arith, has-entries b a)

  filter-middle :
      (p : Edge → Bool) (b a : List Edge)
      → filter p (b ++ (x ∷ a))
        ≡ (if p x then filter p b ++ (x ∷ filter p a) else filter p (b ++ a))
  filter-middle p b a = elim (Bool-cases (p x)) [
    | inl kept ↦ rw (filter-append p b (x ∷ a), kept)
    | inr dropped ↦ rw (filter-append p b (x ∷ a), filter-append p b a, dropped)
  ]

  remove_first-filter :
      (p : Edge → Bool) (b a : List Edge)
      → Distinct (b ++ (x ∷ a))
      → p x ≡ true
      → remove_first x.id (filter p (b ++ (x ∷ a))) ≡ some (filter p (b ++ a))
  remove_first-filter p b a d kept =
      rw (filter-middle p b a, kept, filter-append p b a)
        (remove_first-middle (filter p b) (filter p a) (All-filter Other p b (before-Other b a d)))

  pub remove_inverse_edge_ref-Lists :
      (key : Edge → ℕ) (adj : Adjacency) (b a : List Edge)
      → Distinct (b ++ (x ∷ a))
      → Lists key adj (b ++ (x ∷ a))
      → Lists key (remove_inverse_edge_ref adj (key x) x) (b ++ a)
  unfolding remove_inverse_edge_ref
  remove_inverse_edge_ref-Lists key adj b a d l n =
      let k = key x in
      let left = filter (at_key key k) (b ++ a) in
      let removed : remove_first x.id (or_empty (Dict.get adj k)) ≡ some left =
        ap (λ o. remove_first x.id (or_empty o)) (l k)
        ∙ ap (remove_first x.id) (or_empty-nonempty (filter (at_key key k) (b ++ (x ∷ a))))
        ∙ remove_first-filter (at_key key k) b a d (nat_beq_refl k) in
      ap (λ o. Dict.get (store_rest adj k o) n) removed
      ∙ get-store_rest adj k left n
      ∙ elim (Bool-cases (k == n)) [
        | inl same ↦
            rw same (ap (λ m. nonempty (filter (at_key key m) (b ++ a))) ((nat_beq_iff k n).0 same))
        | inr apart ↦ rw apart (l n ∙ ap nonempty (filter-middle (at_key key n) b a ∙ rw apart))
      ]
