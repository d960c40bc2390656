-- ===== src/Prelude/Dict.antt =====
-- Python's `dict`: an association list in the order of insertion. An assignment to a key that is
-- there keeps its place; a new key goes to the end.
use mathlib.Core.Path.{◌≡◌, refl, ap}
use mathlib.Core.Logic.{inl, inr}
use mathlib.Core.Bool.{Bool, true, false}
use mathlib.Core.Option.{Option, none, some}
use mathlib.Core.List.{List, [], ◌∷◌, map}
use native.Mathlib.Omega.{arith}
use Prim.Native.Nat.{◌+◌}
use python_portfolio.Prelude.Tests.{Eq, if◌then◌else◌, Bool-cases, beq_refl}
use python_portfolio.Prelude.Lists.{length}

abbrev pub Dict {ℓ κ} : Type ℓ → Type κ → Type (ℓ ⊔ κ)
Dict K V = List (K × V)

module _ {ℓ} {K : Type ℓ} ⦃e : Eq K⦄ where
  beq_through : (i j k : K) → e.beq i j ≡ true → e.beq i k ≡ e.beq j k
  beq_through i j k h = ap (λ x. e.beq x k) ((e.beq_iff i j).0 h)

  beq_sym : (i j : K) → e.beq i j ≡ e.beq j i
  beq_sym i j = elim (Bool-cases (e.beq i j)) [
    | inl same ↦ cc (same, beq_refl i, (e.beq_iff i j).0 same)
    | inr other ↦ elim (Bool-cases (e.beq j i)) [
      | inl same ↦ cc (same, beq_refl i, (e.beq_iff j i).0 same)
      | inr also ↦ cc also
    ]
  ]

module _ {ℓ κ} {K : Type ℓ} {V : Type κ} ⦃e : Eq K⦄ where
  -- d.get(k)
  unfoldable pub get : Dict K V → K → Option V
  get [] k = none
  get ((j, v) ∷ d) k = if e.beq j k then some v else get d k

  -- d[k] = v
  unfoldable pub put : Dict K V → K → V → Dict K V
  put [] k v = (k, v) ∷ []
  put ((j, w) ∷ d) k v = if e.beq j k then (j, v) ∷ d else (j, w) ∷ put d k v

  -- del d[k], d.pop(k, None)
  unfoldable pub remove : Dict K V → K → Dict K V
  remove [] k = []
  remove ((j, w) ∷ d) k = let rest = remove d k in if e.beq j k then rest else (j, w) ∷ rest

  -- k in d
  unfoldable pub has : Dict K V → K → Bool
  has [] k = false
  has ((j, w) ∷ d) k = if e.beq j k then true else has d k

  -- d.values()
  pub values : Dict K V → List V
  values d = map (λ p. p.1) d

  pub get-put :
      (d : Dict K V) (k : K) (v : V) (j : K)
      → get (put d k v) j ≡ (if e.beq k j then some v else get d j)
  unfolding get put
  get-put [] k v j = refl
  get-put ((i, w) ∷ d) k v j = elim (Bool-cases (e.beq i k)) [
    | inl same ↦ ground (arith, same, beq_through i k j same)
    | inr other ↦ ground (arith, other, get-put d k v j, beq_through i j k, beq_sym k j)
  ]

  pub get-remove :
      (d : Dict K V) (k j : K) → get (remove d k) j ≡ (if e.beq k j then none else get d j)
  unfolding get remove
  get-remove [] k j = ground arith
  get-remove ((i, w) ∷ d) k j = elim (Bool-cases (e.beq i k)) [
    | inl same ↦ ground (arith, same, beq_through i k j same, get-remove d k j)
    | inr other ↦ ground (arith, other, get-remove d k j, beq_through i j k, beq_sym k j)
  ]

  -- k in d is d.get(k) is not None, for values that are never None
  pub has-get : (d : Dict K V) (k : K) → has d k ≡ elim (get d k) [ none ↦ false | some _ ↦ true ]
  unfolding get has
  has-get [] k = refl
  has-get ((i, w) ∷ d) k = ground (arith, has-get d k)

  pub get-has : (d : Dict K V) (k : K) → has d k ≡ false → get d k ≡ none
  get-has d k h = ground (arith, has-get d k)

  pub length-put :
      (d : Dict K V) (k : K) (v : V)
      → length (put d k v) ≡ (if has d k then length d else length d + 1)
  unfolding put has
  length-put [] k v = omega arith
  length-put ((i, w) ∷ d) k v = ground (arith, length-put d k v)

pub ruleset dict_laws = (get-put, get-remove)
