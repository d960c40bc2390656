-- ===== src/Nebula/Primitives.antt =====
-- nebula_graph/core/primitives.py: nodes and edges. A set of labels is a list with no label twice; a
-- weight is a whole number, of either sign.
use python_portfolio.Prelude.{
  ℕ, ◌+◌, ◌≡◌, ap, Bool, true, false, List, [], ◌∷◌, ◌++◌, arith, any, ℤ, if◌then◌else◌,
  nat_beq_iff, nat_beq_refl, Eq, ◌==◌, nat_eq, bytes_eq, string_eq, beq_refl, bytes_beq_iff,
}
use mathlib.Core.Path.{subst}
use python_portfolio.Prelude.Dict.{Dict}

abbrev pub Text : Type 0
Text = List ℕ

-- What a property can hold: an integer or a text.
pub data Property : Type 0 where
  number : ℕ → Property
  text : Text → Property

pub record Node : Type 0 where
  pub id : ℕ
  pub labels : List Text
  pub properties : Dict Text Property
  pub version : ℕ

pub record Edge : Type 0 where
  pub id : ℕ
  pub src : ℕ
  pub dst : ℕ
  pub rel_type : Text
  pub weight : ℤ
  pub properties : Dict Text Property

-- label in self.labels
abbrev pub has_label : List Text → Text → Bool
has_label ls l = any (λ k. k == l) ls

-- set(labels)
abbrev pub label_set : List Text → List Text
label_set [] = []
label_set (l ∷ ls) = let rest = label_set ls in if has_label rest l then rest else l ∷ rest

abbrev pub new_node : ℕ → List Text → Dict Text Property → Node
new_node id labels properties = record {
  id = id;
  labels = label_set labels;
  properties = properties;
  version = 0;
}

-- Node.add_label
unfoldable pub add_label : Text → Node → Node
add_label label n = record n {
  labels = if has_label n.labels label then n.labels else n.labels ++ (label ∷ []);
  version = n.version + 1;
}

-- Node.remove_label
unfoldable pub remove_label : Text → Node → Node
remove_label label n = record n { labels = without n.labels; version = n.version + 1 }
  where
    without : List Text → List Text
    without [] = []
    without (l ∷ ls) = let rest = without ls in if l == label then rest else l ∷ rest

abbrev pub property_beq : Property → Property → Bool
property_beq (number a) (number b) = a == b
property_beq (text a) (text b) = a == b
property_beq _ _ = false

pub property_beq_sound : (a b : Property) → property_beq a b ≡ true → a ≡ b
property_beq_sound (number a) (number b) h = ap number ((nat_beq_iff a b).0 h)
property_beq_sound (text a) (text b) h = ap text ((bytes_beq_iff a b).0 h)
property_beq_sound (number a) (text b) h = ground arith
property_beq_sound (text a) (number b) h = ground arith

pub property_beq_refl : (a : Property) → property_beq a a ≡ true
property_beq_refl (number a) = nat_beq_refl a
property_beq_refl (text a) = beq_refl a

instance abbrev pub property_eq : Eq Property
property_eq = record {
  beq = property_beq;
  beq_iff = λ a b.
      (property_beq_sound a b, λ e. subst (λ x. property_beq a x ≡ true) e (property_beq_refl a));
}
