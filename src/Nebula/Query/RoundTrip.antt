-- ===== src/Nebula/Query/RoundTrip.antt =====
-- nebula_graph/query/parser.py: the tokens of a query and its tree.
use python_portfolio.Prelude.{
  ◌≡◌, refl, Option, none, some, List, [], ◌∷◌, ◌++◌, String, ok, nat_eq, bytes_eq, string_eq,
}
use python_portfolio.Ouroboros.Text.{codes, upper}
use python_portfolio.Nebula.Primitives.{Text, Property, number, text}
use python_portfolio.Nebula.Query.{
  WhereClause, QueryAst, Token, word, numeral, keyword, identifier, symbol, string_token, peek,
  expect, parse_labels, parse_pattern, parse_where, parse_optional_where, parse_return, parse,
}

-- MATCH (variable[:label]) [WHERE variable.property = value] RETURN variable
pub record Query : Type 0 where
  pub variable : Text
  pub label : Option Text
  pub condition : Option (Text × Text × Property)
  pub result : Text

abbrev name : Text → Token
name s = word identifier s

abbrev sign : String → Token
sign s = word symbol (codes s)

abbrev literal_token : Property → Token
literal_token (number n) = numeral n
literal_token (text s) = word string_token s

abbrev label_tokens : Option Text → List Token
label_tokens none = []
label_tokens (some l) = sign ":" ∷ name l ∷ []

abbrev where_tokens : Option (Text × Text × Property) → List Token
where_tokens none = []
where_tokens (some (v, p, x)) =
    word keyword (codes "WHERE") ∷ name v ∷ sign "." ∷ name p ∷ sign "=" ∷ literal_token x ∷ []

-- The tokens of a query.
abbrev pub tokens_of : Query → List Token
tokens_of q =
    word keyword (codes "MATCH")
    ∷ sign "("
    ∷ name q.variable
    ∷ (label_tokens q.label
        ++ (sign ")"
            ∷ (where_tokens q.condition ++ (word keyword (codes "RETURN") ∷ name q.result ∷ []))))

abbrev labels_of : Option Text → List Text
labels_of none = []
labels_of (some l) = l ∷ []

abbrev condition_of : Option (Text × Text × Property) → Option WhereClause
condition_of none = none
condition_of (some (v, p, x)) =
    some (record { variable = v; property_name = p; operator = codes "="; value = x })

abbrev pub ast_of : Query → QueryAst
ast_of q = record {
  matches = record { variable = q.variable; labels = labels_of q.label } ∷ [];
  where_clause = condition_of q.condition;
  returns = record { variable = q.result } ∷ [];
}

-- The tokens of a query are parsed to its tree, with a label or none and with a condition or none; any
-- tokens behind them are not looked at.
pub parse-tokens_of : (q : Query) (rest : List Token) → parse (tokens_of q ++ rest) ≡ ok (ast_of q)
unfolding parse parse_pattern parse_optional_where parse_return parse_labels parse_where expect peek
    upper
parse-tokens_of q rest = cases q.label q.condition refl refl
  where
    cases :
        (l : Option Text) (c : Option (Text × Text × Property))
        → q.label ≡ l
        → q.condition ≡ c
        → parse (tokens_of q ++ rest) ≡ ok (ast_of q)
    cases none none e f = rw (e, f)
    cases (some l) none e f = rw (e, f)
    cases none (some (v, p, number n)) e f = rw (e, f)
    cases none (some (v, p, text s)) e f = rw (e, f)
    cases (some l) (some (v, p, number n)) e f = rw (e, f)
    cases (some l) (some (v, p, text s)) e f = rw (e, f)
