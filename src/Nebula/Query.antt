-- ===== src/Nebula/Query.antt =====
-- nebula_graph/query/parser.py: the recursive descent over tokens. The regular expressions of the lexer
-- are not modelled: a token carries the text that the lexer gives it, or a number.
pub mod RoundTrip
use python_portfolio.Prelude.{
  ℕ, Bool, true, false, ◌&&◌, Option, none, some, List, [], ◌∷◌, arith, any, Result, ok, err, ◌>>=◌,
  ◌>>◌, guard, if◌then◌else◌, ◌==◌, nat_eq, bytes_eq, string_eq,
}
use python_portfolio.Ouroboros.Text.{codes, upper}
use python_portfolio.Nebula.Primitives.{Text, Property, number, text}

pub record MatchClause : Type 0 where
  pub variable : Text
  pub labels : List Text

pub record WhereClause : Type 0 where
  pub variable : Text
  pub property_name : Text
  pub operator : Text
  pub value : Property

pub record ReturnClause : Type 0 where
  pub variable : Text

pub record QueryAst : Type 0 where
  pub matches : List MatchClause
  pub where_clause : Option WhereClause
  pub returns : List ReturnClause

pub data TokenType : Type 0 where
  keyword identifier symbol string_token number_token eof : TokenType

pub data Token : Type 0 where
  word : TokenType → Text → Token
  numeral : ℕ → Token

abbrev pub token_type : Token → TokenType
token_type (word t s) = t
token_type (numeral n) = number_token

abbrev pub type_beq : TokenType → TokenType → Bool
type_beq keyword keyword = true
type_beq identifier identifier = true
type_beq symbol symbol = true
type_beq string_token string_token = true
type_beq number_token number_token = true
type_beq eof eof = true
type_beq _ _ = false

pub data SyntaxError : Type 0 where
  no_match no_return no_literal attribute_error : SyntaxError
  unexpected : Token → SyntaxError

-- _current: the first of the tokens that are left
abbrev pub current : List Token → Token
current [] = word eof []
current (t ∷ ts) = t

-- _advance
abbrev pub advance : List Token → List Token
advance [] = []
advance (t ∷ ts) = ts

-- `val and tk.value.upper() != val.upper()`, negated; a number has no `upper`, but it is never asked
abbrev pub value_is : Option Text → Token → Bool
value_is none t = true
value_is (some v) (word _ s) = upper s == upper v
value_is (some v) (numeral n) = true

-- _peek
unfoldable pub peek : TokenType → Option Text → List Token → Bool
unfolding upper
peek type val ts = type_beq (token_type (current ts)) type && value_is val (current ts)

abbrev pub text_of : Token → Text
text_of (word _ s) = s
text_of (numeral n) = []

-- _expect, as the text of the token
unfoldable pub expect :
    TokenType → Option Text → List Token → Result SyntaxError (Text × List Token)
unfolding peek
expect type val ts =
    if peek type val ts
    then ok (text_of (current ts), advance ts)
    else err (unexpected (current ts))

-- The label of a pattern, if there is one.
unfoldable pub parse_labels : List Token → Result SyntaxError (List Text × List Token)
unfolding expect
parse_labels ts =
    if peek symbol (some (codes ":")) ts
    then (expect identifier none (advance ts) >>= λ r. ok (r.0 ∷ [], r.1))
    else ok ([], ts)

unfoldable pub parse_pattern : List Token → Result SyntaxError (MatchClause × List Token)
unfolding parse_labels
parse_pattern ts = do
  (_, ts₁) ← expect symbol (some (codes "(")) ts
  (name, ts₂) ← expect identifier none ts₁
  (labels, ts₃) ← parse_labels ts₂
  (_, ts₄) ← expect symbol (some (codes ")")) ts₃
  ok (record { variable = name; labels = labels }, ts₄)

-- val_token.value, for a string or a number
abbrev pub literal : Token → Result SyntaxError Property
literal (word string_token s) = ok (text s)
literal (word _ s) = err no_literal
literal (numeral n) = ok (number n)

unfoldable pub parse_where : List Token → Result SyntaxError (WhereClause × List Token)
unfolding expect
parse_where ts = do
  (name, ts₁) ← expect identifier none ts
  (_, ts₂) ← expect symbol (some (codes ".")) ts₁
  (prop, ts₃) ← expect identifier none ts₂
  (op, ts₄) ← expect symbol (some (codes "=")) ts₃
  value ← literal (current ts₄)
  ok (record { variable = name; property_name = prop; operator = op; value = value }, advance ts₄)

unfoldable pub parse_return : List Token → Result SyntaxError (ReturnClause × List Token)
unfolding expect
parse_return ts = expect identifier none ts >>= λ r. ok (record { variable = r.0 }, r.1)

unfoldable pub parse_optional_where :
    List Token → Result SyntaxError (Option WhereClause × List Token)
unfolding parse_where
parse_optional_where ts =
    if peek keyword (some (codes "WHERE")) ts
    then (parse_where (advance ts) >>= λ r. ok (some r.0, r.1))
    else ok (none, ts)

-- parse
unfoldable pub parse : List Token → Result SyntaxError QueryAst
unfolding parse_pattern parse_optional_where parse_return
parse ts = do
  _ ← guard (peek keyword (some (codes "MATCH")) ts) no_match
  (pattern, ts₁) ← parse_pattern (advance ts)
  (condition, ts₂) ← parse_optional_where ts₁
  _ ← guard (peek keyword (some (codes "RETURN")) ts₂) no_return
  (result, _) ← parse_return (advance ts₂)
  ok (record { matches = pattern ∷ []; where_clause = condition; returns = result ∷ [] })
