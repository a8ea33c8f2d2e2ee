-- ===== src/Generation/Tokens.antt =====
-- The trees of tokens that sqlparse makes of SQL, as far as generation/sql_generator.py reads them. The
-- parser itself is an argument of what uses it.
use nl2sqlcopy.Prelude.{ℕ, Bool, true, false, ◌||◌, Option, List, [], ◌∷◌, ◌++◌, map, eqb}
use nl2sqlcopy.Agent.Parser.{upper_char}
use nl2sqlcopy.Text.{Text, text_eq, strip, strip_of, split_on}

-- `token.ttype`, a type with its subtypes: `keyword` holds those of statements too.
pub data Kind : Type 0 where
  whitespace comment string name keyword number punctuation operator wildcard rest : Kind

-- The classes of groups that the module tells apart.
pub data Class : Type 0 where
  comment identifier_list identifier parenthesis rest : Class

-- What an identifier calls itself: `get_real_name()`, `get_name()` and `get_alias()`.
pub record Names : Type 0 where
  pub real_name : Option Text
  pub name : Option Text
  pub alias : Option Text

-- A token with its value and its normalized value; a group holds its tokens, and a list of
-- identifiers those that `get_identifiers()` yields.
mutual
  pub data Token : Type 0 where
    leaf : Kind → Text → Text → Token
    group : Class → Text → Text → Names → Tokens → Tokens → Token

  pub data Tokens : Type 0 where
    nil : Tokens
    cons : Token → Tokens → Tokens

-- A statement, with `get_type()`.
pub record Statement : Type 0 where
  pub type : Text
  pub value : Text
  pub tokens : Tokens

-- `text.upper()`, on ASCII
abbrev pub upper : Text → Text
upper = map upper_char

abbrev pub value_of : Token → Text
value_of (leaf kind value normalized) = value
value_of (group class value normalized names tokens identifiers) = value

-- `token.normalized.upper()`
unfoldable pub normalized_upper : Token → Text
normalized_upper (leaf kind value normalized) = upper normalized
normalized_upper (group class value normalized names tokens identifiers) = upper normalized

abbrev pub is_whitespace : Token → Bool
is_whitespace (leaf Kind.whitespace value normalized) = true
is_whitespace _ = false

-- `_is_comment_or_string`
abbrev pub is_comment_or_string : Token → Bool
is_comment_or_string (leaf Kind.comment value normalized) = true
is_comment_or_string (leaf Kind.string value normalized) = true
is_comment_or_string (group Class.comment value normalized names tokens identifiers) = true
is_comment_or_string _ = false

-- `token.is_whitespace or _is_comment_or_string(token)`
unfoldable pub passed_over : Token → Bool
passed_over token = is_whitespace token || is_comment_or_string token

-- `statement.flatten()`: the leaves in order.
unfoldable mutual
  pub flatten_token : Token → List Token
  flatten_token (leaf kind value normalized) = leaf kind value normalized ∷ []
  flatten_token (group class value normalized names tokens identifiers) = flatten tokens

  pub flatten : Tokens → List Token
  flatten nil = []
  flatten (cons token tokens) = flatten_token token ++ flatten tokens

-- `_normalize_table_name` of generation/sql_generator.py: the last part of a qualified name.
abbrev is_quote : ℕ → Bool
is_quote c = eqb c b'`' || eqb c b'"' || eqb c 39 || eqb c b'[' || eqb c b']'

unfoldable pub last_part : List Text → Text
last_part [] = []
last_part (part ∷ []) = part
last_part (part ∷ next ∷ parts) = last_part (next ∷ parts)

unfoldable pub plain_table_name : Text → Text
unfolding last_part
plain_table_name full =
    strip_of is_quote
      (strip (last_part (split_on (λ c. eqb c b'.') (strip_of is_quote (strip full)))))
