-- ===== src/Sql/Dialect.antt =====
-- `SqlDialect` (pdip/integrator/connection/types/sql/base/sql_dialect.py), as far as contexts and
-- adapters call it.
use Prim.Native.String.{◌++◌}
use text.Mathlib.Text.{◌==◌}
use pdip.Prelude.{ℕ, Bool, true, Option, none, some, List, [], ◌∷◌, String}
use pdip.Prelude.Results.{Result}
use pdip.Parallel.Domain.{Error}

-- Python's `+` of texts.
infixr 40 ◌<>◌
abbrev pub ◌<>◌ : String → String → String
a <> b = a ++ b

-- `separator.join(texts)`
unfoldable pub join : String → List String → String
join separator [] = ""
join separator (t ∷ []) = t
join separator (t ∷ u ∷ texts) = t <> separator <> join separator (u ∷ texts)

-- `x is None or x == ''`
unfoldable pub is_empty : Option String → Bool
is_empty none = true
is_empty (some t) = t == ""

-- What an f-string writes for a text that may be None.
unfoldable pub text_of : Option String → String
text_of none = "None"
text_of (some t) = t

pub record SqlDialect : Type 0 where
  pub indexer : String
  pub mark_to_object : String → String
  pub get_table_count_query : Option String → Option String → String
  pub get_count_query : String → String
  pub get_select_query : String → String
  pub get_paging_query : String → ℕ → ℕ → String
  pub prepare_select_query :
      Option String → Option String → Option (List String) → Result Error String
  pub get_insert_values_query : Option String → Option String → String → String
  pub get_insert_query : Option String → Option String → String → String → String
  pub get_truncate_table_query : Option String → Option String → String
