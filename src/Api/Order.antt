-- ===== src/Api/Order.antt =====
-- `OrderBySpecification.specify` (pdip/api/specifications/order_by_specification.py).
use text.Mathlib.Text.{◌==◌}
use pdip.Prelude.{Option, none, some, List, [], ◌∷◌, String, if◌then◌else◌}
use pdip.Prelude.Results.{Result, ok, ◌>>=◌}
use pdip.Parallel.Domain.{Error}
use pdip.Sql.Dialect.{◌<>◌, is_empty, text_of}

-- A request's `OrderBy` and `Order`; it has both attributes.
pub record OrderByParameter : Type 0 where
  pub order_by : Option String
  pub order : Option String

-- What a query is ordered by: a text, or a column, maybe descending.
pub data Ordering (A : Type 0) : Type 0 where
  textual : String → Ordering A
  ascending descending : A → Ordering A

-- `getattr(getattr(module_finder.get_module(class_name), class_name), attr_name)`
module _ {A : Type 0} (attribute : String → String → Result Error A) where
  unfoldable pub column_ordering : String → A → Ordering A
  column_ordering order a = if order == "desc" then descending a else ascending a

  -- Of the parts of OrderBy between its dots.
  unfoldable pub specify_parts :
      OrderByParameter → String → List String → Result Error (Option (Ordering A))
  unfolding column_ordering text_of
  specify_parts parameter order (name ∷ []) =
      ok (some (textual ("\"" <> text_of parameter.order_by <> "\" " <> text_of parameter.order)))
  specify_parts parameter order (class_name ∷ attr_name ∷ []) =
      attribute class_name attr_name >>= λ a. ok (some (column_ordering order a))
  specify_parts parameter order [] = ok none
  specify_parts parameter order (a ∷ b ∷ c ∷ parts) = ok none

  -- `split` is `OrderBy.split('.')`.
  unfoldable pub specify :
      (String → List String) → OrderByParameter → Result Error (Option (Ordering A))
  unfolding specify_parts is_empty text_of
  specify split parameter =
      let order = if is_empty parameter.order then "asc" else text_of parameter.order in
      if is_empty parameter.order_by
      then ok none
      else specify_parts parameter order (split (text_of parameter.order_by))
