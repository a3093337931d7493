-- ===== src/Api/Errors.antt =====
-- `ErrorHandlers` (pdip/api/handlers/error_handlers.py).
use text.Mathlib.Text.{◌==◌}
use pdip.Prelude.{ℕ, Option, none, some, List, [], ◌∷◌, String, if◌then◌else◌}
use pdip.Prelude.Results.{Result, ok, and_then}
use pdip.Parallel.Domain.{Error}
use pdip.Sql.Dialect.{◌<>◌, join}

-- What the handlers call: `rollback` of the repository provider that the service provider gives,
-- and `error` of the logger.
pub record Services (W : Type 0) : Type 0 where
  pub rollback : W → Result Error (Unit {0}) × W
  pub error : String → W → Result Error (Unit {0}) × W

-- An HTTP exception.
pub record HttpException : Type 0 where
  pub code : ℕ
  pub name : String
  pub description : Option String

-- The items of the JSON text of an answer, its status and its content type.
pub record Answer : Type 0 where
  pub items : List (String × Option String)
  pub status : ℕ
  pub content_type : String

-- `text if text is not None and text != '' else 'empty'` of the logged parts.
unfoldable pub or_empty : String → String
or_empty text = if text == "" then "empty" else text

unfoldable pub description_or_empty : Option String → String
description_or_empty none = "empty"
description_or_empty (some description) = description

module _ {W : Type 0} (services : Services W) where
  -- handle_http_exception: the response of the exception keeps its status, which is its code.
  unfoldable pub handle_http_exception : (ℕ → String) → HttpException → W → Result Error Answer × W
  unfolding description_or_empty and_then
  handle_http_exception str exception w =
      let message = description_or_empty exception.description in
      and_then
        (services.error
          ("code:"
            <> str exception.code
            <> " - name:"
            <> exception.name
            <> " - Message:"
            <> message)
          w)
        λ _ w'. (
          ok (record {
            items =
                ("Result", some "")
                ∷ ("IsSuccess", some "false")
                ∷ ("Code", some (str exception.code))
                ∷ ("Name", some exception.name)
                ∷ ("Message", exception.description)
                ∷ [];
            status = exception.code;
            content_type = "application/json";
          }),
          w',
        )

  -- The last part of both other handlers.
  unfoldable pub answer_with : String → ℕ → W → Result Error Answer × W
  answer_with message status w = (
    ok (record {
      items = ("Result", some "") ∷ ("IsSuccess", some "false") ∷ ("Message", some message) ∷ [];
      status = status;
      content_type = "application/json";
    }),
    w,
  )

  -- `args` are the texts in the arguments of the exception, and `trace` is its traceback.
  unfoldable pub handle_exception : List String → String → W → Result Error Answer × W
  unfolding answer_with or_empty join and_then
  handle_exception args trace w = and_then (services.rollback w) λ _ w1.
      let output = join "|" args in
      and_then (services.error ("Message:" <> or_empty output <> " - Trace:" <> or_empty trace) w1)
        λ _ w2.
          answer_with ("ConnectionServer exception occurred. Exception Message:" <> output) 500 w2

  unfoldable pub handle_operational_exception : List String → String → W → Result Error Answer × W
  unfolding answer_with or_empty join and_then
  handle_operational_exception args trace w = and_then (services.rollback w) λ _ w1.
      let output = join "|" args in
      and_then
        (services.error
          ("Operational Exception Message:" <> or_empty output <> " - Trace:" <> or_empty trace) w1)
        λ _ w2. answer_with output 400 w2
