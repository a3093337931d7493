-- ===== src/Integration/Messages.antt =====
-- The texts that the adapters give for the start, the end and the failure of an integration:
-- `get_start_message`, `get_finish_message` and `get_error_message`
-- (pdip/integrator/integration/types/source/base/source_integration.py,
-- sourcetotarget/base/source_to_target_integration.py, target/base/target_integration.py).
use Prim.Native.String.{◌++◌}
use pdip.Prelude.{String, Option, none, some}
use pdip.Prelude.Results.{Result, ok, err}
use pdip.Parallel.Domain.{Error, other}
use pdip.Integration.Domain.{Integration, IntegrationConnection}

-- The adapters that IntegrationAdapterFactory holds.
pub data Adapter : Type 0 where
  source_integration target_integration source_to_target_integration : Adapter

-- What reading a field of None raises.
abbrev pub attribute_error : Error
attribute_error = other "AttributeError"

-- The object that the `if … elif` chain names: the first that there is.
unfoldable pub object_name : IntegrationConnection → Option String
object_name c = elim c.sql_object [
  | some (schema, object) ↦ some ((schema ++ ".") ++ object)
  | none ↦ elim c.big_data_object [
    | some (schema, object) ↦ some ((schema ++ ".") ++ object)
    | none ↦ elim c.web_service_method [
      | some method ↦ some method
      | none ↦ elim c.file_path [
        | some (folder, file) ↦ some ((folder ++ "\\") ++ file)
        | none ↦ c.queue_topic
      ]
    ]
  ]
]

unfoldable pub connection_message : Option String → String → String → String
connection_message none default suffix = default
connection_message (some object) default suffix = object ++ suffix

unfoldable pub with_connection :
    Option IntegrationConnection → (IntegrationConnection → String) → Result Error String
with_connection none f = err attribute_error
with_connection (some c) f = ok (f c)

-- The connection that an adapter's messages name.
unfoldable pub connection_of : Adapter → Integration → Option IntegrationConnection
connection_of source_integration i = i.source_connections
connection_of _ i = i.target_connections

unfoldable pub get_start_message : Adapter → Integration → Result Error String
unfolding object_name connection_message with_connection connection_of
get_start_message target_integration i = ok "Target integration started."
get_start_message a i = with_connection (connection_of a i) (λ c.
    connection_message (object_name c) "Integration execute started."
      " integration execute started.")

unfoldable pub get_finish_message : Adapter → Integration → Result Error String
unfolding object_name connection_message with_connection connection_of
get_finish_message target_integration i = ok "Target integration finished."
get_finish_message a i = with_connection (connection_of a i) (λ c.
    connection_message (object_name c) "Integration execute finished"
      " integration execute finished.")

unfoldable pub get_error_message : Adapter → Integration → Result Error String
unfolding object_name connection_message with_connection connection_of
get_error_message target_integration i = ok "Target integration getting error."
get_error_message a i = with_connection (connection_of a i) (λ c.
    connection_message (object_name c) "Integration execute getting error."
      " integration execute getting error.")
