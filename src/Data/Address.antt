-- ===== src/Data/Address.antt =====
-- `Utils.get_connection_string` (pdip/utils/utils.py).
use text.Mathlib.Text.{◌==◌}
use pdip.Prelude.{Option, none, some, String, if◌then◌else◌}
use pdip.Prelude.Results.{Result, ok, err, ◌>>=◌}
use pdip.Parallel.Domain.{Error, other}
use pdip.Sql.Dialect.{◌<>◌, is_empty, text_of}

-- The fields of `DatabaseConfig` that are read.
pub record DatabaseConfig : Type 0 where
  pub type : String
  pub driver : Option String
  pub user : Option String
  pub password : Option String
  pub host : Option String
  pub port : Option String
  pub database : Option String

-- `driver.replace(' ', '+')` is `plus`, and `os.path.join` is `join_path`.
module _ (plus : String → String) (join_path : String → String → String) where
  -- The local variable `driver`, which is set only for a driver that is not empty.
  unfoldable pub driver_of : Option String → Result Error String
  unfolding is_empty text_of
  driver_of driver =
      if is_empty driver then err (other "UnboundLocalError") else ok (plus (text_of driver))

  unfoldable pub address : DatabaseConfig → String
  unfolding text_of
  address config =
      "://"
      <> text_of config.user
      <> ":"
      <> text_of config.password
      <> "@"
      <> text_of config.host
      <> ":"
      <> text_of config.port
      <> "/"
      <> text_of config.database

  unfoldable pub path_of : String → Option String → String
  path_of host none = "/" <> host
  path_of host (some root) = "/" <> join_path root host

  unfoldable pub get_connection_string : DatabaseConfig → Option String → Result Error String
  unfolding driver_of address path_of is_empty text_of
  get_connection_string config root_directory =
      if config.type == "SQLITE"
      then ok (
          "sqlite://"
          <> (if is_empty config.host then "" else path_of (text_of config.host) root_directory))
      else if config.type == "MSSQL"
      then driver_of config.driver
        >>= (λ driver. ok ("mssql+pyodbc" <> address config <> "?driver=" <> driver))
      else if config.type == "POSTGRESQL"
      then ok ("postgresql" <> address config)
      else ok ""
