-- ===== src/Generator/Config.antt =====
-- What the query generator is given (pdip/cqrs/generator/domain) and what it calls.
use Prim.Native.Char.{code}
use Prim.Native.String.{[], ◌∷◌}
use pdip.Sql.Dialect.{◌<>◌}
use pdip.Prelude.{Bool, String, ◌==◌, if◌then◌else◌}

-- `folder_manager.start_copy(folder)` and `file_manager.create_file(folder, file_name, content)`
pub data Call : Type 0 where
  start_copy : String → Call
  create_file : String → String → String → Call

pub record DaoGenerateConfig : Type 0 where
  pub name : String
  pub namespace : String

-- With the fields of `GenerateConfig`.
pub record QueryGenerateConfig : Type 0 where
  pub base_directory : String
  pub domain : String
  pub name : String
  pub dao : DaoGenerateConfig
  pub is_list : Bool
  pub has_paging : Bool

-- `path.replace('/', '.')`
unfoldable pub dotted : String → String
dotted [] = ""
dotted (c ∷ path) = let rest = dotted path in if code c == 47 then "." <> rest else c ∷ rest
