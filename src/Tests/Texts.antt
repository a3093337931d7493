-- ===== src/Tests/Texts.antt =====
-- A class that names another one, the files of a query, and a table of one row.
use pdip.Prelude.{
  ℕ, ◌<◌, ◌≡◌, refl, inl, inr, Bool, true, false, none, some, List, [], ◌∷◌, String, map, arith,
  ◌==◌, if◌then◌else◌,
}
use pdip.Prelude.Results.{ok, err}
use pdip.Parallel.Domain.{other}
use pdip.Json.Converter.{Annotation, primitive, generic_of, Classes, register, is_subset}
use pdip.Api.{is_one_of}
use pdip.Json.Reached.{AreNamed, here, through}
use pdip.Json.Mapped.{IsMapped, register-IsMapped}
use pdip.Generator.Config.{QueryGenerateConfig}
use pdip.Generator.Generate.{query_folder, generate, target, files_of, generate-targets}
use pdip.Sql.Dialect.{◌<>◌, is_empty, text_of}
use pdip.Html.Table.{Cell, Source, render_table}
use pdip.Html.Joined.{joined, header_html, row_html, table_html, div_html, render_table-joined}

-- `true` is an order with a list of items, `false` an item.
abbrev annotations : Bool → List (Annotation Bool)
annotations true = primitive ∷ generic_of false ∷ []
annotations false = primitive ∷ []

abbrev orders : Classes Bool ℕ Bool
orders = record {
  attributes = λ c. elim c [ true ↦ "id" ∷ "items" ∷ [] | false ↦ "code" ∷ [] ];
  annotations = annotations;
  make = λ c d. ok c;
}

abbrev depth : Bool → ℕ
depth true = 1
depth false = 0

falls : (c d : Bool) → AreNamed orders d (annotations c) → depth d < depth c
falls true true (inl e) = absurd e
falls true true (inr (inl e)) = cc
falls true true (inr (inr e)) = absurd e
falls true false n = omega arith
falls false d (inl e) = absurd e
falls false d (inr e) = absurd e

register-IsMapped_example :
    (m : List (List String × Bool)) × (register orders 1 true [] ≡ some m)
    × IsMapped orders m (("code", 7) ∷ [])
unfolding is_subset is_one_of
register-IsMapped_example =
    register-IsMapped orders depth 1 true false (("code", 7) ∷ []) falls (omega arith)
      (through (inr (inl refl)) here) refl

abbrev config : QueryGenerateConfig
config = record {
  base_directory = "application";
  domain = "person";
  name = "ListPeople";
  dao = record { name = "Person"; namespace = "from domain import Person" };
  is_list = false;
  has_paging = true;
}

generate-targets_example :
    (map target (generate config []).1
      ≡ files_of "application/person/ListPeople" "ListPeople"
          ("Request" ∷ "Dto" ∷ "Response" ∷ "Query" ∷ []))
    × ((generate config []).0 ≡ err (other "KeyError"))
unfolding query_folder
generate-targets_example = generate-targets config

abbrev cell : String → Cell
cell value = ("value", some value) ∷ []

abbrev source : Source
source = record {
  columns = some (cell "Name" ∷ []);
  rows = some ((cell "Ada" ∷ []) ∷ []);
  pagination =
      some record { filter = some "A"; page = 2; page_url = "/people"; limit = 1; total_page = 2 };
}

abbrev str : ℕ → String
str n = if n == 1 then "1" else "2"

abbrev format : String → String → String
format url query = url <> query

render_table-joined_example :
    render_table str format source none
    ≡ ok (
        table_html "100%"
          ("<th scope=\"col\"  class=\"pdi-column\">#</th>"
            <> joined (header_html (cell "Name") ∷ []))
          (joined (row_html str format 1 (cell "Ada" ∷ []) ∷ []))
          (div_html (
            "<a href=\"/people?PageNumber=1&Limit=1&Filter=A\" >1</a>"
            <> "<a href=\"/people?PageNumber=2&Limit=1&Filter=A\" class=\"active\">2</a>")))
unfolding is_empty text_of
render_table-joined_example =
    render_table-joined str format source none (cell "Name" ∷ []) ((cell "Ada" ∷ []) ∷ []) refl refl
