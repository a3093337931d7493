-- ===== src/Generator/Generate.antt =====
-- The calls of `QueryGenerator.generate`.
use pdip.Prelude.{
  ◌≡◌, refl, inl, inr, Bool-cases, Bool, not, ◌&&◌, Option, none, some, List, [], ◌∷◌, ◌++◌, map,
  String, if◌then◌else◌,
}
use pdip.Prelude.Results.{Result, ok, err, and_then}
use pdip.Parallel.Domain.{Error, other}
use pdip.Sql.Dialect.{join}
use pdip.Sql.Dialect.{◌<>◌}
use pdip.Generator.Config.{Call, start_copy, create_file, QueryGenerateConfig}
use pdip.Generator.Templates.{
  create_query_file, create_request_file, create_dto_file, create_response_file,
}
use pdip.Generator.Specifications.{create_specifications_file, paging_imports, namespace_in}
use pdip.Generator.Handlers.{create_mapping_file, create_query_handler_file}

-- A call, after the earlier ones; a step that raises before its call makes none. The calls of the
-- managers of files and folders are taken to return: what they raise is left out.
unfoldable pub perform : Result Error Call → List Call → Result Error Unit × List Call
perform (ok call) calls = (ok tt, calls ++ (call ∷ []))
perform (err e) calls = (err e, calls)

unfoldable pub query_folder : QueryGenerateConfig → String
unfolding join
query_folder config = join "/" (config.base_directory ∷ config.domain ∷ config.name ∷ [])

unfoldable pub generate : QueryGenerateConfig → List Call → Result Error Unit × List Call
unfolding perform query_folder and_then
generate config calls =
    let path = query_folder config in
    let name = config.name in
    and_then (perform (ok (start_copy path)) calls) λ _ c1.
      and_then (perform (ok (create_request_file name path config.has_paging)) c1) λ _ c2.
        and_then (perform (ok (create_dto_file name path)) c2) λ _ c3.
          and_then
            (perform (ok (create_response_file name path config.is_list config.has_paging)) c3)
            λ _ c4. and_then (perform (ok (create_query_file name path)) c4) λ _ c5.
              and_then
                (perform
                  (create_specifications_file name path config.dao config.is_list config.has_paging)
                  c5)
                λ _ c6.
                  and_then (perform (ok (create_mapping_file name path config.dao)) c6) λ _ c7.
                    perform
                      (ok (create_query_handler_file name path config.is_list config.has_paging)) c7

-- The folder of a call, and the file that it creates.
abbrev pub target : Call → String × Option String
target (start_copy folder) = (folder, none)
target (create_file folder file_name content) = (folder, some file_name)

abbrev pub files_of : String → String → List String → List (String × Option String)
files_of path name kinds = (path, none) ∷ map (λ kind. (path, some (name <> kind))) kinds

-- A file before the mapping raises a KeyError where a page is wanted of what is no list.
abbrev pub is_odd : QueryGenerateConfig → Bool
is_odd config = config.has_paging && not config.is_list

-- The generator first asks for a copy of the folder of the query, then creates in that folder the
-- files of the request, the data, the response, the query, its specifications, its mapping and its
-- handler, in this order, and succeeds; with paging and no list, it instead raises a KeyError after
-- the file of the query, and leaves the first four files.
pub generate-targets :
    (config : QueryGenerateConfig)
    → (map target (generate config []).1
        ≡ files_of (query_folder config) config.name (
            if is_odd config
            then "Request" ∷ "Dto" ∷ "Response" ∷ "Query" ∷ []
            else "Request" ∷ "Dto" ∷ "Response" ∷ "Query" ∷ "Specifications" ∷ "Mapping"
              ∷ "QueryHandler" ∷ []))
      × ((generate config []).0 ≡ (if is_odd config then err (other "KeyError") else ok tt))
unfolding generate perform and_then create_request_file create_dto_file create_response_file
    create_query_file create_specifications_file paging_imports namespace_in create_mapping_file
    create_query_handler_file
generate-targets config = elim (Bool-cases config.has_paging) [
  | inl p ↦ elim (Bool-cases config.is_list) [
    | inl l ↦ rw (p, l) (refl, refl)
    | inr l ↦ rw (p, l) (refl, refl)
  ]
  | inr p ↦ rw p (refl, refl)
]
