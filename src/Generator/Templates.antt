-- ===== src/Generator/Templates.antt =====
-- The query, its request, its response and their data: the generated files.
use pdip.Prelude.{Bool, true, false, String, if◌then◌else◌}
use pdip.Sql.Dialect.{◌<>◌}
use pdip.Generator.Config.{Call, create_file, dotted}

-- __create_query_file
unfoldable pub create_query_file : String → String → Call
unfolding dotted
create_query_file query_name query_folder_path =
    let file_name = query_name <> "Query" in
    let base_namespace = dotted query_folder_path in
    let request_namespace =
      "from " <> base_namespace <> "." <> query_name <> "Request import " <> query_name
      <> "Request" in
    let response_namespace =
      "from " <> base_namespace <> "." <> query_name <> "Response import " <> query_name
      <> "Response" in
    let request_attr = "request: " <> query_name <> "Request = None" in
    let content =
      "from dataclasses import dataclass\n" <> "from infrastructure.cqrs.IQuery import IQuery\n"
      <> request_namespace <> "\n" <> response_namespace <> "\n\n\n" <> "@dataclass\n" <> "class "
      <> query_name <> "Query(IQuery[" <> query_name <> "Response]):\n" <> "    " <> request_attr
      <> "\n" <> "        " in
    create_file query_folder_path file_name content

-- __create_request_file
unfoldable pub create_request_file : String → String → Bool → Call
create_request_file query_name query_folder_path has_paging =
    let file_name = query_name <> "Request" in
    let paging_parent = if has_paging then "(PagingParameter, OrderByParameter)" else "" in
    let content =
      "\n" <> "from domain.common.decorators.requestclass import requestclass\n" <> "\n\n"
      <> "@requestclass\n" <> "class " <> query_name <> "Request" <> paging_parent <> ":\n"
      <> "    # TODO:Request attributes\n" <> "    pass\n" <> "    " in
    create_file query_folder_path file_name content

-- __create_dto_file
unfoldable pub create_dto_file : String → String → Call
create_dto_file query_name query_folder_path =
    let file_name = query_name <> "Dto" in
    let content =
      "\n" <> "from domain.common.decorators.dtoclass import dtoclass\n\n" <> "\n" <> "@dtoclass\n"
      <> "class " <> query_name <> "Dto:\n" <> "    # TODO:Dto attributes\n" <> "    pass\n"
      <> "    " in
    create_file query_folder_path file_name content

-- The attributes of a response, for `is_list` and `has_paging`.
unfoldable pub attributes_of : String → Bool → Bool → String
attributes_of query_name true true =
    "    Data: List[" <> query_name <> "Dto] = None\n" <> "    PageNumber: int = None\n"
    <> "    PageSize: int = None\n" <> "    Count: int = None"
attributes_of query_name true false = "    Data: List[" <> query_name <> "Dto] = None"
attributes_of query_name false has_paging = "    Data: " <> query_name <> "Dto = None"

-- __create_response_file
unfoldable pub create_response_file : String → String → Bool → Bool → Call
unfolding dotted attributes_of
create_response_file query_name query_folder_path is_list has_paging =
    let query_request_file_name = query_name <> "Response" in
    let base_namespace = dotted query_folder_path in
    let dto_namespace =
      "from " <> base_namespace <> "." <> query_name <> "Dto import " <> query_name <> "Dto" in
    let attributes = attributes_of query_name is_list has_paging in
    let content =
      "\n" <> "from typing import List\n"
      <> "from domain.common.decorators.responseclass import responseclass\n" <> dto_namespace
      <> "\n\n\n" <> "@responseclass\n" <> "class " <> query_name <> "Response:\n" <> attributes
      <> "\n" <> "    " in
    create_file query_folder_path query_request_file_name content
