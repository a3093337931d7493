-- ===== src/Generator/Handlers.antt =====
-- The generated files of the mapping and of the handler of a query.
use pdip.Prelude.{Bool, true, false, String}
use pdip.Sql.Dialect.{◌<>◌}
use pdip.Generator.Config.{Call, create_file, DaoGenerateConfig, dotted}

-- __create_mapping_file
unfoldable pub create_mapping_file : String → String → DaoGenerateConfig → Call
unfolding dotted
create_mapping_file query_name query_folder_path dao =
    let dao_name = dao.name in
    let dao_namespace = dao.namespace in
    let file_name = query_name <> "Mapping" in
    let base_namespace = dotted query_folder_path in
    let dto_namespace =
      "from " <> base_namespace <> "." <> query_name <> "Dto import " <> query_name <> "Dto" in
    let content =
      "\n" <> "from typing import List\n" <> dto_namespace <> "\n" <> dao_namespace <> "\n\n\n"
      <> "class " <> query_name <> "Mapping:\n" <> "    @classmethod\n"
      <> "    def to_dto(cls, entity: " <> dao_name <> ") -> " <> query_name <> "Dto:\n"
      <> "        dto = " <> query_name <> "Dto()\n" <> "        return dto\n\n"
      <> "    @classmethod\n" <> "    def to_dtos(cls, entities: List[" <> dao_name <> "]) -> List["
      <> query_name <> "Dto]:\n" <> "        result: List[" <> query_name <> "Dto] = []\n"
      <> "        for entity in entities:\n" <> "            dto = cls.to_dto(entity=entity)\n"
      <> "            result.append(dto)\n" <> "        return result" in
    create_file query_folder_path file_name content

-- What the handler sets for a page, and the data of the result.
unfoldable pub paging_results : Bool → String
paging_results false = ""
paging_results true =
    "\n" <> "        result.Count = self.specifications.count(query=query)\n" <> "\n"
    <> "        result.PageNumber = query.request.PageNumber\n"
    <> "        result.PageSize = query.request.PageSize\n"

unfoldable pub data_result : String → Bool → String
data_result query_name true =
    "        result.Data = " <> query_name <> "Mapping.to_dtos(data_query)\n"
data_result query_name false =
    "        result.Data = " <> query_name <> "Mapping.to_dto(data_query)\n"

-- __create_query_handler_file; the request's import is not written.
unfoldable pub create_query_handler_file : String → String → Bool → Bool → Call
unfolding dotted paging_results data_result
create_query_handler_file query_name query_folder_path is_list has_paging =
    let file_name = query_name <> "QueryHandler" in
    let base_namespace = dotted query_folder_path in
    let query_namespace =
      "from " <> base_namespace <> "." <> query_name <> "Query import " <> query_name <> "Query" in
    let mapping_namespace =
      "from " <> base_namespace <> "." <> query_name <> "Mapping import " <> query_name
      <> "Mapping" in
    let response_namespace =
      "from " <> base_namespace <> "." <> query_name <> "Response import " <> query_name
      <> "Response" in
    let specifications_namespace =
      "from " <> base_namespace <> "." <> query_name <> "Specifications import " <> query_name
      <> "Specifications" in
    let content =
      "\n" <> "from injector import inject\n" <> mapping_namespace <> "\n" <> query_namespace
      <> "\n" <> response_namespace <> "\n" <> specifications_namespace <> "\n"
      <> "from infrastructure.cqrs.IQueryHandler import IQueryHandler\n"
      <> "from infrastructure.dependency import IScoped\n\n\n" <> "class " <> query_name
      <> "QueryHandler(IQueryHandler[" <> query_name <> "Query], IScoped):\n" <> "    @inject\n"
      <> "    def __init__(self,\n" <> "                 specifications: " <> query_name
      <> "Specifications):\n" <> "        self.specifications = specifications\n\n"
      <> "    def handle(self, query: " <> query_name <> "Query) -> " <> query_name <> "Response:\n"
      <> "        result = " <> query_name <> "Response()\n" in
    create_file query_folder_path file_name (
      content
      <> paging_results has_paging
      <> "        data_query = self.specifications.specify(query=query)\n"
      <> data_result query_name is_list
      <> "        return result\n")
