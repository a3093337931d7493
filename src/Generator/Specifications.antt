-- ===== src/Generator/Specifications.antt =====
-- The generated file of the specifications of a query.
use pdip.Prelude.{Bool, true, false, Option, none, some, String, if◌then◌else◌}
use pdip.Prelude.Results.{Result, ok, err, ◌>>=◌}
use pdip.Parallel.Domain.{Error, other}
use pdip.Sql.Dialect.{◌<>◌}
use pdip.Generator.Config.{Call, create_file, DaoGenerateConfig, dotted}

-- `d['Namespace']` on the dicts `orderable` and `pageable`, which have at most that key.
unfoldable pub namespace_in : Option String → Result Error String
namespace_in none = err (other "KeyError")
namespace_in (some namespace) = ok namespace

-- The imports of the two specifications of a page.
unfoldable pub paging_imports : Bool → Bool → Result Error String
unfolding namespace_in
paging_imports is_list false = ok ""
paging_imports is_list true =
    let orderable =
      if is_list
      then some
          ("from domain.common.specifications.OrderBySpecification import OrderBySpecification\n")
      else none in
    let pageable =
      if is_list
      then some
          ("from domain.common.specifications.PagingSpecification import PagingSpecification\n")
      else none in
    namespace_in orderable >>= λ first.
    namespace_in pageable >>= λ second. ok (first <> "\n" <> second <> "\n")

-- The parameters of the constructor, and what it stores, for a page.
unfoldable pub paging_parameters : Bool → String
paging_parameters false = ""
paging_parameters true =
    "                 order_by_specification: OrderBySpecification,\n"
    <> "                 paging_specification: PagingSpecification,\n"

unfoldable pub paging_fields : Bool → String
paging_fields true =
    "        self.paging_specification = paging_specification\n"
    <> "        self.order_by_specification = order_by_specification\n"
paging_fields false = "        \n"

-- What narrows a query to a page.
unfoldable pub paging_clauses : Bool → String
paging_clauses false = ""
paging_clauses true =
    "\n"
    <> "        order_by = self.order_by_specification.specify(order_by_parameter=query.request)\n"
    <> "        if order_by is not None:\n"
    <> "            data_query = data_query.order_by(order_by)\n\n"
    <> "        page_size, offset = self.paging_specification.specify(paging_parameter=query.request)\n"
    <> "        if page_size is not None:\n"
    <> "            data_query = data_query.limit(page_size)\n"
    <> "        if offset is not None:\n" <> "            data_query = data_query.offset(offset)\n"

-- The content, after the imports of the specifications of a page.
unfoldable pub specifications_content : String → String → DaoGenerateConfig → Bool → String → String
unfolding paging_parameters paging_fields paging_clauses
specifications_content query_name query_namespace dao has_paging imports =
    let dao_name = dao.name in
    let dao_namespace = dao.namespace in
    "from injector import inject\n"
    <> "from sqlalchemy.orm import Query\n"
    <> "from infrastructure.dependency import IScoped\n"
    <> "from infrastructure.data.RepositoryProvider import RepositoryProvider\n"
    <> dao_namespace
    <> "\n"
    <> query_namespace
    <> "\n"
    <> imports
    <> "\n"
    <> "\n"
    <> "class "
    <> query_name
    <> "Specifications(IScoped):\n"
    <> "    @inject\n"
    <> "    def __init__(self,\n"
    <> "                 repository_provider: RepositoryProvider,\n"
    <> paging_parameters has_paging
    <> "                 ):\n"
    <> "        self.repository_provider = repository_provider\n"
    <> paging_fields has_paging
    <> "\n"
    <> "    def __specified_query(self, query: "
    <> query_name
    <> "Query) -> Query:\n"
    <> "        repository = self.repository_provider.get("
    <> dao_name
    <> ")\n"
    <> "        specified_query = repository.table \n"
    <> "        # TODO:specify query\n"
    <> "        return specified_query\n"
    <> "        \n"
    <> "    def specify(self, query: "
    <> query_name
    <> "Query) -> Query:\n"
    <> "    \n"
    <> "        data_query = self.__specified_query(query=query)\n"
    <> paging_clauses has_paging
    <> "        return data_query\n"
    <> "\n"
    <> "    def count(self, query: "
    <> query_name
    <> "Query) -> Query:\n"
    <> "        return self.__specified_query(query=query).count()\n"
    <> "    "

-- __create_specifications_file
unfoldable pub create_specifications_file :
    String → String → DaoGenerateConfig → Bool → Bool → Result Error Call
unfolding dotted paging_imports specifications_content
create_specifications_file query_name query_folder_path dao is_list has_paging =
    let file_name = query_name <> "Specifications" in
    let base_namespace = dotted query_folder_path in
    let query_namespace =
      "from " <> base_namespace <> "." <> query_name <> "Query import " <> query_name <> "Query" in
    paging_imports is_list has_paging >>= λ imports. ok (
      create_file query_folder_path file_name
        (specifications_content query_name query_namespace dao has_paging imports))
