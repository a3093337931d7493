-- ===== src/Paging/Specification.antt =====
-- `PagingSpecification.specify` (pdip/api/specifications/paging_specification.py), for a parameter
-- that has both attributes, and the pagination of `prepare_table_data_dynamic`
-- (pdip/html/html_template_service.py). `int(total_count / Limit)` is the quotient where the float
-- division of Python is exact enough, that is for counts below 2 ^ 53.
use pdip.Prelude.{ℕ, ◌+◌, ◌-◌, ◌*◌, ◌/◌, ◌||◌, Option, some, ltb, if◌then◌else◌}

-- An int of Python: n, or -(n + 1).
pub data ℤ : Type 0 where
  pos negsuc : ℕ → ℤ

pub record PagingParameter : Type 0 where
  pub page_number : Option ℤ
  pub page_size : Option ℤ

abbrev default_page_size : ℕ
default_page_size = 10

abbrev default_page_number : ℕ
default_page_number = 1

abbrev pub min_page_size : ℕ
min_page_size = 5

abbrev pub max_page_size : ℕ
max_page_size = 200

unfoldable pub page_size_of : Option ℤ → ℕ
page_size_of (some (pos n)) =
    if ltb n min_page_size || ltb max_page_size n then default_page_size else n
page_size_of _ = default_page_size

unfoldable pub page_number_of : Option ℤ → ℕ
page_number_of (some (pos n)) = if ltb n default_page_number then default_page_number else n
page_number_of _ = default_page_number

-- The page size and the offset; the page number is at least 1, so that the offset is no negative
-- number.
unfoldable pub specify : PagingParameter → ℕ × ℕ
unfolding page_size_of page_number_of
specify parameter =
    let page_size = page_size_of parameter.page_size in
    let page_number = page_number_of parameter.page_number in
    (page_size, (page_number - 1) * page_size)

-- The fields of `Pagination` that the paging reads and writes.
pub record Pagination : Type 0 where
  pub page : Option ℤ
  pub limit : Option ℤ

-- What the table is rendered from.
pub record PaginationJson : Type 0 where
  pub page : ℕ
  pub limit : ℕ
  pub total_count : ℕ
  pub total_page : ℕ
  pub offset : ℕ

unfoldable pub limit_of : Option ℤ → ℕ
limit_of (some (pos n)) = if ltb n 1 || ltb 200 n then 50 else n
limit_of _ = 50

unfoldable pub page_of : ℕ → Option ℤ → ℕ
page_of total_page (some (pos n)) = if ltb n 1 || ltb total_page n then 1 else n
page_of total_page _ = 1

unfoldable pub paginate : ℕ → Pagination → PaginationJson
unfolding limit_of page_of
paginate total_count pagination =
    let limit = limit_of pagination.limit in
    let total_page = total_count / limit + 1 in
    let page = page_of total_page pagination.page in
    record {
      page = page;
      limit = limit;
      total_count = total_count;
      total_page = total_page;
      offset = (page - 1) * limit;
    }
