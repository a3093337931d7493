-- ===== src/Html/Joined.antt =====
-- The loops of a table write its parts one after the other.
use text.Mathlib.TextLemmas.{append_assoc, append-nil, nil-append}
use pdip.Prelude.{
  ℕ, zero, suc, ◌+◌, ◌++◌, ◌==◌, if◌then◌else◌, arith, ◌≡◌, refl, sym, ap, ◌∙◌, Option, none, some,
  List, [], ◌∷◌, map, String,
}
use pdip.Prelude.Results.{ok}
use pdip.Sql.Dialect.{◌<>◌, is_empty, text_of}
use pdip.Html.Table.{
  Cell, Pagination, Source, get_dict_value, width_or, header_cell, data_cell, headers_loop,
  data_loop, pages_from, row_start, rows_loop, page_link, pages_loop, pagination_template,
  render_pages, table_template, iterated, render_table,
}

-- Texts, one after the other.
abbrev pub joined : List String → String
joined [] = ""
joined (t ∷ texts) = t <> joined texts

-- The texts of a header, of a cell of a row, of the table and of its pages.
abbrev pub header_html : Cell → String
header_html column =
    "<th scope=\"col\" style=\""
    <> get_dict_value column "style"
    <> "\" class=\"pdi-column "
    <> get_dict_value column "class"
    <> "\">"
    <> get_dict_value column "value"
    <> "</th>"

abbrev pub cell_html : Cell → String
cell_html cell =
    "<td valign=\"top\" style=\""
    <> get_dict_value cell "style"
    <> "\" class=\"pdi-row "
    <> get_dict_value cell "class"
    <> "\">"
    <> get_dict_value cell "value"
    <> "</td>"

abbrev pub table_html : String → String → String → String → String
table_html width headers bodies pages =
    "\n" <> "        <table width=\"" <> width
    <> "\" cellpadding=\"0\" cellspacing=\"0\" style=\"min-width:100%;\">\n"
    <> "                <thead>\n" <> "                  " <> headers <> "\n"
    <> "                </thead>\n" <> "                <tbody>\n" <> "                  " <> bodies
    <> "\n" <> "                </tbody>\n" <> "            </table>\n" <> "            " <> pages
    <> "\n" <> "            "

abbrev pub div_html : String → String
div_html links =
    "\n" <> "            <div class=\"pagination\">\n" <> "              " <> links <> "\n"
    <> "            </div>\n" <> "            "

-- The numbers from 1 to a number, the number itself being the last.
abbrev pub upto : ℕ → List ℕ
upto zero = []
upto (suc n) = upto n ++ (suc n ∷ [])

pages_from-last :
    (page total : ℕ) → pages_from page (suc total) ≡ pages_from page total ++ ((page + total) ∷ [])
unfolding pages_from
pages_from-last page zero = ap (λ n. n ∷ []) (omega arith)
pages_from-last page (suc total) =
    ap (λ l. page ∷ l)
      (pages_from-last (suc page) total
        ∙ ap (λ n. pages_from (suc page) total ++ (n ∷ [])) (omega arith))

pages_from-upto : (total : ℕ) → pages_from 1 total ≡ upto total
unfolding pages_from
pages_from-upto zero = refl
pages_from-upto (suc total) =
    pages_from-last 1 total
    ∙ ap (λ n. pages_from 1 total ++ (n ∷ [])) (omega arith)
    ∙ ap (λ l. l ++ (suc total ∷ [])) (pages_from-upto total)

headers_loop-joined :
    (columns : List Cell) (headers : String)
    → headers_loop columns headers ≡ headers <> joined (map header_cell columns)
unfolding headers_loop
headers_loop-joined [] headers = sym (append-nil headers)
headers_loop-joined (column ∷ columns) headers =
    headers_loop-joined columns (headers <> header_cell column)
    ∙ append_assoc headers (header_cell column) (joined (map header_cell columns))

data_loop-joined :
    (row : List Cell) (bodies : String)
    → data_loop row bodies ≡ bodies <> joined (map data_cell row)
unfolding data_loop
data_loop-joined [] bodies = sym (append-nil bodies)
data_loop-joined (cell ∷ row) bodies =
    data_loop-joined row (bodies <> data_cell cell)
    ∙ append_assoc bodies (data_cell cell) (joined (map data_cell row))

module _ (str : ℕ → String) (format : String → String → String) where
  -- A row with its number, and the rows from the one after a number.
  abbrev pub row_html : ℕ → List Cell → String
  row_html index row =
      "<tr>"
      <> (("<td valign=\"top\" class=\"pdi-row \">" <> str index <> "</td>")
          <> (joined (map cell_html row) <> "</tr>"))

  abbrev pub rows_html : ℕ → List (List Cell) → List String
  rows_html index [] = []
  rows_html index (row ∷ rows) = row_html (suc index) row ∷ rows_html (suc index) rows

  row-joined :
      (row : List Cell) (index : ℕ) (bodies : String)
      → (data_loop row ((bodies <> "<tr>") <> row_start str format index) <> "</tr>")
        ≡ bodies <> row_html index row
  unfolding row_start data_cell
  row-joined row index bodies =
      let number = row_start str format index in
      let cells = joined (map data_cell row) in
      ap (λ t. t <> "</tr>") (data_loop-joined row ((bodies <> "<tr>") <> number))
      ∙ append_assoc ((bodies <> "<tr>") <> number) cells "</tr>"
      ∙ append_assoc (bodies <> "<tr>") number (cells <> "</tr>")
      ∙ append_assoc bodies "<tr>" (number <> (cells <> "</tr>"))

  rows_loop-joined :
      (rows : List (List Cell)) (index : ℕ) (bodies : String)
      → rows_loop str format rows index bodies ≡ bodies <> joined (rows_html index rows)
  unfolding rows_loop
  rows_loop-joined [] index bodies = sym (append-nil bodies)
  rows_loop-joined (row ∷ rows) index bodies =
      ap (λ t. rows_loop str format rows (suc index) t) (row-joined row (suc index) bodies)
      ∙ rows_loop-joined rows (suc index) (bodies <> row_html (suc index) row)
      ∙ append_assoc bodies (row_html (suc index) row) (joined (rows_html (suc index) rows))

  pages_loop-joined :
      (pagination : Pagination) (pages : List ℕ) (page_data : String)
      → pages_loop str format pagination pages page_data
        ≡ page_data <> joined (map (page_link str format pagination) pages)
  unfolding pages_loop
  pages_loop-joined pagination [] page_data = sym (append-nil page_data)
  pages_loop-joined pagination (page ∷ pages) page_data =
      pages_loop-joined pagination pages (page_data <> page_link str format pagination page)
      ∙ append_assoc page_data (page_link str format pagination page)
          (joined (map (page_link str format pagination) pages))

  -- The link of a page, marked where it is the current one, and the part of the pages.
  abbrev pub link_html : Pagination → ℕ → String
  link_html pagination page =
      let url = format pagination.page_url (
        "?PageNumber="
        <> str page
        <> "&Limit="
        <> str pagination.limit
        <> "&Filter="
        <> (if is_empty pagination.filter then "" else text_of pagination.filter)) in
      if page == pagination.page
      then "<a href=\"" <> url <> "\" class=\"active\">" <> str page <> "</a>"
      else "<a href=\"" <> url <> "\" >" <> str page <> "</a>"

  abbrev pub pages_html : Option Pagination → String
  pages_html none = ""
  pages_html (some pagination) =
      div_html (joined (map (link_html pagination) (upto pagination.total_page)))

  render_pages-joined :
      (pagination : Option Pagination) → render_pages str format pagination ≡ pages_html pagination
  unfolding render_pages pagination_template page_link is_empty text_of
  render_pages-joined none = refl
  render_pages-joined (some pagination) = ap div_html (
      pages_loop-joined pagination (pages_from 1 pagination.total_page) ""
      ∙ nil-append
          (joined (map (page_link str format pagination) (pages_from 1 pagination.total_page)))
      ∙ ap (λ l. joined (map (link_html pagination) l)) (pages_from-upto pagination.total_page))

  -- For a source that has columns and rows, the table is the text of a table of the width, 100%
  -- without one, whose head is the sign # and one header cell for each column; its body has one row
  -- for each row, which begins with its number, counted from 1, and has one cell for each of its
  -- data; and below it stands, where there is a pagination, one link for each page from 1 to its
  -- TotalPage, the one of the current page marked. Each is in the given order.
  pub render_table-joined :
      (source : Source) (width : Option String) (columns : List Cell) (rows : List (List Cell))
      → source.columns ≡ some columns
      → source.rows ≡ some rows
      → render_table str format source width
        ≡ ok (
            table_html
              (elim width [ none ↦ "100%" | some w ↦ w ])
              ("<th scope=\"col\"  class=\"pdi-column\">#</th>" <> joined (map header_html columns))
              (joined (rows_html 0 rows))
              (pages_html source.pagination))
  unfolding render_table iterated table_template width_or header_cell
  render_table-joined source none columns rows c r =
      rw
        (
          c,
          r,
          headers_loop-joined columns "<th scope=\"col\"  class=\"pdi-column\">#</th>",
          rows_loop-joined rows 0 "" ∙ nil-append (joined (rows_html 0 rows)),
          render_pages-joined source.pagination,
        )
        refl
  render_table-joined source (some w) columns rows c r =
      rw
        (
          c,
          r,
          headers_loop-joined columns "<th scope=\"col\"  class=\"pdi-column\">#</th>",
          rows_loop-joined rows 0 "" ∙ nil-append (joined (rows_html 0 rows)),
          render_pages-joined source.pagination,
        )
        refl
