-- ===== src/Html/Table.antt =====
-- `HtmlTemplateService.render_table` and `render_html` (pdip/html/html_template_service.py).
use pdip.Prelude.{ℕ, zero, suc, Option, none, some, List, [], ◌∷◌, String, ◌==◌, if◌then◌else◌}
use pdip.Prelude.Results.{Result, ok, err, ◌>>=◌}
use pdip.Parallel.Domain.{Error, other}
use pdip.Sql.Context.{Dict}
use pdip.Sql.Dialect.{◌<>◌, is_empty, text_of}
use text.Mathlib.Text.{◌==◌ as ◌is_text◌}

-- A cell of a table: its `style`, `class` and `value`, each of which may be None or missing.
abbrev pub Cell : Type 0
Cell = Dict (Option String)

-- `Pagination` as `render_table` reads it; its PageUrl is a text.
pub record Pagination : Type 0 where
  pub filter : Option String
  pub page : ℕ
  pub page_url : String
  pub limit : ℕ
  pub total_page : ℕ

-- The dict that `render_table` is given: a key that is missing is None, and a row is its `data`.
pub record Source : Type 0 where
  pub columns : Option (List Cell)
  pub rows : Option (List (List Cell))
  pub pagination : Option Pagination

-- get_dict_value
unfoldable pub get_dict_value : Cell → String → String
get_dict_value [] key = ""
get_dict_value ((k, none) ∷ cell) key =
    let rest = get_dict_value cell key in if k is_text key then "" else rest
get_dict_value ((k, some v) ∷ cell) key =
    let rest = get_dict_value cell key in if k is_text key then v else rest

unfoldable pub header_cell : Cell → String
unfolding get_dict_value
header_cell column =
    let column_style = get_dict_value column "style" in
    let column_class = get_dict_value column "class" in
    let column_value = get_dict_value column "value" in
    "<th scope=\"col\" style=\"" <> column_style <> "\" class=\"pdi-column " <> column_class
    <> "\">" <> column_value <> "</th>"

unfoldable pub data_cell : Cell → String
unfolding get_dict_value
data_cell cell =
    let row_style = get_dict_value cell "style" in
    let row_class = get_dict_value cell "class" in
    let row_value = get_dict_value cell "value" in
    "<td valign=\"top\" style=\"" <> row_style <> "\" class=\"pdi-row " <> row_class <> "\">"
    <> row_value <> "</td>"

-- The loops of `render_table` over its columns and over the data of a row.
unfoldable pub headers_loop : List Cell → String → String
unfolding header_cell
headers_loop [] headers = headers
headers_loop (column ∷ columns) headers = headers_loop columns (headers <> header_cell column)

unfoldable pub data_loop : List Cell → String → String
unfolding data_cell
data_loop [] bodies = bodies
data_loop (cell ∷ row) bodies = data_loop row (bodies <> data_cell cell)

-- `range(1, total + 1)`, from a first page.
unfoldable pub pages_from : ℕ → ℕ → List ℕ
pages_from page zero = []
pages_from page (suc total) = page ∷ pages_from (suc page) total

unfoldable pub pagination_template : String → String
pagination_template page_data =
    "\n" <> "            <div class=\"pagination\">\n" <> "              " <> page_data <> "\n"
    <> "            </div>\n" <> "            "

-- `width if width is not None else '100%'`
unfoldable pub width_or : Option String → String
width_or none = "100%"
width_or (some width) = width

unfoldable pub table_template : Option String → String → String → String → String
unfolding width_or
table_template width headers bodies pagination_html =
    let table_width = width_or width in
    "\n" <> "        <table width=\"" <> table_width
    <> "\" cellpadding=\"0\" cellspacing=\"0\" style=\"min-width:100%;\">\n"
    <> "                <thead>\n" <> "                  " <> headers <> "\n"
    <> "                </thead>\n" <> "                <tbody>\n" <> "                  " <> bodies
    <> "\n" <> "                </tbody>\n" <> "            </table>\n" <> "            "
    <> pagination_html <> "\n" <> "            "

-- What a `for` loop runs over.
unfoldable pub iterated : {A : Type 0} → Option A → Result Error A
iterated none = err (other "TypeError")
iterated (some a) = ok a

-- `str` is Python's text of a number, and `format` its `str.format` with one argument.
module _ (str : ℕ → String) (format : String → String → String) where
  -- The text with which a row begins.
  unfoldable pub row_start : ℕ → String
  row_start index = "<td valign=\"top\" class=\"pdi-row \">" <> str index <> "</td>"

  unfoldable pub rows_loop : List (List Cell) → ℕ → String → String
  unfolding row_start data_loop
  rows_loop [] index bodies = bodies
  rows_loop (row ∷ rows) index bodies =
      let opened = bodies <> "<tr>" in
      let numbered = opened <> row_start (suc index) in
      rows_loop rows (suc index) (data_loop row numbered <> "</tr>")

  -- The link of a page.
  unfoldable pub page_link : Pagination → ℕ → String
  unfolding is_empty text_of
  page_link pagination page =
      let filter = if is_empty pagination.filter then "" else text_of pagination.filter in
      let page_url =
        format pagination.page_url (
          "?PageNumber="
          <> str page
          <> "&Limit="
          <> str pagination.limit
          <> "&Filter="
          <> filter) in
      if page == pagination.page
      then "<a href=\"" <> page_url <> "\" class=\"active\">" <> str page <> "</a>"
      else "<a href=\"" <> page_url <> "\" >" <> str page <> "</a>"

  unfoldable pub pages_loop : Pagination → List ℕ → String → String
  unfolding page_link
  pages_loop pagination [] page_data = page_data
  pages_loop pagination (page ∷ pages) page_data =
      pages_loop pagination pages (page_data <> page_link pagination page)

  -- The part of the pages.
  unfoldable pub render_pages : Option Pagination → String
  unfolding pages_loop pages_from pagination_template
  render_pages none = ""
  render_pages (some pagination) =
      pagination_template (pages_loop pagination (pages_from 1 pagination.total_page) "")

  unfoldable pub render_table : Source → Option String → Result Error String
  unfolding headers_loop rows_loop render_pages table_template iterated
  render_table source width = iterated source.columns >>= λ columns.
      iterated source.rows >>= λ rows. ok (
        table_template width
          (headers_loop columns ("<th scope=\"col\"  class=\"pdi-column\">#</th>"))
          (rows_loop rows 0 "") (render_pages source.pagination))

-- `mail_css if mail_css is not None else self.default_css`
unfoldable pub css_or : String → Option String → String
css_or default_css none = default_css
css_or default_css (some mail_css) = mail_css

-- mail_html_template; `default_css` is a constant of the service.
unfoldable pub mail_html_template : String → String → Option String → String
unfolding css_or
mail_html_template default_css body mail_css =
    let css = css_or default_css mail_css in
    "\n"
    <> "        <!DOCTYPE html PUBLIC \"-//W3C//DTD XHTML 1.0 Transitional//EN\" \"http://www.w3.org/TR/xhtml1/DTD/xhtml1-transitional.dtd\">\n"
    <> "        <html xmlns=\"http://www.w3.org/1999/xhtml\">\n" <> "            <head>\n"
    <> "                <meta http-equiv=\"Content-Type\" content=\"text/html; charset=UTF-8\" />\n"
    <> "                <title></title>\n" <> "                <style>" <> css <> "</style>\n"
    <> "            </head>\n" <> "            <body>\n" <> "\n" <> "                " <> body
    <> "\n" <> "            </body>\n" <> "        </html>\n" <> "        "

unfoldable pub render_html : String → String → String
unfolding mail_html_template
render_html default_css content =
    let body_content =
      "\n" <> "\n" <> "                <div class=\"wrapper\">\n" <> "                    "
      <> content <> "\n" <> "                </div>\n" <> "                " in
    mail_html_template default_css body_content none
