-- ===== src/Tests/Pages.antt =====
-- Tables of 95 rows.
use pdip.Prelude.{ℕ, ◌+◌, ◌≤◌, ◌<◌, ◌≡◌, some, arith}
use pdip.Paging.Specification.{pos, negsuc, specify, Pagination, paginate}
use pdip.Paging.Tiling.{paginate-page_of_row, specify-tiles}

abbrev asked : Pagination
asked = record { page = some (negsuc 0); limit = some (pos 20) }

paginate-page_of_row_example :
    (page : ℕ) × ((paginate 95 (record asked { page = some (pos page) })).page ≡ page)
    × ((paginate 95 (record asked { page = some (pos page) })).offset ≤ 41)
    × (41
        < (paginate 95 (record asked { page = some (pos page) })).offset
          + (paginate 95 asked).limit)
paginate-page_of_row_example = paginate-page_of_row 95 41 asked (omega arith)

specify-tiles_example :
    (5 ≤ (specify (record { page_number = some (pos 3); page_size = some (pos 25) })).0)
    × ((specify (record { page_number = some (pos 3); page_size = some (pos 25) })).0 ≤ 200)
    × ((specify (record { page_number = some (pos (3 + 1)); page_size = some (pos 25) })).1
        ≡ (specify (record { page_number = some (pos 3); page_size = some (pos 25) })).1
          + (specify (record { page_number = some (pos 3); page_size = some (pos 25) })).0)
    × ((specify (record { page_number = some (pos (3 + 1)); page_size = some (pos 25) })).0
        ≡ (specify (record { page_number = some (pos 3); page_size = some (pos 25) })).0)
    × ((specify (record { page_number = some (pos 1); page_size = some (pos 25) })).1 ≡ 0)
specify-tiles_example = specify-tiles 3 (some (pos 25)) (omega arith)
