-- ===== src/Tests/Files.antt =====
-- A file of five rows, read in chunks of two.
use mathlib.Core.List.{flatten}
use pdip.Prelude.{ℕ, ◌≡◌, refl, true, false, some, List, [], ◌∷◌, arith}
use pdip.Files.Csv.{is_read, get_data, get_unpredicted_data}
use pdip.Files.Pages.{get_data-page}
use pdip.Files.Transfer.{IsTransfer, get_unpredicted_data-IsTransfer, get_unpredicted_data-is_read}

abbrev chunks : List (List ℕ)
chunks = (1 ∷ 2 ∷ []) ∷ (3 ∷ 4 ∷ []) ∷ (5 ∷ []) ∷ []

-- The position 3 gets the page of the position 2.
get_data-page_example : get_data 3 chunks ≡ some (3 ∷ 4 ∷ [])
unfolding flatten
get_data-page_example =
    get_data-page 2 1 1 chunks (refl, (refl, (omega arith, omega arith))) (omega arith)
      (omega arith)

get_unpredicted_data-IsTransfer_example :
    IsTransfer 2 chunks
      (record { task_id = 0; total_data_count = 0; transmitted_data_count = 0 })
      (true ∷ false ∷ [])
      (get_unpredicted_data 2 2 chunks (true ∷ false ∷ []))
get_unpredicted_data-IsTransfer_example =
    get_unpredicted_data-IsTransfer 2 2 chunks (true ∷ false ∷ []) (omega arith)

get_unpredicted_data-is_read_example :
    (get_unpredicted_data 2 2 chunks (true ∷ true ∷ true ∷ [])).ending ≡ is_read
get_unpredicted_data-is_read_example =
    get_unpredicted_data-is_read 2 2 chunks (true ∷ true ∷ true ∷ []) (refl, (refl, (refl, tt)))
      (omega arith)
