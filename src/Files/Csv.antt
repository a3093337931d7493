-- ===== src/Files/Csv.antt =====
-- `CsvConnector` (pdip/integrator/connection/types/file/connectors/csv/csv_connector.py). The chunks of a file are what
-- `pandas.read_csv` gives with a `chunksize`; the lines of a frame are what `to_csv` writes.
use text.Mathlib.Text.{◌==◌}
use pdip.Prelude.{
  ℕ, ◌+◌, ◌-◌, Bool, true, false, Option, none, some, List, [], ◌∷◌, ◌++◌, String, length, ltb, leb,
  if◌then◌else◌,
}

-- The DataQueueTask that is put for a chunk.
pub record FileTask (Row : Type 0) : Type 0 where
  pub id : ℕ
  pub payload : List Row
  pub start : ℕ
  pub end : ℕ
  pub limit : ℕ

-- How the loop of get_unpredicted_data ends: the file is read, a result is false, or no result is
-- on the queue yet.
pub data Ending : Type 0 where
  is_read broken waits : Ending

pub record Reading (Row : Type 0) : Type 0 where
  pub tasks : List (FileTask Row)
  pub results : List Bool
  pub ending : Ending

-- The counters of the loop.
pub record Counters : Type 0 where
  pub task_id : ℕ
  pub total_data_count : ℕ
  pub transmitted_data_count : ℕ

module _ {Row : Type 0} where
  -- The loop of get_data over the rest of the chunks.
  unfoldable pub find_chunk : ℕ → ℕ → List (List Row) → Option (List Row)
  find_chunk start count [] = none
  find_chunk start count (chunk ∷ chunks) =
      let rest = find_chunk start (count + length chunk) chunks in
      if ltb start (count + length chunk) then some chunk else rest

  unfoldable pub get_data : ℕ → List (List Row) → Option (List Row)
  unfolding find_chunk
  get_data start chunks = find_chunk start 0 chunks

  unfoldable pub task_of : ℕ → List Row → Counters → FileTask Row
  task_of limit chunk c = record {
    id = c.task_id + 1;
    payload = chunk;
    start = (c.total_data_count + length chunk) - length chunk;
    end = c.total_data_count + length chunk;
    limit = limit;
  }

  unfoldable pub count_chunk : List Row → Counters → Counters
  count_chunk chunk c = record {
    task_id = c.task_id + 1;
    total_data_count = c.total_data_count + length chunk;
    transmitted_data_count = c.transmitted_data_count + 1;
  }

  -- A round that goes on, with the rest of the loop.
  abbrev pub put_before : FileTask Row → Reading Row → Reading Row
  put_before task r = record r { tasks = task ∷ r.tasks }

  -- What a result makes of the loop, `go_on` being the rest of it after a true one.
  unfoldable pub on_result :
      (Counters → List Bool → Reading Row) → Counters → List Bool → Reading Row
  on_result go_on c [] = record { tasks = []; results = []; ending = waits }
  on_result go_on c (true ∷ results) =
      go_on (record c { transmitted_data_count = c.transmitted_data_count - 1 }) results
  on_result go_on c (false ∷ results) = record { tasks = []; results = results; ending = broken }

  -- The loop of get_unpredicted_data: the tasks that it puts, and the results that it leaves.
  unfoldable pub read_chunks : ℕ → ℕ → List (List Row) → Counters → List Bool → Reading Row
  unfolding task_of count_chunk on_result
  read_chunks limit process_count [] c results = record {
    tasks = [];
    results = results;
    ending = is_read;
  }
  read_chunks limit process_count (chunk ∷ chunks) c results =
      let c' = count_chunk chunk c in
      let go_on = read_chunks limit process_count chunks in
      let waiting = on_result go_on c' results in
      let next = go_on c' results in
      put_before (task_of limit chunk c)
        (if leb process_count c'.transmitted_data_count then waiting else next)

  unfoldable pub get_unpredicted_data : ℕ → ℕ → List (List Row) → List Bool → Reading Row
  unfolding read_chunks
  get_unpredicted_data limit process_count chunks results =
      read_chunks limit process_count chunks
        (record { task_id = 0; total_data_count = 0; transmitted_data_count = 0 }) results

-- The files of the host, by their paths, with their lines.
abbrev pub FileSystem : Type 0
FileSystem = String → Option (List String)

unfoldable pub replace_file : String → Option (List String) → FileSystem → FileSystem
replace_file path lines files p = if path == p then lines else files p

abbrev pub lines_of : Option (List String) → List String
lines_of none = []
lines_of (some lines) = lines

module _ (join_path : String → String → String) (host : String) where
  -- Of a file that is not there, `open` raises: `none`.
  unfoldable pub get_data_count : String → FileSystem → Option ℕ
  get_data_count file files = elim (files (join_path host file)) [
    | none ↦ none
    | some lines ↦ some (length lines)
  ]

  -- `to_csv(mode='a')` with the lines of the frame.
  unfoldable pub write_data : String → List String → FileSystem → FileSystem
  unfolding replace_file
  write_data file lines files =
      let path = join_path host file in
      replace_file path (some (lines_of (files path) ++ lines)) files

  unfoldable pub delete_file : String → FileSystem → FileSystem
  unfolding replace_file
  delete_file file files = replace_file (join_path host file) none files

  -- `header` is the line that `csv.writer` writes.
  unfoldable pub recreate_file : String → String → FileSystem → FileSystem
  unfolding delete_file replace_file
  recreate_file file header files =
      replace_file (join_path host file) (some (header ∷ [])) (delete_file file files)
