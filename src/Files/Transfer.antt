-- ===== src/Files/Transfer.antt =====
-- What `get_unpredicted_data` puts on its queue.
use pdip.Prelude.{
  ℕ, suc, ◌+◌, ◌-◌, ◌≤◌, ◌<◌, ◌≡◌, refl, ap, subst, Bool, true, false, List, [], ◌∷◌, map, arith,
  length, take, leb, Bool-cases, inl, inr,
}
use pdip.Files.Csv.{
  FileTask, Ending, is_read, broken, waits, Reading, Counters, task_of, count_chunk, put_before,
  on_result, read_chunks, get_unpredicted_data,
}

-- No result is false.
abbrev pub AllTrue : List Bool → Type 0
AllTrue [] = Unit
AllTrue (r ∷ results) = (r ≡ true) × AllTrue results

module _ {Row : Type 0} where
  -- Windows one behind the other, from `at` on, each as long as its chunk.
  abbrev pub AreWindows : ℕ → List (FileTask Row) → Type 0
  AreWindows at [] = Unit
  AreWindows at (t ∷ tasks) =
      (t.start ≡ at) × (t.end ≡ at + length t.payload) × AreWindows t.end tasks

  -- A loop that ends with the file read has put every chunk.
  abbrev pub AllPut : Ending → List (FileTask Row) → List (List Row) → Type 0
  AllPut is_read tasks chunks = length tasks ≡ length chunks
  AllPut broken tasks chunks = Unit
  AllPut waits tasks chunks = Unit

  -- What the tasks are that a loop puts from `c` on, with the results that it takes.
  pub record IsTransfer (process_count : ℕ) (chunks : List (List Row)) (c : Counters)
      (results : List Bool) (r : Reading Row) : Type 0 where
    pub in_order : map (λ (t : FileTask Row). t.payload) r.tasks ≡ take (length r.tasks) chunks
    pub windows : AreWindows c.total_data_count r.tasks
    pub bounded :
        length r.tasks + c.transmitted_data_count + length r.results
        ≤ process_count + length results
    pub whole : AllPut r.ending r.tasks chunks

  AllPut-put :
      (e : Ending) (t : FileTask Row) (tasks : List (FileTask Row)) (c : List Row)
      (chunks : List (List Row))
      → AllPut e tasks chunks
      → AllPut e (t ∷ tasks) (c ∷ chunks)
  AllPut-put is_read t tasks c chunks h = ap suc h
  AllPut-put broken t tasks c chunks h = tt
  AllPut-put waits t tasks c chunks h = tt

module _ {Row : Type 0} (limit process_count : ℕ) where
  put_before-IsTransfer :
      (chunk : List Row) (chunks : List (List Row)) (c c' : Counters) (results results' : List Bool)
      (r : Reading Row)
      → c'.total_data_count ≡ c.total_data_count + length chunk
      → c.transmitted_data_count + 1 + length results' ≤ c'.transmitted_data_count + length results
      → IsTransfer process_count chunks c' results' r
      → IsTransfer process_count (chunk ∷ chunks) c results (put_before (task_of limit chunk c) r)
  unfolding task_of
  put_before-IsTransfer chunk chunks c c' results results' r total sent t = record {
    in_order = ap (λ l. chunk ∷ l) t.in_order;
    windows = (omega arith, refl, subst (λ n. AreWindows n r.tasks) total t.windows);
    bounded = omega (arith, t.bounded, sent);
    whole = AllPut-put r.ending (task_of limit chunk c) r.tasks chunk chunks t.whole;
  }

  ended :
      (chunks : List (List Row)) (c : Counters) (results results' : List Bool) (ending : Ending)
      → c.transmitted_data_count + length results' ≤ process_count + length results
      → AllPut ending [] chunks
      → IsTransfer process_count chunks c results
          (record { tasks = []; results = results'; ending = ending })
  ended chunks c results results' ending h w = record {
    in_order = refl;
    windows = tt;
    bounded = omega (arith, h);
    whole = w;
  }

  on_result-IsTransfer :
      (chunks : List (List Row)) (go_on : Counters → List Bool → Reading Row) (c : Counters)
      (results : List Bool)
      → ((c' : Counters) (results' : List Bool)
          → c'.transmitted_data_count < process_count
          → IsTransfer process_count chunks c' results' (go_on c' results'))
      → 0 < process_count
      → c.transmitted_data_count ≤ process_count
      → IsTransfer process_count chunks c results (on_result go_on c results)
  unfolding on_result
  on_result-IsTransfer chunks go_on c [] ih p h = ended chunks c [] [] waits (omega (arith, h)) tt
  on_result-IsTransfer chunks go_on c (false ∷ results) ih p h =
      ended chunks c (false ∷ results) results broken (omega (arith, h)) tt
  on_result-IsTransfer chunks go_on c (true ∷ results) ih p h =
      let c' : Counters = record c { transmitted_data_count = c.transmitted_data_count - 1 } in
      let t = ih c' results (omega (arith, p, h)) in
      record {
        in_order = t.in_order;
        windows = t.windows;
        bounded = omega (arith, t.bounded);
        whole = t.whole;
      }

  read_chunks-IsTransfer :
      (chunks : List (List Row)) (c : Counters) (results : List Bool)
      → c.transmitted_data_count < process_count
      → IsTransfer process_count chunks c results (read_chunks limit process_count chunks c results)
  unfolding read_chunks count_chunk
  read_chunks-IsTransfer [] c results h = ended [] c results results is_read (omega (arith, h)) refl
  read_chunks-IsTransfer (chunk ∷ chunks) c results h =
      let c' = count_chunk chunk c in
      let go_on = read_chunks limit process_count chunks in
      elim (Bool-cases (leb process_count c'.transmitted_data_count)) [
        | inr f ↦ rw f (
            put_before-IsTransfer chunk chunks c c' results results (go_on c' results) refl
              (omega arith) (read_chunks-IsTransfer chunks c' results (ground (arith, f))))
        | inl t ↦ rw t (
            put_before-IsTransfer chunk chunks c c' results results (on_result go_on c' results)
              refl (omega arith)
              (on_result-IsTransfer chunks go_on c' results (read_chunks-IsTransfer chunks)
                (omega (arith, h)) (omega (arith, h))))
      ]

  -- For at least one process, and whatever the results are: the tasks that `get_unpredicted_data`
  -- puts have the first chunks of the file as their payloads, in order, and windows one behind the
  -- other from 0 on; at most `process_count` of them are put for which no result has been taken;
  -- and if the loop reads the whole file, every chunk has been put.
  pub get_unpredicted_data-IsTransfer :
      (chunks : List (List Row)) (results : List Bool)
      → 0 < process_count
      → IsTransfer process_count chunks
          (record { task_id = 0; total_data_count = 0; transmitted_data_count = 0 })
          results
          (get_unpredicted_data limit process_count chunks results)
  unfolding get_unpredicted_data
  get_unpredicted_data-IsTransfer chunks results p =
      read_chunks-IsTransfer chunks
        (record { task_id = 0; total_data_count = 0; transmitted_data_count = 0 }) results p

  read_chunks-is_read :
      (chunks : List (List Row)) (c : Counters) (results : List Bool)
      → AllTrue results
      → length chunks ≤ length results
      → (read_chunks limit process_count chunks c results).ending ≡ is_read
  unfolding read_chunks on_result count_chunk
  read_chunks-is_read [] c results a h = refl
  read_chunks-is_read (chunk ∷ chunks) c [] a h = absurd (omega (arith, h))
  read_chunks-is_read (chunk ∷ chunks) c (false ∷ results) a h = cc
  read_chunks-is_read (chunk ∷ chunks) c (true ∷ results) a h =
      let c' = count_chunk chunk c in
      let c'' : Counters = record c' { transmitted_data_count = c'.transmitted_data_count - 1 } in
      ground (
        arith,
        read_chunks-is_read chunks c' (true ∷ results) a (omega (arith, h)),
        read_chunks-is_read chunks c'' results a.1 (omega (arith, h)),
      )

  -- If the writers report true for as many tasks as the file has chunks, the loop ends with the
  -- whole file read.
  pub get_unpredicted_data-is_read :
      (chunks : List (List Row)) (results : List Bool)
      → AllTrue results
      → length chunks ≤ length results
      → (get_unpredicted_data limit process_count chunks results).ending ≡ is_read
  unfolding get_unpredicted_data
  get_unpredicted_data-is_read chunks results a h =
      read_chunks-is_read chunks
        (record { task_id = 0; total_data_count = 0; transmitted_data_count = 0 }) results a h
