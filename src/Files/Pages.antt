-- ===== src/Files/Pages.antt =====
-- What `get_data` returns for a position.
use mathlib.Core.List.{append-nil, flatten}
use native.Mathlib.Nat.{suc-mul}
use pdip.Prelude.{
  ℕ, zero, suc, ◌+◌, ◌*◌, ◌≤◌, ◌<◌, ◌≡◌, refl, ap, sym, ◌∙◌, some, List, [], ◌∷◌, ◌++◌, arith,
  length, length-append, take, take-all, drop, lt→ltb, le→ltb,
}
use pdip.Files.Csv.{find_chunk, get_data}

module _ {Row : Type 0} where
  take-append : (n : ℕ) (c rest : List Row) → length c ≡ n → take n (c ++ rest) ≡ c
  take-append zero [] rest h = refl
  take-append (suc n) [] rest h = absurd (omega (arith, h))
  take-append zero (x ∷ c) rest h = absurd (omega (arith, h))
  take-append (suc n) (x ∷ c) rest h = ap (λ t. x ∷ t) (take-append n c rest (omega (arith, h)))

  drop-append : (n m : ℕ) (c rest : List Row) → n ≡ length c + m → drop n (c ++ rest) ≡ drop m rest
  drop-append n m [] rest h = let e : n ≡ m = omega (arith, h) in ap (λ t. drop t rest) e
  drop-append zero m (x ∷ c) rest h = absurd (omega (arith, h))
  drop-append (suc n) m (x ∷ c) rest h = drop-append n m c rest (omega (arith, h))

module _ {Row : Type 0} (l : ℕ) where
  -- Chunks of `l` rows, of which the last one may have fewer, but at least one.
  abbrev pub AreChunks : List (List Row) → Type 0
  AreChunks [] = Unit
  AreChunks (c ∷ []) = (0 < length c) × (length c ≤ l)
  AreChunks (c ∷ d ∷ chunks) = (length c ≡ l) × AreChunks (d ∷ chunks)

  first_chunk :
      (c : List Row) (rest : List (List Row)) (p : ℕ)
      → AreChunks (c ∷ rest)
      → p ≡ 0
      → some c ≡ some (take l (drop p (flatten (c ∷ rest))))
  unfolding flatten
  first_chunk c [] p h e =
      let whole = append-nil c in rw (e, whole) (ap some (sym (take-all l c h.1)))
  first_chunk c (d ∷ rest) p h e = rw e (ap some (sym (take-append l c (flatten (d ∷ rest)) h.0)))

  find_chunk-page :
      (k j p s count : ℕ) (chunks : List (List Row))
      → AreChunks chunks
      → j < l
      → p ≡ k * l
      → s ≡ count + (p + j)
      → p + j < length (flatten chunks)
      → find_chunk s count chunks ≡ some (take l (drop p (flatten chunks)))
  unfolding find_chunk flatten
  find_chunk-page k j p s count [] h b pk se e = absurd (omega (arith, e))
  find_chunk-page zero j p s count (c ∷ []) h b pk se e =
      let none_before : p ≡ 0 = omega (arith, pk) in
      let inside : s < count + length c = omega (arith, se, e, length-append c []) in
      rw (lt→ltb s (count + length c) inside) (first_chunk c [] p h none_before)
  find_chunk-page zero j p s count (c ∷ d ∷ chunks) h b pk se e =
      let none_before : p ≡ 0 = omega (arith, pk) in
      let inside : s < count + length c = omega (arith, se, b, h.0) in
      rw (lt→ltb s (count + length c) inside) (first_chunk c (d ∷ chunks) p h none_before)
  find_chunk-page (suc k) j p s count (c ∷ []) h b pk se e =
      absurd (omega (arith, e, pk, suc-mul k l, length-append c [], h.1))
  find_chunk-page (suc k) j p s count (c ∷ d ∷ chunks) h b pk se e =
      let outside : count + length c ≤ s = omega (arith, se, pk, suc-mul k l, h.0) in
      let moved : p ≡ length c + k * l = omega (arith, pk, suc-mul k l, h.0) in
      let later =
        find_chunk-page k j (k * l) s (count + length c) (d ∷ chunks) h.1 b refl
          (omega (arith, se, moved))
          (omega (arith, e, moved, length-append c (flatten (d ∷ chunks)))) in
      rw (le→ltb s (count + length c) outside) (
        later
        ∙ ap (λ t. some (take l t)) (sym (drop-append p (k * l) c (flatten (d ∷ chunks)) moved)))

  -- Of a file that is read in chunks of `l` rows, the position `k * l + j` with `j < l`, where there
  -- is a row, gets the rows of the page that starts at `k * l`, not at the position itself.
  pub get_data-page :
      (k j : ℕ) (chunks : List (List Row))
      → AreChunks chunks
      → j < l
      → k * l + j < length (flatten chunks)
      → get_data (k * l + j) chunks ≡ some (take l (drop (k * l) (flatten chunks)))
  unfolding get_data
  get_data-page k j chunks h b e =
      find_chunk-page k j (k * l) (k * l + j) 0 chunks h b refl (omega arith) e
