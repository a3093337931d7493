-- ===== src/Paging/Tiling.antt =====
-- The pages of a table follow one another without a gap and without an overlap.
use pdip.Prelude.{
  ℕ, ◌+◌, ◌-◌, ◌*◌, ◌/◌, ◌≤◌, ◌<◌, ◌≡◌, refl, ap, sym, ◌∙◌, Option, none, some, arith,
}
use native.Mathlib.Nat.{le-div_iff_mul-le, div-mul-le_self, lt-div-mul-add, add-mul, one-mul}
use pdip.Paging.Specification.{
  ℤ, pos, negsuc, page_size_of, page_number_of, specify, Pagination, limit_of, page_of, paginate,
}

limit_of-bounds : (o : Option ℤ) → (1 ≤ limit_of o) × (limit_of o ≤ 200)
unfolding limit_of
limit_of-bounds (some (pos n)) = ground arith
limit_of-bounds (some (negsuc n)) = (omega arith, omega arith)
limit_of-bounds none = (omega arith, omega arith)

page_of-bounds : (t : ℕ) (o : Option ℤ) → (1 ≤ page_of (t + 1) o) × (page_of (t + 1) o ≤ t + 1)
unfolding page_of
page_of-bounds t (some (pos n)) = ground arith
page_of-bounds t (some (negsuc n)) = (omega arith, omega arith)
page_of-bounds t none = (omega arith, omega arith)

page_of-some : (t x : ℕ) → 1 ≤ x → x ≤ t → page_of t (some (pos x)) ≡ x
unfolding page_of
page_of-some t x h h' = ground arith

page_size_of-bounds : (o : Option ℤ) → (5 ≤ page_size_of o) × (page_size_of o ≤ 200)
unfolding page_size_of
page_size_of-bounds (some (pos n)) = ground arith
page_size_of-bounds (some (negsuc n)) = (omega arith, omega arith)
page_size_of-bounds none = (omega arith, omega arith)

page_number_of-pos : (n : ℕ) → 1 ≤ n → page_number_of (some (pos n)) ≡ n
unfolding page_number_of
page_number_of-pos n h = ground arith

-- The page shown is one of the pages, and starts no further than the end of the rows.
pub paginate-bounds :
    (total_count : ℕ) (p : Pagination)
    → (1 ≤ (paginate total_count p).page)
      × ((paginate total_count p).page ≤ (paginate total_count p).total_page)
      × ((paginate total_count p).offset ≤ total_count)
unfolding paginate
paginate-bounds total_count p =
    let (l_pos, _) = limit_of-bounds p.limit in
    let (lo, hi) = page_of-bounds (total_count / limit_of p.limit) p.page in
    (lo, hi, (le-div_iff_mul-le l_pos).0 (omega arith))

-- For each row of a table there is a page that is shown as asked for and that holds the row: the
-- row is not before the offset of the page, and is before the offset and the limit together.
pub paginate-page_of_row :
    (total_count i : ℕ) (p : Pagination)
    → i < total_count
    → (page : ℕ) × ((paginate total_count (record p { page = some (pos page) })).page ≡ page)
      × ((paginate total_count (record p { page = some (pos page) })).offset ≤ i)
      × (i
          < (paginate total_count (record p { page = some (pos page) })).offset
            + (paginate total_count p).limit)
unfolding paginate
paginate-page_of_row total_count i p h =
    let l = limit_of p.limit in
    let (l_pos, _) = limit_of-bounds p.limit in
    let low = div-mul-le_self i l in
    let most : i / l ≤ total_count / l = (le-div_iff_mul-le l_pos).1 (omega arith) in
    let here = page_of-some (total_count / l + 1) (i / l + 1) (omega arith) (omega arith) in
    let drop : i / l + 1 - 1 ≡ i / l = omega arith in
    let start : (page_of (total_count / l + 1) (some (pos (i / l + 1))) - 1) * l ≡ i / l * l =
      ap (λ x. x * l) (ap (λ x. x - 1) here ∙ drop) in
    let high : i < i / l * l + l = lt-div-mul-add l_pos in
    (i / l + 1, here, omega arith, omega arith)

-- For a page number that is at least 1 and any size that is asked for, the size of a page is between
-- 5 and 200 and is the same on every page, page 1 starts at the first row, and the offset of the next
-- page is where this one ends.
pub specify-tiles :
    (n : ℕ) (size : Option ℤ)
    → 1 ≤ n
    → (5 ≤ (specify (record { page_number = some (pos n); page_size = size })).0)
      × ((specify (record { page_number = some (pos n); page_size = size })).0 ≤ 200)
      × ((specify (record { page_number = some (pos (n + 1)); page_size = size })).1
          ≡ (specify (record { page_number = some (pos n); page_size = size })).1
            + (specify (record { page_number = some (pos n); page_size = size })).0)
      × ((specify (record { page_number = some (pos (n + 1)); page_size = size })).0
          ≡ (specify (record { page_number = some (pos n); page_size = size })).0)
      × ((specify (record { page_number = some (pos 1); page_size = size })).1 ≡ 0)
unfolding specify
specify-tiles n size h =
    let (low, high) = page_size_of-bounds size in
    let this = page_number_of-pos n h in
    let first : (page_number_of (some (pos 1)) - 1) * page_size_of size ≡ 0 =
      ap (λ x. (x - 1) * page_size_of size) (page_number_of-pos 1 (omega arith)) ∙ omega arith in
    let next = page_number_of-pos (n + 1) (omega arith) in
    let drop : n + 1 - 1 ≡ n - 1 + 1 = omega arith in
    (
      low,
      high,
      ap (λ x. (x - 1) * page_size_of size) next
          ∙ ap (λ x. x * page_size_of size) drop
          ∙ add-mul (n - 1) 1 (page_size_of size)
          ∙ ap (λ x. (n - 1) * page_size_of size + x) (one-mul (page_size_of size))
          ∙ ap (λ x. (x - 1) * page_size_of size + page_size_of size) (sym this),
      refl,
      first,
    )
