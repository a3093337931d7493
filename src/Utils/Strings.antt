-- ===== src/Utils/Strings.antt =====
-- Python's methods of texts, as the utilities call them.
use text.Mathlib.Text.{starts_with}
use Prim.Native.Char.{code}
use Prim.Native.String.{[], ◌∷◌, count}
use pdip.Prelude.{ℕ, zero, suc, ◌-◌, Bool, ◌&&◌, ◌||◌, String, ◌==◌, if◌then◌else◌, leb}

-- `part in text`
unfoldable pub contains : String → String → Bool
contains [] part = starts_with "" part
contains (c ∷ text) part = starts_with (c ∷ text) part || contains text part

-- `text.endswith(end)`
unfoldable pub ends_with : String → String → Bool
ends_with [] end = starts_with "" end
ends_with (c ∷ text) end =
    (starts_with (c ∷ text) end && (count (c ∷ text) == count end)) || ends_with text end

-- The text without `part`, after the next `skip` characters, which belong to a removed one.
unfoldable pub remove_from : ℕ → String → String → String
remove_from skip [] part = ""
remove_from (suc skip) (c ∷ text) part = remove_from skip text part
remove_from zero (c ∷ text) part =
    let removed = remove_from (count part - 1) text part in
    let kept = remove_from zero text part in
    if starts_with (c ∷ text) part then removed else c ∷ kept

-- `text.replace(part, '')`
unfoldable pub remove_all : String → String → String
unfolding remove_from
remove_all text [] = text
remove_all text (d ∷ part) = remove_from zero text (d ∷ part)

-- `text.lstrip('.')`
unfoldable pub strip_dots : String → String
strip_dots [] = ""
strip_dots (c ∷ text) = let rest = strip_dots text in if code c == 46 then rest else c ∷ text

-- The white space of `str.strip`.
unfoldable pub is_blank : ℕ → Bool
is_blank n =
    (leb 9 n && leb n 13)
    || (leb 28 n && leb n 32)
    || (n == 133)
    || (n == 160)
    || (n == 5760)
    || (leb 8192 n && leb n 8202)
    || (n == 8232)
    || (n == 8233)
    || (n == 8239)
    || (n == 8287)
    || (n == 12288)

unfoldable pub strip_left : String → String
unfolding is_blank
strip_left [] = ""
strip_left (c ∷ text) = let rest = strip_left text in if is_blank (code c) then rest else c ∷ text

unfoldable pub strip_right : String → String
unfolding is_blank
strip_right [] = ""
strip_right (c ∷ text) =
    let rest = strip_right text in if is_blank (code c) && (count rest == 0) then "" else c ∷ rest

-- `text.strip()`
unfoldable pub strip : String → String
unfolding strip_left strip_right
strip text = strip_right (strip_left text)
