-- ===== src/Utils/Managers.antt =====
-- `FileManager.create_file` and `FolderManager.get_old_folder_path` (pdip/io).
use text.Mathlib.Text.{◌==◌}
use pdip.Prelude.{
  ℕ, zero, suc, ◌<◌, ◌≡◌, refl, Bool, true, false, Option, none, some, String, arith, if◌then◌else◌,
}
use pdip.Sql.Dialect.{◌<>◌}
use pdip.Utils.Strings.{strip}

-- The folders that exist, and the files with their contents.
pub record Disk : Type 0 where
  pub exists : String → Bool
  pub content : String → Option String

-- create_folder_if_not_exist, without the folders above.
unfoldable pub make_folder : String → Disk → Disk
make_folder folder disk = record disk { exists = λ p. if p == folder then true else disk.exists p }

unfoldable pub create_file : String → String → String → String → Disk → Disk
unfolding make_folder strip
create_file folder file_name content extension disk =
    let made = make_folder folder disk in
    let path = folder <> "/" <> file_name <> extension in
    record made {
      exists = λ p. if p == path then true else made.exists p;
      content = λ p. if p == path then some (strip content <> "\n") else made.content p;
    }

-- get_old_folder_path; `none` where the depth of the recursion exceeds the fuel.
unfoldable pub get_old_folder_path : (String → Bool) → ℕ → String → Option String
get_old_folder_path exists zero folder = none
get_old_folder_path exists (suc fuel) folder =
    let next = get_old_folder_path exists fuel (folder <> "1") in
    if exists (folder <> "_old") then next else some (folder <> "_old")

-- A folder's name with `k` ones behind it.
abbrev pub with_ones : ℕ → String → String
with_ones zero folder = folder
with_ones (suc k) folder = with_ones k (folder <> "1")

-- Where the old paths of the first `k` names exist and the next one does not, the recursion ends
-- within `k + 1` calls with that one.
pub get_old_folder_path-first :
    (exists : String → Bool) (k fuel : ℕ) (folder : String)
    → ((j : ℕ) → j < k → exists (with_ones j folder <> "_old") ≡ true)
    → exists (with_ones k folder <> "_old") ≡ false
    → k < fuel
    → get_old_folder_path exists fuel folder ≡ some (with_ones k folder <> "_old")
unfolding get_old_folder_path
get_old_folder_path-first exists k zero folder taken free h = absurd (omega (arith, h))
get_old_folder_path-first exists zero (suc fuel) folder taken free h = rw free refl
get_old_folder_path-first exists (suc k) (suc fuel) folder taken free h =
    rw (taken 0 (omega arith)) (
      get_old_folder_path-first exists k fuel (folder <> "1")
        (λ j less. taken (suc j) (omega (arith, less))) free (omega (arith, h)))
