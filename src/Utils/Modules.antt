-- ===== src/Utils/Modules.antt =====
-- `ModuleFinder` (pdip/utils/module_finder.py) with the modules that it has found.
use text.Mathlib.Text.{◌==◌, starts_with}
use pdip.Prelude.{
  Bool, true, false, ◌&&◌, ◌||◌, not, Option, none, some, List, [], ◌∷◌, String, if◌then◌else◌,
}
use pdip.Prelude.Results.{Result, ok, err, and_then}
use pdip.Parallel.Domain.{Error, other}
use pdip.Sql.Dialect.{◌<>◌}
use pdip.Utils.Strings.{ends_with, contains, remove_all, strip_dots}

-- A dict of `self.modules`.
pub record Module : Type 0 where
  pub module_name : String
  pub file_path : String
  pub module_path : String
  pub module_address : String
  pub module_base_address : String
  pub module_parent_address : String
  pub module_last_parent_address : String

-- What an import raises.
pub data ImportFailure : Type 0 where
  module_not_found key_error : ImportFailure
  raised : Error → ImportFailure

-- Python's modules in the world `W`: an import, the names in `sys.modules`, and `del` of one.
pub record System (W M : Type 0) : Type 0 where
  pub import_module : String → W → Result ImportFailure M × W
  pub loaded : W → List String
  pub unload : String → W → W

-- `any(text.startswith(item) for item in items)`
unfoldable pub any_start : String → List String → Bool
any_start text [] = false
any_start text (item ∷ items) = starts_with text item || any_start text items

-- The test of the folders that are excluded or included, None being no restriction.
unfoldable pub is_wanted : Option (List String) → Option (List String) → String → Bool
unfolding any_start
is_wanted none none folder = true
is_wanted none (some excluded) folder = not (any_start folder excluded)
is_wanted (some included) none folder = any_start folder included
is_wanted (some included) (some excluded) folder =
    not (any_start folder excluded) && any_start folder included

-- check_module_existing, of the names in `sys.modules`.
unfoldable pub check_module_existing : String → List String → Bool
unfolding ends_with
check_module_existing address [] = false
check_module_existing address (k ∷ names) =
    ends_with k address || check_module_existing address names

-- `'.'.join([prefix, address])` for a prefix that is not empty, without leading dots.
unfoldable pub address_with : String → String → String
unfolding strip_dots
address_with prefix address =
    if prefix == "" then strip_dots address else strip_dots (prefix <> "." <> address)

-- `[module for module in modules if module['module_name'] == name]`
unfoldable pub named : String → List Module → List Module
named name [] = []
named name (m ∷ modules) =
    let rest = named name modules in if m.module_name == name then m ∷ rest else rest

module _ {W M : Type 0} (system : System W M) where
  -- The names that cleanup removes for a module, of those that are loaded.
  unfoldable pub unload_names : Module → List String → W → W
  unfolding contains
  unload_names m [] w = w
  unload_names m (k ∷ names) w =
      let next =
        if contains k m.module_address || contains k m.module_parent_address
        then system.unload k w
        else w in
      unload_names m names next

  unfoldable pub cleanup : List Module → W → W
  unfolding unload_names
  cleanup [] w = w
  cleanup (m ∷ modules) w = cleanup modules (unload_names m (system.loaded w) w)

  -- After a second attempt: a KeyError is dropped.
  unfoldable pub after_retry : Result ImportFailure M × W → Result ImportFailure (Unit {0}) × W
  after_retry (ok imported, w) = (ok tt, w)
  after_retry (err key_error, w) = (ok tt, w)
  after_retry (err module_not_found, w) = (err module_not_found, w)
  after_retry (err (raised e), w) = (err (raised e), w)

  -- After the first attempt: a module that is not found is tried under its base address.
  unfoldable pub after_import :
      Module → Result ImportFailure M × W → Result ImportFailure (Unit {0}) × W
  unfolding after_retry address_with
  after_import m (ok imported, w) = (ok tt, w)
  after_import m (err module_not_found, w) =
      after_retry (system.import_module (address_with m.module_base_address m.module_address) w)
  after_import m (err key_error, w) = (err key_error, w)
  after_import m (err (raised e), w) = (err (raised e), w)

  -- A round of the loop of import_modules; `root` is the root directory with a slash behind it.
  unfoldable pub import_one :
      String
      → Option (List String)
      → Option (List String)
      → Module
      → W
      → Result ImportFailure (Unit {0}) × W
  unfolding is_wanted remove_all check_module_existing after_import address_with
  import_one root included excluded m w =
      if is_wanted included excluded (remove_all m.module_path root)
        && not (check_module_existing m.module_address (system.loaded w))
      then after_import m
          (system.import_module (address_with m.module_last_parent_address m.module_address) w)
      else (ok tt, w)

  unfoldable pub import_all :
      String
      → Option (List String)
      → Option (List String)
      → List Module
      → W
      → Result ImportFailure (Unit {0}) × W
  unfolding import_one and_then
  import_all root included excluded [] w = (ok tt, w)
  import_all root included excluded (m ∷ modules) w =
      and_then (import_one root included excluded m w)
        λ _ w'. import_all root included excluded modules w'

  -- An import that fails for good removes the loaded modules before it raises.
  unfoldable pub or_cleanup :
      List Module → Result ImportFailure (Unit {0}) × W → Result ImportFailure (Unit {0}) × W
  unfolding cleanup
  or_cleanup modules (ok u, w) = (ok u, w)
  or_cleanup modules (err e, w) = (err e, cleanup modules w)

  unfoldable pub import_modules :
      String
      → List Module
      → Option (List String)
      → Option (List String)
      → W
      → Result ImportFailure (Unit {0}) × W
  unfolding import_all or_cleanup
  import_modules root modules included excluded w =
      or_cleanup modules (import_all root included excluded modules w)

  -- import_modules_by_name_ends_with: `is_loaded` is `module_address in sys.modules`.
  unfoldable pub import_ending :
      (String → W → Bool) → String → List Module → W → Result ImportFailure (Unit {0}) × W
  unfolding ends_with and_then
  import_ending is_loaded name [] w = (ok tt, w)
  import_ending is_loaded name (m ∷ modules) w =
      let rest = import_ending is_loaded name modules in
      if ends_with m.module_name name && not (is_loaded m.module_address w)
      then and_then (system.import_module m.module_address w) (λ _ w'. rest w')
      else rest w

  -- Of the modules of a name: one is imported, several give None.
  unfoldable pub import_single : List Module → W → Result ImportFailure (Option M) × W
  unfolding and_then
  import_single [] w = (err (raised (other "Modules not found")), w)
  import_single (m ∷ []) w =
      and_then (system.import_module m.module_address w) (λ imported w'. (ok (some imported), w'))
  import_single (m ∷ n ∷ modules) w = (ok none, w)

  unfoldable pub get_module : String → List Module → W → Result ImportFailure (Option M) × W
  unfolding named import_single
  get_module name modules w = import_single (named name modules) w
