-- ===== src/Configuration.antt =====
-- `ConfigManager` (pdip/configuration/config_manager.py) after its file has been read: `get`,
-- `get_by_name`, `get_all_type_configs` and `set`.
use text.Mathlib.Text.{◌==◌}
use pdip.Prelude.{
  ◌≡◌, refl, Bool, true, false, ◌||◌, Option, none, some, List, [], ◌∷◌, String, arith, Bool-cases,
  inl, inr, if◌then◌else◌,
}
use pdip.Prelude.Results.{Result, ok, err}
use pdip.Parallel.Domain.{Error, other}

-- An entry of `configs`. The key `name` may be missing, and `type` may be None.
pub record Config (T I : Type 0) : Type 0 where
  pub name : Option String
  pub type : Option T
  pub instance_of : I

-- What Python says of classes and instances: `isinstance(i, t)`, `t is u`, the call `t()`,
-- `t.__module__ == u.__module__` and `setattr(i, p, v)`.
pub record Classes (T I V : Type 0) : Type 0 where
  pub is_instance : I → T → Bool
  pub is_same : T → T → Bool
  pub is_same_module : T → T → Bool
  pub make : T → I
  pub set_attribute : I → String → V → I

module _ {T I V : Type 0} (classes : Classes T I V) where
  -- The test in `get`, of an entry's instance and its type.
  unfoldable pub suits_type : T → I → Option T → Bool
  suits_type generic_type i none = false
  suits_type generic_type i (some t) =
      classes.is_instance i generic_type
      || classes.is_same t generic_type
      || classes.is_same_module generic_type t

  unfoldable pub suits : T → Config T I → Bool
  unfolding suits_type
  suits generic_type config = suits_type generic_type config.instance_of config.type

  unfoldable pub get : T → List (Config T I) → Option I
  unfolding suits
  get generic_type [] = none
  get generic_type (c ∷ configs) =
      let rest = get generic_type configs in
      if suits generic_type c then some c.instance_of else rest

  -- `config["name"] == name`, where `rest` is what the loop gives after this entry.
  unfoldable pub check_name :
      String → I → Result Error (Option I) → Option String → Result Error (Option I)
  check_name name i rest none = err (other "KeyError")
  check_name name i rest (some n) = if n == name then ok (some i) else rest

  unfoldable pub get_by_name : String → List (Config T I) → Result Error (Option I)
  unfolding check_name
  get_by_name name [] = ok none
  get_by_name name (c ∷ configs) = check_name name c.instance_of (get_by_name name configs) c.name

  unfoldable pub get_all_type_configs : List (Config T I) → List (Config T I)
  get_all_type_configs [] = []
  get_all_type_configs (c ∷ configs) =
      let rest = get_all_type_configs configs in elim c.type [ none ↦ rest | some t ↦ c ∷ rest ]

  -- `setattr` on the instance that `get` finds, or that of a new entry at the end.
  unfoldable pub set : T → String → V → List (Config T I) → List (Config T I)
  unfolding suits
  set generic_type property value [] =
      let instance_of = classes.set_attribute (classes.make generic_type) property value in
      record { name = none; type = some generic_type; instance_of = instance_of } ∷ []
  set generic_type property value (c ∷ configs) =
      let rest = set generic_type property value configs in
      if suits generic_type c
      then record c { instance_of = classes.set_attribute c.instance_of property value } ∷ configs
      else c ∷ rest

  -- The instance that `set` changes.
  abbrev pub found_or_new : T → Option I → I
  found_or_new generic_type none = classes.make generic_type
  found_or_new generic_type (some i) = i

  -- Setting an attribute does not change what an instance is an instance of.
  abbrev pub KeepsClass : Type 0
  KeepsClass =
      (i : I) (property : String) (value : V) (t : T)
      → classes.is_instance (classes.set_attribute i property value) t ≡ classes.is_instance i t

  suits_type-set_attribute :
      (generic_type : T) (property : String) (value : V) (i : I) (type : Option T)
      → KeepsClass
      → suits_type generic_type (classes.set_attribute i property value) type
        ≡ suits_type generic_type i type
  unfolding suits_type
  suits_type-set_attribute generic_type property value i none keeps = refl
  suits_type-set_attribute generic_type property value i (some t) keeps =
      rw (keeps i property value generic_type) refl

  suits_type-same :
      (generic_type : T) (i : I)
      → classes.is_same generic_type generic_type ≡ true
      → suits_type generic_type i (some generic_type) ≡ true
  unfolding suits_type
  suits_type-same generic_type i same = elim (Bool-cases (classes.is_instance i generic_type)) [
    | inl t ↦ rw t refl
    | inr f ↦ rw (f, same) refl
  ]

  -- Where attributes do not change what an instance is an instance of, and a class is itself, `get`
  -- after `set` of the same type gives the instance that it gave before, or a new one where there
  -- was none, with the attribute set.
  pub get-set :
      (generic_type : T) (property : String) (value : V) (configs : List (Config T I))
      → KeepsClass
      → classes.is_same generic_type generic_type ≡ true
      → get generic_type (set generic_type property value configs)
        ≡ some (
            classes.set_attribute
              (found_or_new generic_type (get generic_type configs))
              property
              value)
  unfolding get set suits
  get-set generic_type property value [] keeps same =
      rw
        (suits_type-same generic_type
          (classes.set_attribute (classes.make generic_type) property value) same)
        refl
  get-set generic_type property value (c ∷ configs) keeps same =
      elim (Bool-cases (suits generic_type c)) [
        | inl t ↦
            rw
              (
                t,
                suits_type-set_attribute generic_type property value c.instance_of c.type keeps,
                t,
              )
              refl
        | inr f ↦ rw (f, f) (get-set generic_type property value configs keeps same)
      ]

  check_name-rest :
      (name : String) (i : I) (rest rest' : Result Error (Option I)) (n : Option String)
      → check_name name i rest n ≡ ok none
      → (rest ≡ ok none → rest' ≡ err (other "KeyError"))
      → check_name name i rest' n ≡ err (other "KeyError")
  unfolding check_name
  check_name-rest name i rest rest' none h f = refl
  check_name-rest name i rest rest' (some n) h f = elim (Bool-cases (n == name)) [
    | inl t ↦ cc
    | inr e ↦ rw e (f (ground (arith, h, e)))
  ]

  -- `set` of a type for which `get` finds nothing adds an entry without a name: then `get_by_name`
  -- raises KeyError for every name that it did not find before, instead of returning None.
  pub get_by_name-set_new :
      (generic_type : T) (property : String) (value : V) (name : String)
      (configs : List (Config T I))
      → get generic_type configs ≡ none
      → get_by_name name configs ≡ ok none
      → get_by_name name (set generic_type property value configs) ≡ err (other "KeyError")
  unfolding get set get_by_name
  get_by_name-set_new generic_type property value name [] g h = refl
  get_by_name-set_new generic_type property value name (c ∷ configs) g h =
      elim (Bool-cases (suits generic_type c)) [
        | inl t ↦ ground (arith, g, t)
        | inr f ↦
            let rest = get_by_name name configs in
            rw f (
              check_name-rest name c.instance_of rest
                (get_by_name name (set generic_type property value configs)) c.name h
                (λ e.
                  get_by_name-set_new generic_type property value name configs
                    (ground (arith, g, f)) e))
      ]
