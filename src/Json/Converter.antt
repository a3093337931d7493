-- ===== src/Json/Converter.antt =====
-- `BaseConverter` (pdip/json/base/base_converter.py): the classes that it registers, and the class
-- that an object of a JSON text becomes. What Python says of classes is a parameter.
use pdip.Prelude.{
  ℕ, zero, suc, Bool, true, ◌&&◌, Option, none, some, List, [], ◌∷◌, String, if◌then◌else◌,
}
use pdip.Prelude.Results.{Result, err}
use pdip.Parallel.Domain.{Error, other}
use pdip.Sql.Context.{Dict, keys}
use pdip.Api.{is_one_of}

-- An annotation of a class, as `TypeChecker` sees it: `List[c]` and the like, for a primitive or
-- another `c`, and a class; what is printed as unknown is left out with the primitive ones.
pub data Annotation (C : Type 0) : Type 0 where
  primitive generic_primitive unknown : Annotation C
  generic_of class_of : C → Annotation C

-- `cls().__dict__`, the annotations of the class, and the call `cls(**d)`.
pub record Classes (C V I : Type 0) : Type 0 where
  pub attributes : C → List String
  pub annotations : C → List (Annotation C)
  pub make : C → Dict V → Result Error I

-- `set(texts) <= set(others)`
unfoldable pub is_subset : List String → List String → Bool
unfolding is_one_of
is_subset [] others = true
is_subset (t ∷ texts) others = is_one_of t others && is_subset texts others

-- Equality of frozensets.
unfoldable pub same_set : List String → List String → Bool
unfolding is_subset
same_set a b = is_subset a b && is_subset b a

-- The dict from sets of attributes to classes.
abbrev pub Mappings : Type 0 → Type 0
Mappings C = List (List String × C)

-- `mappings[attributes] = cls`; the key of an equal set stays as it is.
unfoldable pub put : {C : Type 0} → List String → C → Mappings C → Mappings C
unfolding same_set
put attributes cls [] = (attributes, cls) ∷ []
put attributes cls ((k, c) ∷ mappings) =
    let rest = put attributes cls mappings in
    if same_set attributes k then (k, cls) ∷ mappings else (k, c) ∷ rest

-- `m >>= f` of steps that may run out of fuel.
unfoldable pub and_go_on : {A : Type 0} → Option A → (A → Option A) → Option A
and_go_on none f = none
and_go_on (some a) f = f a

module _ {C V I : Type 0} (classes : Classes C V I) where
  -- `visit` is what is done for a class.
  unfoldable pub visit_annotation :
      (C → Mappings C → Option (Mappings C)) → Annotation C → Mappings C → Option (Mappings C)
  visit_annotation visit primitive m = some m
  visit_annotation visit generic_primitive m = some m
  visit_annotation visit unknown m = some m
  visit_annotation visit (generic_of c) m = visit c m
  visit_annotation visit (class_of c) m = visit c m

  -- register_subclasses
  unfoldable pub register_subclasses :
      (C → Mappings C → Option (Mappings C))
      → List (Annotation C)
      → Mappings C
      → Option (Mappings C)
  unfolding visit_annotation and_go_on
  register_subclasses visit [] m = some m
  register_subclasses visit (a ∷ annotations) m =
      and_go_on (visit_annotation visit a m) (register_subclasses visit annotations)

  -- register, with what is done for the class of an annotation. The constructor `cls()`, which gives
  -- the attributes, is taken to return: a class whose constructor raises is left out.
  unfoldable pub register_with :
      (C → Mappings C → Option (Mappings C)) → C → Mappings C → Option (Mappings C)
  unfolding register_subclasses put
  register_with visit cls m =
      register_subclasses visit (classes.annotations cls) (put (classes.attributes cls) cls m)

  -- For the class of an annotation: register, and its annotations once more. `none` where the depth
  -- of the recursion exceeds the fuel.
  unfoldable pub visit_class : ℕ → C → Mappings C → Option (Mappings C)
  unfolding register_with register_subclasses and_go_on
  visit_class zero cls m = none
  visit_class (suc fuel) cls m =
      and_go_on (register_with (visit_class fuel) cls m)
        (register_subclasses (visit_class fuel) (classes.annotations cls))

  unfoldable pub register : ℕ → C → Mappings C → Option (Mappings C)
  unfolding register_with visit_class
  register fuel cls m = register_with (visit_class fuel) cls m

  -- class_mapper
  unfoldable pub class_mapper : Mappings C → Dict V → Result Error I
  unfolding is_subset
  class_mapper [] d = err (other "ValueError")
  class_mapper ((k, c) ∷ mappings) d =
      let rest = class_mapper mappings d in if is_subset (keys d) k then classes.make c d else rest
