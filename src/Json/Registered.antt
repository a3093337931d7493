-- ===== src/Json/Registered.antt =====
-- What a registration keeps of the classes that are registered already.
use pdip.Prelude.{ℕ, zero, suc, ◌≡◌, Option, some, List, [], ◌∷◌}
use pdip.Json.Converter.{
  Annotation, primitive, generic_primitive, unknown, generic_of, class_of, Classes, Mappings, put,
  visit_annotation, register_subclasses, register_with, visit_class,
}
use pdip.Json.Sets.{and_so, and_go_on-some}

module _ {C V I : Type 0} (classes : Classes C V I) where
  -- What each step leaves true.
  abbrev pub Keeps : (Mappings C → Type 0) → (C → Mappings C → Option (Mappings C)) → Type 0
  Keeps P visit = (c : C) (m m' : Mappings C) → visit c m ≡ some m' → P m → P m'

  module _ (P : Mappings C → Type 0) (visit : C → Mappings C → Option (Mappings C)) where
    pub visit_annotation-keeps :
        Keeps P visit
        → (x : Annotation C) (m m' : Mappings C) → visit_annotation classes visit x m ≡ some m'
        → P m
        → P m'
    unfolding visit_annotation
    visit_annotation-keeps k primitive m m' e h = and_so P m m' e h
    visit_annotation-keeps k generic_primitive m m' e h = and_so P m m' e h
    visit_annotation-keeps k unknown m m' e h = and_so P m m' e h
    visit_annotation-keeps k (generic_of c) m m' e h = k c m m' e h
    visit_annotation-keeps k (class_of c) m m' e h = k c m m' e h

    pub register_subclasses-keeps :
        Keeps P visit
        → (annotations : List (Annotation C)) (m m' : Mappings C)
        → register_subclasses classes visit annotations m ≡ some m'
        → P m
        → P m'
    unfolding register_subclasses
    register_subclasses-keeps k [] m m' e h = and_so P m m' e h
    register_subclasses-keeps k (x ∷ annotations) m m' e h =
        let (m1, e1, e2) =
          and_go_on-some (visit_annotation classes visit x m)
            (register_subclasses classes visit annotations) m' e in
        register_subclasses-keeps k annotations m1 m' e2 (visit_annotation-keeps k x m m1 e1 h)

    pub register_with-Keeps :
        ((c : C) (m : Mappings C) → P m → P (put (classes.attributes c) c m))
        → Keeps P visit
        → Keeps P (register_with classes visit)
    unfolding register_with
    register_with-Keeps stored k c m m' e h =
        register_subclasses-keeps k (classes.annotations c) (put (classes.attributes c) c m) m' e
          (stored c m h)

  pub visit_class-Keeps :
      (P : Mappings C → Type 0)
      → ((c : C) (m : Mappings C) → P m → P (put (classes.attributes c) c m))
      → (fuel : ℕ) → Keeps P (visit_class classes fuel)
  unfolding visit_class
  visit_class-Keeps P stored zero c m m' e h = cc
  visit_class-Keeps P stored (suc fuel) c m m' e h =
      let before = visit_class-Keeps P stored fuel in
      let (m1, e1, e2) =
        and_go_on-some (register_with classes (visit_class classes fuel) c m)
          (register_subclasses classes (visit_class classes fuel) (classes.annotations c)) m' e in
      register_subclasses-keeps P (visit_class classes fuel) before (classes.annotations c) m1 m' e2
        (register_with-Keeps P (visit_class classes fuel) stored before c m m1 e1 h)
