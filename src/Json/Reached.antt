-- ===== src/Json/Reached.antt =====
-- The classes that a registration reaches.
use pdip.Prelude.{
  ℕ, zero, suc, ◌≡◌, ◌⊎◌, inl, inr, subst, true, Option, some, List, [], ◌∷◌, String,
}
use pdip.Json.Converter.{
  Annotation, primitive, generic_primitive, unknown, generic_of, class_of, Classes, Mappings, put,
  visit_annotation, register_subclasses, register_with, visit_class, register,
}
use pdip.Json.Sets.{has_set, and_go_on-some, has_set-put, has_set-put_same}
use pdip.Json.Registered.{Keeps, register_subclasses-keeps, visit_class-Keeps}

module _ {C V I : Type 0} (classes : Classes C V I) where
  -- What a class's annotations name.
  abbrev pub Names : C → Annotation C → Type 0
  Names c primitive = ⊥
  Names c generic_primitive = ⊥
  Names c unknown = ⊥
  Names c (generic_of d) = c ≡ d
  Names c (class_of d) = c ≡ d

  abbrev pub AreNamed : C → List (Annotation C) → Type 0
  AreNamed c [] = ⊥
  AreNamed c (a ∷ annotations) = Names c a ⊎ AreNamed c annotations

  -- A class that is met from another one by its annotations.
  pub data Reaches : C → C → Type 0 where
    here : {c : C} → Reaches c c
    through : {c d e : C} → AreNamed d (classes.annotations c) → Reaches d e → Reaches c e

  -- After a class is done, the classes that it reaches have entries.
  abbrev pub Covers : (C → Mappings C → Option (Mappings C)) → Type 0
  Covers visit =
      (c d : C) (m m' : Mappings C)
      → visit c m ≡ some m'
      → Reaches c d
      → has_set (classes.attributes d) m' ≡ true

  -- An entry stays an entry.
  abbrev HasSet : List String → Mappings C → Type 0
  HasSet a m = has_set a m ≡ true

  stored :
      (a : List String) (c : C) (m : Mappings C)
      → HasSet a m
      → HasSet a (put (classes.attributes c) c m)
  stored a c m = has_set-put a (classes.attributes c) c m

  module _ (visit : C → Mappings C → Option (Mappings C)) where
    visit_annotation-Covers :
        Covers visit
        → (x : Annotation C) (c d : C) (m m' : Mappings C)
        → visit_annotation classes visit x m ≡ some m'
        → Names c x
        → Reaches c d
        → HasSet (classes.attributes d) m'
    unfolding visit_annotation
    visit_annotation-Covers covers primitive c d m m' e n r = absurd n
    visit_annotation-Covers covers generic_primitive c d m m' e n r = absurd n
    visit_annotation-Covers covers unknown c d m m' e n r = absurd n
    visit_annotation-Covers covers (generic_of x) c d m m' e n r =
        covers x d m m' e (subst (λ y. Reaches y d) n r)
    visit_annotation-Covers covers (class_of x) c d m m' e n r =
        covers x d m m' e (subst (λ y. Reaches y d) n r)

    register_subclasses-Covers :
        Covers visit
        → ((a : List String) → Keeps classes (HasSet a) visit)
        → (annotations : List (Annotation C)) (c d : C) (m m' : Mappings C)
        → register_subclasses classes visit annotations m ≡ some m'
        → AreNamed c annotations
        → Reaches c d
        → HasSet (classes.attributes d) m'
    unfolding register_subclasses
    register_subclasses-Covers covers keeps [] c d m m' e n r = absurd n
    register_subclasses-Covers covers keeps (x ∷ annotations) c d m m' e n r =
        let (m1, e1, e2) =
          and_go_on-some (visit_annotation classes visit x m)
            (register_subclasses classes visit annotations) m' e in
        elim n [
          | inl now ↦
              let a = classes.attributes d in
              register_subclasses-keeps classes (HasSet a) visit (keeps a) annotations m1 m' e2
                (visit_annotation-Covers covers x c d m m1 e1 now r)
          | inr later ↦ register_subclasses-Covers covers keeps annotations c d m1 m' e2 later r
        ]

    register_with-Covers :
        Covers visit
        → ((a : List String) → Keeps classes (HasSet a) visit)
        → Covers (register_with classes visit)
    unfolding register_with
    register_with-Covers covers keeps c d m m' e here =
        let a = classes.attributes c in
        register_subclasses-keeps classes (HasSet a) visit (keeps a) (classes.annotations c)
          (put a c m) m' e (has_set-put_same a c m)
    register_with-Covers covers keeps c d m m' e (through n r) =
        register_subclasses-Covers covers keeps (classes.annotations c) _ d
          (put (classes.attributes c) c m) m' e n r

  visit_class-Covers : (fuel : ℕ) → Covers (visit_class classes fuel)
  unfolding visit_class
  visit_class-Covers zero c d m m' e r = cc
  visit_class-Covers (suc fuel) c d m m' e r =
      let visit = visit_class classes fuel in
      let keeps : (a : List String) → Keeps classes (HasSet a) visit =
        λ a. visit_class-Keeps classes (HasSet a) (stored a) fuel in
      let a = classes.attributes d in
      let (m1, e1, e2) =
        and_go_on-some (register_with classes visit c m)
          (register_subclasses classes visit (classes.annotations c)) m' e in
      register_subclasses-keeps classes (HasSet a) visit (keeps a) (classes.annotations c) m1 m' e2
        (register_with-Covers visit (visit_class-Covers fuel) keeps c d m m1 e1 r)

  pub register-Covers : (fuel : ℕ) → Covers (register classes fuel)
  unfolding register
  register-Covers fuel =
      register_with-Covers (visit_class classes fuel) (visit_class-Covers fuel)
        (λ a. visit_class-Keeps classes (HasSet a) (stored a) fuel)
