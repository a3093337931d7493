-- ===== src/Json/Cyclic.antt =====
-- The registration of a class that an annotation of its own names.
use pdip.Prelude.{ℕ, zero, suc, ◌≡◌, inl, inr, refl, subst, Option, none, some, List, [], ◌∷◌}
use pdip.Json.Converter.{
  Annotation, primitive, generic_primitive, unknown, generic_of, class_of, Classes, Mappings, put,
  and_go_on, visit_annotation, register_subclasses, register_with, visit_class, register,
}
use pdip.Json.Reached.{Names, AreNamed}

and_go_on-none :
    {A : Type 0} (o : Option A) (f : A → Option A) → ((a : A) → f a ≡ none) → and_go_on o f ≡ none
unfolding and_go_on
and_go_on-none none f fails = refl
and_go_on-none (some a) f fails = fails a

module _ {C V I : Type 0} (classes : Classes C V I) where
  module _ (visit : C → Mappings C → Option (Mappings C)) where
    visit_annotation-none :
        (c : C) (x : Annotation C) (m : Mappings C)
        → ((before : Mappings C) → visit c before ≡ none)
        → Names classes c x
        → visit_annotation classes visit x m ≡ none
    unfolding visit_annotation
    visit_annotation-none c primitive m fails n = absurd n
    visit_annotation-none c generic_primitive m fails n = absurd n
    visit_annotation-none c unknown m fails n = absurd n
    visit_annotation-none c (generic_of d) m fails n = subst (λ x. visit x m ≡ none) n (fails m)
    visit_annotation-none c (class_of d) m fails n = subst (λ x. visit x m ≡ none) n (fails m)

    register_subclasses-none :
        (c : C) (annotations : List (Annotation C)) (m : Mappings C)
        → ((before : Mappings C) → visit c before ≡ none)
        → AreNamed classes c annotations
        → register_subclasses classes visit annotations m ≡ none
    unfolding register_subclasses and_go_on
    register_subclasses-none c [] m fails n = absurd n
    register_subclasses-none c (x ∷ annotations) m fails (inl now) =
        rw (visit_annotation-none c x m fails now) refl
    register_subclasses-none c (x ∷ annotations) m fails (inr later) =
        and_go_on-none (visit_annotation classes visit x m)
          (register_subclasses classes visit annotations)
          (λ before. register_subclasses-none c annotations before fails later)

  visit_class-none :
      (fuel : ℕ) (c : C) (m : Mappings C)
      → AreNamed classes c (classes.annotations c)
      → visit_class classes fuel c m ≡ none
  unfolding visit_class register_with and_go_on
  visit_class-none zero c m n = refl
  visit_class-none (suc fuel) c m n =
      rw
        (register_subclasses-none (visit_class classes fuel) c (classes.annotations c)
          (put (classes.attributes c) c m) (λ before. visit_class-none fuel c before n) n)
        refl

  -- The registration of a class that an annotation of its own names ends at no depth of nested
  -- calls, whatever is registered before.
  register-none :
      (fuel : ℕ) (c : C) (m : Mappings C)
      → AreNamed classes c (classes.annotations c)
      → register classes fuel c m ≡ none
  unfolding register register_with
  register-none fuel c m n =
      register_subclasses-none (visit_class classes fuel) c (classes.annotations c)
        (put (classes.attributes c) c m) (λ before. visit_class-none fuel c before n) n
