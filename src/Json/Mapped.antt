-- ===== src/Json/Mapped.antt =====
-- The class that an object becomes after a registration, and the depth of a registration.
use pdip.Prelude.{
  ℕ, zero, suc, ◌≤◌, ◌<◌, ◌≡◌, inl, inr, refl, true, false, Option, some, List, [], ◌∷◌, String,
  arith, Bool-cases,
}
use pdip.Sql.Context.{Dict, keys}
use pdip.Json.Converter.{
  Annotation, primitive, generic_primitive, unknown, generic_of, class_of, Classes, is_subset,
  same_set, Mappings, put, and_go_on, visit_annotation, register_subclasses, register_with,
  visit_class, register, class_mapper,
}
use pdip.Json.Sets.{same_set-not_subset, and_true, is_subset_refl, has_set, is_subset_trans}
use pdip.Json.Registered.{register_with-Keeps, visit_class-Keeps}
use pdip.Json.Reached.{Names, AreNamed, Reaches, register-Covers}

module _ {C V I : Type 0} (classes : Classes C V I) where
  -- An entry's key has the attributes of its class.
  abbrev AreOwn : Mappings C → Type 0
  AreOwn [] = Unit
  AreOwn ((k, c) ∷ m) = (is_subset k (classes.attributes c) ≡ true) × AreOwn m

  put-AreOwn : (c : C) (m : Mappings C) → AreOwn m → AreOwn (put (classes.attributes c) c m)
  unfolding put same_set
  put-AreOwn c [] own = (is_subset_refl (classes.attributes c), own)
  put-AreOwn c ((k, d) ∷ m) (first, rest) = elim (Bool-cases (same_set (classes.attributes c) k)) [
    | inl e ↦
        let (_, back) =
          and_true (is_subset (classes.attributes c) k) (is_subset k (classes.attributes c)) e in
        rw e (back, rest)
    | inr e ↦ rw e (first, put-AreOwn c m rest)
  ]

  register-AreOwn :
      (fuel : ℕ) (c : C) (m m' : Mappings C)
      → register classes fuel c m ≡ some m'
      → AreOwn m
      → AreOwn m'
  unfolding register
  register-AreOwn fuel =
      register_with-Keeps classes AreOwn (visit_class classes fuel) put-AreOwn
        (visit_class-Keeps classes AreOwn put-AreOwn fuel)

  -- The dict becomes an object of a class that has its keys.
  abbrev pub IsMapped : Mappings C → Dict V → Type 0
  IsMapped m d =
      (c : C) × (class_mapper classes m d ≡ classes.make c d)
      × (is_subset (keys d) (classes.attributes c) ≡ true)

  class_mapper-has_set :
      (a : List String) (m : Mappings C) (d : Dict V)
      → AreOwn m
      → has_set a m ≡ true
      → is_subset (keys d) a ≡ true
      → IsMapped m d
  unfolding class_mapper has_set
  class_mapper-has_set a [] d own h s = cc
  class_mapper-has_set a ((k, c) ∷ m) d (first, rest) h s =
      elim (Bool-cases (is_subset (keys d) k)) [
        | inl e ↦ (c, rw e refl, is_subset_trans (keys d) k (classes.attributes c) e first)
        | inr e ↦
            let other_key : same_set a k ≡ false = same_set-not_subset a k (keys d) s e in
            let (found, mapped, has) = class_mapper-has_set a m d rest (rw other_key at h) s in
            (found, rw e mapped, has)
      ]

  -- A depth of the annotations: less for each class that a class names.
  abbrev pub IsDepth : (C → ℕ) → Type 0
  IsDepth depth = (c d : C) → AreNamed classes d (classes.annotations c) → depth d < depth c

  -- What is done for a class of that depth comes to an end.
  abbrev Ends : (C → ℕ) → ℕ → (C → Mappings C → Option (Mappings C)) → Type 0
  Ends depth n visit =
      (c : C) (m : Mappings C) → depth c < n → (m' : Mappings C) × (visit c m ≡ some m')

  module _ (depth : C → ℕ) (n : ℕ) (visit : C → Mappings C → Option (Mappings C)) where
    visit_annotation-Ends :
        Ends depth n visit
        → (x : Annotation C) (m : Mappings C) → ((d : C) → Names classes d x → depth d < n)
        → (m' : Mappings C) × (visit_annotation classes visit x m ≡ some m')
    unfolding visit_annotation
    visit_annotation-Ends ends primitive m named = (m, refl)
    visit_annotation-Ends ends generic_primitive m named = (m, refl)
    visit_annotation-Ends ends unknown m named = (m, refl)
    visit_annotation-Ends ends (generic_of c) m named = ends c m (named c refl)
    visit_annotation-Ends ends (class_of c) m named = ends c m (named c refl)

    register_subclasses-Ends :
        Ends depth n visit
        → (annotations : List (Annotation C)) (m : Mappings C)
        → ((d : C) → AreNamed classes d annotations → depth d < n)
        → (m' : Mappings C) × (register_subclasses classes visit annotations m ≡ some m')
    unfolding register_subclasses and_go_on
    register_subclasses-Ends ends [] m named = (m, refl)
    register_subclasses-Ends ends (x ∷ annotations) m named =
        let (m1, e1) = visit_annotation-Ends ends x m (λ d named_here. named d (inl named_here)) in
        let (m2, e2) =
          register_subclasses-Ends ends annotations m1
            (λ d named_later. named d (inr named_later)) in
        (m2, rw e1 e2)

    register_with-Ends :
        Ends depth n visit → IsDepth depth → Ends depth (suc n) (register_with classes visit)
    unfolding register_with
    register_with-Ends ends falls c m h =
        register_subclasses-Ends ends (classes.annotations c) (put (classes.attributes c) c m)
          (λ d named. let less = falls c d named in omega arith)

  visit_class-Ends :
      (depth : C → ℕ) → IsDepth depth → (fuel : ℕ) → Ends depth fuel (visit_class classes fuel)
  unfolding visit_class and_go_on
  visit_class-Ends depth falls zero c m h = absurd (omega arith)
  visit_class-Ends depth falls (suc fuel) c m h =
      let visit = visit_class classes fuel in
      let ends = visit_class-Ends depth falls fuel in
      let (m1, e1) = register_with-Ends depth fuel visit ends falls c m h in
      let (m2, e2) =
        register_subclasses-Ends depth fuel visit ends (classes.annotations c) m1
          (λ d named. let less = falls c d named in omega arith) in
      (m2, rw e1 e2)

  -- Where a depth exists that falls along the annotations, the registration of a class ends within
  -- that depth of nested calls; afterwards, a dict whose keys are attributes of a class that the
  -- registered one reaches by annotations becomes an object of a class that has all those keys,
  -- instead of the error about a missing class.
  pub register-IsMapped :
      (depth : C → ℕ) (fuel : ℕ) (c d : C) (dict : Dict V)
      → IsDepth depth
      → depth c ≤ fuel
      → Reaches classes c d
      → is_subset (keys dict) (classes.attributes d) ≡ true
      → (m : Mappings C) × (register classes fuel c [] ≡ some m) × IsMapped m dict
  unfolding register
  register-IsMapped depth fuel c d dict falls enough reached has =
      let visit = visit_class classes fuel in
      let ends = visit_class-Ends depth falls fuel in
      let (m, e) = register_with-Ends depth fuel visit ends falls c [] (omega arith) in
      let known = register-Covers classes fuel c d [] m e reached in
      let own = register-AreOwn fuel c [] m e tt in
      (m, e, class_mapper-has_set (classes.attributes d) m dict own known has)
