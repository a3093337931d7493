-- ===== src/Json/Sets.antt =====
-- Sets of attributes, and the entries of the registered classes.
use text.Mathlib.Text.{◌==◌}
use text.Mathlib.TextEquality.{eq_iff}
use pdip.Prelude.{
  ◌≡◌, inl, inr, refl, sym, subst, Bool, true, false, ◌&&◌, ◌||◌, Option, none, some, List, [], ◌∷◌,
  String, arith, Bool-cases,
}
use pdip.Api.{is_one_of}
use pdip.Json.Converter.{is_subset, same_set, Mappings, put, and_go_on}

pub and_true : (a b : Bool) → (a && b) ≡ true → (a ≡ true) × (b ≡ true)
and_true true b h = (refl, h)
and_true false b h = cc

is_one_of-is_subset :
    (t : String) (a b : List String)
    → is_one_of t a ≡ true
    → is_subset a b ≡ true
    → is_one_of t b ≡ true
unfolding is_one_of is_subset
is_one_of-is_subset t [] b h s = cc
is_one_of-is_subset t (x ∷ a) b h s =
    let (first, rest) = and_true (is_one_of x b) (is_subset a b) s in
    elim (Bool-cases (t == x)) [
      | inl e ↦
          let same : x ≡ t = sym ((eq_iff t x).0 e) in subst (λ u. is_one_of u b ≡ true) same first
      | inr e ↦ is_one_of-is_subset t a b (rw e at h) rest
    ]

pub is_subset_trans :
    (a b c : List String) → is_subset a b ≡ true → is_subset b c ≡ true → is_subset a c ≡ true
unfolding is_subset
is_subset_trans [] b c h k = refl
is_subset_trans (x ∷ a) b c h k =
    let (first, rest) = and_true (is_one_of x b) (is_subset a b) h in
    rw (is_one_of-is_subset x b c first k, is_subset_trans a b c rest k) refl

is_subset_cons :
    (x : String) (a b : List String) → is_subset a b ≡ true → is_subset a (x ∷ b) ≡ true
unfolding is_subset is_one_of
is_subset_cons x [] b h = refl
is_subset_cons x (y ∷ a) b h =
    let (first, rest) = and_true (is_one_of y b) (is_subset a b) h in
    rw (first, is_subset_cons x a b rest) (ground arith)

pub is_subset_refl : (a : List String) → is_subset a a ≡ true
unfolding is_subset is_one_of
is_subset_refl [] = refl
is_subset_refl (x ∷ a) =
    let same : (x == x) ≡ true = (eq_iff x x).1 refl in
    rw (same, is_subset_cons x a a (is_subset_refl a)) refl

pub same_set_refl : (a : List String) → same_set a a ≡ true
unfolding same_set
same_set_refl a = rw (is_subset_refl a) refl

-- A set that misses a text of a subset of another is not that other.
pub same_set-not_subset :
    (a k texts : List String)
    → is_subset texts a ≡ true
    → is_subset texts k ≡ false
    → same_set a k ≡ false
unfolding same_set
same_set-not_subset a k texts s e = elim (Bool-cases (is_subset a k)) [
  | inl f ↦ let all = is_subset_trans texts a k s f in cc
  | inr f ↦ rw f refl
]

-- A set of attributes has an entry.
unfoldable pub has_set : {C : Type 0} → List String → Mappings C → Bool
has_set attributes [] = false
has_set attributes ((k, c) ∷ mappings) = same_set attributes k || has_set attributes mappings

module _ {C : Type 0} where
  pub has_set-put :
      (a b : List String) (cls : C) (m : Mappings C)
      → has_set a m ≡ true
      → has_set a (put b cls m) ≡ true
  unfolding has_set put
  has_set-put a b cls [] h = cc
  has_set-put a b cls ((k, c) ∷ m) h = elim (Bool-cases (same_set b k)) [
    | inl e ↦ rw e h
    | inr e ↦ elim (Bool-cases (same_set a k)) [
      | inl f ↦ rw (e, f) refl
      | inr f ↦ rw (e, f) (has_set-put a b cls m (rw f at h))
    ]
  ]

  pub has_set-put_same :
      (a : List String) (cls : C) (m : Mappings C) → has_set a (put a cls m) ≡ true
  unfolding has_set put
  has_set-put_same a cls [] = rw (same_set_refl a) refl
  has_set-put_same a cls ((k, c) ∷ m) = elim (Bool-cases (same_set a k)) [
    | inl e ↦ rw (e, e) refl
    | inr e ↦ rw (e, e, has_set-put_same a cls m) refl
  ]

  pub and_so : (P : Mappings C → Type 0) (m m' : Mappings C) → some m ≡ some m' → P m → P m'
  and_so P m m' e h = let same : m ≡ m' = cc in subst P same h

  pub and_go_on-some :
      (o : Option (Mappings C)) (f : Mappings C → Option (Mappings C)) (m' : Mappings C)
      → and_go_on o f ≡ some m'
      → (m : Mappings C) × (o ≡ some m) × (f m ≡ some m')
  unfolding and_go_on
  and_go_on-some none f m' e = cc
  and_go_on-some (some m) f m' e = (m, refl, e)
