-- ===== src/Prelude/Lists.antt =====
-- Lists measured and indexed by native numbers, under the library's names.
use Prim.Native.Nat.{ℕ, zero, suc, ◌+◌, ◌≤◌, ◌<◌}
use Prim.Native.Nat.add
use mathlib.Core.Path.{◌≡◌, refl, ap}
use mathlib.Core.Bool.{Bool, true}
use mathlib.Core.Option.{Option, none, some}
use mathlib.Core.List.{List, [], ◌∷◌, ◌++◌}
use native.Mathlib.Omega.{arith}
use pdip.Prelude.Tests.{if◌then◌else◌}

module _ {ℓ} {A : Type ℓ} where
  abbrev pub length : List A → ℕ
  length [] = 0
  length (x ∷ xs) = suc (length xs)

  abbrev pub get_elem? : List A → ℕ → Option A
  get_elem? [] i = none
  get_elem? (x ∷ xs) zero = some x
  get_elem? (x ∷ xs) (suc i) = get_elem? xs i

  -- A write out of bounds changes nothing.
  abbrev pub set : List A → ℕ → A → List A
  set [] i v = []
  set (x ∷ xs) zero v = v ∷ xs
  set (x ∷ xs) (suc i) v = x ∷ set xs i v

  abbrev pub take : ℕ → List A → List A
  take zero xs = []
  take (suc n) [] = []
  take (suc n) (x ∷ xs) = x ∷ take n xs

  abbrev pub drop : ℕ → List A → List A
  drop zero xs = xs
  drop (suc n) [] = []
  drop (suc n) (x ∷ xs) = drop n xs

  abbrev pub replicate : ℕ → A → List A
  replicate zero x = []
  replicate (suc n) x = x ∷ replicate n x

  -- How many elements pass a test.
  abbrev pub count : (A → Bool) → List A → ℕ
  count p [] = 0
  count p (x ∷ xs) = (if p x then 1 else 0) + count p xs

  -- The sum of a number taken from each element.
  abbrev pub sum_of : (A → ℕ) → List A → ℕ
  sum_of f [] = 0
  sum_of f (x ∷ xs) = f x + sum_of f xs

  pub length-append : (xs ys : List A) → length (xs ++ ys) ≡ length xs + length ys
  length-append [] ys = omega arith
  length-append (x ∷ xs) ys = omega (arith, length-append xs ys)

  pub count-append : (p : A → Bool) (xs ys : List A) → count p (xs ++ ys) ≡ count p xs + count p ys
  count-append p [] ys = omega arith
  count-append p (x ∷ xs) ys = omega (arith, count-append p xs ys)

  pub sum_of-append : (f : A → ℕ) (xs ys : List A) → sum_of f (xs ++ ys) ≡ sum_of f xs + sum_of f ys
  sum_of-append f [] ys = omega arith
  sum_of-append f (x ∷ xs) ys = omega (arith, sum_of-append f xs ys)

  pub sum_of-replicate : (f : A → ℕ) (n : ℕ) (x : A) → f x ≡ 0 → sum_of f (replicate n x) ≡ 0
  sum_of-replicate f zero x h = refl
  sum_of-replicate f (suc n) x h = omega (arith, sum_of-replicate f n x h)

  -- Writing an element changes the sum by what it held and what it holds.
  pub sum_of-set :
      (f : A → ℕ) (xs : List A) (i : ℕ) (v : A) {x : A}
      → get_elem? xs i ≡ some x
      → sum_of f (set xs i v) + f x ≡ sum_of f xs + f v
  sum_of-set f [] i v h = cc
  sum_of-set f (y ∷ ys) zero v h = ground arith
  sum_of-set f (y ∷ ys) (suc i) v h = omega (arith, sum_of-set f ys i v h)

  pub le-sum_of :
      (f : A → ℕ) (xs : List A) (i : ℕ) {x : A} → get_elem? xs i ≡ some x → f x ≤ sum_of f xs
  le-sum_of f [] i h = cc
  le-sum_of f (y ∷ ys) zero h = ground arith
  le-sum_of f (y ∷ ys) (suc i) h = omega (arith, le-sum_of f ys i h)

  pub length-set : (xs : List A) (i : ℕ) (v : A) → length (set xs i v) ≡ length xs
  length-set [] i v = refl
  length-set (x ∷ xs) zero v = refl
  length-set (x ∷ xs) (suc i) v = ap suc (length-set xs i v)

  pub length-replicate : (n : ℕ) (x : A) → length (replicate n x) ≡ n
  length-replicate zero x = refl
  length-replicate (suc n) x = ap suc (length-replicate n x)

  count-take_nil : (p : A → Bool) (n : ℕ) → count p (take n []) ≡ 0
  count-take_nil p zero = refl
  count-take_nil p (suc n) = refl

  -- Counting in a prefix splits at any position.
  pub count-take-add :
      (p : A → Bool) (m n : ℕ) (xs : List A)
      → count p (take (m + n) xs) ≡ count p (take m xs) + count p (take n (drop m xs))
  count-take-add p zero n xs = ground arith
  count-take-add p (suc m) n [] = rw (add.suc m n) (omega (arith, count-take_nil p n))
  count-take-add p (suc m) n (x ∷ xs) = rw (add.suc m n) (omega (arith, count-take-add p m n xs))

  pub take-all : (n : ℕ) (xs : List A) → length xs ≤ n → take n xs ≡ xs
  take-all zero [] h = refl
  take-all zero (x ∷ xs) h = elim h [ ]
  take-all (suc n) [] h = refl
  take-all (suc n) (x ∷ xs) h = ap (λ l. x ∷ l) (take-all n xs (omega arith))

  pub count-true : (xs : List A) → count (λ _. true) xs ≡ length xs
  count-true [] = refl
  count-true (x ∷ xs) = omega (arith, count-true xs)

module _ {ℓ} {A : Type ℓ} where
  pub sum_of-snoc : (f : A → ℕ) (xs : List A) (x : A) → sum_of f (xs ++ x ∷ []) ≡ sum_of f xs + f x
  sum_of-snoc f xs x = omega (arith, sum_of-append f xs (x ∷ []))

  pub length-snoc : (xs : List A) (x : A) → length (xs ++ x ∷ []) ≡ suc (length xs)
  length-snoc xs x = omega (arith, length-append xs (x ∷ []))

  pub count-snoc :
      (p : A → Bool) (xs : List A) (x : A)
      → count p (xs ++ x ∷ []) ≡ count p xs + (if p x then 1 else 0)
  count-snoc p xs x = omega (arith, count-append p xs (x ∷ []))

  pub length-take-drop_pos :
      (s l : ℕ) (xs : List A) → s < length xs → 0 < l → 0 < length (take l (drop s xs))
  length-take-drop_pos s zero xs h k = elim k [ ]
  length-take-drop_pos zero (suc l) [] h k = elim h [ ]
  length-take-drop_pos zero (suc l) (x ∷ xs) h k = omega arith
  length-take-drop_pos (suc s) (suc l) [] h k = elim h [ ]
  length-take-drop_pos (suc s) (suc l) (x ∷ xs) h k =
      length-take-drop_pos s (suc l) xs (omega arith) k
