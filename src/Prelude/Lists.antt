-- ===== src/Prelude/Lists.antt =====
-- Lists measured and indexed by native numbers, and the searches of <algorithm>.
use Prim.Native.Nat.{ℕ, zero, suc, ◌+◌, ◌-◌, ◌≤◌, min}
use mathlib.Core.Path.{◌≡◌, refl, ap}
use mathlib.Core.Bool.{Bool, true, false, ◌||◌}
use mathlib.Core.List.{List, [], ◌∷◌, ◌++◌}
use mathlib.Core.Option.{Option, none, some}
use native.Mathlib.Omega.{arith}
use teams_mirror.Prelude.Tests.{if◌then◌else◌}

module _ {ℓ} {A : Type ℓ} where
  abbrev pub length : List A → ℕ
  length [] = 0
  length (x ∷ xs) = suc (length xs)

  abbrev pub get_or : List A → ℕ → A → A
  get_or [] i d = d
  get_or (x ∷ xs) zero d = x
  get_or (x ∷ xs) (suc i) d = get_or xs i d

  abbrev pub take : ℕ → List A → List A
  take zero xs = []
  take (suc n) [] = []
  take (suc n) (x ∷ xs) = x ∷ take n xs

  abbrev pub drop : ℕ → List A → List A
  drop zero xs = xs
  drop (suc n) [] = []
  drop (suc n) (x ∷ xs) = drop n xs

  abbrev pub replicate : ℕ → A → List A
  replicate zero a = []
  replicate (suc n) a = a ∷ replicate n a

  -- `empty()`
  abbrev pub is_empty : List A → Bool
  is_empty [] = true
  is_empty (x ∷ xs) = false

  -- std::find_if, as the element found
  unfoldable pub find_if : (A → Bool) → List A → Option A
  find_if p [] = none
  find_if p (x ∷ xs) = if p x then some x else find_if p xs

  -- A change made through the reference that `find_if` returned: the first match is changed.
  unfoldable pub update_if : (A → Bool) → (A → A) → List A → List A
  update_if p f [] = []
  update_if p f (x ∷ xs) = if p x then f x ∷ xs else x ∷ update_if p f xs

  -- Whether some element satisfies the test.
  unfoldable pub any_of : (A → Bool) → List A → Bool
  any_of p [] = false
  any_of p (x ∷ xs) = if p x then true else any_of p xs

  -- The elements that satisfy the test, in their order.
  unfoldable pub keep_if : (A → Bool) → List A → List A
  keep_if p [] = []
  keep_if p (x ∷ xs) = let rest = keep_if p xs in if p x then x ∷ rest else rest

  -- erase(remove_if(…))
  unfoldable pub remove_if : (A → Bool) → List A → List A
  remove_if p [] = []
  remove_if p (x ∷ xs) = let rest = remove_if p xs in if p x then rest else x ∷ rest

  pub length-append : (xs ys : List A) → length (xs ++ ys) ≡ length xs + length ys
  length-append [] ys = omega arith
  length-append (x ∷ xs) ys = omega (arith, length-append xs ys)

  pub take-append-drop : (n : ℕ) (xs : List A) → take n xs ++ drop n xs ≡ xs
  take-append-drop zero xs = refl
  take-append-drop (suc n) [] = refl
  take-append-drop (suc n) (x ∷ xs) = ap (◌∷◌ x) (take-append-drop n xs)

  pub length-take : (n : ℕ) (xs : List A) → length (take n xs) ≡ min n (length xs)
  length-take zero xs = omega arith
  length-take (suc n) [] = omega arith
  length-take (suc n) (x ∷ xs) = omega (arith, length-take n xs)

  pub length-drop : (n : ℕ) (xs : List A) → length (drop n xs) ≡ length xs - n
  length-drop zero xs = omega arith
  length-drop (suc n) [] = omega arith
  length-drop (suc n) (x ∷ xs) = omega (arith, length-drop n xs)

  pub length-replicate : (n : ℕ) (a : A) → length (replicate n a) ≡ n
  length-replicate zero a = refl
  length-replicate (suc n) a = ap suc (length-replicate n a)

  pub take_all : (n : ℕ) (xs : List A) → length xs ≤ n → take n xs ≡ xs
  take_all zero [] h = refl
  take_all zero (x ∷ xs) h = elim h [ ]
  take_all (suc n) [] h = refl
  take_all (suc n) (x ∷ xs) h = ap (◌∷◌ x) (take_all n xs (omega arith))

  pub drop_all : (n : ℕ) (xs : List A) → length xs ≤ n → drop n xs ≡ []
  drop_all zero [] h = refl
  drop_all zero (x ∷ xs) h = elim h [ ]
  drop_all (suc n) [] h = refl
  drop_all (suc n) (x ∷ xs) h = drop_all n xs (omega arith)

  -- Cutting an append at the length of its first part.
  pub take-append : (n : ℕ) (xs ys : List A) → length xs ≡ n → take n (xs ++ ys) ≡ xs
  take-append zero [] ys h = refl
  take-append zero (x ∷ xs) ys h = absurd (omega arith)
  take-append (suc n) [] ys h = absurd (omega arith)
  take-append (suc n) (x ∷ xs) ys h = ap (◌∷◌ x) (take-append n xs ys (omega arith))

  pub drop-append : (n : ℕ) (xs ys : List A) → length xs ≡ n → drop n (xs ++ ys) ≡ ys
  drop-append zero [] ys h = refl
  drop-append zero (x ∷ xs) ys h = absurd (omega arith)
  drop-append (suc n) [] ys h = absurd (omega arith)
  drop-append (suc n) (x ∷ xs) ys h = drop-append n xs ys (omega arith)

  pub find_if-holds : (p : A → Bool) (xs : List A) (a : A) → find_if p xs ≡ some a → p a ≡ true
  unfolding find_if
  find_if-holds p [] a h = ground arith
  find_if-holds p (x ∷ xs) a h = ground (arith, find_if-holds p xs a)

module _ {ℓ} {A : Type ℓ} where
  -- Every element of a list satisfies a predicate.
  abbrev pub All {κ} : (A → Type κ) → List A → Type κ
  All P [] = Unit
  All P (x ∷ xs) = P x × All P xs

  -- What is found is not ruled out by a test that no element satisfies.
  pub find_if-any_of :
      (p q : A → Bool) (xs : List A) (a : A)
      → find_if p xs ≡ some a
      → any_of q xs ≡ false
      → q a ≡ false
  unfolding find_if any_of
  find_if-any_of p q [] a h n = absurd (ground arith)
  find_if-any_of p q (x ∷ xs) a h n = ground (arith, find_if-any_of p q xs a)

  pub any_of-update_if :
      (p q : A → Bool) (f : A → A) (xs : List A)
      → ((x : A) → q (f x) ≡ q x)
      → any_of q (update_if p f xs) ≡ any_of q xs
  unfolding any_of update_if
  any_of-update_if p q f [] h = refl
  any_of-update_if p q f (x ∷ xs) h = ground (arith, h x, any_of-update_if p q f xs h)

  pub any_of-append :
      (q : A → Bool) (xs ys : List A) → any_of q (xs ++ ys) ≡ (any_of q xs || any_of q ys)
  unfolding any_of
  any_of-append q [] ys = refl
  any_of-append q (x ∷ xs) ys = ground (arith, any_of-append q xs ys)

  pub find_if-none : (p : A → Bool) (xs : List A) → find_if p xs ≡ none → any_of p xs ≡ false
  unfolding find_if any_of
  find_if-none p [] h = refl
  find_if-none p (x ∷ xs) h = ground (arith, find_if-none p xs)

  pub find_if-some :
      (p : A → Bool) (xs : List A) (a : A) → find_if p xs ≡ some a → any_of p xs ≡ true
  unfolding find_if any_of
  find_if-some p [] a h = absurd (ground arith)
  find_if-some p (x ∷ xs) a h = ground (arith, find_if-some p xs a)
