-- ===== src/Prelude/Lists.antt =====
-- Lists under Boolean tests, and membership by recursion, which the tactics read.
use Prim.Native.Nat.{ℕ, zero, suc, ◌≤◌}
use mathlib.Core.Path.{◌≡◌, refl}
use mathlib.Core.Logic.{◌⊎◌, inl, inr}
use mathlib.Core.Bool.{Bool, true, false, ◌&&◌, ◌||◌}
use mathlib.Core.Option.{Option, none, some}
use mathlib.Core.List.{List, [], ◌∷◌, ◌++◌, map}
use native.Mathlib.Omega.{arith}
use wootpilot.Prelude.Tests.{if◌then◌else◌, Bool-cases}

module _ {ℓ} {A : Type ℓ} where
  abbrev pub length : List A → ℕ
  length [] = 0
  length (x ∷ xs) = suc (length xs)

  abbrev pub take : ℕ → List A → List A
  take zero xs = []
  take (suc n) [] = []
  take (suc n) (x ∷ xs) = x ∷ take n xs

  -- Python's any and all over a generator.
  unfoldable pub any : (A → Bool) → List A → Bool
  any p [] = false
  any p (x ∷ xs) = p x || any p xs

  unfoldable pub all : (A → Bool) → List A → Bool
  all p [] = true
  all p (x ∷ xs) = p x && all p xs

  -- A comprehension with an `if`.
  unfoldable pub filter : (A → Bool) → List A → List A
  filter p [] = []
  filter p (x ∷ xs) = let rest = filter p xs in if p x then x ∷ rest else rest

  -- The first row that a test accepts.
  unfoldable pub find? : (A → Bool) → List A → Option A
  find? p [] = none
  find? p (x ∷ xs) = let rest = find? p xs in if p x then some x else rest

-- Membership as a sum over the positions.
module _ {A : Type 0} where
  infix 50 ◌∈◌
  abbrev pub ◌∈◌ : A → List A → Type 0
  a ∈ [] = ⊥
  a ∈ (x ∷ xs) = (a ≡ x) ⊎ (a ∈ xs)

  pub any-exists :
      (p : A → Bool) (xs : List A) → any p xs ≡ true → (x : A) × (x ∈ xs) × (p x ≡ true)
  unfolding any
  any-exists p [] h = cc
  any-exists p (x ∷ xs) h = elim (Bool-cases (p x)) [
    | inl yes_x ↦ (x, inl refl, yes_x)
    | inr no_x ↦ let found = any-exists p xs (rw no_x at h) in (found.0, inr found.1, found.2)
  ]

  pub any-of_mem : (p : A → Bool) (x : A) (xs : List A) → x ∈ xs → p x ≡ true → any p xs ≡ true
  unfolding any
  any-of_mem p x [] m h = absurd m
  any-of_mem p x (y ∷ ys) (inl e) h = ground (arith)
  any-of_mem p x (y ∷ ys) (inr m) h = ground (arith, any-of_mem p x ys m h)

  pub any-or : (p q : A → Bool) (xs : List A) → any (λ x. p x || q x) xs ≡ (any p xs || any q xs)
  unfolding any
  any-or p q [] = refl
  any-or p q (x ∷ xs) = ground (arith, any-or p q xs)

  pub any-false : (p : A → Bool) (x : A) (xs : List A) → x ∈ xs → any p xs ≡ false → p x ≡ false
  unfolding any
  any-false p x [] m h = absurd m
  any-false p x (y ∷ ys) (inl e) h = ground arith
  any-false p x (y ∷ ys) (inr m) h = any-false p x ys m (ground arith)

  pub mem_of_mem-filter :
      (p : A → Bool) (x : A) (xs : List A) → x ∈ filter p xs → (x ∈ xs) × (p x ≡ true)
  unfolding filter
  mem_of_mem-filter p x [] m = absurd m
  mem_of_mem-filter p x (y ∷ ys) m = ground (arith, mem_of_mem-filter p x ys)

  pub mem-filter_of_mem :
      (p : A → Bool) (x : A) (xs : List A) → x ∈ xs → p x ≡ true → x ∈ filter p xs
  unfolding filter
  mem-filter_of_mem p x [] m h = absurd m
  mem-filter_of_mem p x (y ∷ ys) m h = ground (arith, mem-filter_of_mem p x ys)

  pub mem-append_right : (x : A) (xs ys : List A) → x ∈ ys → x ∈ (xs ++ ys)
  mem-append_right x [] ys m = m
  mem-append_right x (y ∷ xs) ys m = inr (mem-append_right x xs ys m)

  pub mem-append_left : (x : A) (xs ys : List A) → x ∈ xs → x ∈ (xs ++ ys)
  mem-append_left x [] ys m = absurd m
  mem-append_left x (y ∷ xs) ys (inl e) = inl e
  mem-append_left x (y ∷ xs) ys (inr m) = inr (mem-append_left x xs ys m)

  pub mem-append_cases : (x : A) (xs ys : List A) → x ∈ (xs ++ ys) → (x ∈ xs) ⊎ (x ∈ ys)
  mem-append_cases x [] ys m = inr m
  mem-append_cases x (y ∷ xs) ys (inl e) = inl (inl e)
  mem-append_cases x (y ∷ xs) ys (inr m) = elim (mem-append_cases x xs ys m) [
    | inl l ↦ inl (inr l)
    | inr r ↦ inr r
  ]

  pub find?-mem :
      (p : A → Bool) (xs : List A) (x : A) → find? p xs ≡ some x → (x ∈ xs) × (p x ≡ true)
  unfolding find?
  find?-mem p [] x h = cc
  find?-mem p (y ∷ ys) x h = elim (Bool-cases (p y)) [
    | inl yes_y ↦ ground arith
    | inr no_y ↦ let found = find?-mem p ys x (rw no_y at h) in (inr found.0, found.1)
  ]

  pub find?-none : (p : A → Bool) (xs : List A) (x : A) → find? p xs ≡ none → x ∈ xs → p x ≡ false
  unfolding find?
  find?-none p [] x h m = absurd m
  find?-none p (y ∷ ys) x h (inl e) = ground arith
  find?-none p (y ∷ ys) x h (inr m) = find?-none p ys x (ground arith) m

module _ {A B : Type 0} where
  pub mem-map : (f : A → B) (x : A) (xs : List A) → x ∈ xs → f x ∈ map f xs
  mem-map f x [] m = absurd m
  mem-map f x (y ∷ ys) (inl e) = inl (λ i. f (e i))
  mem-map f x (y ∷ ys) (inr m) = inr (mem-map f x ys m)

  pub mem-map_cases :
      (f : A → B) (b : B) (xs : List A) → b ∈ map f xs → (a : A) × (a ∈ xs) × (b ≡ f a)
  mem-map_cases f b [] m = absurd m
  mem-map_cases f b (y ∷ ys) (inl e) = (y, inl refl, e)
  mem-map_cases f b (y ∷ ys) (inr m) =
      let found = mem-map_cases f b ys m in (found.0, inr found.1, found.2)

module _ {A : Type 0} where
  pub mem_of_mem-take : (n : ℕ) (x : A) (xs : List A) → x ∈ take n xs → x ∈ xs
  mem_of_mem-take zero x xs m = absurd m
  mem_of_mem-take (suc n) x [] m = absurd m
  mem_of_mem-take (suc n) x (y ∷ ys) (inl same) = inl same
  mem_of_mem-take (suc n) x (y ∷ ys) (inr m) = inr (mem_of_mem-take n x ys m)

  pub length-take : (n : ℕ) (xs : List A) → length (take n xs) ≤ n
  length-take zero xs = omega arith
  length-take (suc n) [] = omega arith
  length-take (suc n) (x ∷ xs) = ground (arith, length-take n xs)
