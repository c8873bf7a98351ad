-- ===== src/Prelude/Lists.antt =====
-- Searching, counting and updating a list of rows by a test.
use Prim.Native.Nat.{ℕ, zero, suc, ◌+◌}
use mathlib.Core.Path.{◌≡◌, refl}
use mathlib.Core.Bool.{Bool, true, false, ◌&&◌}
use mathlib.Core.Option.{Option, none, some}
use mathlib.Core.List.{List, [], ◌∷◌, ◌++◌}
use native.Mathlib.Omega.{arith}
use collabai_backend.Prelude.Tests.{if◌then◌else◌}

module _ {ℓ} {A : Type ℓ} where
  abbrev pub length : List A → ℕ
  length [] = 0
  length (x ∷ xs) = suc (length xs)

  abbrev pub take : ℕ → List A → List A
  take zero xs = []
  take (suc n) [] = []
  take (suc n) (x ∷ xs) = x ∷ take n xs

  abbrev pub drop : ℕ → List A → List A
  drop zero xs = xs
  drop (suc n) [] = []
  drop (suc n) (x ∷ xs) = drop n xs

  -- The first element that passes.
  abbrev pub find? : (A → Bool) → List A → Option A
  find? p [] = none
  find? p (x ∷ xs) = if p x then some x else find? p xs

  -- How many pass.
  abbrev pub count_if : (A → Bool) → List A → ℕ
  count_if p [] = 0
  count_if p (x ∷ xs) = (if p x then 1 else 0) + count_if p xs

  -- Those that fail.
  abbrev pub remove_if : (A → Bool) → List A → List A
  remove_if p [] = []
  remove_if p (x ∷ xs) = if p x then remove_if p xs else x ∷ remove_if p xs

  -- Those that pass.
  abbrev pub keep_if : (A → Bool) → List A → List A
  keep_if p [] = []
  keep_if p (x ∷ xs) = if p x then x ∷ keep_if p xs else keep_if p xs

  -- `f` applied to each that passes.
  abbrev pub update_if : (A → Bool) → (A → A) → List A → List A
  update_if p f [] = []
  update_if p f (x ∷ xs) = (if p x then f x else x) ∷ update_if p f xs

module _ {ℓ} {A : Type ℓ} (p : A → Bool) where
  pub find?-eq-some : (xs : List A) (x : A) → find? p xs ≡ some x → p x ≡ true
  find?-eq-some [] x h = cc
  find?-eq-some (y ∷ xs) x h = ground (arith, find?-eq-some xs x)

  pub find?-append : (xs : List A) (y : A) → p y ≡ false → find? p (xs ++ y ∷ []) ≡ find? p xs
  find?-append [] y h = ground arith
  find?-append (x ∷ xs) y h = ground (arith, find?-append xs y h)

  pub find?-append_none :
      (xs : List A) (y : A) → p y ≡ true → find? p xs ≡ none → find? p (xs ++ y ∷ []) ≡ some y
  find?-append_none [] y h e = ground arith
  find?-append_none (x ∷ xs) y h e = ground (arith, find?-append_none xs y h)

  pub count_if-append :
      (xs : List A) (y : A) → count_if p (xs ++ y ∷ []) ≡ count_if p xs + (if p y then 1 else 0)
  count_if-append [] y = ground arith
  count_if-append (x ∷ xs) y = ground (arith, count_if-append xs y)

  -- Removing what never passed leaves the search alone.
  pub find?-remove_if_disjoint :
      (q : A → Bool) (xs : List A)
      → ((x : A) → p x ≡ true → q x ≡ false)
      → find? p (remove_if q xs) ≡ find? p xs
  find?-remove_if_disjoint q [] h = refl
  find?-remove_if_disjoint q (x ∷ xs) h = ground (arith, h x, find?-remove_if_disjoint q xs h)

  pub find?-remove_if_covered :
      (q : A → Bool) (xs : List A)
      → ((x : A) → p x ≡ true → q x ≡ true)
      → find? p (remove_if q xs) ≡ none
  find?-remove_if_covered q [] h = refl
  find?-remove_if_covered q (x ∷ xs) h = ground (arith, h x, find?-remove_if_covered q xs h)

  -- An update that touches only what does not pass, and leaves it so.
  pub find?-update_if_disjoint :
      (q : A → Bool) (f : A → A) (xs : List A)
      → ((x : A) → q x ≡ true → p x ≡ false)
      → ((x : A) → q x ≡ true → p (f x) ≡ false)
      → find? p (update_if q f xs) ≡ find? p xs
  find?-update_if_disjoint q f [] h k = refl
  find?-update_if_disjoint q f (x ∷ xs) h k =
      ground (arith, h x, k x, find?-update_if_disjoint q f xs h k)

  -- An update of exactly what passes, which goes on passing.
  pub find?-update_if_self :
      (f : A → A) (xs : List A) (x : A)
      → ((y : A) → p y ≡ true → p (f y) ≡ true)
      → find? p xs ≡ some x
      → find? p (update_if p f xs) ≡ some (f x)
  find?-update_if_self f [] x k e = cc
  find?-update_if_self f (y ∷ xs) x k e = ground (arith, k y, find?-update_if_self f xs x k)

pub find?-keep_if {ℓ} :
    {A : Type ℓ} (p q : A → Bool) (xs : List A)
    → find? q (keep_if p xs) ≡ find? (λ x. p x && q x) xs
find?-keep_if p q [] = refl
find?-keep_if p q (x ∷ xs) = ground (arith, find?-keep_if p q xs)
