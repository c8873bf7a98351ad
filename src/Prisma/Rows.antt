-- ===== src/Prisma/Rows.antt =====
-- The calls of one model delegate, and the facts about its rows that the repositories use.
use collabai_backend.Prelude.{
  ℕ, ◌+◌, ◌≤◌, ◌≡◌, refl, Bool, true, false, ◌&&◌, Option, none, some, is_some, List, [], ◌∷◌, ◌++◌,
  arith, find?, count_if, remove_if, update_if, if◌then◌else◌,
}

pub record Table (Row : Type 0) (clash : Row → Row → Bool) : Type 1 where
  pub Contents : Type 0
  pub rows : Contents → List Row
  pub find_first : (Row → Bool) → Contents → Option Row
  pub find_many : (Row → Bool) → Contents → List Row
  pub count : (Row → Bool) → Contents → ℕ
  pub create : Row → Contents → Option Contents
  pub update : (Row → Bool) → (Row → Row) → Contents → Option Contents
  pub update_many : (Row → Bool) → (Row → Row) → Contents → Option Contents
  pub delete : (Row → Bool) → Contents → Option Contents
  pub delete_many : (Row → Bool) → Contents → Contents
  -- The unique constraint holds at all times.
  pub unique : (r : Row) (c : Contents) → count_if (clash r) (rows c) ≤ 1
  -- Reads are of the rows; a write that is not refused changes the rows that its filter names.
  pub find_first_rows : (p : Row → Bool) (c : Contents) → find_first p c ≡ find? p (rows c)
  -- Many rows come in any order: a row that one of them alone can be is found among them.
  pub find_many_rows :
      (p q : Row → Bool) (c : Contents)
      → count_if q (rows c) ≤ 1
      → find? q (find_many p c) ≡ find? (λ r. p r && q r) (rows c)
  pub count_rows : (p : Row → Bool) (c : Contents) → count p c ≡ count_if p (rows c)
  pub create_rows : (r : Row) (c c' : Contents) → create r c ≡ some c' → rows c' ≡ rows c ++ r ∷ []
  pub update_rows :
      (p : Row → Bool) (f : Row → Row) (c c' : Contents)
      → update p f c ≡ some c'
      → rows c' ≡ update_if p f (rows c)
  pub update_many_rows :
      (p : Row → Bool) (f : Row → Row) (c c' : Contents)
      → update_many p f c ≡ some c'
      → rows c' ≡ update_if p f (rows c)
  pub delete_rows :
      (p : Row → Bool) (c c' : Contents) → delete p c ≡ some c' → rows c' ≡ remove_if p (rows c)
  pub delete_many_rows :
      (p : Row → Bool) (c : Contents) → rows (delete_many p c) ≡ remove_if p (rows c)

module _ {Row : Type 0} (p q : Row → Bool) where
  count_if-update_if_none :
      (f : Row → Row) (xs : List Row)
      → count_if p xs ≡ 0
      → count_if q (update_if p f xs) ≡ count_if q xs
  count_if-update_if_none f [] h = refl
  count_if-update_if_none f (x ∷ xs) h = ground (arith, count_if-update_if_none f xs)

  -- Where the filter names one row, an update of it exchanges that row.
  pub count_if-update_if :
      (f : Row → Row) (xs : List Row) (m : Row)
      → count_if p xs ≤ 1
      → find? p xs ≡ some m
      → count_if q (update_if p f xs) + (if q m then 1 else 0)
        ≡ count_if q xs + (if q (f m) then 1 else 0)
  count_if-update_if f [] m h e = cc
  count_if-update_if f (x ∷ xs) m h e =
      ground (arith, count_if-update_if_none f xs, count_if-update_if f xs m)

  count_if-remove_if_none :
      (xs : List Row) → count_if p xs ≡ 0 → count_if q (remove_if p xs) ≡ count_if q xs
  count_if-remove_if_none [] h = refl
  count_if-remove_if_none (x ∷ xs) h = ground (arith, count_if-remove_if_none xs)

  -- And a deletion takes that row away.
  pub count_if-remove_if :
      (xs : List Row) (m : Row)
      → count_if p xs ≤ 1
      → find? p xs ≡ some m
      → count_if q (remove_if p xs) + (if q m then 1 else 0) ≡ count_if q xs
  count_if-remove_if [] m h e = cc
  count_if-remove_if (x ∷ xs) m h e =
      ground (arith, count_if-remove_if_none xs, count_if-remove_if xs m)

  -- An update that leaves a test alone leaves what it finds, up to the update.
  pub is_some-find?-update_if :
      (f : Row → Row) (xs : List Row)
      → ((x : Row) → q (f x) ≡ q x)
      → is_some (find? q (update_if p f xs)) ≡ is_some (find? q xs)
  is_some-find?-update_if f [] h = refl
  is_some-find?-update_if f (x ∷ xs) h = ground (arith, h x, is_some-find?-update_if f xs h)

  -- An update of a group of rows that holds the one that is found.
  pub find?-update_if_covered :
      (f : Row → Row) (xs : List Row) (r : Row)
      → ((x : Row) → q (f x) ≡ q x)
      → ((x : Row) → q x ≡ true → p x ≡ true)
      → find? q xs ≡ some r
      → find? q (update_if p f xs) ≡ some (f r)
  find?-update_if_covered f [] r h k e = cc
  find?-update_if_covered f (x ∷ xs) r h k e =
      ground (arith, h x, k x, find?-update_if_covered f xs r h k)

  -- What is found after a deletion was there before, and was not deleted.
  pub find?-remove_if_back :
      (xs : List Row) → is_some (find? q (remove_if p xs)) ≡ true → is_some (find? q xs) ≡ true
  find?-remove_if_back [] h = cc
  find?-remove_if_back (x ∷ xs) h = ground (arith, find?-remove_if_back xs)

  -- Nothing is found where nothing counts.
  pub find?-of_count_zero : (xs : List Row) → count_if q xs ≡ 0 → find? q xs ≡ none
  find?-of_count_zero [] h = refl
  find?-of_count_zero (x ∷ xs) h = ground (arith, find?-of_count_zero xs)

  -- A deletion of rows that do not count.
  pub count_if-remove_if_disjoint :
      (xs : List Row)
      → ((x : Row) → q x ≡ true → p x ≡ false)
      → count_if q (remove_if p xs) ≡ count_if q xs
  count_if-remove_if_disjoint [] h = refl
  count_if-remove_if_disjoint (x ∷ xs) h = ground (arith, h x, count_if-remove_if_disjoint xs h)
