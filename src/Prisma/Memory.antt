-- ===== src/Prisma/Memory.antt =====
-- A table in memory: the calls of a model delegate can behave as the repositories assume.
use collabai_backend.Prelude.{
  ◌≤◌, ◌≡◌, refl, sym, ap, ◌⊎◌, or_else, Bool, true, false, not, ◌&&◌, Option, none, some, inl, inr,
  List, [], ◌∷◌, ◌++◌, arith, Bool-cases, is_some, find?, count_if, remove_if, keep_if,
  find?-keep_if, update_if, if◌then◌else◌, String, ◌=s=◌, same_text,
}
use collabai_backend.Prisma.Rows.{Table}

-- What `memory` asks of a key that is a text.
pub same_text-shared : (a b c : String) → (a =s= b) ≡ true → (a =s= c) ≡ true → (b =s= c) ≡ true
same_text-shared a b c h k = ground (arith, same_text a b, same_text a c, same_text b c)

module _ {Row : Type 0} (clash : Row → Row → Bool) where
  -- No row clashes with a later one.
  abbrev pub apart : List Row → Bool
  apart [] = true
  apart (x ∷ xs) = not (is_some (find? (clash x) xs)) && apart xs

  abbrev pub Stored : Type 0
  Stored = (xs : List Row) × (apart xs ≡ true)

  -- The constraint is checked before the write is kept.
  abbrev pub keep : (xs : List Row) → (apart xs ≡ true) ⊎ (apart xs ≡ false) → Option Stored
  keep xs (inl fine) = some (xs, fine)
  keep xs (inr broken) = none

  abbrev pub checked : List Row → Option Stored
  checked xs = keep xs (Bool-cases (apart xs))

  pub keep_rows :
      (xs : List Row) (d : (apart xs ≡ true) ⊎ (apart xs ≡ false)) (c : Stored)
      → keep xs d ≡ some c
      → c.0 ≡ xs
  keep_rows xs (inl fine) c h = sym (ap (λ (o : Option Stored). (or_else o c).0) h)
  keep_rows xs (inr broken) c h = cc

  pub find?-remove_if_none :
      (p q : Row → Bool) (xs : List Row)
      → is_some (find? p xs) ≡ false
      → is_some (find? p (remove_if q xs)) ≡ false
  find?-remove_if_none p q [] h = refl
  find?-remove_if_none p q (x ∷ xs) h = ground (arith, find?-remove_if_none p q xs)

  apart-remove_if :
      (q : Row → Bool) (xs : List Row) → apart xs ≡ true → apart (remove_if q xs) ≡ true
  apart-remove_if q [] h = refl
  apart-remove_if q (x ∷ xs) h =
      ground (arith, apart-remove_if q xs, find?-remove_if_none (clash x) q xs)

  module _ (shared : (r x y : Row) → clash r x ≡ true → clash r y ≡ true → clash x y ≡ true) where
    count_if-none :
        (p q : Row → Bool) (xs : List Row)
        → ((y : Row) → p y ≡ true → q y ≡ true)
        → is_some (find? q xs) ≡ false
        → count_if p xs ≡ 0
    count_if-none p q [] imp h = refl
    count_if-none p q (x ∷ xs) imp h = ground (arith, imp x, count_if-none p q xs imp)

    pub apart_unique : (r : Row) (xs : List Row) → apart xs ≡ true → count_if (clash r) xs ≤ 1
    apart_unique r [] h = omega arith
    apart_unique r (x ∷ xs) h = elim (Bool-cases (clash r x)) [
      | inl hit ↦ ground (arith, count_if-none (clash r) (clash x) xs (λ y k. shared r x y hit k))
      | inr miss ↦ ground (arith, apart_unique r xs)
    ]

    unfoldable pub update_in : (Row → Bool) → (Row → Row) → Stored → Option Stored
    update_in p f c = if is_some (find? p c.0) then checked (update_if p f c.0) else none

    pub update_in_rows :
        (p : Row → Bool) (f : Row → Row) (c c' : Stored)
        → update_in p f c ≡ some c'
        → c'.0 ≡ update_if p f c.0
    unfolding update_in
    update_in_rows p f c c' h = elim (Bool-cases (is_some (find? p c.0))) [
      | inl hit ↦ keep_rows _ _ c' (rw hit at h)
      | inr miss ↦ ground arith
    ]

    unfoldable pub delete_from : (Row → Bool) → Stored → Option Stored
    unfolding apart-remove_if
    delete_from p c =
        if is_some (find? p c.0) then some (remove_if p c.0, apart-remove_if p c.0 c.1) else none

    pub delete_from_rows :
        (p : Row → Bool) (c c' : Stored) → delete_from p c ≡ some c' → c'.0 ≡ remove_if p c.0
    unfolding delete_from
    delete_from_rows p c c' h = elim (Bool-cases (is_some (find? p c.0))) [
      | inl hit ↦ sym (ap (λ (o : Option Stored). (or_else o c').0) (rw hit at h))
      | inr miss ↦ ground arith
    ]

    unfoldable pub memory : Table Row clash
    unfolding update_in delete_from apart-remove_if Bool-cases
    memory = record {
      Contents = Stored;
      rows = λ c. c.0;
      find_first = λ p c. find? p c.0;
      find_many = λ p c. keep_if p c.0;
      count = λ p c. count_if p c.0;
      create = λ r c. checked (c.0 ++ r ∷ []);
      update = update_in;
      update_many = λ p f c. checked (update_if p f c.0);
      delete = delete_from;
      delete_many = λ p c. (remove_if p c.0, apart-remove_if p c.0 c.1);
      unique = λ r c. apart_unique r c.0 c.1;
      find_first_rows = λ p c. refl;
      find_many_rows = λ p q c h. find?-keep_if p q c.0;
      count_rows = λ p c. refl;
      create_rows = λ r c c' h. keep_rows _ _ c' h;
      update_rows = update_in_rows;
      update_many_rows = λ p f c c' h. keep_rows _ _ c' h;
      delete_rows = delete_from_rows;
      delete_many_rows = λ p c. refl;
    }
