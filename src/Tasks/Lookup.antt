-- ===== src/Tasks/Lookup.antt =====
-- The task under an identifier: there is at most one, and what a write makes of it.
use collabai_backend.Prelude.{
  ◌≤◌, ◌≡◌, refl, String, Bool, true, false, ◌&&◌, Option, none, some, is_some, List, [], ◌∷◌, ◌++◌,
  ◌=s=◌, find?, find?-eq-some, count_if, update_if, if◌then◌else◌, arith, same_text, Option-cases,
  inl, inr,
}
use collabai_backend.Tasks.Entities.{Task}
use collabai_backend.Tasks.Store.{TaskClient, TaskTables, task_key}

abbrev pub passing {ℓ} : {A : Type ℓ} → (A → Bool) → Option A → Option A
passing p none = none
passing p (some a) = if p a then some a else none

module _ {ℓ} {A : Type ℓ} (p q : A → Bool) where
  find?-and_none : (xs : List A) → count_if q xs ≡ 0 → find? (λ x. p x && q x) xs ≡ none
  find?-and_none [] h = refl
  find?-and_none (x ∷ xs) h = ground (arith, find?-and_none xs)

  pub find?-and_at_most_one :
      (xs : List A) → count_if q xs ≤ 1 → find? (λ x. p x && q x) xs ≡ passing p (find? q xs)
  find?-and_at_most_one [] h = refl
  find?-and_at_most_one (x ∷ xs) h = ground (arith, find?-and_at_most_one xs, find?-and_none xs)

absent_uncounted :
    {Num : Type 0} (id : String) (xs : List (Task Num))
    → find? (task_key id) xs ≡ none
    → count_if (task_key id) xs ≡ 0
absent_uncounted id [] h = refl
absent_uncounted id (x ∷ xs) h = ground (arith, absent_uncounted id xs)

pub find?-append_one :
    {Num : Type 0} (id : String) (xs : List (Task Num)) (r : Task Num)
    → find? (task_key id) (xs ++ r ∷ []) ≡ (
        if is_some (find? (task_key id) xs)
        then find? (task_key id) xs
        else if id =s= r.id
        then some r
        else none)
find?-append_one id [] r = ground arith
find?-append_one id (x ∷ xs) r = ground (arith, find?-append_one id xs r)

abbrev pub changed_if {ℓ} : {A : Type ℓ} → Bool → (A → A) → Option A → Option A
changed_if true f (some a) = some (f a)
changed_if true f none = none
changed_if false f o = o

pub find?-update_one :
    {Num : Type 0} (id key : String) (f : Task Num → Task Num) (xs : List (Task Num))
    → ((t : Task Num) → (f t).id ≡ t.id)
    → find? (task_key id) (update_if (task_key key) f xs)
      ≡ changed_if (key =s= id) f (find? (task_key id) xs)
find?-update_one id key f [] same = ground arith
find?-update_one id key f (x ∷ xs) same = ground (
  arith,
  same x,
  find?-update_one id key f xs same,
  same_text key id,
  same_text key x.id,
  same_text id x.id,
)

module _ (c : TaskClient) where
  pub count_if-task_key :
      (id : String) (s : TaskTables c) → count_if (task_key id) (c.tasks.rows s.tasks) ≤ 1
  count_if-task_key id s = elim (Option-cases (find? (task_key id) (c.tasks.rows s.tasks))) [
    | inl absent ↦ ground (arith, absent_uncounted id (c.tasks.rows s.tasks))
    | inr (r, there) ↦
        let e : id ≡ r.id =
          ground (arith, find?-eq-some (task_key id) (c.tasks.rows s.tasks) r, same_text id r.id) in
        rw e (c.tasks.unique r s.tasks)
  ]
