-- ===== src/Sync/Timeline.antt =====
-- What the tables of tasks go through after a point in time: calls of `class TaskRepository`
-- (src/modules/tasks/infrastructure/persistence/task.repository.ts), each at a later time of the clock.
use collabai_backend.Prelude.{
  ℕ, ◌<◌, ◌≡◌, ◌⊎◌, inl, inr, refl, String, true, Option, none, some, is_some, List, ◌=s=◌, find?,
  update_if, if◌then◌else◌, arith, Option-cases, Bool-cases,
}
use collabai_backend.Common.Uuid.{is_valid_uuid, uuid}
use collabai_backend.Projects.Entities.{TextOps}
use collabai_backend.Tasks.Entities.{Task, Subtask}
use collabai_backend.Tasks.Lookup.{find?-append_one, find?-update_one}
use collabai_backend.Tasks.Store.{
  TaskClient, TaskTables, task_key, created_row, updated_row, deleted_row, create_task_row,
  update_task_row, delete_task_row, set_task_labels, add_subtask_row, update_subtask_row,
  delete_subtask_row,
}

-- A deletion of the task, if there is one, is of this time or was there before.
abbrev pub Stamped : {Num : Type 0} → ℕ → Option (Task Num) → Task Num → Type 0
Stamped since none t = (t.deleted_at ≡ none) ⊎ ((d : ℕ) × (t.deleted_at ≡ some d) × (since < d))
Stamped since (some old) t =
    (t.project_id ≡ old.project_id)
    × ((t.deleted_at ≡ none)
        ⊎ (is_some old.deleted_at ≡ true)
        ⊎ ((d : ℕ) × (t.deleted_at ≡ some d) × (since < d)))

-- What has become of a task since: nothing, or a change that bears a later time.
abbrev pub Evolved : {Num : Type 0} → ℕ → Option (Task Num) → Option (Task Num) → Type 0
Evolved {Num} since before after =
    (after ≡ before)
    ⊎ ((t : Task Num) × (after ≡ some t) × (since < t.updated_at) × Stamped since before t)

-- A change at a later time, which leaves the project and any deletion, or deletes.
touch :
    {Num : Type 0} (since : ℕ) (b : Option (Task Num)) (a a' : Task Num)
    → since < a'.updated_at
    → a'.project_id ≡ a.project_id
    → (a'.deleted_at ≡ a.deleted_at) ⊎ ((d : ℕ) × (a'.deleted_at ≡ some d) × (since < d))
    → Evolved since b (some a)
    → Evolved since b (some a')
touch since none a a' new same gone (inl e) = absurd (ground arith)
touch since none a a' new same (inl keeps) (inr (t, e, u, inl st)) =
    inr (a', refl, new, inl (ground arith))
touch since none a a' new same (inl keeps) (inr (t, e, u, inr (d, is, lt))) =
    inr (a', refl, new, inr (d, ground arith, lt))
touch since none a a' new same (inr dies) (inr h) = inr (a', refl, new, inr dies)
touch since (some old) a a' new same (inr dies) (inl e) =
    inr (a', refl, new, (ground arith, inr (inr dies)))
touch since (some old) a a' new same (inr dies) (inr (t, e, u, (p, st))) =
    inr (a', refl, new, (ground arith, inr (inr dies)))
touch since (some old) a a' new same (inl keeps) (inl e) = inr (
  a',
  refl,
  new,
  (
    ground arith,
    elim (Option-cases old.deleted_at) [
      | inl alive ↦ inl (ground arith)
      | inr (d, dead) ↦ inr (inl (ground arith))
    ],
  ),
)
touch since (some old) a a' new same (inl keeps) (inr (t, e, u, (p, inl st))) =
    inr (a', refl, new, (ground arith, inl (ground arith)))
touch since (some old) a a' new same (inl keeps) (inr (t, e, u, (p, inr (inl st)))) =
    inr (a', refl, new, (ground arith, inr (inl st)))
touch since (some old) a a' new same (inl keeps) (inr (t, e, u, (p, inr (inr (d, is, lt))))) =
    inr (a', refl, new, (ground arith, inr (inr (d, ground arith, lt))))

-- A task that was not there before, and is not now, was not there then.
none-of-Evolved :
    {Num : Type 0} (since : ℕ) (b : Option (Task Num)) → Evolved since b none → b ≡ none
none-of-Evolved since none h = refl
none-of-Evolved since (some old) (inl e) = absurd (ground arith)
none-of-Evolved since (some old) (inr (t, e, u, st)) = absurd (ground arith)

module _ (c : TaskClient) (text : TextOps) (since : ℕ) where
  pub data Write (s : TaskTables c) : TaskTables c → Type 0 where
    creates :
        (now : ℕ) (t : Task c.Num) (s' : TaskTables c)
        → since < now
        → create_task_row c text now t s ≡ some s'
        → Write s s'
    updates :
        (now : ℕ) (t : Task c.Num) (s' : TaskTables c)
        → since < now
        → update_task_row c text now t s ≡ some s'
        → Write s s'
    deletes :
        (now : ℕ) (id : String) (s' : TaskTables c)
        → since < now
        → delete_task_row c text now id s ≡ some s'
        → Write s s'
    sets_labels :
        (now : ℕ) (ids : ℕ → String) (task project user : String) (names : List String)
        (s' : TaskTables c)
        → set_task_labels c text now ids task project user names s ≡ some s'
        → Write s s'
    adds_subtask :
        (now : ℕ) (x : Subtask) (s' : TaskTables c)
        → add_subtask_row c text now x s ≡ some s'
        → Write s s'
    updates_subtask :
        (now : ℕ) (x : Subtask) (s' : TaskTables c)
        → update_subtask_row c text now x s ≡ some s'
        → Write s s'
    deletes_subtask :
        (now : ℕ) (id : String) (s' : TaskTables c)
        → delete_subtask_row c text now id s ≡ some s'
        → Write s s'

  pub data Writes (s : TaskTables c) : TaskTables c → Type 0 where
    here : Writes s s
    next : {t u : TaskTables c} → Writes s t → Write t u → Writes s u

  abbrev pub found : String → TaskTables c → Option (Task c.Num)
  found id s = find? (task_key id) (c.tasks.rows s.tasks)

  create-Evolved :
      (id : String) (now : ℕ) (t : Task c.Num) (b : Option (Task c.Num)) (s s' : TaskTables c)
      → since < now
      → create_task_row c text now t s ≡ some s'
      → Evolved since b (found id s)
      → Evolved since b (found id s')
  unfolding create_task_row
  create-Evolved id now t b s s' new done h =
      elim (Option-cases (c.tasks.create (created_row c text now t) s.tasks)) [
        | inl refused ↦ absurd (ground arith)
        | inr (rows, made) ↦ elim (Option-cases (found id s)) [
          | inl absent ↦
              let b_none = none-of-Evolved since b (rw absent at h) in
              let e : found id s'
                  ≡ (if id =s= uuid t.id then some (created_row c text now t) else none) =
                ground (
                  arith,
                  c.tasks.create_rows (created_row c text now t) s.tasks rows made,
                  find?-append_one id (c.tasks.rows s.tasks) (created_row c text now t),
                ) in
              rw (e, b_none)
                (elim (Bool-cases (id =s= uuid t.id)) [
                  | inl hit ↦ rw hit (inr (created_row c text now t, refl, new, inl refl))
                  | inr miss ↦ rw miss (inl refl)
                ])
          | inr (a, there) ↦
              let same : found id s' ≡ found id s = ground (
                arith,
                c.tasks.create_rows (created_row c text now t) s.tasks rows made,
                find?-append_one id (c.tasks.rows s.tasks) (created_row c text now t),
              ) in
              rw same h
        ]
      ]

  -- The effect of an update on the task that is looked for.
  record Touches (f : Task c.Num → Task c.Num) : Type 0 where
    id : (t : Task c.Num) → (f t).id ≡ t.id
    new : (t : Task c.Num) → since < (f t).updated_at
    project : (t : Task c.Num) → (f t).project_id ≡ t.project_id
    death :
        (t : Task c.Num)
        → ((f t).deleted_at ≡ t.deleted_at) ⊎ ((d : ℕ) × ((f t).deleted_at ≡ some d) × (since < d))

  update_if-Evolved :
      (id key : String) (f : Task c.Num → Task c.Num) (b : Option (Task c.Num))
      (rows : List (Task c.Num))
      → Touches f
      → Evolved since b (find? (task_key id) rows)
      → Evolved since b (find? (task_key id) (update_if (task_key key) f rows))
  update_if-Evolved id key f b rows h e =
      rw (find?-update_one id key f rows h.id) (elim (Option-cases (find? (task_key id) rows)) [
        | inl absent ↦ elim (Bool-cases (key =s= id)) [
          | inl hit ↦ rw (hit, absent) (rw absent at e)
          | inr miss ↦ rw miss e
        ]
        | inr (a, there) ↦ elim (Bool-cases (key =s= id)) [
          | inl hit ↦
              rw (hit, there)
                (touch since b a (f a) (h.new a) (h.project a) (h.death a) (rw there at e))
          | inr miss ↦ rw miss e
        ]
      ])

  update-Evolved :
      (id : String) (now : ℕ) (t : Task c.Num) (b : Option (Task c.Num)) (s s' : TaskTables c)
      → since < now
      → update_task_row c text now t s ≡ some s'
      → Evolved since b (found id s)
      → Evolved since b (found id s')
  unfolding update_task_row
  update-Evolved id now t b s s' new done h =
      let f = updated_row c text now t in
      let e =
        update_if-Evolved id (uuid t.id) f b (c.tasks.rows s.tasks)
          (record { id = λ x. refl; new = λ x. new; project = λ x. refl; death = λ x. inl refl })
          h in
      elim (Option-cases (c.tasks.update (task_key (uuid t.id)) f s.tasks)) [
        | inl refused ↦ let same : s'.tasks ≡ s.tasks = ground arith in rw same h
        | inr (rows, made) ↦ elim (Bool-cases (is_valid_uuid t.id)) [
          | inl valid ↦
              let same : c.tasks.rows s'.tasks
                  ≡ update_if (task_key (uuid t.id)) f (c.tasks.rows s.tasks) =
                ground (arith, c.tasks.update_rows (task_key (uuid t.id)) f s.tasks rows made) in
              rw same e
          | inr invalid ↦ let same : s'.tasks ≡ s.tasks = ground arith in rw same h
        ]
      ]

  delete-Evolved :
      (id : String) (now : ℕ) (key : String) (b : Option (Task c.Num)) (s s' : TaskTables c)
      → since < now
      → delete_task_row c text now key s ≡ some s'
      → Evolved since b (found id s)
      → Evolved since b (found id s')
  unfolding delete_task_row
  delete-Evolved id now key b s s' new done h =
      let f = deleted_row c text now in
      let e =
        update_if-Evolved id (uuid key) f b (c.tasks.rows s.tasks)
          (record {
            id = λ x. refl;
            new = λ x. new;
            project = λ x. refl;
            death = λ x. inr (now, refl, new);
          })
          h in
      elim (Option-cases (c.tasks.update (task_key (uuid key)) f s.tasks)) [
        | inl refused ↦ let same : s'.tasks ≡ s.tasks = ground arith in rw same h
        | inr (rows, made) ↦ elim (Bool-cases (is_valid_uuid key)) [
          | inl valid ↦
              let same : c.tasks.rows s'.tasks
                  ≡ update_if (task_key (uuid key)) f (c.tasks.rows s.tasks) =
                ground (arith, c.tasks.update_rows (task_key (uuid key)) f s.tasks rows made) in
              rw same e
          | inr invalid ↦ let same : s'.tasks ≡ s.tasks = ground arith in rw same h
        ]
      ]

  -- The calls on labels and subtasks leave the rows of tasks alone.
  pub set_task_labels-tasks :
      (now : ℕ) (ids : ℕ → String) (task project user : String) (names : List String)
      (s s' : TaskTables c)
      → set_task_labels c text now ids task project user names s ≡ some s'
      → s'.tasks ≡ s.tasks
  unfolding set_task_labels
  set_task_labels-tasks now ids task project user names s s' done = ground arith

  pub add_subtask_row-tasks :
      (now : ℕ) (x : Subtask) (s s' : TaskTables c)
      → add_subtask_row c text now x s ≡ some s'
      → s'.tasks ≡ s.tasks
  unfolding add_subtask_row
  add_subtask_row-tasks now x s s' done = ground arith

  pub update_subtask_row-tasks :
      (now : ℕ) (x : Subtask) (s s' : TaskTables c)
      → update_subtask_row c text now x s ≡ some s'
      → s'.tasks ≡ s.tasks
  unfolding update_subtask_row
  update_subtask_row-tasks now x s s' done = ground arith

  pub delete_subtask_row-tasks :
      (now : ℕ) (id : String) (s s' : TaskTables c)
      → delete_subtask_row c text now id s ≡ some s'
      → s'.tasks ≡ s.tasks
  unfolding delete_subtask_row
  delete_subtask_row-tasks now id s s' done = ground arith

  Write-Evolved :
      (id : String) (b : Option (Task c.Num)) {s s' : TaskTables c}
      → Write s s'
      → Evolved since b (found id s)
      → Evolved since b (found id s')
  Write-Evolved id b {s} {s'} (creates now t _ new done) h =
      create-Evolved id now t b s s' new done h
  Write-Evolved id b {s} {s'} (updates now t _ new done) h =
      update-Evolved id now t b s s' new done h
  Write-Evolved id b {s} {s'} (deletes now k _ new done) h =
      delete-Evolved id now k b s s' new done h
  Write-Evolved id b {s} {s'} (sets_labels now ids t p u ns _ done) h =
      rw (set_task_labels-tasks now ids t p u ns s s' done) h
  Write-Evolved id b {s} {s'} (adds_subtask now x _ done) h =
      rw (add_subtask_row-tasks now x s s' done) h
  Write-Evolved id b {s} {s'} (updates_subtask now x _ done) h =
      rw (update_subtask_row-tasks now x s s' done) h
  Write-Evolved id b {s} {s'} (deletes_subtask now k _ done) h =
      rw (delete_subtask_row-tasks now k s s' done) h

  pub Writes-Evolved :
      (id : String) {s s' : TaskTables c} → Writes s s' → Evolved since (found id s) (found id s')
  Writes-Evolved id here = inl refl
  Writes-Evolved id {s} (next r w) = Write-Evolved id (found id s) w (Writes-Evolved id r)
