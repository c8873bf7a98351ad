-- ===== src/Ai/Confined.antt =====
-- What a plan of src/modules/ai can do to tasks.
use collabai_backend.Prelude.{
  ℕ, ◌≡◌, ◌⊎◌, inl, inr, refl, String, Bool, true, ◌&&◌, Option, none, some, List, [], ◌∷◌, find?,
  ◌=s=◌, Result-cases, arith, same_text, Option-cases, Bool-cases,
}
use collabai_backend.Common.Uuid.{is_valid_uuid}
use collabai_backend.Projects.Role.{ProjectRole, can_write_content, can_work_on_task}
use collabai_backend.Tasks.Entities.{Task}
use collabai_backend.Tasks.Store.{TaskClient, task_key}
use collabai_backend.Tasks.Lookup.{
  find?-and_at_most_one, count_if-task_key, find?-update_one, changed_if,
}
use collabai_backend.Ai.Plans.{
  ActionPlan, TaskAction, AiWorld, may_apply, changed_row, changes_something, apply_action,
  apply_actions, find_plan, picked_actions, apply_task_actions,
}

module _ (c : TaskClient) (role_of : String → String → Option ProjectRole) where
  abbrev pub task_at : String → AiWorld c → Option (Task c.Num)
  task_at id w = find? (task_key id) (c.tasks.rows w.tables.tasks)

  -- A task of the project that the user may work on, and what it has become.
  abbrev pub Allowed : String → String → Option (Task c.Num) → Option (Task c.Num) → Type 0
  Allowed user project before after =
      (old : Task c.Num) × (new : Task c.Num) × (role : ProjectRole) × (before ≡ some old)
      × (after ≡ some new)
      × (old.project_id ≡ project)
      × (new.project_id ≡ project)
      × (role_of project user ≡ some role)
      × (can_work_on_task role user old.assignee_id ≡ true)

  -- What an action writes, if anything.
  record Applied (user : String) (plan : ActionPlan) (a : TaskAction) (now : ℕ) (w w' : AiWorld c)
      : Type 0 where
    current : Task c.Num
    role : ProjectRole
    rows : c.tasks.Contents
    found :
        c.tasks.find_first
          (λ t. t.project_id =s= plan.project_id && a.task_id =s= t.id)
          w.tables.tasks
        ≡ some current
    is : role_of plan.project_id user ≡ some role
    right : can_work_on_task role user current.assignee_id ≡ true
    made :
        c.tasks.update (task_key a.task_id) (changed_row c role_of now a.changes) w.tables.tasks
        ≡ some rows
    left : w'.tables.tasks ≡ rows

  may_apply-right :
      (role : ProjectRole) (user : String) (current : Option String) (next : Option (Option String))
      → may_apply (some role) user current next ≡ true
      → can_work_on_task role user current ≡ true
  unfolding may_apply
  may_apply-right role user current none h = h
  may_apply-right role user current (some next) h = ground arith

  action-Applied :
      (now : ℕ) (user : String) (plan : ActionPlan) (a : TaskAction) (w : AiWorld c)
      → let w' = (apply_action c role_of now user plan a w).1 in
        (w'.tables.tasks ≡ w.tables.tasks) ⊎ Applied user plan a now w w'
  unfolding apply_action may_apply
  action-Applied now user plan a w = elim (Bool-cases (changes_something a.changes)) [
    | inr idle ↦ inl (ground arith)
    | inl busy ↦ elim (Bool-cases (is_valid_uuid a.task_id)) [
      | inr bad ↦ inl (ground arith)
      | inl valid ↦
          elim (Option-cases (
            c.tasks.find_first (λ t. t.project_id =s= plan.project_id && a.task_id =s= t.id)
              w.tables.tasks)) [
                | inl gone ↦ inl (ground arith)
                | inr (current, found) ↦
                    elim (Bool-cases (
                      may_apply (role_of plan.project_id user) user current.assignee_id
                        a.changes.assignee_id)) [
                          | inr refused ↦ inl (ground arith)
                          | inl allowed ↦ elim (Option-cases (role_of plan.project_id user)) [
                            | inl out ↦ absurd (ground arith)
                            | inr (role, is) ↦
                                elim (Option-cases (
                                  c.tasks.update (task_key a.task_id)
                                    (changed_row c role_of now a.changes) w.tables.tasks)) [
                                      | inl failed ↦ inl (ground arith)
                                      | inr (rows, made) ↦ inr (record {
                                        current = current;
                                        role = role;
                                        rows = rows;
                                        found = found;
                                        is = is;
                                        right =
                                            may_apply-right role user current.assignee_id
                                              a.changes.assignee_id (rw is at allowed);
                                        made = made;
                                        left = ground arith;
                                      })
                                    ]
                          ]
                        ]
              ]
    ]
  ]

  found-task_at :
      (id project : String) (current : Task c.Num) (w : AiWorld c)
      → c.tasks.find_first (λ t. t.project_id =s= project && id =s= t.id) w.tables.tasks
        ≡ some current
      → (task_at id w ≡ some current) × (current.project_id ≡ project)
  found-task_at id project current w found =
      let in_it : Task c.Num → Bool = λ t. t.project_id =s= project in
      elim (Option-cases (task_at id w)) [
        | inl gone ↦ absurd (
            ground (
              arith,
              c.tasks.find_first_rows (λ t. in_it t && task_key id t) w.tables.tasks,
              find?-and_at_most_one in_it (task_key id) (c.tasks.rows w.tables.tasks)
                  (count_if-task_key c id w.tables),
            ))
        | inr (t, there) ↦ ground (
          arith,
          c.tasks.find_first_rows (λ t. in_it t && task_key id t) w.tables.tasks,
          same_text t.project_id project,
          find?-and_at_most_one in_it (task_key id) (c.tasks.rows w.tables.tasks)
              (count_if-task_key c id w.tables),
        )
      ]

  Applied-Allowed :
      (now : ℕ) (user id : String) (plan : ActionPlan) (a : TaskAction) (b : Option (Task c.Num))
      (w w' : AiWorld c)
      → Applied user plan a now w w'
      → (task_at id w ≡ b) ⊎ Allowed user plan.project_id b (task_at id w)
      → (task_at id w' ≡ b) ⊎ Allowed user plan.project_id b (task_at id w')
  unfolding changed_row
  Applied-Allowed now user id plan a b w w' x h =
      let f = changed_row c role_of now a.changes in
      let (at_key, there) = found-task_at a.task_id plan.project_id x.current w x.found in
      let e : task_at id w' ≡ changed_if (a.task_id =s= id) f (task_at id w) = ground (
        arith,
        x.left,
        c.tasks.update_rows (task_key a.task_id) f w.tables.tasks x.rows x.made,
        find?-update_one id a.task_id f (c.tasks.rows w.tables.tasks) (λ t. refl),
      ) in
      elim (Bool-cases (a.task_id =s= id)) [
        | inr miss ↦ let same : task_at id w' ≡ task_at id w = ground arith in rw same h
        | inl hit ↦
            let key : a.task_id ≡ id = ground (arith, same_text a.task_id id) in
            let was : task_at id w ≡ some x.current = rw key at at_key in
            let is : task_at id w' ≡ some (f x.current) = ground arith in
            elim h [
              | inl first ↦
                  inr
                    (x.current, f x.current, x.role, ground arith, is, there, there, x.is, x.right)
              | inr (old, new, role, b_is, w_is, p, q, r, can) ↦
                  inr (old, f x.current, role, b_is, is, p, there, r, can)
            ]
      ]

  action-Allowed :
      (now : ℕ) (user id : String) (plan : ActionPlan) (a : TaskAction) (b : Option (Task c.Num))
      (w : AiWorld c)
      → let w' = (apply_action c role_of now user plan a w).1 in
        (task_at id w ≡ b) ⊎ Allowed user plan.project_id b (task_at id w)
        → (task_at id w' ≡ b) ⊎ Allowed user plan.project_id b (task_at id w')
  action-Allowed now user id plan a b w h = elim (action-Applied now user plan a w) [
    | inl same ↦ rw same h
    | inr x ↦
        Applied-Allowed now user id plan a b w (apply_action c role_of now user plan a w).1 x h
  ]

  -- The loop goes on from where an action has left off, unless it threw.
  after_first :
      (now : ℕ) (user : String) (plan : ActionPlan) (a : TaskAction) (rest : List TaskAction)
      (w : AiWorld c)
      → let first = (apply_action c role_of now user plan a w).1 in
        let last = (apply_actions c role_of now user plan (a ∷ rest) w).1 in
        (last ≡ first) ⊎ (last ≡ (apply_actions c role_of now user plan rest first).1)
  unfolding apply_actions
  after_first now user plan a rest w =
      elim (Result-cases (apply_action c role_of now user plan a w).0) [
        | inr (e, thrown) ↦ inl (ground arith)
        | inl (applied, went) ↦
            let first = (apply_action c role_of now user plan a w).1 in
            elim (Result-cases (apply_actions c role_of now user plan rest first).0) [
              | inr (e, thrown) ↦ inr (ground arith)
              | inl (others, on) ↦ inr (ground arith)
            ]
      ]

  actions-Allowed :
      (now : ℕ) (user id : String) (plan : ActionPlan) (todos : List TaskAction)
      (b : Option (Task c.Num)) (w : AiWorld c)
      → let w' = (apply_actions c role_of now user plan todos w).1 in
        (task_at id w ≡ b) ⊎ Allowed user plan.project_id b (task_at id w)
        → (task_at id w' ≡ b) ⊎ Allowed user plan.project_id b (task_at id w')
  unfolding apply_actions
  actions-Allowed now user id plan [] b w h = h
  actions-Allowed now user id plan (a ∷ rest) b w h =
      let first = (apply_action c role_of now user plan a w).1 in
      let once = action-Allowed now user id plan a b w h in
      elim (after_first now user plan a rest w) [
        | inl stops ↦ rw stops once
        | inr goes ↦ rw goes (actions-Allowed now user id plan rest b first once)
      ]

  -- Applying a plan leaves every task as it was, or the plan is there and the task lies in the project of
  -- the plan, before and after, and the user has a role in that project with which content may be written
  -- and that task, as it was before, may be worked on: whatever the plan asks for, and whichever of its
  -- actions are picked.
  pub apply_task_actions-confined :
      (cached : String → Option ActionPlan) (now : ℕ) (plan_id user id : String)
      (picked : Option (List String)) (w : AiWorld c)
      → let w' = (apply_task_actions c role_of cached now plan_id user picked w).1 in
        (task_at id w' ≡ task_at id w)
        ⊎ ((plan : ActionPlan) × (role : ProjectRole) × (find_plan c role_of cached plan_id w
              ≡ some plan)
            × (role_of plan.project_id user ≡ some role)
            × (can_write_content role ≡ true)
            × Allowed user plan.project_id (task_at id w) (task_at id w'))
  unfolding apply_task_actions
  apply_task_actions-confined cached now plan_id user id picked w =
      elim (Option-cases (find_plan c role_of cached plan_id w)) [
        | inl gone ↦ inl (ground arith)
        | inr (plan, found) ↦ elim (Option-cases (role_of plan.project_id user)) [
          | inl out ↦ inl (ground arith)
          | inr (role, is) ↦ elim (Bool-cases (can_write_content role)) [
            | inr bad ↦ inl (ground arith)
            | inl writes ↦
                let todos = picked_actions picked plan in
                let done = apply_actions c role_of now user plan todos w in
                let same : (apply_task_actions c role_of cached now plan_id user picked w).1.tables
                    ≡ done.1.tables =
                  elim (Result-cases done.0) [
                    | inl (x, went) ↦ ground arith
                    | inr (e, threw) ↦ ground arith
                  ] in
                rw same (elim (actions-Allowed now user id plan todos (task_at id w) w (inl refl)) [
                  | inl kept ↦ inl kept
                  | inr allowed ↦ inr (plan, role, found, is, writes, allowed)
                ])
          ]
        ]
      ]
