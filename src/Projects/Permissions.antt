-- ===== src/Projects/Permissions.antt =====
-- The permission rules of src/modules/projects/domain, taken together: who may do what to whom.
use collabai_backend.Prelude.{
  ◌≤◌, ◌≡◌, ◌↔◌, ◌⊎◌, String, true, false, not, ◌&&◌, Option, none, some, arith, same_text,
}
use collabai_backend.Projects.Role.{
  ProjectRole, owner, admin, member, viewer, rank, same_user, can_change_assignee, can_work_on_task,
  can_assign_role, can_remove_member,
}

-- An actor may change a role exactly when it is an owner, or an admin and both the present and the
-- new role are below admin.
pub can_assign_role_iff :
    (actor target new : ProjectRole)
    → (can_assign_role actor target new ≡ true)
      ↔ ((actor ≡ owner) ⊎ ((actor ≡ admin) × (rank target ≤ 1) × (rank new ≤ 1)))
unfolding can_assign_role
can_assign_role_iff owner target new = ground arith
can_assign_role_iff admin target new = ground arith
can_assign_role_iff member target new = ground arith
can_assign_role_iff viewer target new = ground arith

same_user_iff : (a b : Option String) → (same_user a b ≡ true) ↔ (a ≡ b)
unfolding same_user
same_user_iff none none = ground arith
same_user_iff none (some b) = ground arith
same_user_iff (some a) none = ground arith
same_user_iff (some a) (some b) = ground (arith, same_text a b)

-- An assignee may be changed exactly when nothing changes, when the actor is owner or admin, or when
-- it is a member who takes an unassigned task or drops its own.
pub can_change_assignee_iff :
    (role : ProjectRole) (actor : String) (current next : Option String)
    → (can_change_assignee role actor current next ≡ true) ↔ (
        (current ≡ next)
        ⊎ (2 ≤ rank role)
        ⊎ ((role ≡ member)
            × (((current ≡ none) × (next ≡ some actor))
                ⊎ ((current ≡ some actor) × (next ≡ none)))))
unfolding can_change_assignee
can_change_assignee_iff role actor current next = ground (
  arith,
  same_user_iff current next,
  same_user_iff current none,
  same_user_iff current (some actor),
  same_user_iff next none,
  same_user_iff next (some actor),
)

-- A task may be worked on exactly by owners and admins, and by members whose task it is or who find
-- it unassigned.
pub can_work_on_task_iff :
    (role : ProjectRole) (actor : String) (assignee : Option String)
    → (can_work_on_task role actor assignee ≡ true)
      ↔ ((2 ≤ rank role) ⊎ ((role ≡ member) × ((assignee ≡ none) ⊎ (assignee ≡ some actor))))
unfolding can_work_on_task
can_work_on_task_iff role actor assignee =
    ground (arith, same_user_iff assignee none, same_user_iff assignee (some actor))

-- Anyone may leave; others are removed by an owner, or by an admin if they are below admin.
pub can_remove_member_iff :
    (actor target : String) (actor_role target_role : ProjectRole)
    → (can_remove_member actor actor_role target target_role ≡ true)
      ↔ ((actor ≡ target) ⊎ (actor_role ≡ owner) ⊎ ((actor_role ≡ admin) × (rank target_role ≤ 1)))
unfolding can_remove_member
can_remove_member_iff actor target actor_role target_role = ground (arith, same_text actor target)

-- Rights grow with rank: nothing that a role may do to a task, an assignee or a member's role is
-- refused to a higher role.
pub permissions_grow :
    (low high : ProjectRole) (actor : String) (current next : Option String)
    (target new : ProjectRole)
    → rank low ≤ rank high
    → ((can_work_on_task low actor current && not (can_work_on_task high actor current)) ≡ false)
      × ((can_change_assignee low actor current next
            && not (can_change_assignee high actor current next))
          ≡ false)
      × ((can_assign_role low target new && not (can_assign_role high target new)) ≡ false)
unfolding can_work_on_task can_change_assignee can_assign_role
permissions_grow low high actor current next target new h =
    (ground arith, ground arith, ground arith)
