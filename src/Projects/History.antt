-- ===== src/Projects/History.antt =====
-- The commands of the projects module, one after the other: a step is one handler run to its end, in
-- whatever order the clients send them.
use collabai_backend.Prelude.{ℕ, ◌≡◌, String, true}
use collabai_backend.Common.Uuid.{is_valid_uuid}
use collabai_backend.Projects.Role.{ProjectRole}
use collabai_backend.Projects.Entities.{TextOps, ProjectPatch}
use collabai_backend.Projects.Repository.{ProjectRepository, IsLawful}
use collabai_backend.Projects.World.{World, Handler}
use collabai_backend.Projects.Members.{update_member_role, remove_member}
use collabai_backend.Projects.Invitations.{
  Surroundings, invite_member, accept_invitation, resend_invitation, revoke_invitation,
  on_email_verified,
}
use collabai_backend.Projects.Settings.{
  CreateProjectCommand, create_project, update_project, delete_project,
}
use collabai_backend.Projects.Ownership.{
  Owned, remove_member-Owned, update_member_role-Owned, invite_member-Owned,
  accept_invitation-Owned, resend_invitation-Owned, revoke_invitation-Owned,
  on_email_verified-Owned, create_project-Owned, update_project-Owned, delete_project-Owned,
}

module _ (repo : ProjectRepository) (text : TextOps)
    (create_board : String → String → Handler repo.State (Unit {0})) where
  -- `uuidv4()` draws valid identifiers.
  pub data Step (w : World repo.State) : World repo.State → Type 0 where
    creates :
        (now : ℕ) (c : CreateProjectCommand)
        → is_valid_uuid c.fresh_project_id ≡ true
        → Step w (create_project repo text now create_board c w).1
    updates :
        (now : ℕ) (p acting : String) (patch : ProjectPatch)
        → Step w (update_project repo text now p acting patch w).1
    deletes : (p acting : String) → Step w (delete_project repo text p acting w).1
    changes_role :
        (p acting target : String) (role : ProjectRole)
        → Step w (update_member_role repo p acting target role w).1
    removes : (p acting target : String) → Step w (remove_member repo p acting target w).1
    invites :
        (env : Surroundings) (p acting address : String) (role : ProjectRole)
        → Step w (invite_member repo text env p acting address role w).1
    accepts :
        (env : Surroundings) (token user address : String)
        → Step w (accept_invitation repo text env token user address w).1
    resends :
        (env : Surroundings) (p acting invitation : String)
        → Step w (resend_invitation repo text env p acting invitation w).1
    revokes :
        (p acting invitation : String)
        → Step w (revoke_invitation repo text p acting invitation w).1
    verifies :
        (env : Surroundings) (ids : ℕ → String) (user address : String)
        → Step w (on_email_verified repo text env ids user address w)

  pub data Reach (start : World repo.State) : World repo.State → Type 0 where
    here : Reach start start
    next : {v w : World repo.State} → Reach start v → Step v w → Reach start w

  module _ (laws : IsLawful repo)
      (board_keeps : (q a b : String) (v : World repo.State)
        → Owned repo laws text q v.store
        → Owned repo laws text q (create_board a b v).1.store)
      (q : String) where
    Step-Owned :
        {v w : World repo.State}
        → Step v w
        → Owned repo laws text q v.store
        → Owned repo laws text q w.store
    Step-Owned {v} (creates now c valid) h =
        create_project-Owned repo laws text q now create_board c v (board_keeps q) valid h
    Step-Owned {v} (updates now p a patch) h =
        update_project-Owned repo laws text q now p a patch v h
    Step-Owned {v} (deletes p a) h = delete_project-Owned repo laws text q p a v h
    Step-Owned {v} (changes_role p a t r) h = update_member_role-Owned repo laws text q p a t r v h
    Step-Owned {v} (removes p a t) h = remove_member-Owned repo laws text q p a t v h
    Step-Owned {v} (invites env p a e r) h = invite_member-Owned repo laws text q env p a e r v h
    Step-Owned {v} (accepts env t u e) h = accept_invitation-Owned repo laws text q env t u e v h
    Step-Owned {v} (resends env p a i) h = resend_invitation-Owned repo laws text q env p a i v h
    Step-Owned {v} (revokes p a i) h = revoke_invitation-Owned repo laws text q p a i v h
    Step-Owned {v} (verifies env ids u e) h =
        on_email_verified-Owned repo laws text q env ids u e v h

    -- In whatever order the ten kinds of requests arrive, a project that has an owner, if it exists,
    -- at the start has an owner, if it exists, at the end.
    pub Reach-Owned :
        {v w : World repo.State}
        → Owned repo laws text q v.store
        → Reach v w
        → Owned repo laws text q w.store
    Reach-Owned h here = h
    Reach-Owned h (next r st) = Step-Owned st (Reach-Owned h r)
