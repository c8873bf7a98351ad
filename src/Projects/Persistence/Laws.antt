-- ===== src/Projects/Persistence/Laws.antt =====
-- The database-backed repository keeps what its port promises.

use collabai_backend.Projects.Entities.{TextOps}
use collabai_backend.Projects.Repository.{IsLawful}
use collabai_backend.Projects.Persistence.Rows.{Client}
use collabai_backend.Projects.Persistence.Calls.{prisma_projects}
use collabai_backend.Projects.Persistence.Keys.{member-valid}
use collabai_backend.Projects.Persistence.MemberLaws.{
  role-owners, remove-owners, role-membership, remove-membership, add-membership, add-owners,
  add-project, remove-project, role-project,
}
use collabai_backend.Projects.Persistence.OtherLaws.{
  project-valid, membership-spelling, owners-spelling, update-others, update-membership,
  update-project, delete-others, delete-membership, invite-membership, create-membership,
}
use collabai_backend.Projects.Persistence.ProjectLaws.{
  create-others, create-owners, update-exists, update-owners, delete-exists, delete-owners,
  id_of_project, view_of_project, invite-keeps, revoke-keeps,
}

module _ (c : Client) (text : TextOps) where
  pub prisma_projects-IsLawful : IsLawful (prisma_projects c text)
  prisma_projects-IsLawful = record {
    view_of_project = view_of_project c text;
    id_of_project = id_of_project c text;
    project-valid = project-valid c text;
    membership-spelling = membership-spelling c text;
    owners-spelling = owners-spelling c text;
    update-others = update-others c text;
    update-membership = update-membership c text;
    update-project = update-project c text;
    delete-others = delete-others c text;
    delete-membership = delete-membership c text;
    invite-membership = invite-membership c text;
    create-membership = create-membership c text;
    create-others = create-others c text;
    create-owners = create-owners c text;
    update-exists = update-exists c text;
    update-owners = update-owners c text;
    delete-exists = delete-exists c text;
    delete-owners = delete-owners c text;
    member-valid = member-valid c text;
    add-project = add-project c text;
    add-owners = add-owners c text;
    add-membership = add-membership c text;
    role-project = role-project c text;
    role-owners = role-owners c text;
    role-membership = role-membership c text;
    remove-project = remove-project c text;
    remove-owners = remove-owners c text;
    remove-membership = remove-membership c text;
    invite-project = λ d q s s' e. (invite-keeps c text d s s' e q).0;
    invite-owners = λ d q s s' e. (invite-keeps c text d s s' e q).1;
    revoke-project = λ i q s. (revoke-keeps c text i q q s).0;
    revoke-owners = λ i q s. (revoke-keeps c text i q q s).1;
    revoke-membership = λ i q v s. (revoke-keeps c text i q v s).2;
  }
