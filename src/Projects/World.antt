-- ===== src/Projects/World.antt =====
-- What a handler of src/modules/projects works on: the store and what it hands to the message
-- bus and to the event emitter; and the errors of src/modules/projects/application/errors/project.errors.ts, with the
-- HTTP exceptions of accept-invitation.handler.ts. `database` is what the database client throws.
use collabai_backend.Prelude.{String, Option, none, some, List, [], ◌∷◌, ◌++◌, ok, err, Action}
use collabai_backend.Projects.Role.{ProjectRole}

pub data ProjectError : Type 0 where
  project_not_found not_project_member member_not_found duplicate_project_name : ProjectError
  invitation_not_found invitation_expired wrong_email database : ProjectError
  insufficient_permission last_owner member_already_exists : String → ProjectError

-- The job `EMAIL_PROJECT_INVITATION`.
pub record Mail : Type 0 where
  pub to : String
  pub project_name : String
  pub inviter_name : String
  pub invite_url : String

-- What leaves a handler: a job for the message bus, or the event `member.added`.
pub data Outgoing : Type 0 where
  email : Mail → Outgoing
  member_added : String → String → String → ProjectRole → Outgoing

pub record World (S : Type 0) : Type 0 where
  pub store : S
  pub sent : List Outgoing

abbrev pub Handler : Type 0 → Type 0 → Type 0
Handler S A = Action (World S) ProjectError A

module _ {S : Type 0} where
  -- A read that must find something.
  abbrev pub fetch : {A : Type 0} → (S → Option A) → ProjectError → Handler S A
  fetch f e w = elim (f w.store) [ none ↦ (err e, w) | some a ↦ (ok a, w) ]

  abbrev pub look : {A : Type 0} → (S → A) → Handler S A
  look f w = (ok (f w.store), w)

  abbrev pub save : (S → Option S) → Handler S (Unit {0})
  save f w = elim (f w.store) [
    | none ↦ (err database, w)
    | some s ↦ (ok tt, record w { store = s })
  ]

  abbrev pub publish : Outgoing → Handler S (Unit {0})
  publish m w = (ok tt, record w { sent = w.sent ++ m ∷ [] })
