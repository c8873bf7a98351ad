-- ===== src/Realtime/Events.antt =====
-- What src/modules/realtime/events.gateway.ts passes on to the sockets: the listeners of domain
-- events. Of the body of an emission the model has the id of what changed; what a listener reads from
-- the database to fill it is left out.
use collabai_backend.Prelude.{String, none}
use collabai_backend.Realtime.Rooms.{Rooms, project_room, user_room}
use collabai_backend.Realtime.State.{
  Signal, changed, member_added, member_removed, Emission, Gateway, emit,
}

abbrev to_project : String → String → Signal → Emission
to_project project actor what = record {
  to = project_room project;
  except = none;
  project_id = project;
  actor_id = actor;
  signal = what;
}

abbrev to_user : String → String → Signal → Emission
to_user user project what = record {
  to = user_room user;
  except = none;
  project_id = project;
  actor_id = user;
  signal = what;
}

module _ (rooms : Rooms) where
  abbrev pub Listener : Type 0
  Listener = Gateway rooms → Gateway rooms

  pub handle_task_created : String → String → String → Listener
  handle_task_created task project actor =
      emit rooms (to_project project actor (changed "task:created" task))

  pub handle_task_moved : String → String → String → Listener
  handle_task_moved task project actor =
      emit rooms (to_project project actor (changed "task:moved" task))

  pub handle_task_updated : String → String → String → Listener
  handle_task_updated task project actor =
      emit rooms (to_project project actor (changed "task:updated" task))

  pub handle_task_deleted : String → String → String → Listener
  handle_task_deleted task project actor =
      emit rooms (to_project project actor (changed "task:deleted" task))

  pub handle_comment_added : String → String → String → Listener
  handle_comment_added comment project author =
      emit rooms (to_project project author (changed "comment:created" comment))

  pub handle_comment_deleted : String → String → String → Listener
  handle_comment_deleted comment project actor =
      emit rooms (to_project project actor (changed "comment:deleted" comment))

  pub handle_document_created : String → String → String → Listener
  handle_document_created document project actor =
      emit rooms (to_project project actor (changed "document:created" document))

  pub handle_document_updated : String → String → String → Listener
  handle_document_updated document project actor =
      emit rooms (to_project project actor (changed "document:updated" document))

  pub handle_document_deleted : String → String → String → Listener
  handle_document_deleted document project actor =
      emit rooms (to_project project actor (changed "document:deleted" document))

  pub handle_member_added : String → String → String → String → Listener
  handle_member_added user role project actor =
      emit rooms (to_project project actor (member_added user role))

  pub handle_member_removed : String → String → String → Listener
  handle_member_removed user project actor =
      emit rooms (to_project project actor (member_removed user))

  pub handle_project_updated : String → String → Listener
  handle_project_updated project actor =
      emit rooms (to_project project actor (changed "project:updated" project))

  pub handle_project_deleted : String → String → Listener
  handle_project_deleted project actor =
      emit rooms (to_project project actor (changed "project:deleted" project))

  pub handle_ai_job_completed : String → String → String → Listener
  handle_ai_job_completed job user project =
      emit rooms (to_user user project (changed "ai:job:completed" job))

  pub handle_ai_job_failed : String → String → String → Listener
  handle_ai_job_failed job user project =
      emit rooms (to_user user project (changed "ai:job:failed" job))

  pub handle_activity_created : String → String → String → Listener
  handle_activity_created activity project actor =
      emit rooms (to_project project actor (changed "activity:created" activity))

  -- Any of them.
  pub data Notice : Type 0 where
    task_created task_moved task_updated task_deleted : String → String → String → Notice
    comment_added comment_deleted : String → String → String → Notice
    document_created document_updated document_deleted : String → String → String → Notice
    member_joined : String → String → String → String → Notice
    member_left : String → String → String → Notice
    project_updated project_deleted : String → String → Notice
    ai_job_completed ai_job_failed : String → String → String → Notice
    activity_created : String → String → String → Notice

  unfoldable pub hear : Notice → Listener
  unfolding handle_task_created handle_task_moved handle_task_updated handle_task_deleted
      handle_comment_added handle_comment_deleted handle_document_created handle_document_updated
      handle_document_deleted handle_member_added handle_member_removed handle_project_updated
      handle_project_deleted handle_ai_job_completed handle_ai_job_failed handle_activity_created
  hear (task_created t p a) = handle_task_created t p a
  hear (task_moved t p a) = handle_task_moved t p a
  hear (task_updated t p a) = handle_task_updated t p a
  hear (task_deleted t p a) = handle_task_deleted t p a
  hear (comment_added c p a) = handle_comment_added c p a
  hear (comment_deleted c p a) = handle_comment_deleted c p a
  hear (document_created d p a) = handle_document_created d p a
  hear (document_updated d p a) = handle_document_updated d p a
  hear (document_deleted d p a) = handle_document_deleted d p a
  hear (member_joined u r p a) = handle_member_added u r p a
  hear (member_left u p a) = handle_member_removed u p a
  hear (project_updated p a) = handle_project_updated p a
  hear (project_deleted p a) = handle_project_deleted p a
  hear (ai_job_completed j u p) = handle_ai_job_completed j u p
  hear (ai_job_failed j u p) = handle_ai_job_failed j u p
  hear (activity_created i p a) = handle_activity_created i p a
