-- ===== src/Notifications/Handlers.antt =====
-- src/modules/notifications: the handlers of application, and the listener
-- infrastructure/event-handlers/notification-events.listener.ts. A push that is due is handed over as a
-- job; the settings of a user are an argument, where `none` stands for no settings or a failed read.
use collabai_backend.Prelude.{
  ℕ, String, Bool, true, false, not, Option, none, some, List, [], ◌∷◌, ◌++◌, leb, ◌=s=◌,
  if◌then◌else◌, ok, err, Action, ◌>>=◌, ◌>>◌, throw_if,
}
use collabai_backend.Prisma.{Table}
use collabai_backend.Notifications.Entities.{
  Notification, NotificationType, task_assigned, comment_mention, NotificationContent,
  for_task_assigned, for_mention, create_notification_entity, same_notification, Page,
  create_notification_row, find_notification, list_for_user, mark_row_as_read, mark_all_as_read,
}

-- src/modules/notifications/application/errors/notification.errors.ts
pub data NotificationError : Type 0 where
  notification_not_found notification_forbidden database : NotificationError

-- `UserSettings`, the two of them that are asked for.
pub record PushSettings : Type 0 where
  pub notify_task_assigned : Bool
  pub notify_comment_mentions : Bool

pub record PushJob : Type 0 where
  pub user_id : String
  pub content : NotificationContent
  pub related_entity_id : String

-- `shouldSendPush`
unfoldable pub should_send_push : Option PushSettings → NotificationType → Bool
should_send_push none kind = true
should_send_push (some settings) task_assigned = settings.notify_task_assigned
should_send_push (some settings) comment_mention = settings.notify_comment_mentions

abbrev pub max : ℕ → ℕ → ℕ
max a b = if leb a b then b else a

abbrev pub min : ℕ → ℕ → ℕ
min a b = if leb a b then a else b

module _ (table : Table Notification same_notification) where
  pub record NotificationWorld : Type 0 where
    pub rows : table.Contents
    pub jobs : List PushJob

  abbrev pub Handler : Type 0 → Type 0
  Handler A = Action table.Contents NotificationError A

  abbrev fetch : String → Handler Notification
  fetch id s = elim (find_notification table id s) [
    | none ↦ (err notification_not_found, s)
    | some n ↦ (ok n, s)
  ]

  abbrev save_unless : Bool → (table.Contents → Option table.Contents) → Handler (Unit {0})
  save_unless true f s = (ok tt, s)
  save_unless false f s = elim (f s) [ none ↦ (err database, s) | some t ↦ (ok tt, t) ]

  -- `CreateNotificationHandler.execute`
  unfoldable pub create_notification :
      ℕ → String → String → NotificationContent → Option String → Option String → Handler (Unit {0})
  create_notification now fresh user content related_type related_id = save_unless false (
      create_notification_row table
        (create_notification_entity now fresh user content related_type related_id))

  -- `MarkAsReadHandler.execute`
  unfoldable pub mark_as_read : ℕ → String → String → Handler (Unit {0})
  mark_as_read now user id = do
    n ← fetch id
    throw_if (not (n.user_id =s= user)) notification_forbidden
    save_unless n.is_read (mark_row_as_read table now n.id)

  -- `MarkAllReadHandler.execute`
  unfoldable pub mark_all_read : ℕ → String → Handler ℕ
  mark_all_read now user s = elim (mark_all_as_read table now user s) [
    | none ↦ (err database, s)
    | some (n, t) ↦ (ok n, t)
  ]

  -- `GetUserNotificationsHandler.execute`
  unfoldable pub get_user_notifications :
      (List Notification → List Notification)
      → String
      → Bool
      → ℕ
      → ℕ
      → table.Contents
      → Page Notification
  get_user_notifications newest_first user unread_only page limit =
      list_for_user table newest_first user unread_only (max 1 page) (min 100 (max 1 limit))

  -- `dispatch`: a notification that cannot be stored is logged, and the push is sent all the same.
  unfoldable pub dispatch :
      ℕ
      → String
      → Option PushSettings
      → String
      → NotificationContent
      → String
      → NotificationWorld
      → NotificationWorld
  unfolding create_notification
  dispatch now fresh settings user content task w =
      let rows = (create_notification now fresh user content (some "task") (some task) w.rows).1 in
      record {
        rows = rows;
        jobs =
            if should_send_push settings content.kind
            then w.jobs
              ++ record { user_id = user; content = content; related_entity_id = task } ∷ []
            else w.jobs;
      }

  -- `onTaskAssigned` and `onMention`
  unfoldable pub on_task_assigned :
      ℕ
      → String
      → Option PushSettings
      → String
      → String
      → String
      → String
      → NotificationWorld
      → NotificationWorld
  on_task_assigned now fresh settings task title assignee assigner w =
      if assignee =s= assigner
      then w
      else dispatch now fresh settings assignee (for_task_assigned title) task w

  unfoldable pub on_mention :
      ℕ
      → String
      → Option PushSettings
      → String
      → String
      → String
      → NotificationWorld
      → NotificationWorld
  on_mention now fresh settings task mentioned author w =
      if mentioned =s= author then w else dispatch now fresh settings mentioned for_mention task w
