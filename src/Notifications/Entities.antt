-- ===== src/Notifications/Entities.antt =====
-- src/modules/notifications: notification.entity.ts of domain/entities, notification.domain.service.ts of
-- domain/services and notification.repository.ts of infrastructure/persistence. The argument
-- `newest_first` is the order in which the database gives the rows of one query, by the time of
-- creation; rows of the same time may stand otherwise in the next query.
use Prim.Native.String.{◌++◌}
use collabai_backend.Prelude.{
  ℕ, ◌-◌, ◌*◌, String, Bool, true, false, not, ◌&&◌, ◌||◌, Option, none, some, List, [], take, drop,
  ◌=s=◌, if◌then◌else◌,
}
use collabai_backend.Common.Uuid.{is_valid_uuid, uuid}
use collabai_backend.Prisma.{Table}

-- src/modules/notifications/domain/value-objects/notification-type.value-object.ts
pub data NotificationType : Type 0 where
  task_assigned comment_mention : NotificationType

pub record Notification : Type 0 where
  pub id : String
  pub user_id : String
  pub kind : NotificationType
  pub title : String
  pub message : String
  pub related_entity_type : Option String
  pub related_entity_id : Option String
  pub is_read : Bool
  pub read_at : Option ℕ
  pub created_at : ℕ

pub record NotificationContent : Type 0 where
  pub kind : NotificationType
  pub title : String
  pub message : String

-- `forTaskAssigned` and `forMention`
abbrev pub for_task_assigned : String → NotificationContent
for_task_assigned task = record {
  kind = task_assigned;
  title = "Task assigned";
  message = "You were assigned to \"" ++ task ++ "\"";
}

abbrev pub for_mention : NotificationContent
for_mention = record {
  kind = comment_mention;
  title = "You were mentioned";
  message = "You were mentioned in a comment.";
}

-- `NotificationEntity.create`
unfoldable pub create_notification_entity :
    ℕ → String → String → NotificationContent → Option String → Option String → Notification
create_notification_entity now id user content related_type related_id = record {
  id = id;
  user_id = user;
  kind = content.kind;
  title = content.title;
  message = content.message;
  related_entity_type = related_type;
  related_entity_id = related_id;
  is_read = false;
  read_at = none;
  created_at = now;
}

-- id @id
abbrev pub same_notification : Notification → Notification → Bool
same_notification a b = a.id =s= b.id

abbrev pub notification_key : String → Notification → Bool
notification_key id n = id =s= n.id

-- `where: { userId, isRead: false }`
abbrev pub unread_of : String → Notification → Bool
unread_of user n = n.user_id =s= uuid user && not n.is_read

abbrev pub read_now : ℕ → Notification → Notification
read_now clock n = record n { is_read = true; read_at = some clock }

pub record Page (A : Type 0) : Type 0 where
  pub items : List A
  pub total : ℕ
  pub page : ℕ
  pub limit : ℕ

module _ (table : Table Notification same_notification) where
  unfoldable pub create_notification_row : Notification → table.Contents → Option table.Contents
  create_notification_row n s =
      if not (is_valid_uuid n.id) || not (is_valid_uuid n.user_id)
      then some s
      else table.create (record n { id = uuid n.id; user_id = uuid n.user_id }) s

  unfoldable pub find_notification : String → table.Contents → Option Notification
  find_notification id s =
      if is_valid_uuid id then table.find_first (notification_key (uuid id)) s else none

  abbrev pub listed_for : String → Bool → Notification → Bool
  listed_for user unread_only n = n.user_id =s= uuid user && (not unread_only || not n.is_read)

  unfoldable pub list_for_user :
      (List Notification → List Notification)
      → String
      → Bool
      → ℕ
      → ℕ
      → table.Contents
      → Page Notification
  list_for_user newest_first user unread_only page limit s =
      if is_valid_uuid user
      then record {
        items = take limit (
            drop ((page - 1) * limit)
              (newest_first (table.find_many (listed_for user unread_only) s)));
        total = table.count (listed_for user unread_only) s;
        page = page;
        limit = limit;
      }
      else record { items = []; total = 0; page = page; limit = limit }

  unfoldable pub mark_row_as_read : ℕ → String → table.Contents → Option table.Contents
  mark_row_as_read clock id s =
      if is_valid_uuid id
      then table.update (notification_key (uuid id)) (read_now clock) s
      else some s

  -- How many rows it was, and the rows behind it.
  unfoldable pub mark_all_as_read : ℕ → String → table.Contents → Option (ℕ × table.Contents)
  mark_all_as_read clock user s =
      if is_valid_uuid user
      then elim (table.update_many (unread_of user) (read_now clock) s) [
        | none ↦ none
        | some t ↦ some (table.count (unread_of user) s, t)
      ]
      else some (0, s)
