-- ===== src/Notifications/Tests/Inbox.antt =====
-- Ann has two notifications, one of them unread.
use collabai_backend.Prelude.{
  ℕ, ◌≡◌, refl, String, Bool, true, false, Option, none, some, ok, [], ◌∷◌, ◌=s=◌,
}
use collabai_backend.Common.Uuid.{is_valid_uuid, uuid}
use collabai_backend.Prisma.{Table}
use collabai_backend.Prisma.Memory.{memory, same_text-shared}
use collabai_backend.Notifications.Entities.{
  Notification, task_assigned, same_notification, unread_of, mark_all_as_read,
}
use collabai_backend.Notifications.Handlers.{mark_all_read}
use collabai_backend.Notifications.Pages.{mark_all_read-counts}

abbrev table : Table Notification same_notification
table = memory same_notification (λ r x y. same_text-shared r.id x.id y.id)

abbrev ann : String
ann = "10000000-0000-4000-8000-00000000000a"

abbrev told : String → Bool → Option ℕ → Notification
told id was_read time = record {
  id = id;
  user_id = ann;
  kind = task_assigned;
  title = "Task assigned";
  message = "m";
  related_entity_type = none;
  related_entity_id = none;
  is_read = was_read;
  read_at = time;
  created_at = 1;
}

abbrev inbox : Bool → Option ℕ → table.Contents
unfolding memory ◌=s=◌
inbox was_read time = (told "n1" true (some 2) ∷ told "n2" was_read time ∷ [], refl)

ann_is_valid : is_valid_uuid ann ≡ true
unfolding is_valid_uuid uuid
ann_is_valid = refl

marked : mark_all_read table 5 ann (inbox false none) ≡ (ok 1, inbox true (some 5))
unfolding mark_all_read mark_all_as_read inbox memory is_valid_uuid uuid ◌=s=◌
marked = refl

mark_all_read-counts_example :
    (1 ≡ table.count (unread_of ann) (inbox false none))
    × (table.count (unread_of ann) (inbox true (some 5)) ≡ 0)
mark_all_read-counts_example =
    mark_all_read-counts table 5 1 ann (inbox false none) (inbox true (some 5)) marked ann_is_valid
