-- ===== src/Notifications/Pages.antt =====
-- What a user gets to see: get-user-notifications.handler.ts and mark-all-read.handler.ts of
-- src/modules/notifications/application.
use collabai_backend.Prelude.{
  ℕ, ◌≡◌, refl, String, true, List, [], ◌∷◌, inl, inr, count_if, update_if, ok, arith, Option-cases,
}
use collabai_backend.Common.Uuid.{is_valid_uuid}
use collabai_backend.Prisma.{Table}
use collabai_backend.Notifications.Entities.{
  Notification, same_notification, unread_of, read_now, mark_all_as_read,
}
use collabai_backend.Notifications.Handlers.{mark_all_read}

count_if-read_now :
    (clock : ℕ) (user : String) (xs : List Notification)
    → count_if (unread_of user) (update_if (unread_of user) (read_now clock) xs) ≡ 0
count_if-read_now clock user [] = refl
count_if-read_now clock user (x ∷ xs) = ground (arith, count_if-read_now clock user xs)

module _ (table : Table Notification same_notification) where
  -- Marking all as read, for a user with a valid identifier, answers with how many notifications of the
  -- user were unread, and leaves none of them unread.
  pub mark_all_read-counts :
      (now n : ℕ) (user : String) (s s' : table.Contents)
      → mark_all_read table now user s ≡ (ok n, s')
      → is_valid_uuid user ≡ true
      → (n ≡ table.count (unread_of user) s) × (table.count (unread_of user) s' ≡ 0)
  unfolding mark_all_read mark_all_as_read
  mark_all_read-counts now n user s s' done valid =
      elim (Option-cases (table.update_many (unread_of user) (read_now now) s)) [
        | inl refused ↦ absurd (ground arith)
        | inr (t, made) ↦ ground (
          arith,
          table.update_many_rows (unread_of user) (read_now now) s t made,
          table.count_rows (unread_of user) t,
          count_if-read_now now user (table.rows s),
        )
      ]
