-- ===== src/Realtime/Rooms.antt =====
-- Socket.IO as src/modules/realtime/events.gateway.ts uses it: who is in which room. The rooms are
-- `project:…` and `user:…`.
use collabai_backend.Prelude.{String, Bool, false, not, ◌≡◌, ◌&&◌, ◌||◌, ◌=s=◌}

pub data Room : Type 0 where
  project_room user_room : String → Room

abbrev pub same_room : Room → Room → Bool
same_room (project_room a) (project_room b) = a =s= b
same_room (user_room a) (user_room b) = a =s= b
same_room (project_room a) (user_room b) = false
same_room (user_room a) (project_room b) = false

-- `drop`: the socket is disconnected, and leaves every room.
pub record Rooms : Type 1 where
  pub State : Type 0
  pub inside : Room → String → State → Bool
  pub join : String → Room → State → State
  pub leave : String → Room → State → State
  pub drop : String → State → State
  pub inside-join :
      (r r' : Room) (s s' : String) (t : State)
      → inside r s (join s' r' t) ≡ ((same_room r' r && s' =s= s) || inside r s t)
  pub inside-leave :
      (r r' : Room) (s s' : String) (t : State)
      → inside r s (leave s' r' t) ≡ (not (same_room r' r && s' =s= s) && inside r s t)
  pub inside-drop :
      (r : Room) (s s' : String) (t : State)
      → inside r s (drop s' t) ≡ (not (s' =s= s) && inside r s t)
