-- ===== src/Realtime/State.antt =====
-- What src/modules/realtime/events.gateway.ts keeps: `client.data` of each socket, the map
-- `projectPresence`, the rooms, and what has been emitted. A field that a message lacks is the empty
-- text, which the code treats alike. An inner map that is empty is deleted by the code, so that a
-- project without one is a project without entries. The time stamp of an emission is left out.
use collabai_backend.Prelude.{
  String, Bool, false, ◌||◌, Option, none, List, [], ◌∷◌, ◌++◌, ◌=s=◌, if◌then◌else◌,
}
use collabai_backend.Realtime.Rooms.{Room, Rooms, project_room}

pub record SocketUser : Type 0 where
  pub id : String
  pub email : String
  pub name : String

-- The project and the task or document of an indicator are set and deleted together.
pub record SocketData : Type 0 where
  pub user : Option SocketUser
  pub joined : List String
  pub typing : Option (String × String)
  pub editing : Option (String × String)
  pub viewing : Option (String × String)

pub record PresenceEntry : Type 0 where
  pub user_id : String
  pub name : String
  pub email : String
  pub socket_id : String

pub record PresentUser : Type 0 where
  pub user_id : String
  pub name : String
  pub email : String

-- The name of the emission and its `data`.
pub data Signal : Type 0 where
  presence_update : List PresentUser → Signal
  viewing_started typing_started editing_started : String → String → String → Signal
  viewing_stopped typing_stopped editing_stopped : String → String → Signal
  member_added : String → String → Signal
  member_removed : String → Signal
  -- A change of a task, a comment, a document, a project, a job or the log, under its name and with
  -- the id of what it is about.
  changed : String → String → Signal

-- `except` is the socket that `client.to(…)` leaves out.
pub record Emission : Type 0 where
  pub to : Room
  pub except : Option String
  pub project_id : String
  pub actor_id : String
  pub signal : Signal

pub record Gateway (rooms : Rooms) : Type 0 where
  pub clients : String → SocketData
  pub presence : String → List PresenceEntry
  pub places : rooms.State
  pub sent : List Emission

-- A map with one key set.
abbrev pub set_at : {A : Type 0} → String → A → (String → A) → String → A
set_at k v f j = if k =s= j then v else f j

abbrev pub member : String → List String → Bool
member x [] = false
member x (y ∷ ys) = y =s= x || member x ys

-- `Set.add` and `Set.delete`
unfoldable pub adjoin : String → List String → List String
adjoin x xs = if member x xs then xs else xs ++ x ∷ []

unfoldable pub without : String → List String → List String
without x [] = []
without x (y ∷ ys) = if y =s= x then without x ys else y ∷ without x ys

-- `Map.set` and `Map.delete` by the id of the socket.
unfoldable pub put_entry : PresenceEntry → List PresenceEntry → List PresenceEntry
put_entry e [] = e ∷ []
put_entry e (x ∷ xs) = if x.socket_id =s= e.socket_id then e ∷ xs else x ∷ put_entry e xs

unfoldable pub drop_entry : String → List PresenceEntry → List PresenceEntry
drop_entry s [] = []
drop_entry s (x ∷ xs) = if x.socket_id =s= s then drop_entry s xs else x ∷ drop_entry s xs

abbrev pub present : String → List PresenceEntry → Bool
present s [] = false
present s (x ∷ xs) = x.socket_id =s= s || present s xs

-- `text || other`
abbrev pub or_text : String → String → String
or_text a b = if a =s= "" then b else a

listed : String → List PresentUser → Bool
listed u [] = false
listed u (x ∷ xs) = x.user_id =s= u || listed u xs

abbrev pub emit : (rooms : Rooms) → Emission → Gateway rooms → Gateway rooms
emit rooms e g = record g { sent = g.sent ++ e ∷ [] }

module _ (before_at : String → String) where
  -- `name || (email ? email.split('@')[0] : 'Teammate')`
  abbrev pub display_name : String → String → String
  display_name name email = or_text name (if email =s= "" then "Teammate" else before_at email)

  -- One round of the reduction: the first entry of a user counts.
  collect : List PresentUser → List PresenceEntry → List PresentUser
  unfolding listed
  collect acc [] = acc
  collect acc (e ∷ es) =
      collect
        (if listed e.user_id acc
          then acc
          else acc
            ++ record { user_id = e.user_id; name = display_name e.name e.email; email = e.email }
              ∷ [])
        es

  unfoldable pub unique_users : List PresenceEntry → List PresentUser
  unfolding collect
  unique_users es = collect [] es

  module _ (rooms : Rooms) where
    -- `broadcastPresence`
    unfoldable pub broadcast_presence : String → Gateway rooms → Gateway rooms
    broadcast_presence project g =
        emit rooms
          (record {
            to = project_room project;
            except = none;
            project_id = project;
            actor_id = "system";
            signal = presence_update (unique_users (g.presence project));
          })
          g
