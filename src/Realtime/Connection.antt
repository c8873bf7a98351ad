-- ===== src/Realtime/Connection.antt =====
-- What a socket may ask of src/modules/realtime/events.gateway.ts. Verifying a token, the reads of
-- users and memberships, and `split('@')` are arguments.
use collabai_backend.Prelude.{
  String, Bool, true, false, not, ◌&&◌, ◌||◌, Option, none, some, List, [], ◌∷◌, ◌=s=◌,
  if◌then◌else◌,
}
use collabai_backend.Common.Uuid.{is_valid_uuid}
use collabai_backend.Realtime.Rooms.{Rooms, project_room, user_room}
use collabai_backend.Realtime.State.{
  SocketUser, SocketData, PresenceEntry, Signal, viewing_started, typing_started, editing_started,
  viewing_stopped, typing_stopped, editing_stopped, Gateway, set_at, member, adjoin, without,
  put_entry, drop_entry, or_text, display_name, emit, broadcast_presence,
}

pub record Payload : Type 0 where
  pub sub : String
  pub email : String
  pub name : String

-- The name and the address of an account.
pub record Account : Type 0 where
  pub name : String
  pub email : String

pub record Surroundings : Type 0 where
  pub before_at : String → String
  -- `verifyToken`; `none`: it throws.
  pub verify_token : String → Option Payload
  -- `none`: no such user, or the read fails.
  pub find_account : String → Option Account
  pub is_active_member : String → String → Bool
  pub owns : String → String → Bool

abbrev account_or_blank : Option Account → Account
account_or_blank none = record { name = ""; email = "" }
account_or_blank (some a) = a

-- The six messages by which a socket shows what its user is doing.
pub data Indicator : Type 0 where
  views stops_viewing types stops_typing edits stops_editing : Indicator

-- The reads of `handleProjectJoin`: may this user join the project?
unfoldable pub may_join : Surroundings → String → String → Bool
may_join env project user =
    is_valid_uuid project && (env.is_active_member project user || env.owns project user)

module _ (env : Surroundings) (rooms : Rooms) where
  abbrev pub with_client : String → SocketData → Gateway rooms → Gateway rooms
  with_client s d g = record g { clients = set_at s d g.clients }

  -- `client.disconnect()`: the rooms are left.
  abbrev hang_up : String → Gateway rooms → Gateway rooms
  hang_up s g = record g { places = rooms.drop s g.places }

  abbrev socket_user : Payload → SocketUser
  socket_user p =
      let account = account_or_blank (env.find_account p.sub) in
      record {
        id = p.sub;
        email = or_text account.email p.email;
        name = or_text account.name (
            or_text p.name (
              or_text (if account.email =s= "" then "" else env.before_at account.email)
                "Teammate"));
      }

  admit : String → Payload → Gateway rooms → Gateway rooms
  admit s p g =
      let d = g.clients s in
      let named = with_client s (record d { user = some (socket_user p) }) g in
      if p.sub =s= ""
      then hang_up s g
      else record named { places = rooms.join s (user_room p.sub) named.places }

  -- `handleConnection`; without a token its text is empty.
  unfoldable pub handle_connection : String → String → Gateway rooms → Gateway rooms
  unfolding admit
  handle_connection s token g =
      if token =s= ""
      then hang_up s g
      else elim (env.verify_token token) [ none ↦ hang_up s g | some p ↦ admit s p g ]

  abbrev user_of : Option SocketUser → (SocketUser → Bool) → Bool
  user_of none f = false
  user_of (some u) f = f u

  unfoldable pub check_join : String → String → Gateway rooms → Bool
  unfolding may_join
  check_join s project g =
      user_of (g.clients s).user
        (λ u. not (u.id =s= "") && not (project =s= "") && may_join env project u.id)

  abbrev pub entry_of : String → SocketUser → PresenceEntry
  entry_of s u = record {
    user_id = u.id;
    name = display_name env.before_at u.name u.email;
    email = u.email;
    socket_id = s;
  }

  -- What follows the reads.
  enter : String → String → Option SocketUser → Gateway rooms → Gateway rooms
  enter s project none g = g
  enter s project (some u) g =
      let d = g.clients s in
      broadcast_presence env.before_at rooms project (record g {
        clients = set_at s (record d { joined = adjoin project d.joined }) g.clients;
        presence = set_at project (put_entry (entry_of s u) (g.presence project)) g.presence;
        places = rooms.join s (project_room project) g.places;
      })

  unfoldable pub commit_join : String → String → Gateway rooms → Gateway rooms
  unfolding enter broadcast_presence
  commit_join s project g = enter s project (g.clients s).user g

  -- `handleProjectJoin`, where nothing comes between the reads and what follows.
  unfoldable pub project_join : String → String → Gateway rooms → Gateway rooms
  unfolding check_join commit_join
  project_join s project g = if check_join s project g then commit_join s project g else g

  abbrev is_empty : List PresenceEntry → Bool
  is_empty [] = true
  is_empty (x ∷ xs) = false

  -- Out of the presence of a project, which is announced where the project has one.
  unfoldable pub vacate : String → String → Gateway rooms → Gateway rooms
  unfolding broadcast_presence
  vacate s project g =
      let left = drop_entry s (g.presence project) in
      if is_empty (g.presence project)
      then g
      else broadcast_presence env.before_at rooms project
          (record g { presence = set_at project left g.presence })

  -- `handleProjectLeave`
  unfoldable pub project_leave : String → String → Gateway rooms → Gateway rooms
  unfolding vacate
  project_leave s project g =
      let d = g.clients s in
      if project =s= ""
      then g
      else vacate s project (record g {
        clients = set_at s (record d { joined = without project d.joined }) g.clients;
        places = rooms.leave s (project_room project) g.places;
      })

  -- `inProject`
  unfoldable pub in_project : String → String → Gateway rooms → Bool
  in_project s project g =
      not (project =s= "")
      && user_of (g.clients s).user (λ u. true)
      && member project (g.clients s).joined

  abbrev signal_to : String → String → SocketUser → Signal → Gateway rooms → Gateway rooms
  signal_to s project u what g =
      emit rooms
        (record {
          to = project_room project;
          except = some s;
          project_id = project;
          actor_id = u.id;
          signal = what;
        })
        g

  tell :
      String
      → String
      → (SocketData → SocketData)
      → (SocketUser → Signal)
      → Option SocketUser
      → Gateway rooms
      → Gateway rooms
  tell s project change what none g = g
  tell s project change what (some u) g =
      signal_to s project u (what u) (with_client s (change (g.clients s)) g)

  -- Where the socket is in the project: `client.data` changes, and the room is told.
  signal_from :
      String
      → String
      → Bool
      → (SocketData → SocketData)
      → (SocketUser → Signal)
      → Gateway rooms
      → Gateway rooms
  unfolding in_project tell
  signal_from s project wanted change what g =
      let told = tell s project change what (g.clients s).user g in
      if wanted && in_project s project g then told else g

  -- `handleTaskViewingStart` and `handleTaskViewingStop`
  unfoldable pub viewing_start : String → String → String → Gateway rooms → Gateway rooms
  unfolding signal_from
  viewing_start s project task =
      signal_from s project (not (task =s= "")) (λ d. record d { viewing = some (project, task) })
        (λ u. viewing_started task u.id u.name)

  unfoldable pub viewing_stop : String → String → String → Gateway rooms → Gateway rooms
  unfolding signal_from
  viewing_stop s project task =
      signal_from s project true (λ d. record d { viewing = none }) (λ u. viewing_stopped task u.id)

  -- `handleTypingStart` and `handleTypingStop`
  unfoldable pub typing_start : String → String → String → Gateway rooms → Gateway rooms
  unfolding signal_from
  typing_start s project task =
      signal_from s project true (λ d. record d { typing = some (project, task) })
        (λ u. typing_started task u.id u.name)

  unfoldable pub typing_stop : String → String → String → Gateway rooms → Gateway rooms
  unfolding signal_from
  typing_stop s project task =
      signal_from s project true (λ d. record d { typing = none }) (λ u. typing_stopped task u.id)

  -- `handleDocEditingStart` and `handleDocEditingStop`
  unfoldable pub editing_start : String → String → String → Gateway rooms → Gateway rooms
  unfolding signal_from
  editing_start s project document =
      signal_from s project (not (document =s= ""))
        (λ d. record d { editing = some (project, document) })
        (λ u. editing_started document u.id u.name)

  unfoldable pub editing_stop : String → String → String → Gateway rooms → Gateway rooms
  unfolding signal_from
  editing_stop s project document =
      signal_from s project true (λ d. record d { editing = none })
        (λ u. editing_stopped document u.id)

  unfoldable pub indicate : Indicator → String → String → String → Gateway rooms → Gateway rooms
  indicate views = viewing_start
  indicate stops_viewing = viewing_stop
  indicate types = typing_start
  indicate stops_typing = typing_stop
  indicate edits = editing_start
  indicate stops_editing = editing_stop

  -- The end of an indicator that was on.
  end_indicator :
      String
      → Option (String × String)
      → Option SocketUser
      → (String → String → Signal)
      → Gateway rooms
      → Gateway rooms
  end_indicator s none u what g = g
  end_indicator s (some (project, item)) none what g = g
  end_indicator s (some (project, item)) (some u) what g =
      if project =s= "" || item =s= "" then g else signal_to s project u (what item u.id) g

  unfoldable pub vacate_all : String → List String → Gateway rooms → Gateway rooms
  unfolding vacate
  vacate_all s [] g = g
  vacate_all s (p ∷ ps) g = vacate_all s ps (vacate s p g)

  -- The indicators of a socket that goes.
  unfoldable pub fall_silent : String → Gateway rooms → Gateway rooms
  unfolding end_indicator
  fall_silent s g =
      let d = g.clients s in
      end_indicator s d.viewing d.user viewing_stopped (
        end_indicator s d.editing d.user editing_stopped
          (end_indicator s d.typing d.user typing_stopped g))

  -- `handleDisconnect`, for a socket that has left its rooms.
  unfoldable pub handle_disconnect : String → Gateway rooms → Gateway rooms
  handle_disconnect s g =
      vacate_all s (g.clients s).joined
        (fall_silent s (record g { places = rooms.drop s g.places }))
