-- ===== src/Realtime/Tests/Sockets.antt =====
-- Ann joins a project with one socket.
use collabai_backend.Prelude.{
  String, Bool, true, false, not, ◌&&◌, ◌||◌, ◌≡◌, refl, none, some, [], ◌∷◌, ◌++◌, ◌=s=◌, arith,
  same_text,
}
use collabai_backend.Common.Uuid.{is_valid_uuid, uuid}
use collabai_backend.Realtime.Rooms.{Room, Rooms, same_room, project_room}
use collabai_backend.Realtime.State.{
  SocketUser, Gateway, typing_started, present, adjoin, put_entry,
}
use collabai_backend.Realtime.Connection.{
  Surroundings, may_join, handle_connection, check_join, commit_join, project_join, typing_start,
  handle_disconnect,
}
use collabai_backend.Realtime.Events.{member_left, hear}
use collabai_backend.Realtime.Membership.{IsSound}
use collabai_backend.Realtime.History.{
  Reach, here, next, connects, joins, Reach-IsSound, disconnect-clears,
}
use collabai_backend.Realtime.Lapses.{join_after_disconnect, removed_member_stays}

-- Who is where is a test on rooms and sockets.
abbrev rooms : Rooms
rooms = record {
  State = Room → String → Bool;
  inside = λ r s t. t r s;
  join = λ s' r' t r s. (same_room r' r && s' =s= s) || t r s;
  leave = λ s' r' t r s. not (same_room r' r && s' =s= s) && t r s;
  drop = λ s' t r s. not (s' =s= s) && t r s;
  inside-join = λ r r' s s' t. refl;
  inside-leave = λ r r' s s' t. refl;
  inside-drop = λ r s s' t. refl;
}

abbrev project : String
project = "10000000-0000-4000-8000-000000000000"

abbrev env : Surroundings
env = record {
  before_at = λ e. e;
  verify_token = λ t. some record { sub = "ann"; email = "ann@x"; name = "Ann" };
  find_account = λ u. none;
  is_active_member = λ p u. true;
  owns = λ p u. false;
}

abbrev empty : Gateway rooms
empty = record {
  clients = λ s. record { user = none; joined = []; typing = none; editing = none; viewing = none };
  presence = λ p. [];
  places = λ r s. false;
  sent = [];
}

abbrev connected : Gateway rooms
connected = handle_connection env rooms "s1" "token" empty

abbrev inside : Gateway rooms
inside = project_join env rooms "s1" project connected

-- After the removal of all members.
abbrev strict : Surroundings
strict = record env { is_active_member = λ p u. false }

-- Before the removal, and after it.
data Day : Surroundings → Type 0 where
  open_day : Day env
  strict_day : Day strict

empty-IsSound : IsSound Day rooms "s1" project empty
empty-IsSound = record {
  allowed = λ h. absurd (ground arith);
  listed = λ h. absurd (ground arith);
  housed = λ h. absurd (ground arith);
}

joined : Reach Day rooms empty inside
joined =
    next env (next env here open_day (connects "s1" "token" refl)) open_day (joins "s1" project)

-- The socket tries again when nobody may join any more.
abbrev tried_again : Gateway rooms
tried_again = project_join strict rooms "s1" project inside

joined_earlier : Reach Day rooms empty tried_again
joined_earlier = next strict joined strict_day (joins "s1" project)

present_test : present "s1" (inside.presence project) ≡ true
unfolding handle_connection project_join check_join commit_join may_join is_valid_uuid uuid
    put_entry adjoin ◌=s=◌
present_test = refl

Reach-IsSound_example : IsSound Day rooms "s1" project tried_again
Reach-IsSound_example = Reach-IsSound Day rooms "s1" project empty-IsSound joined_earlier

disconnect-clears_example :
    let h' = handle_disconnect env rooms "s1" inside in
    (present "s1" (h'.presence project) ≡ false)
    × (rooms.inside (project_room project) "s1" h'.places ≡ false)
disconnect-clears_example =
    disconnect-clears Day rooms "s1" project env open_day empty-IsSound joined

join_after_disconnect_example :
    present "s1" (
      (commit_join env rooms "s1" project (handle_disconnect env rooms "s1" connected)).presence
        project)
    ≡ true
unfolding handle_connection check_join may_join is_valid_uuid uuid ◌=s=◌
join_after_disconnect_example = join_after_disconnect env rooms "s1" project connected refl

abbrev ann : SocketUser
ann = record { id = "ann"; email = "ann@x"; name = "Ann" }

removed_member_stays_example :
    let g' = hear rooms (member_left "ann" project "bob") inside in
    (rooms.inside (project_room project) "s1" g'.places ≡ true)
    × ((typing_start strict rooms "s1" project "t" g').sent
        ≡ g'.sent
          ++ record {
            to = project_room project;
            except = some "s1";
            project_id = project;
            actor_id = "ann";
            signal = typing_started "t" "ann" "Ann";
          }
            ∷ [])
unfolding handle_connection project_join check_join commit_join may_join is_valid_uuid uuid adjoin
    ◌=s=◌
removed_member_stays_example =
    removed_member_stays strict rooms "s1" project "t" "bob" ann inside refl refl refl
      (λ e. ground (arith, same_text project "")) refl
