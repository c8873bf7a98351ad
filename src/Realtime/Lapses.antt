-- ===== src/Realtime/Lapses.antt =====
-- Where src/modules/realtime/events.gateway.ts lets in too much: a join that overlaps with the
-- disconnection of its socket, and a socket whose user is no longer a member.
use collabai_backend.Prelude.{
  String, true, false, ◌≡◌, ◌≢◌, inl, inr, some, [], ◌∷◌, ◌++◌, arith, same_text, same_text_refl,
  Option-cases,
}
use collabai_backend.Realtime.Rooms.{Rooms, project_room}
use collabai_backend.Realtime.State.{SocketUser, Gateway, typing_started, member, present}
use collabai_backend.Realtime.Connection.{
  Surroundings, may_join, check_join, commit_join, in_project, typing_start, handle_disconnect,
  entry_of,
}
use collabai_backend.Realtime.Events.{member_left, hear}
use collabai_backend.Realtime.Presence.{present-put_entry}
use collabai_backend.Realtime.History.{handle_disconnect-keeps}

module _ (env : Surroundings) (rooms : Rooms) where
  -- While `project:join` waits for the database the socket may disconnect, and that is the last the
  -- gateway hears of it. The join then goes on: the socket, which is gone, stands in the presence of
  -- the project.
  pub join_after_disconnect :
      (s p : String) (g : Gateway rooms)
      → check_join env rooms s p g ≡ true
      → present s ((commit_join env rooms s p (handle_disconnect env rooms s g)).presence p) ≡ true
  unfolding check_join commit_join
  join_after_disconnect s p g may =
      let gone = handle_disconnect env rooms s g in
      let (joined, user) = handle_disconnect-keeps (λ e. Unit {0}) rooms s p env tt s g in
      elim (Option-cases (g.clients s).user) [
        | inl nobody ↦ absurd (ground arith)
        | inr (u, is) ↦ ground (
          arith,
          joined,
          user,
          same_text_refl s,
          same_text_refl p,
          present-put_entry s (entry_of env rooms s u) (gone.presence p),
        )
      ]

  -- A user who is removed from a project, and may not join it any more, keeps what an open socket has:
  -- it stays in the project's room, where all that happens is told, and what it says is passed on.
  pub removed_member_stays :
      (s p x actor : String) (u : SocketUser) (g : Gateway rooms)
      → (g.clients s).user ≡ some u
      → member p (g.clients s).joined ≡ true
      → rooms.inside (project_room p) s g.places ≡ true
      → p ≢ ""
      → may_join env p u.id ≡ false
      → let g' = hear rooms (member_left u.id p actor) g in
        (rooms.inside (project_room p) s g'.places ≡ true)
        × ((typing_start env rooms s p x g').sent
            ≡ g'.sent
              ++ record {
                to = project_room p;
                except = some s;
                project_id = p;
                actor_id = u.id;
                signal = typing_started x u.id u.name;
              }
                ∷ [])
  unfolding hear typing_start in_project
  removed_member_stays s p x actor u g is joined inside proper out =
      (ground arith, ground (arith, same_text p ""))
