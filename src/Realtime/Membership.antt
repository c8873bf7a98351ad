-- ===== src/Realtime/Membership.antt =====
-- Who counts as being in a project: src/modules/realtime/events.gateway.ts, handler by handler.
use collabai_backend.Prelude.{
  String, Bool, true, false, ◌≡◌, inl, inr, Option, none, some, [], arith, same_text, Bool-cases,
  Option-cases,
}
use collabai_backend.Realtime.Rooms.{Rooms, project_room, user_room}
use collabai_backend.Realtime.State.{SocketUser, Gateway, set_at, member, without, present}
use collabai_backend.Realtime.Connection.{
  Surroundings, may_join, handle_connection, check_join, commit_join, project_join, project_leave,
  in_project, Indicator, views, stops_viewing, types, stops_typing, edits, stops_editing, indicate,
  viewing_start, viewing_stop, typing_start, typing_stop, editing_start, editing_stop, entry_of,
}
use collabai_backend.Realtime.Events.{Notice, hear}
use collabai_backend.Realtime.Presence.{
  member-adjoin, member-without, present-put_entry, vacate-Vacated,
}

-- The user is known and may join the project.
abbrev pub user_may : Surroundings → String → Option SocketUser → Bool
user_may env p none = false
user_may env p (some u) = may_join env p u.id

module _ (Times : Surroundings → Type 0) where
  -- At one of these times the user was let into the project.
  abbrev pub WasLetIn : String → Option SocketUser → Type 0
  WasLetIn p u = (day : Surroundings) × Times day × (user_may day p u ≡ true)

module _ (Times : Surroundings → Type 0) (rooms : Rooms) where
  -- A project that a socket has joined is one that its user was let into; the presence of a project
  -- and its room hold only sockets that have joined it.
  pub record IsSound (s p : String) (g : Gateway rooms) : Type 0 where
    pub allowed : member p (g.clients s).joined ≡ true → WasLetIn Times p (g.clients s).user
    pub listed : present s (g.presence p) ≡ true → member p (g.clients s).joined ≡ true
    pub housed :
        rooms.inside (project_room p) s g.places ≡ true → member p (g.clients s).joined ≡ true

  module _ (t q : String) (env : Surroundings) (now : Times env) where
    pub handle_connection-IsSound :
        (s token : String) (g : Gateway rooms)
        → (g.clients s).joined ≡ []
        → IsSound t q g
        → IsSound t q (handle_connection env rooms s token g)
    unfolding handle_connection
    handle_connection-IsSound s token g new h = record {
      allowed = λ joined. ground (arith, h.allowed, same_text s t);
      listed = λ there. ground (arith, h.listed, same_text s t);
      housed = λ there. elim (Option-cases (env.verify_token token)) [
        | inl bad ↦
            ground (arith, h.housed, same_text s t, rooms.inside-drop (project_room q) t s g.places)
        | inr (p, good) ↦ ground (
          arith,
          h.housed,
          same_text s t,
          rooms.inside-drop (project_room q) t s g.places,
          rooms.inside-join (project_room q) (user_room p.sub) t s g.places,
        )
      ];
    }

    pub commit_join-IsSound :
        (s p : String) (g : Gateway rooms)
        → check_join env rooms s p g ≡ true
        → IsSound t q g
        → IsSound t q (commit_join env rooms s p g)
    unfolding check_join commit_join may_join
    commit_join-IsSound s p g may h = record {
      allowed = λ joined.
          let g' = commit_join env rooms s p g in
          let same : (g'.clients t).user ≡ (g.clients t).user = ground (arith, same_text s t) in
          rw same (elim (Bool-cases (member q (g.clients t).joined)) [
            | inl before ↦ h.allowed before
            | inr new ↦ (
              env,
              now,
              ground (arith, same_text s t, same_text p q, member-adjoin q p (g.clients s).joined),
            )
          ]);
      listed = λ there. elim (Option-cases (g.clients s).user) [
        | inl nobody ↦ ground (arith, h.listed)
        | inr (u, is) ↦ ground (
          arith,
          h.listed,
          same_text s t,
          same_text p q,
          member-adjoin q p (g.clients s).joined,
          present-put_entry t (entry_of env rooms s u) (g.presence p),
        )
      ];
      housed = λ there. ground (
        arith,
        h.housed,
        same_text s t,
        same_text p q,
        member-adjoin q p (g.clients s).joined,
        rooms.inside-join (project_room q) (project_room p) t s g.places,
      );
    }

    pub project_leave-IsSound :
        (s p : String) (g : Gateway rooms)
        → IsSound t q g
        → IsSound t q (project_leave env rooms s p g)
    unfolding project_leave
    project_leave-IsSound s p g h =
        let d = g.clients s in
        let gone = record g {
          clients = set_at s (record d { joined = without p d.joined }) g.clients;
          places = rooms.leave s (project_room p) g.places;
        } in
        let v = vacate-Vacated env rooms s p gone in
        record {
          allowed = λ joined. ground (
            arith,
            v.clients,
            h.allowed,
            same_text s t,
            same_text p q,
            member-without q p d.joined,
          );
          listed = λ there. ground (
            arith,
            v.clients,
            v.entries q t,
            h.listed,
            same_text s t,
            same_text p q,
            member-without q p d.joined,
          );
          housed = λ there. ground (
            arith,
            v.clients,
            v.places,
            h.housed,
            same_text s t,
            same_text p q,
            member-without q p d.joined,
            rooms.inside-leave (project_room q) (project_room p) t s g.places,
          );
        }

    pub project_join-IsSound :
        (s p : String) (g : Gateway rooms)
        → IsSound t q g
        → IsSound t q (project_join env rooms s p g)
    unfolding project_join
    project_join-IsSound s p g h = elim (Bool-cases (check_join env rooms s p g)) [
      | inl may ↦ rw may (commit_join-IsSound s p g may h)
      | inr not_so ↦ rw not_so h
    ]

    -- What an indicator leaves as it was.
    pub record Undisturbed (g g' : Gateway rooms) : Type 0 where
      pub joined : (g'.clients t).joined ≡ (g.clients t).joined
      pub user : (g'.clients t).user ≡ (g.clients t).user
      pub presence : g'.presence ≡ g.presence
      pub places : g'.places ≡ g.places

    pub Undisturbed-IsSound :
        (g g' : Gateway rooms) → Undisturbed g g' → IsSound t q g → IsSound t q g'
    Undisturbed-IsSound g g' u h = record {
      allowed = λ joined. ground (arith, u.joined, u.user, h.allowed);
      listed = λ there. ground (arith, u.joined, u.presence, h.listed);
      housed = λ there. ground (arith, u.joined, u.places, h.housed);
    }

    pub indicate-Undisturbed :
        (i : Indicator) (s p x : String) (g : Gateway rooms)
        → Undisturbed g (indicate env rooms i s p x g)
    unfolding indicate viewing_start viewing_stop typing_start typing_stop editing_start
        editing_stop in_project
    indicate-Undisturbed views s p x g = ground (arith, same_text s t)
    indicate-Undisturbed stops_viewing s p x g = ground (arith, same_text s t)
    indicate-Undisturbed types s p x g = ground (arith, same_text s t)
    indicate-Undisturbed stops_typing s p x g = ground (arith, same_text s t)
    indicate-Undisturbed edits s p x g = ground (arith, same_text s t)
    indicate-Undisturbed stops_editing s p x g = ground (arith, same_text s t)

    pub hear-Undisturbed : (n : Notice rooms) (g : Gateway rooms) → Undisturbed g (hear rooms n g)
    unfolding hear
    hear-Undisturbed n g = ground arith
