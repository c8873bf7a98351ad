-- ===== src/Realtime/History.antt =====
-- The gateway of src/modules/realtime/events.gateway.ts over time: messages of sockets, connections
-- that come and go, and domain events, each handled to its end.
use collabai_backend.Prelude.{String, false, not, ◌&&◌, ◌≡◌, [], ◌=s=◌, arith, same_text_refl}
use collabai_backend.Realtime.Rooms.{Rooms, project_room}
use collabai_backend.Realtime.State.{Gateway, member, present}
use collabai_backend.Realtime.Connection.{
  Surroundings, handle_connection, project_join, project_leave, Indicator, indicate,
  handle_disconnect, fall_silent,
}
use collabai_backend.Realtime.Events.{Notice, hear}
use collabai_backend.Realtime.Presence.{vacate_all-VacatedAll}
use collabai_backend.Realtime.Membership.{
  IsSound, handle_connection-IsSound, project_join-IsSound, project_leave-IsSound, Undisturbed,
  Undisturbed-IsSound, indicate-Undisturbed, hear-Undisturbed,
}

module _ (rooms : Rooms) where
  -- What may happen while these are the surroundings. A socket that connects is a new one: it has
  -- joined nothing.
  pub data Step (env : Surroundings) (g : Gateway rooms) : Gateway rooms → Type 0 where
    connects :
        (s token : String)
        → (g.clients s).joined ≡ []
        → Step env g (handle_connection env rooms s token g)
    joins : (s p : String) → Step env g (project_join env rooms s p g)
    leaves : (s p : String) → Step env g (project_leave env rooms s p g)
    indicates : (i : Indicator) (s p x : String) → Step env g (indicate env rooms i s p x g)
    disconnects : (s : String) → Step env g (handle_disconnect env rooms s g)
    hears : (n : Notice rooms) → Step env g (hear rooms n g)

module _ (Times : Surroundings → Type 0) (rooms : Rooms) where
  -- Members come and go: each step has the surroundings of one of these times.
  pub data Reach (start : Gateway rooms) : Gateway rooms → Type 0 where
    here : Reach start start
    next :
        {g h : Gateway rooms} (env : Surroundings)
        → Reach start g
        → Times env
        → Step rooms env g h
        → Reach start h

  module _ (t q : String) (env : Surroundings) (now : Times env) where
    fall_silent-Undisturbed :
        (s : String) (g : Gateway rooms)
        → Undisturbed Times rooms t q env now g (fall_silent env rooms s g)
    unfolding fall_silent
    fall_silent-Undisturbed s g = ground arith

    handle_disconnect-lem :
        (s : String) (g : Gateway rooms)
        → let g' = handle_disconnect env rooms s g in
          (present t (g'.presence q)
            ≡ (not (member q (g.clients s).joined && s =s= t) && present t (g.presence q)))
          × (rooms.inside (project_room q) t g'.places
              ≡ (not (s =s= t) && rooms.inside (project_room q) t g.places))
    unfolding handle_disconnect
    handle_disconnect-lem s g =
        let gone = record g { places = rooms.drop s g.places } in
        let u = fall_silent-Undisturbed s gone in
        let v =
          vacate_all-VacatedAll env rooms s (g.clients s).joined (fall_silent env rooms s gone) in
        (
          ground (arith, u.joined, v.entries q t, u.presence),
          ground (arith, v.places, u.places, rooms.inside-drop (project_room q) t s g.places),
        )

    pub handle_disconnect-keeps :
        (s : String) (g : Gateway rooms)
        → (((handle_disconnect env rooms s g).clients t).joined ≡ (g.clients t).joined)
          × (((handle_disconnect env rooms s g).clients t).user ≡ (g.clients t).user)
    unfolding handle_disconnect
    handle_disconnect-keeps s g =
        let gone = record g { places = rooms.drop s g.places } in
        let u = fall_silent-Undisturbed s gone in
        let v =
          vacate_all-VacatedAll env rooms s (g.clients s).joined (fall_silent env rooms s gone) in
        (ground (arith, u.joined, v.clients), ground (arith, u.user, v.clients))

    handle_disconnect-IsSound :
        (s : String) (g : Gateway rooms)
        → IsSound Times rooms t q g
        → IsSound Times rooms t q (handle_disconnect env rooms s g)
    handle_disconnect-IsSound s g h =
        let (listed, housed) = handle_disconnect-lem s g in
        let kept = handle_disconnect-keeps s g in
        record {
          allowed = λ joined. ground (arith, kept, h.allowed);
          listed = λ there. ground (arith, kept, listed, h.listed);
          housed = λ there. ground (arith, kept, housed, h.housed);
        }

    Step-IsSound :
        {g h : Gateway rooms}
        → Step rooms env g h
        → IsSound Times rooms t q g
        → IsSound Times rooms t q h
    Step-IsSound {g} (connects s token new) i =
        handle_connection-IsSound Times rooms t q env now s token g new i
    Step-IsSound {g} (joins s p) i = project_join-IsSound Times rooms t q env now s p g i
    Step-IsSound {g} (leaves s p) i = project_leave-IsSound Times rooms t q env now s p g i
    Step-IsSound {g} (indicates k s p x) i =
        Undisturbed-IsSound Times rooms t q env now g (indicate env rooms k s p x g)
          (indicate-Undisturbed Times rooms t q env now k s p x g) i
    Step-IsSound {g} (disconnects s) i = handle_disconnect-IsSound s g i
    Step-IsSound {g} (hears n) i =
        Undisturbed-IsSound Times rooms t q env now g (hear rooms n g)
          (hear-Undisturbed Times rooms t q env now n g) i

  -- Whoever may join what at the time of each step, and in whatever order connections, joins, leaves,
  -- indicators, disconnections and events come: a socket that has joined a project is of a known user
  -- who was let into it, being allowed to join it at the time of one of the steps or of the start, and
  -- only sockets that have joined a project are in its presence and in its room.
  pub Reach-IsSound :
      (t q : String) {g h : Gateway rooms}
      → IsSound Times rooms t q g
      → Reach g h
      → IsSound Times rooms t q h
  Reach-IsSound t q i here = i
  Reach-IsSound t q i (next env r now st) = Step-IsSound t q env now st (Reach-IsSound t q i r)

  -- A socket that disconnects is neither in the presence nor in the room of any project.
  pub disconnect-clears :
      (t q : String) (env : Surroundings) {g h : Gateway rooms}
      → Times env
      → IsSound Times rooms t q g
      → Reach g h
      → let h' = handle_disconnect env rooms t h in
        (present t (h'.presence q) ≡ false) × (rooms.inside (project_room q) t h'.places ≡ false)
  disconnect-clears t q env {g} {h} now i r =
      let (listed, housed) = handle_disconnect-lem t q env now t h in
      let s = Reach-IsSound t q i r in
      (ground (arith, listed, s.listed, same_text_refl t), ground (arith, housed, same_text_refl t))
