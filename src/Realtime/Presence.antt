-- ===== src/Realtime/Presence.antt =====
-- Lemmas on the maps and sets of src/modules/realtime/events.gateway.ts, and on leaving a presence.
use collabai_backend.Prelude.{
  String, not, ◌&&◌, ◌||◌, ◌≡◌, refl, List, [], ◌∷◌, ◌++◌, ◌=s=◌, arith, same_text,
}
use collabai_backend.Realtime.Rooms.{Rooms}
use collabai_backend.Realtime.State.{
  PresenceEntry, Gateway, member, adjoin, without, put_entry, drop_entry, present,
  broadcast_presence,
}
use collabai_backend.Realtime.Connection.{Surroundings, vacate, vacate_all}

member-append :
    (x y : String) (xs : List String) → member x (xs ++ y ∷ []) ≡ (member x xs || y =s= x)
member-append x y [] = ground arith
member-append x y (z ∷ zs) = ground (arith, member-append x y zs)

pub member-adjoin :
    (x y : String) (xs : List String) → member x (adjoin y xs) ≡ (y =s= x || member x xs)
unfolding adjoin
member-adjoin x y xs = ground (arith, member-append x y xs, same_text y x)

pub member-without :
    (x y : String) (xs : List String) → member x (without y xs) ≡ (not (y =s= x) && member x xs)
unfolding without
member-without x y [] = ground arith
member-without x y (z ∷ zs) =
    ground (arith, member-without x y zs, same_text z y, same_text z x, same_text y x)

pub present-put_entry :
    (s : String) (e : PresenceEntry) (xs : List PresenceEntry)
    → present s (put_entry e xs) ≡ (e.socket_id =s= s || present s xs)
unfolding put_entry
present-put_entry s e [] = ground arith
present-put_entry s e (x ∷ xs) = ground (
  arith,
  present-put_entry s e xs,
  same_text x.socket_id e.socket_id,
  same_text x.socket_id s,
  same_text e.socket_id s,
)

pub present-drop_entry :
    (s s' : String) (xs : List PresenceEntry)
    → present s (drop_entry s' xs) ≡ (not (s' =s= s) && present s xs)
unfolding drop_entry
present-drop_entry s s' [] = ground arith
present-drop_entry s s' (x ∷ xs) = ground (
  arith,
  present-drop_entry s s' xs,
  same_text x.socket_id s',
  same_text x.socket_id s,
  same_text s' s,
)

module _ (env : Surroundings) (rooms : Rooms) where
  -- Leaving a presence touches one entry of one project.
  pub record Vacated (s project : String) (g g' : Gateway rooms) : Type 0 where
    pub clients : g'.clients ≡ g.clients
    pub places : g'.places ≡ g.places
    pub entries :
        (p t : String)
        → present t (g'.presence p) ≡ (not (project =s= p && s =s= t) && present t (g.presence p))

  pub vacate-Vacated :
      (s project : String) (g : Gateway rooms) → Vacated s project g (vacate env rooms s project g)
  unfolding vacate broadcast_presence
  vacate-Vacated s project g = record {
    clients = ground arith;
    places = ground arith;
    entries =
        λ p t. ground (arith, same_text project p, present-drop_entry t s (g.presence project));
  }

  pub record VacatedAll (s : String) (ps : List String) (g g' : Gateway rooms) : Type 0 where
    pub clients : g'.clients ≡ g.clients
    pub places : g'.places ≡ g.places
    pub entries :
        (p t : String)
        → present t (g'.presence p) ≡ (not (member p ps && s =s= t) && present t (g.presence p))

  pub vacate_all-VacatedAll :
      (s : String) (ps : List String) (g : Gateway rooms)
      → VacatedAll s ps g (vacate_all env rooms s ps g)
  unfolding vacate_all
  vacate_all-VacatedAll s [] g = record {
    clients = refl;
    places = refl;
    entries = λ p t. ground arith;
  }
  vacate_all-VacatedAll s (q ∷ qs) g =
      let one = vacate-Vacated s q g in
      let rest = vacate_all-VacatedAll s qs (vacate env rooms s q g) in
      record {
        clients = ground (arith, one.clients, rest.clients);
        places = ground (arith, one.places, rest.places);
        entries = λ p t. ground (arith, one.entries p t, rest.entries p t);
      }
