-- ===== src/Room/Invariant.antt =====
-- The room operations keep the room table well formed: ids, capacity, and one open room a player.
use red_culture_service.Common.{
  ℕ, ◌+◌, ◌<◌, ◌≡◌, inl, inr, refl, String, true, false, [], ◌∷◌, some, ℕ_discrete, arith, length,
  any_of, Bool-cases, Option-cases, u64_mod, inc_u64_lem, is_empty, sym, subst, ◌==◌,
}
use red_culture_service.Common.Map.{lookup, insert}
use red_culture_service.Room.Types.{PlayerRef, RoomOptions, RoomInfo, RoomMatchService}
use red_culture_service.Room.Rooms.{
  is_closed, is_member, has_member, member_of, update_room_state_locked, new_room, store_new_room,
  remove_player_ticket_locked, find_active_room_id_by_player_locked, create_room_locked,
}
use red_culture_service.Room.Seats.{Seated, IsGoodRoom, RoomsInv, insert-RoomsInv, find_active-none}

-- The room table of a service is well formed.
abbrev pub HasGoodRooms : RoomMatchService → Type 0
HasGoodRooms s = RoomsInv s.next_room_id s.rooms

pub remove_ticket-rooms :
    (s : RoomMatchService) (p : String)
    → ((remove_player_ticket_locked s p).rooms ≡ s.rooms)
      × ((remove_player_ticket_locked s p).next_room_id ≡ s.next_room_id)
      × ((remove_player_ticket_locked s p).next_ticket_id ≡ s.next_ticket_id)
unfolding remove_player_ticket_locked
remove_ticket-rooms s p = ground arith

pub update_state_fields :
    (r : RoomInfo) (now : ℕ)
    → ((update_room_state_locked r now).members ≡ r.members)
      × ((update_room_state_locked r now).id ≡ r.id)
      × ((update_room_state_locked r now).max_players ≡ r.max_players)
      × (is_closed (update_room_state_locked r now) ≡ false → 0 < length r.members)
unfolding update_room_state_locked
update_state_fields r now = (refl, refl, refl, λ h. ground arith)

pub any_of-one :
    {p : String} (host : PlayerRef) (now : ℕ)
    → any_of (is_member p) (member_of host now ∷ []) ≡ true
    → host.player_id ≡ p
unfolding any_of
any_of-one host now h = ground arith

pub store_new_room-Inv :
    (s : RoomMatchService) (host : PlayerRef) (options : RoomOptions) (now : ℕ)
    → HasGoodRooms s
    → s.next_room_id + 1 < u64_mod
    → 0 < options.max_players
    → ((i : ℕ) → ¬ Seated s.rooms host.player_id i)
    → HasGoodRooms (store_new_room s host options now).0
unfolding store_new_room new_room
store_new_room-Inv s host options now v h pos free =
    insert-RoomsInv s.next_room_id _ s.rooms s.next_room_id _ v
      (omega (arith, inc_u64_lem s.next_room_id h))
      (record {
        keyed = refl;
        below = omega (arith, inc_u64_lem s.next_room_id h);
        fits = λ _. omega arith;
        populated = λ _. omega arith;
      })
      (λ p j _ member seat.
        absurd (free j (subst (λ q. Seated s.rooms q j) (sym (any_of-one host now member)) seat)))

-- `createRoom` keeps the table well formed.
pub create_room_locked-Inv :
    (s : RoomMatchService) (host : PlayerRef) (options : RoomOptions) (now : ℕ)
    → HasGoodRooms s
    → s.next_room_id + 1 < u64_mod
    → HasGoodRooms (create_room_locked s host options now).0
unfolding create_room_locked
create_room_locked-Inv s host options now v h = elim (Bool-cases (is_empty host.player_id)) [
  | inl e ↦ rw e v
  | inr e ↦ elim (Bool-cases (options.max_players == 0)) [
    | inl z ↦ rw (e, z) v
    | inr z ↦ elim (Option-cases (find_active_room_id_by_player_locked s host.player_id)) [
      | inr (i, found) ↦ rw (e, z, found) v
      | inl none_found ↦
          let (rooms, next, _) = remove_ticket-rooms s host.player_id in
          rw (e, z, none_found)
            (store_new_room-Inv (remove_player_ticket_locked s host.player_id) host options now
              (rw (rooms, next) v) (rw next h) (ground arith)
              (λ i seat.
                find_active-none s host.player_id i none_found
                  (subst (λ m. Seated m host.player_id i) rooms seat)))
    ]
  ]
]

module _ (s : RoomMatchService) (i : ℕ) (r : RoomInfo) where
  -- Replacing a stored room by one with no further members, none if the room was closed.
  pub replace-Inv :
      (r' : RoomInfo)
      → HasGoodRooms s
      → lookup ℕ_discrete i s.rooms ≡ some r
      → IsGoodRoom s.next_room_id i r'
      → ((p : String)
          → is_closed r' ≡ false
          → has_member p r' ≡ true
          → (is_closed r ≡ false) × (has_member p r ≡ true))
      → HasGoodRooms (record s { rooms = insert ℕ_discrete i r' s.rooms })
  replace-Inv r' v e g sub =
      insert-RoomsInv s.next_room_id s.next_room_id s.rooms i r' v (omega arith) g
        λ p j open_r' member seat.
          let (open_r, old) = sub p open_r' member in
          v.one_room p j i seat (record { room = r; stored = e; active = open_r; member = old })
