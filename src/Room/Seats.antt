-- ===== src/Room/Seats.antt =====
-- Who sits where: the rooms of the service as a relation between players and rooms, and the
-- well-formedness of the room table.
use red_culture_service.Common.{
  ℕ, ◌≤◌, ◌<◌, ◌≡◌, ◌≢◌, ◌⊎◌, inl, inr, String, true, false, not, ◌&&◌, List, none, some,
  ℕ_discrete, arith, length, ap, sym, ◌∙◌,
}
use red_culture_service.Common.Map.{
  lookup, insert, lookup-insert, find_key_sound, find_key_complete,
}
use red_culture_service.Room.Types.{RoomInfo, RoomMatchService}
use red_culture_service.Room.Rooms.{is_closed, has_member, find_active_room_id_by_player_locked}

abbrev pub Rooms : Type 0
Rooms = List (ℕ × RoomInfo)

-- The player is a member of the open room with the id.
pub record Seated (m : Rooms) (player_id : String) (i : ℕ) : Type 0 where
  pub room : RoomInfo
  pub stored : lookup ℕ_discrete i m ≡ some room
  pub active : is_closed room ≡ false
  pub member : has_member player_id room ≡ true

pub record IsGoodRoom (next i : ℕ) (r : RoomInfo) : Type 0 where
  pub keyed : r.id ≡ i
  pub below : i < next
  pub fits : is_closed r ≡ false → length r.members ≤ r.max_players
  pub populated : is_closed r ≡ false → 0 < length r.members

pub record RoomsInv (next : ℕ) (m : Rooms) : Type 0 where
  pub good : (i : ℕ) (r : RoomInfo) → lookup ℕ_discrete i m ≡ some r → IsGoodRoom next i r
  pub one_room : (p : String) (i j : ℕ) → Seated m p i → Seated m p j → i ≡ j

IsGoodRoom-mono : {n n' i : ℕ} {r : RoomInfo} → n ≤ n' → IsGoodRoom n i r → IsGoodRoom n' i r
IsGoodRoom-mono h g = record {
  keyed = g.keyed;
  below = omega arith;
  fits = g.fits;
  populated = g.populated;
}

pub Seated-insert :
    (m : Rooms) (k : ℕ) (r : RoomInfo) (p : String) (i : ℕ)
    → Seated (insert ℕ_discrete k r m) p i
    → ((i ≡ k) × (is_closed r ≡ false) × (has_member p r ≡ true)) ⊎ ((i ≢ k) × Seated m p i)
Seated-insert m k r p i s = elim (ℕ_discrete k i) [
  | yes e ↦
      let same_room : r ≡ s.room = ground (arith, lookup-insert ℕ_discrete i k r m) in
      inl (sym e, ap is_closed same_room ∙ s.active, ap (has_member p) same_room ∙ s.member)
  | no ne ↦ inr (
    λ e. ne (sym e),
    record {
      room = s.room;
      stored = ground (arith, lookup-insert ℕ_discrete i k r m);
      active = s.active;
      member = s.member;
    },
  )
]

module _ (next next' : ℕ) (m : Rooms) (k : ℕ) (r : RoomInfo) where
  -- A write of a good room whose members sit in no other open room keeps the table well formed.
  pub insert-RoomsInv :
      RoomsInv next m
      → next ≤ next'
      → IsGoodRoom next' k r
      → ((p : String) (j : ℕ) → is_closed r ≡ false → has_member p r ≡ true → Seated m p j → j ≡ k)
      → RoomsInv next' (insert ℕ_discrete k r m)
  insert-RoomsInv v h g alone = record { good = good; one_room = one_room }
    where
      good :
          (i : ℕ) (q : RoomInfo)
          → lookup ℕ_discrete i (insert ℕ_discrete k r m) ≡ some q
          → IsGoodRoom next' i q
      good i q e = elim (ℕ_discrete k i) [
        | yes eq ↦
            let same_room : r ≡ q = ground (arith, lookup-insert ℕ_discrete i k r m) in
            rw (← same_room, ← eq) g
        | no ne ↦ IsGoodRoom-mono h (v.good i q (ground (arith, lookup-insert ℕ_discrete i k r m)))
      ]

      one_room :
          (p : String) (i j : ℕ)
          → Seated (insert ℕ_discrete k r m) p i
          → Seated (insert ℕ_discrete k r m) p j
          → i ≡ j
      one_room p i j a b = elim (Seated-insert m k r p i a) [
        | inl (e, c, in_r) ↦ elim (Seated-insert m k r p j b) [
          | inl (f, _, _) ↦ e ∙ sym f
          | inr (_, b') ↦ e ∙ sym (alone p j c in_r b')
        ]
        | inr (_, a') ↦ elim (Seated-insert m k r p j b) [
          | inl (f, c, in_r) ↦ alone p i c in_r a' ∙ sym f
          | inr (_, b') ↦ v.one_room p i j a' b'
        ]
      ]

-- The search finds a room where the player sits.
pub find_active-Seated :
    (s : RoomMatchService) (p : String) (i : ℕ)
    → find_active_room_id_by_player_locked s p ≡ some i
    → Seated s.rooms p i
unfolding find_active_room_id_by_player_locked
find_active-Seated s p i h =
    let (r, stored, passes) = find_key_sound ℕ_discrete _ s.rooms i h in
    record { room = r; stored = stored; active = ground arith; member = ground arith }

-- Where it finds none, the player sits nowhere.
pub find_active-none :
    (s : RoomMatchService) (p : String) (i : ℕ)
    → find_active_room_id_by_player_locked s p ≡ none
    → ¬ Seated s.rooms p i
unfolding find_active_room_id_by_player_locked
find_active-none s p i h seat =
    let miss =
      find_key_complete ℕ_discrete (λ r. not (is_closed r) && has_member p r) s.rooms i seat.room h
        seat.stored in
    let active = seat.active in let member = seat.member in ground arith
