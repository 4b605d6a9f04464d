-- ===== src/Room/Reopening.antt =====
-- Leaving a closed room: `leaveRoom` has no guard on the state of the room, and recomputes it.
use red_culture_service.Common.{
  ℕ, ◌<◌, ◌≡◌, ◌≢◌, inl, inr, String, Bool, true, false, List, [], ◌∷◌, some, ℕ_discrete, arith,
  length, any_of, remove_if, Option-cases, any_of_sound, any_of_complete, In-remove_if_of,
  length-remove_if-lt, ◌==◌,
}
use red_culture_service.Common.Map.{lookup, lookup-insert}
use red_culture_service.Room.Types.{RoomInfo, RoomMember, RoomMatchService}
use red_culture_service.Room.Rooms.{
  is_closed, is_member, has_member, left_room, leave_found, leave_room,
}
use red_culture_service.Room.Seats.{Seated}
use red_culture_service.Room.Invariant.{HasGoodRooms}

other_stays :
    (p q : String) (ms : List RoomMember)
    → q ≢ p
    → any_of (is_member q) ms ≡ true
    → any_of (is_member q) (remove_if (is_member p) ms) ≡ true
other_stays p q ms ne h =
    let (m, i, is_q) = any_of_sound (is_member q) ms h in
    let not_p : is_member p m ≡ false = ground arith in
    any_of_complete (is_member q) m _ (In-remove_if_of (is_member p) m ms i not_p) is_q

leaver_goes :
    (p : String) (ms : List RoomMember)
    → any_of (is_member p) ms ≡ true
    → length (remove_if (is_member p) ms) < length ms
leaver_goes p ms h =
    let (m, i, is_p) = any_of_sound (is_member p) ms h in
    length-remove_if-lt (is_member p) m ms i is_p

any_of-length : (t : RoomMember → Bool) (ms : List RoomMember) → any_of t ms ≡ true → 0 < length ms
unfolding any_of
any_of-length t [] h = absurd (cc)
any_of-length t (m ∷ ms) h = omega arith

left_room-open :
    (r : RoomInfo) (p q : String) (now : ℕ)
    → any_of (is_member q) (remove_if (is_member p) r.members) ≡ true
    → (is_closed (left_room r p now) ≡ false) × (has_member q (left_room r p now) ≡ true)
unfolding left_room
left_room-open r p q now h = ground (arith, any_of-length _ _ h)

-- When a member leaves a closed room in which another member stays, the room is open again and the
-- other sits in it.
pub leave_room_reopens :
    (s : RoomMatchService) (i now : ℕ) (r : RoomInfo) (p q : String)
    → lookup ℕ_discrete i s.rooms ≡ some r
    → is_closed r ≡ true
    → has_member p r ≡ true
    → has_member q r ≡ true
    → q ≢ p
    → Seated (leave_room s i p now).0.rooms q i
unfolding leave_room leave_found
leave_room_reopens s i now r p q e c in_p in_q ne =
    let gone = leaver_goes p r.members in_p in
    let (act, member) = left_room-open r p q now (other_stays p q r.members ne in_q) in
    let tested : (length (remove_if (is_member p) r.members) == length r.members) ≡ false =
      ground arith in
    rw (e, leave_room, tested)
      (record {
        room = left_room r p now;
        stored = ground (arith, lookup-insert ℕ_discrete i i (left_room r p now) s.rooms);
        active = act;
        member = member;
      })

stays-elsewhere :
    (s : RoomMatchService) (i j now : ℕ) (p q : String)
    → j ≢ i
    → Seated s.rooms q j
    → Seated (leave_room s i p now).0.rooms q j
unfolding leave_room leave_found
stays-elsewhere s i j now p q ne seat = record {
  room = seat.room;
  stored = elim (Option-cases (lookup ℕ_discrete i s.rooms)) [
    | inl e ↦ rw (e, leave_room) seat.stored
    | inr (r, e) ↦
        let old = seat.stored in
        ground (arith, lookup-insert ℕ_discrete j i (left_room r p now) s.rooms)
  ];
  active = seat.active;
  member = seat.member;
}

-- Where the one who stays in the closed room has meanwhile a seat in another open room, the room
-- table is not well formed after the departure: that player sits in two open rooms.
pub leave_room_doubles :
    (s : RoomMatchService) (i j now : ℕ) (r : RoomInfo) (p q : String)
    → lookup ℕ_discrete i s.rooms ≡ some r
    → is_closed r ≡ true
    → has_member p r ≡ true
    → has_member q r ≡ true
    → q ≢ p
    → Seated s.rooms q j
    → j ≢ i
    → ¬ HasGoodRooms (leave_room s i p now).0
leave_room_doubles s i j now r p q e c in_p in_q ne elsewhere other v = other (
    v.one_room q j i (stays-elsewhere s i j now p q other elsewhere)
      (leave_room_reopens s i now r p q e c in_p in_q ne))
