-- ===== src/Room/Membership.antt =====
-- Joining, leaving, closing and getting ready keep the room table well formed; leaving a closed
-- room is the exception.
use red_culture_service.Common.{
  ℕ, ◌≤◌, ◌≡◌, inl, inr, refl, String, Bool, true, false, List, [], ◌∷◌, ◌++◌, some, ℕ_discrete,
  arith, length, any_of, remove_if, Bool-cases, Option-cases, length-append, any_of-append,
  length-remove_if-le, is_empty, leb, sym, ◌∙◌, subst, ◌==◌, ◌⊎◌,
}
use red_culture_service.Common.Map.{lookup, insert}
use red_culture_service.Room.Types.{PlayerRef, RoomInfo, RoomMember, RoomMatchService, closed}
use red_culture_service.Room.Rooms.{
  is_closed, is_member, has_member, member_of, update_room_state_locked, in_another_room,
  find_active_room_id_by_player_locked, join_found, join_room, left_room, leave_found, leave_room,
  close_room, mark_ready, set_ready_found, set_ready,
}
use red_culture_service.Room.Seats.{
  Seated, IsGoodRoom, RoomsInv, insert-RoomsInv, find_active-Seated, find_active-none,
}
use red_culture_service.Room.Invariant.{
  HasGoodRooms, remove_ticket-rooms, update_state_fields, any_of-one, replace-Inv,
}

any_of-remove_if :
    (p q : RoomMember → Bool) (ms : List RoomMember)
    → any_of p (remove_if q ms) ≡ true
    → any_of p ms ≡ true
unfolding any_of remove_if
any_of-remove_if p q [] h = h
any_of-remove_if p q (m ∷ ms) h = ground (arith, any_of-remove_if p q ms)

pub mark_ready-same :
    (p q : String) (ready : Bool) (ms : List RoomMember)
    → (any_of (is_member p) (mark_ready q ready ms) ≡ any_of (is_member p) ms)
      × (length (mark_ready q ready ms) ≡ length ms)
unfolding any_of mark_ready
mark_ready-same p q ready [] = (refl, refl)
mark_ready-same p q ready (m ∷ ms) = ground (arith, mark_ready-same p q ready ms)

-- Nobody who passes the guards of `joinRoom` sits in another open room.
joiner-alone :
    (s : RoomMatchService) (i j : ℕ) (player_id : String)
    → HasGoodRooms s
    → in_another_room (find_active_room_id_by_player_locked s player_id) i ≡ false
    → Seated s.rooms player_id j
    → j ≡ i
joiner-alone s i j p v h seat = elim (Option-cases (find_active_room_id_by_player_locked s p)) [
  | inl e ↦ absurd (find_active-none s p j e seat)
  | inr (c, e) ↦
      let there : Seated s.rooms p c = find_active-Seated s p c e in
      v.one_room p j c seat there ∙ ground arith
]

joined_fits :
    (r : RoomInfo) (m : RoomMember)
    → leb r.max_players (length r.members) ≡ false
    → length (r.members ++ (m ∷ [])) ≤ r.max_players
joined_fits r m h = ground (arith, length-append r.members (m ∷ []))

abbrev pub joined : RoomInfo → PlayerRef → ℕ → RoomInfo
joined r player now =
    update_room_state_locked (record r { members = r.members ++ (member_of player now ∷ []) }) now

pub member-of-joined :
    (r : RoomInfo) (player : PlayerRef) (now : ℕ) (p : String)
    → has_member p (joined r player now) ≡ true
    → (has_member p r ≡ true) ⊎ (player.player_id ≡ p)
unfolding update_room_state_locked
member-of-joined r player now p h = elim (Bool-cases (has_member p r)) [
  | inl old ↦ inl old
  | inr new ↦ inr (
      any_of-one player now
        (ground (arith, any_of-append (is_member p) r.members (member_of player now ∷ []))))
]

joined-Inv :
    (s : RoomMatchService) (i : ℕ) (r : RoomInfo) (player : PlayerRef) (now : ℕ)
    → HasGoodRooms s
    → lookup ℕ_discrete i s.rooms ≡ some r
    → is_closed r ≡ false
    → in_another_room (find_active_room_id_by_player_locked s player.player_id) i ≡ false
    → leb r.max_players (length r.members) ≡ false
    → RoomsInv s.next_room_id (insert ℕ_discrete i (joined r player now) s.rooms)
joined-Inv s i r player now v e c a f =
    let g = v.good i r e in
    let (members, id, cap, filled) =
      update_state_fields (record r { members = r.members ++ (member_of player now ∷ []) }) now in
    insert-RoomsInv s.next_room_id s.next_room_id s.rooms i (joined r player now) v (omega arith)
      (record {
        keyed = id ∙ g.keyed;
        below = g.below;
        fits = λ _. rw (members, cap) (joined_fits r (member_of player now) f);
        populated = λ act. rw members (filled act);
      })
      λ p j _ member seat. elim (member-of-joined r player now p member) [
        | inl old ↦
            v.one_room p j i seat (record { room = r; stored = e; active = c; member = old })
        | inr is_p ↦
            joiner-alone s i j player.player_id v a
              (subst (λ q. Seated s.rooms q j) (sym is_p) seat)
      ]

join_found-Inv :
    (s : RoomMatchService) (i : ℕ) (r : RoomInfo) (player : PlayerRef) (now : ℕ)
    → HasGoodRooms s
    → lookup ℕ_discrete i s.rooms ≡ some r
    → HasGoodRooms (join_found s i r player now).0
unfolding join_found
join_found-Inv s i r player now v e = elim (Bool-cases (is_closed r)) [
  | inl c ↦ rw c v
  | inr c ↦ elim (Bool-cases (has_member player.player_id r)) [
    | inl m ↦ rw (c, m) v
    | inr m ↦
        elim (Bool-cases
          (in_another_room (find_active_room_id_by_player_locked s player.player_id) i)) [
            | inl a ↦ rw (c, m, a) v
            | inr a ↦ elim (Bool-cases (leb r.max_players (length r.members))) [
              | inl f ↦ rw (c, m, a, f) v
              | inr f ↦
                  rw (c, m, a, f, (remove_ticket-rooms s player.player_id).1)
                    (joined-Inv s i r player now v e c a f)
            ]
          ]
  ]
]

-- `joinRoom` keeps the table well formed: nobody is let in beyond the capacity, or into a second
-- open room.
pub join_room-Inv :
    (s : RoomMatchService) (i : ℕ) (player : PlayerRef) (now : ℕ)
    → HasGoodRooms s
    → HasGoodRooms (join_room s i player now).0
unfolding join_room
join_room-Inv s i player now v = elim (Bool-cases (is_empty player.player_id)) [
  | inl e ↦ rw e v
  | inr e ↦ elim (Option-cases (lookup ℕ_discrete i s.rooms)) [
    | inl missing ↦ rw (e, missing, join_room) v
    | inr (r, found) ↦ rw (e, found, join_room) (join_found-Inv s i r player now v found)
  ]
]

pub left_room-sub :
    (r : RoomInfo) (player_id : String) (now : ℕ)
    → is_closed r ≡ false
    → (p : String) → has_member p (left_room r player_id now) ≡ true
    → (is_closed r ≡ false) × (has_member p r ≡ true)
unfolding left_room
left_room-sub r player_id now c p h =
    (c, any_of-remove_if (is_member p) (is_member player_id) r.members (ground arith))

left_room-good :
    (next i : ℕ) (r : RoomInfo) (player_id : String) (now : ℕ)
    → is_closed r ≡ false
    → IsGoodRoom next i r
    → IsGoodRoom next i (left_room r player_id now)
unfolding left_room
left_room-good next i r player_id now c g = record {
  keyed = ground arith;
  below = g.below;
  fits = λ _. ground (arith, g.fits c, length-remove_if-le (is_member player_id) r.members);
  populated = λ act. ground arith;
}

leave_found-Inv :
    (s : RoomMatchService) (i : ℕ) (r : RoomInfo) (player_id : String) (now : ℕ)
    → HasGoodRooms s
    → lookup ℕ_discrete i s.rooms ≡ some r
    → is_closed r ≡ false
    → HasGoodRooms (leave_found s i r player_id now).0
unfolding leave_found
leave_found-Inv s i r player_id now v e c =
    elim (Bool-cases (length (remove_if (is_member player_id) r.members) == length r.members)) [
      | inl absent ↦ rw absent v
      | inr gone ↦ rw gone (
          replace-Inv s i r (left_room r player_id now) v e
            (left_room-good s.next_room_id i r player_id now c (v.good i r e))
            (λ p _ m. left_room-sub r player_id now c p m))
    ]

-- `leaveRoom` keeps the table well formed where the room is open.
pub leave_room-Inv :
    (s : RoomMatchService) (i : ℕ) (player_id : String) (now : ℕ)
    → HasGoodRooms s
    → ((r : RoomInfo) → lookup ℕ_discrete i s.rooms ≡ some r → is_closed r ≡ false)
    → HasGoodRooms (leave_room s i player_id now).0
unfolding leave_room
leave_room-Inv s i player_id now v open_room = elim (Option-cases (lookup ℕ_discrete i s.rooms)) [
  | inl missing ↦ rw (missing, leave_room) v
  | inr (r, found) ↦
      rw (found, leave_room) (leave_found-Inv s i r player_id now v found (open_room r found))
]

pub close_room-Inv :
    (s : RoomMatchService) (i : ℕ) (now : ℕ) → HasGoodRooms s → HasGoodRooms (close_room s i now).0
unfolding close_room
close_room-Inv s i now v = elim (Option-cases (lookup ℕ_discrete i s.rooms)) [
  | inl missing ↦ rw (missing, close_room) v
  | inr (r, found) ↦
      rw (found, close_room)
        (replace-Inv s i r (record r { state = closed; updated_at = now }) v found
          (record {
            keyed = (v.good i r found).keyed;
            below = (v.good i r found).below;
            fits = λ act. absurd (cc);
            populated = λ act. absurd (cc);
          })
          (λ p act _. absurd (cc)))
]

set_ready_found-Inv :
    (s : RoomMatchService) (i : ℕ) (r : RoomInfo) (player_id : String) (ready : Bool) (now : ℕ)
    → HasGoodRooms s
    → lookup ℕ_discrete i s.rooms ≡ some r
    → HasGoodRooms (set_ready_found s i r player_id ready now).0
unfolding set_ready_found
set_ready_found-Inv s i r player_id ready now v e = elim (Bool-cases (is_closed r)) [
  | inl c ↦ rw c v
  | inr c ↦ elim (Bool-cases (has_member player_id r)) [
    | inr m ↦ rw (c, m) v
    | inl m ↦
        let g = v.good i r e in
        let kept = λ (p : String). mark_ready-same p player_id ready r.members in
        rw (c, m)
          (replace-Inv s i r _ v e
            (record {
              keyed = g.keyed;
              below = g.below;
              fits = λ act. rw (kept player_id).1 (g.fits act);
              populated = λ act. rw (kept player_id).1 (g.populated act);
            })
            (λ p _ member. (c, sym (kept p).0 ∙ member)))
  ]
]

pub set_ready-Inv :
    (s : RoomMatchService) (i : ℕ) (player_id : String) (ready : Bool) (now : ℕ)
    → HasGoodRooms s
    → HasGoodRooms (set_ready s i player_id ready now).0
unfolding set_ready
set_ready-Inv s i player_id ready now v = elim (Option-cases (lookup ℕ_discrete i s.rooms)) [
  | inl missing ↦ rw (missing, set_ready) v
  | inr (r, found) ↦ rw (found, set_ready) (set_ready_found-Inv s i r player_id ready now v found)
]
