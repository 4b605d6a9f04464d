-- ===== src/Room/Seating.antt =====
-- The room operations keep the match queue in step: who takes a seat gives up the ticket.
use red_culture_service.Common.{
  ℕ, ◌≡◌, inl, inr, String, Bool, true, false, none, some, ℕ_discrete, str_dec, length, remove_if,
  Bool-cases, Option-cases, is_empty, leb, sym, ◌∙◌, subst, ◌==◌, ◌⊎◌,
}
use red_culture_service.Common.Map.{lookup, insert}
use red_culture_service.Room.Types.{PlayerRef, RoomOptions, RoomInfo, RoomMatchService}
use red_culture_service.Room.Rooms.{
  is_closed, is_member, has_member, remove_player_ticket_locked, new_room, store_new_room,
  find_active_room_id_by_player_locked, create_room_locked, join_found, join_room, in_another_room,
  left_room, leave_found, leave_room, close_room, set_ready_found, set_ready,
}
use red_culture_service.Room.Seats.{Seated, Seated-insert}
use red_culture_service.Room.Invariant.{any_of-one, remove_ticket-rooms}
use red_culture_service.Room.Tickets.{QueueInv}
use red_culture_service.Room.Membership.{joined, member-of-joined, left_room-sub, mark_ready-same}
use red_culture_service.Room.Queue.{
  HasGoodQueue, reseat-QueueInv, remove_ticket-QueueInv, remove_ticket_gone,
}

-- A room whose further members hold no ticket.
seat-Queue :
    (s : RoomMatchService) (i : ℕ) (r : RoomInfo)
    → HasGoodQueue s
    → ((p : String)
        → is_closed r ≡ false
        → has_member p r ≡ true
        → Seated s.rooms p i ⊎ (lookup str_dec p s.player_tickets ≡ none))
    → QueueInv s.next_ticket_id (insert ℕ_discrete i r s.rooms) s.match_queue s.player_tickets
seat-Queue s i r v free =
    reseat-QueueInv s.next_ticket_id s.rooms (insert ℕ_discrete i r s.rooms) s.match_queue
      s.player_tickets v
      λ p j seat. elim (Seated-insert s.rooms i r p j seat) [
        | inl (e, act, member) ↦ elim (free p act member) [
          | inl old ↦ inl (i, old)
          | inr no_ticket ↦ inr no_ticket
        ]
        | inr (_, old) ↦ inl (j, old)
      ]

-- A stored room replaced by one with no further members.
replace-Queue :
    (s : RoomMatchService) (i : ℕ) (r r' : RoomInfo)
    → HasGoodQueue s
    → lookup ℕ_discrete i s.rooms ≡ some r
    → ((p : String)
        → is_closed r' ≡ false
        → has_member p r' ≡ true
        → (is_closed r ≡ false) × (has_member p r ≡ true))
    → HasGoodQueue (record s { rooms = insert ℕ_discrete i r' s.rooms })
replace-Queue s i r r' v e sub = seat-Queue s i r' v λ p act member.
    let (open_r, old) = sub p act member in
    inl (record { room = r; stored = e; active = open_r; member = old })

store_new_room-Queue :
    (s : RoomMatchService) (host : PlayerRef) (options : RoomOptions) (now : ℕ)
    → HasGoodQueue s
    → lookup str_dec host.player_id s.player_tickets ≡ none
    → HasGoodQueue (store_new_room s host options now).0
unfolding store_new_room new_room
store_new_room-Queue s host options now v e = seat-Queue s s.next_room_id _ v λ p _ member.
    inr (subst (λ q. lookup str_dec q s.player_tickets ≡ none) (any_of-one host now member) e)

pub create_room_locked-Queue :
    (s : RoomMatchService) (host : PlayerRef) (options : RoomOptions) (now : ℕ)
    → HasGoodQueue s
    → HasGoodQueue (create_room_locked s host options now).0
unfolding create_room_locked
create_room_locked-Queue s host options now v = elim (Bool-cases (is_empty host.player_id)) [
  | inl e ↦ rw e v
  | inr e ↦ elim (Bool-cases (options.max_players == 0)) [
    | inl z ↦ rw (e, z) v
    | inr z ↦ elim (Option-cases (find_active_room_id_by_player_locked s host.player_id)) [
      | inr (i, found) ↦ rw (e, z, found) v
      | inl none_found ↦
          rw (e, z, none_found)
            (store_new_room-Queue (remove_player_ticket_locked s host.player_id) host options now
              (remove_ticket-QueueInv s host.player_id v) (remove_ticket_gone s host.player_id))
    ]
  ]
]

joined-Queue :
    (s : RoomMatchService) (i : ℕ) (r : RoomInfo) (player : PlayerRef) (now : ℕ)
    → HasGoodQueue s
    → lookup ℕ_discrete i s.rooms ≡ some r
    → is_closed r ≡ false
    → let s' = remove_player_ticket_locked s player.player_id in
      QueueInv s'.next_ticket_id
        (insert ℕ_discrete i (joined r player now) s.rooms)
        s'.match_queue
        s'.player_tickets
joined-Queue s i r player now v e c =
    let s' = remove_player_ticket_locked s player.player_id in
    let (kept, _, _) = remove_ticket-rooms s player.player_id in
    subst
      (λ m.
        QueueInv s'.next_ticket_id (insert ℕ_discrete i (joined r player now) m) s'.match_queue
          s'.player_tickets)
      kept
      (seat-Queue s' i (joined r player now) (remove_ticket-QueueInv s player.player_id v)
        λ p _ member. elim (member-of-joined r player now p member) [
          | inl old ↦ inl (record { room = r; stored = rw kept e; active = c; member = old })
          | inr is_p ↦ inr (
              subst (λ q. lookup str_dec q s'.player_tickets ≡ none) is_p
                (remove_ticket_gone s player.player_id))
        ])

join_found-Queue :
    (s : RoomMatchService) (i : ℕ) (r : RoomInfo) (player : PlayerRef) (now : ℕ)
    → HasGoodQueue s
    → lookup ℕ_discrete i s.rooms ≡ some r
    → HasGoodQueue (join_found s i r player now).0
unfolding join_found
join_found-Queue s i r player now v e = elim (Bool-cases (is_closed r)) [
  | inl c ↦ rw c v
  | inr c ↦ elim (Bool-cases (has_member player.player_id r)) [
    | inl m ↦ rw (c, m) v
    | inr m ↦
        elim (Bool-cases
          (in_another_room (find_active_room_id_by_player_locked s player.player_id) i)) [
            | inl a ↦ rw (c, m, a) v
            | inr a ↦ elim (Bool-cases (leb r.max_players (length r.members))) [
              | inl f ↦ rw (c, m, a, f) v
              | inr f ↦ rw (c, m, a, f) (joined-Queue s i r player now v e c)
            ]
          ]
  ]
]

pub join_room-Queue :
    (s : RoomMatchService) (i : ℕ) (player : PlayerRef) (now : ℕ)
    → HasGoodQueue s
    → HasGoodQueue (join_room s i player now).0
unfolding join_room
join_room-Queue s i player now v = elim (Bool-cases (is_empty player.player_id)) [
  | inl e ↦ rw e v
  | inr e ↦ elim (Option-cases (lookup ℕ_discrete i s.rooms)) [
    | inl missing ↦ rw (e, missing, join_room) v
    | inr (r, found) ↦ rw (e, found, join_room) (join_found-Queue s i r player now v found)
  ]
]

leave_found-Queue :
    (s : RoomMatchService) (i : ℕ) (r : RoomInfo) (player_id : String) (now : ℕ)
    → HasGoodQueue s
    → lookup ℕ_discrete i s.rooms ≡ some r
    → is_closed r ≡ false
    → HasGoodQueue (leave_found s i r player_id now).0
unfolding leave_found
leave_found-Queue s i r player_id now v e c =
    elim (Bool-cases (length (remove_if (is_member player_id) r.members) == length r.members)) [
      | inl absent ↦ rw absent v
      | inr gone ↦ rw gone (
          replace-Queue s i r (left_room r player_id now) v e
            (λ p _ m. left_room-sub r player_id now c p m))
    ]

pub leave_room-Queue :
    (s : RoomMatchService) (i : ℕ) (player_id : String) (now : ℕ)
    → HasGoodQueue s
    → ((r : RoomInfo) → lookup ℕ_discrete i s.rooms ≡ some r → is_closed r ≡ false)
    → HasGoodQueue (leave_room s i player_id now).0
unfolding leave_room
leave_room-Queue s i player_id now v open_room = elim (Option-cases (lookup ℕ_discrete i s.rooms)) [
  | inl missing ↦ rw (missing, leave_room) v
  | inr (r, found) ↦
      rw (found, leave_room) (leave_found-Queue s i r player_id now v found (open_room r found))
]

pub close_room-Queue :
    (s : RoomMatchService) (i : ℕ) (now : ℕ) → HasGoodQueue s → HasGoodQueue (close_room s i now).0
unfolding close_room
close_room-Queue s i now v = elim (Option-cases (lookup ℕ_discrete i s.rooms)) [
  | inl missing ↦ rw (missing, close_room) v
  | inr (r, found) ↦ rw (found, close_room) (replace-Queue s i r _ v found (λ p act _. absurd (cc)))
]

pub set_ready-Queue :
    (s : RoomMatchService) (i : ℕ) (player_id : String) (ready : Bool) (now : ℕ)
    → HasGoodQueue s
    → HasGoodQueue (set_ready s i player_id ready now).0
unfolding set_ready set_ready_found
set_ready-Queue s i player_id ready now v = elim (Option-cases (lookup ℕ_discrete i s.rooms)) [
  | inl missing ↦ rw (missing, set_ready) v
  | inr (r, found) ↦ elim (Bool-cases (is_closed r)) [
    | inl c ↦ rw (found, set_ready, c) v
    | inr c ↦ elim (Bool-cases (has_member player_id r)) [
      | inr m ↦ rw (found, set_ready, c, m) v
      | inl m ↦
          rw (found, set_ready, c, m)
            (replace-Queue s i r _ v found
              (λ p _ member. (c, sym (mark_ready-same p player_id ready r.members).0 ∙ member)))
    ]
  ]
]
