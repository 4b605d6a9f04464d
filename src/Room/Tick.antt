-- ===== src/Room/Tick.antt =====
-- `tick`: every round keeps the service well formed, the loop ends within its fuel, and where it
-- ends no bucket holds a full group.
use red_culture_service.Common.{
  ℕ, ◌+◌, ◌≤◌, ◌<◌, ◌≡◌, inl, inr, refl, String, true, false, List, [], ◌∷◌, none, arith, length,
  any_of, Bool-cases, Option-cases, ◌⊎◌, In, ltb, ◌==◌, ◌∙◌, ap, subst, str_dec, u64_mod,
  inc_u64_lem, any_of_complete, In-remove_if, length-remove_if-lt,
}
use red_culture_service.Common.Map.{lookup}
use red_culture_service.Room.Types.{RoomInfo, MatchTicket, RoomMatchService}
use red_culture_service.Room.Rooms.{find_active_room_id_by_player_locked}
use red_culture_service.Room.Matching.{
  ticket_player, in_group, find_group, no_group, created, take_group, round_of, match_round,
  open_group_room,
}
use red_culture_service.Room.Seats.{Seated, find_active-Seated}
use red_culture_service.Room.Invariant.{HasGoodRooms}
use red_culture_service.Room.Tickets.{of_player, lookup-erase_players}
use red_culture_service.Room.Queue.{HasGoodQueue, reseat-QueueInv, take_group-QueueInv}
use red_culture_service.Room.Groups.{wanted, is_complete}
use red_culture_service.Room.Opening.{IsGroup, find_group-IsGroup, opened, open_group_room-opened}
use red_culture_service.Room.Filled.{
  IsRoomOf, opened_fields, opened-IsRoomOf, Seated-opened, opened-Rooms,
}

-- Rooms, queue and ticket table are well formed.
pub record Inv (s : RoomMatchService) : Type 0 where
  pub rooms : HasGoodRooms s
  pub queue : HasGoodQueue s

-- The room seats a complete group of the queue.
pub record IsMatched (q : List MatchTicket) (now : ℕ) (r : RoomInfo) : Type 0 where
  pub first : MatchTicket
  pub others : List MatchTicket
  pub group : IsGroup q first others
  pub complete : length (first ∷ others) ≡ wanted first
  pub room : IsRoomOf first others now r

not_ltb : (a b : ℕ) → ltb a b ≡ false → b ≤ a
not_ltb a b h = ground arith

-- What one round does to a well-formed service: nothing, or a new room for a complete group.
abbrev pub RoundOk : RoomMatchService → ℕ → Type 0
RoundOk s now =
    ((match_round s now ≡ no_group)
      × (is_complete (find_group s.match_queue s.match_queue []) ≡ false))
    ⊎ ((s' : RoomMatchService) × (r : RoomInfo) × (match_round s now ≡ created s' r)
        × Inv s'
        × (length s'.match_queue < length s.match_queue)
        × (s'.next_room_id ≡ s.next_room_id + 1)
        × ((t : MatchTicket) → In t s'.match_queue → In t s.match_queue)
        × IsMatched s.match_queue now r)

module _ (s : RoomMatchService) (f : MatchTicket) (others : List MatchTicket) (now : ℕ) (v : Inv s)
    (h : s.next_room_id + 1 < u64_mod) (g : IsGroup s.match_queue f others)
    (full : length (f ∷ others) ≡ wanted f) where
  taken : RoomMatchService
  taken = take_group s (f ∷ others)

  taken_free : (t : MatchTicket) (j : ℕ) → In t (f ∷ others) → ¬ Seated s.rooms (ticket_player t) j
  taken_free t j i = v.queue.seatless (ticket_player t) t.id j (v.queue.held t (g.waits t i))

  taken_lookup :
      (p : String)
      → any_of (of_player p) (f ∷ others) ≡ true
      → lookup str_dec p taken.player_tickets ≡ none
  unfolding taken take_group
  taken_lookup p e = lookup-erase_players p (f ∷ others) s.player_tickets ∙ rw e

  not_active : find_active_room_id_by_player_locked taken (ticket_player f) ≡ none
  not_active = elim (Option-cases (find_active_room_id_by_player_locked taken (ticket_player f))) [
    | inl e ↦ e
    | inr (j, e) ↦ absurd (
        taken_free f j (inl refl)
          (unfold taken take_group in find_active-Seated taken (ticket_player f) j e))
  ]

  own_player : any_of (of_player (ticket_player f)) (f ∷ others) ≡ true
  own_player =
      any_of_complete (of_player (ticket_player f)) f (f ∷ others) (inl refl) (ground arith)

  round-created :
      open_group_room taken f others now
      ≡ created (opened taken f others now).0 (opened taken f others now).1
  round-created =
      let (named, pos) = v.queue.served f (g.waits f (inl refl)) in
      open_group_room-opened taken f others now named pos not_active
        (taken_lookup (ticket_player f) own_player)

  opened-Inv : Inv (opened taken f others now).0
  unfolding taken take_group
  opened-Inv =
      let (_, _, tickets, queue, table, _) = opened_fields taken f others now in
      record {
        rooms = opened-Rooms taken f others now v.rooms h full taken_free;
        queue =
            rw (tickets, queue, table)
              (reseat-QueueInv s.next_ticket_id s.rooms (opened taken f others now).0.rooms
                taken.match_queue taken.player_tickets
                (take_group-QueueInv s (f ∷ others) v.queue g.waits)
                (λ p j seat.
                  elim (Seated-opened taken f others now v.rooms h full taken_free p j seat) [
                    | inl (_, of_group) ↦ inr (taken_lookup p of_group)
                    | inr old ↦ inl (j, old)
                  ]));
      }

  opened_shorter : length (opened taken f others now).0.match_queue < length s.match_queue
  unfolding taken take_group
  opened_shorter = rw ((opened_fields taken f others now).3) (
      length-remove_if-lt (in_group (f ∷ others)) f s.match_queue (g.waits f (inl refl)) (
        any_of_complete (λ (m : MatchTicket). m.id == f.id) f (f ∷ others) (inl refl)
          (ground arith)))

  opened_next : (opened taken f others now).0.next_room_id ≡ s.next_room_id + 1
  unfolding taken take_group
  opened_next = (opened_fields taken f others now).1 ∙ inc_u64_lem s.next_room_id h

  opened_sub :
      (t : MatchTicket) → In t (opened taken f others now).0.match_queue → In t s.match_queue
  unfolding taken take_group
  opened_sub t i =
      (In-remove_if (in_group (f ∷ others)) t s.match_queue
        (subst (λ l. In t l) (opened_fields taken f others now).3 i)).0

  complete-ok :
      match_round s now ≡ open_group_room (take_group s (f ∷ others)) f others now → RoundOk s now
  unfolding taken
  complete-ok m = inr (
    (opened taken f others now).0,
    (opened taken f others now).1,
    m ∙ round-created,
    opened-Inv,
    opened_shorter,
    opened_next,
    opened_sub,
    record {
      first = f;
      others = others;
      group = g;
      complete = full;
      room = opened-IsRoomOf taken f others now full;
    },
  )

round_of-ok :
    (s : RoomMatchService) (now : ℕ) (g : List MatchTicket)
    → Inv s
    → s.next_room_id + 1 < u64_mod
    → find_group s.match_queue s.match_queue [] ≡ g
    → match_round s now ≡ round_of s g now
    → RoundOk s now
unfolding round_of
round_of-ok s now [] v h e m = inl (m, ap is_complete e)
round_of-ok s now (f ∷ others) v h e m = elim (Bool-cases (ltb (length (f ∷ others)) (wanted f))) [
  | inl few ↦ inl (m ∙ ground arith, ap is_complete e ∙ ground arith)
  | inr enough ↦
      let g = find_group-IsGroup s.match_queue f others (λ t i. (v.queue.served t i).1) e in
      complete-ok s f others now v h g (omega (arith, g.bounded, not_ltb _ _ enough))
        (m ∙ rw enough)
]

pub match_round-ok :
    (s : RoomMatchService) (now : ℕ) → Inv s → s.next_room_id + 1 < u64_mod → RoundOk s now
unfolding match_round
match_round-ok s now v h = round_of-ok s now _ v h refl refl
