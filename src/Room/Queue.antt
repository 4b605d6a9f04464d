-- ===== src/Room/Queue.antt =====
-- The operations on the match queue keep queue and ticket table in step.
use red_culture_service.Common.{
  ℕ, suc, ◌+◌, ◌<◌, ◌≡◌, inl, inr, refl, String, false, List, [], ◌∷◌, none, some, str_dec, arith,
  any_of, remove_if, keep_if, find_if, Bool-cases, Option-cases, sym, subst, ap, ◌⊎◌, In,
  In-keep_if, In-keep_if_of, In-append, In-append_left, In-append_right, any_of_sound,
  any_of_complete, find_if_sound, ite, is_empty, is_some, u64_mod, inc_u64_lem, ◌==◌,
}
use red_culture_service.Common.Map.{lookup, insert, erase, lookup-erase, lookup-insert}
use red_culture_service.Room.Types.{MatchTicket, MatchRequest, RoomMatchService}
use red_culture_service.Room.Rooms.{
  remove_player_ticket_locked, find_active_room_id_by_player_locked,
}
use red_culture_service.Room.Matching.{
  ticket_player, erase_ticket, queue_ticket, enqueue_match, cancel_match, cancel_match_by_player,
  timed_out, expire, in_group, take_group,
}
use red_culture_service.Room.Seats.{Seated, Rooms, find_active-none}
use red_culture_service.Room.Tickets.{
  Rising, Rising-single, Rising-append, lookup-erase_players, QueueInv, drop-QueueInv,
}

-- The queue of a service is in step with its ticket table and its rooms.
abbrev pub HasGoodQueue : RoomMatchService → Type 0
HasGoodQueue s = QueueInv s.next_ticket_id s.rooms s.match_queue s.player_tickets

-- A change of the rooms that seats nobody who waits.
pub reseat-QueueInv :
    (next : ℕ) (rooms rooms' : Rooms) (q : List MatchTicket) (m : List (String × ℕ))
    → QueueInv next rooms q m
    → ((p : String) (j : ℕ)
        → Seated rooms' p j
        → ((k : ℕ) × Seated rooms p k) ⊎ (lookup str_dec p m ≡ none))
    → QueueInv next rooms' q m
reseat-QueueInv next rooms rooms' q m v seats = record {
  rising = v.rising;
  below = v.below;
  held = v.held;
  waiting = v.waiting;
  seatless = λ p i j e seat. elim (seats p j seat) [
    | inl (k, old) ↦ v.seatless p i k e old
    | inr gone ↦ cc
  ];
  served = v.served;
}

-- The ticket of one player goes, from the queue and from the table.
one_ticket-QueueInv :
    (next : ℕ) (rooms : Rooms) (q : List MatchTicket) (m : List (String × ℕ)) (p : String)
    (t : MatchTicket)
    → QueueInv next rooms q m
    → In t q
    → ticket_player t ≡ p
    → QueueInv next rooms (remove_if (λ (u : MatchTicket). u.id == t.id) q) (erase str_dec p m)
unfolding any_of
one_ticket-QueueInv next rooms q m p t v here player =
    drop-QueueInv next rooms q m (erase str_dec p m) (t ∷ []) (λ u. u.id == t.id) v
      (λ u i. elim i [ inl e ↦ subst (λ x. In x q) e here | inr i' ↦ absurd i' ])
      (λ r. ground (arith, lookup-erase str_dec r p m)) (λ u i e. (t, inl refl, ground arith))
      (λ u w i e j. elim j [
        | inl f ↦ ground (arith, ap (λ (x : MatchTicket). x.id) f)
        | inr j' ↦ absurd j'
      ])

pub remove_ticket-QueueInv :
    (s : RoomMatchService) (p : String)
    → HasGoodQueue s
    → HasGoodQueue (remove_player_ticket_locked s p)
unfolding remove_player_ticket_locked
remove_ticket-QueueInv s p v = elim (Option-cases (lookup str_dec p s.player_tickets)) [
  | inl e ↦ rw (e, remove_player_ticket_locked) v
  | inr (i, e) ↦
      let (t, here, id, player) = v.waiting p i e in
      rw (e, remove_player_ticket_locked, ← id)
        (one_ticket-QueueInv s.next_ticket_id s.rooms s.match_queue s.player_tickets p t v here
          player)
]

-- Afterwards the player holds no ticket.
pub remove_ticket_gone :
    (s : RoomMatchService) (p : String)
    → lookup str_dec p (remove_player_ticket_locked s p).player_tickets ≡ none
unfolding remove_player_ticket_locked
remove_ticket_gone s p = ground (arith, lookup-erase str_dec p p s.player_tickets)

pub cancel_match_by_player-QueueInv :
    (s : RoomMatchService) (p : String)
    → HasGoodQueue s
    → HasGoodQueue (cancel_match_by_player s p).0
unfolding cancel_match_by_player
cancel_match_by_player-QueueInv s p v =
    elim (Bool-cases (is_some (lookup str_dec p s.player_tickets))) [
      | inl e ↦ rw e (remove_ticket-QueueInv s p v)
      | inr e ↦ rw e v
    ]

none_left :
    (i lo : ℕ) (q : List MatchTicket)
    → Rising lo q
    → i < lo
    → remove_if (λ (u : MatchTicket). u.id == i) q ≡ q
unfolding remove_if
none_left i lo [] h l = refl
none_left i lo (t ∷ q) h l = ground (arith, none_left i (suc t.id) q h.1)

-- In a rising queue the first ticket with an id is the only one.
erase_ticket-eq-remove_if :
    (i lo : ℕ) (q : List MatchTicket)
    → Rising lo q
    → erase_ticket i q ≡ remove_if (λ (u : MatchTicket). u.id == i) q
unfolding erase_ticket remove_if
erase_ticket-eq-remove_if i lo [] h = refl
erase_ticket-eq-remove_if i lo (t ∷ q) h =
    ground (arith, none_left i (suc t.id) q h.1, erase_ticket-eq-remove_if i (suc t.id) q h.1)

pub cancel_match-QueueInv :
    (s : RoomMatchService) (i : ℕ) → HasGoodQueue s → HasGoodQueue (cancel_match s i).0
unfolding cancel_match
cancel_match-QueueInv s i v =
    elim (Option-cases (find_if (λ (t : MatchTicket). t.id == i) s.match_queue)) [
      | inl e ↦ rw (e, cancel_match) v
      | inr (t, e) ↦
          let (here, id) = find_if_sound (λ (t : MatchTicket). t.id == i) s.match_queue t e in
          let same_id : i ≡ t.id = ground arith in
          rw (e, cancel_match, erase_ticket-eq-remove_if i 0 s.match_queue v.rising)
            (rw same_id (
              one_ticket-QueueInv s.next_ticket_id s.rooms s.match_queue s.player_tickets
                (ticket_player t) t v here refl))
    ]

-- All that is waiting and has timed out goes at once.
pub expire-QueueInv :
    (s : RoomMatchService) (now : ℕ) → HasGoodQueue s → HasGoodQueue (expire s now)
unfolding expire
expire-QueueInv s now v =
    drop-QueueInv s.next_ticket_id s.rooms s.match_queue s.player_tickets _
      (keep_if (timed_out now) s.match_queue) (timed_out now) v
      (λ t i. (In-keep_if (timed_out now) t s.match_queue i).0)
      (λ p. lookup-erase_players p (keep_if (timed_out now) s.match_queue) s.player_tickets)
      (λ t i e. (t, In-keep_if_of (timed_out now) t s.match_queue i e, refl))
      (λ t u i e j same_id.
        let (j', late) = In-keep_if (timed_out now) u s.match_queue j in
        cc (ap (timed_out now) (Rising-single 0 u t s.match_queue v.rising j' i same_id)))

-- A group of waiting tickets leaves the queue.
pub take_group-QueueInv :
    (s : RoomMatchService) (g : List MatchTicket)
    → HasGoodQueue s
    → ((t : MatchTicket) → In t g → In t s.match_queue)
    → HasGoodQueue (take_group s g)
unfolding take_group
take_group-QueueInv s g v sub =
    drop-QueueInv s.next_ticket_id s.rooms s.match_queue s.player_tickets _ g (in_group g) v sub
      (λ p. lookup-erase_players p g s.player_tickets)
      (λ t i e. let (u, j, same_id) = any_of_sound _ g e in (u, j, ground arith))
      (λ t u i e j same_id.
        cc (any_of_complete (λ (m : MatchTicket). m.id == t.id) u g j (ground arith)))

queue_ticket-QueueInv :
    (s : RoomMatchService) (request : MatchRequest) (now : ℕ)
    → HasGoodQueue s
    → s.next_ticket_id + 1 < u64_mod
    → is_empty request.player.player_id ≡ false
    → 0 < request.preferred_room_size
    → ((j : ℕ) → ¬ Seated s.rooms request.player.player_id j)
    → lookup str_dec request.player.player_id s.player_tickets ≡ none
    → HasGoodQueue (queue_ticket s request now).0
unfolding queue_ticket
queue_ticket-QueueInv s request now v h named pos free fresh = record {
  rising = Rising-append 0 s.match_queue ticket v.rising v.below (omega arith);
  below = λ t i. elim (In-append t s.match_queue (ticket ∷ []) i) [
    | inl old ↦ omega (arith, v.below t old, inc_u64_lem s.next_ticket_id h)
    | inr (inl e) ↦ omega (arith, ap (λ (x : MatchTicket). x.id) e, inc_u64_lem s.next_ticket_id h)
    | inr (inr no_more) ↦ absurd no_more
  ];
  held = λ t i. elim (In-append t s.match_queue (ticket ∷ []) i) [
    | inl old ↦ ground (arith, v.held t old, entry (ticket_player t))
    | inr (inl e) ↦
        ground
          (arith, ap ticket_player e, ap (λ (x : MatchTicket). x.id) e, entry (ticket_player t))
    | inr (inr no_more) ↦ absurd no_more
  ];
  waiting = λ p i e. elim (str_dec request.player.player_id p) [
    | yes is_p ↦
        (ticket, In-append_right ticket s.match_queue _ (inl refl), ground (arith, entry p), is_p)
    | no other ↦
        let (t, here, id, player) = v.waiting p i (ground (arith, entry p)) in
        (t, In-append_left t s.match_queue _ here, id, player)
  ];
  seatless = λ p i j e seat. elim (str_dec request.player.player_id p) [
    | yes is_p ↦ free j (subst (λ x. Seated s.rooms x j) (sym is_p) seat)
    | no other ↦ v.seatless p i j (ground (arith, entry p)) seat
  ];
  served = λ t i. elim (In-append t s.match_queue (ticket ∷ []) i) [
    | inl old ↦ v.served t old
    | inr (inl e) ↦
        subst
          (λ (x : MatchTicket).
            (is_empty (ticket_player x) ≡ false) × (0 < x.request.preferred_room_size))
          e (named, pos)
    | inr (inr no_more) ↦ absurd no_more
  ];
}
  where
    ticket : MatchTicket
    ticket = record { id = s.next_ticket_id; request = request; created_at = now }

    entry :
        (p : String)
        → lookup str_dec p
            (insert str_dec request.player.player_id s.next_ticket_id s.player_tickets)
          ≡ ite
              (str_dec request.player.player_id p)
              (some s.next_ticket_id)
              (lookup str_dec p s.player_tickets)
    entry p = lookup-insert str_dec p request.player.player_id s.next_ticket_id s.player_tickets

pub enqueue_match-QueueInv :
    (s : RoomMatchService) (request : MatchRequest) (now : ℕ)
    → HasGoodQueue s
    → s.next_ticket_id + 1 < u64_mod
    → HasGoodQueue (enqueue_match s request now).0
unfolding enqueue_match
enqueue_match-QueueInv s request now v h = elim (Bool-cases (is_empty request.player.player_id)) [
  | inl e ↦ rw e v
  | inr e ↦ elim (Bool-cases (request.preferred_room_size == 0)) [
    | inl z ↦ rw (e, z) v
    | inr z ↦
        elim (Option-cases (find_active_room_id_by_player_locked s request.player.player_id)) [
          | inr (i, found) ↦ rw (e, z, found) v
          | inl none_found ↦
              elim (Option-cases (lookup str_dec request.player.player_id s.player_tickets)) [
                | inr (i, queued) ↦ rw (e, z, none_found, queued) v
                | inl fresh ↦
                    rw (e, z, none_found, fresh)
                      (queue_ticket-QueueInv s request now v h e (ground arith)
                        (λ j. find_active-none s request.player.player_id j none_found) fresh)
              ]
        ]
  ]
]
