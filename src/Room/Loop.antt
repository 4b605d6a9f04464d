-- ===== src/Room/Loop.antt =====
-- The loop of `tick` and `tick` itself.
use red_culture_service.Common.{
  ℕ, zero, suc, ◌+◌, ◌<◌, ◌≡◌, inl, inr, refl, false, List, [], ◌∷◌, arith, length, remove_if, In,
  In-remove_if, ap, subst, u64_mod, length-remove_if-le, count_if,
}
use red_culture_service.Room.Types.{RoomInfo, MatchTicket, RoomMatchService}
use red_culture_service.Room.Matching.{
  find_group, no_group, match_round, match_loop, expire, tick, timed_out,
}
use red_culture_service.Room.Queue.{expire-QueueInv}
use red_culture_service.Room.Groups.{
  wanted, joins, length-fill_group, is_complete, find_group_missed,
}
use red_culture_service.Room.Tick.{Inv, IsMatched, match_round-ok}

IsMatched-mono :
    (q q' : List MatchTicket) (now : ℕ) (r : RoomInfo)
    → ((t : MatchTicket) → In t q' → In t q)
    → IsMatched q' now r
    → IsMatched q now r
IsMatched-mono q q' now r sub m = record {
  first = m.first;
  others = m.others;
  group = record {
    waits = λ t i. sub t (m.group.waits t i);
    bounded = m.group.bounded;
    alike = m.group.alike;
  };
  complete = m.complete;
  room = m.room;
}

-- After the loop: the service is well formed, no complete group is left, and every new room seats
-- a complete group of the queue `q`.
pub record IsSettled (q : List MatchTicket) (now : ℕ) (out : RoomMatchService × List RoomInfo)
    : Type 0 where
  pub inv : Inv out.0
  pub stopped : match_round out.0 now ≡ no_group
  pub exhausted : is_complete (find_group out.0.match_queue out.0.match_queue []) ≡ false
  pub matched : (r : RoomInfo) → In r out.1 → IsMatched q now r

-- More tickets than rounds: the loop ends by its own test.
match_loop-IsSettled :
    (fuel : ℕ) (s : RoomMatchService) (now : ℕ)
    → length s.match_queue < fuel
    → Inv s
    → s.next_room_id + length s.match_queue + 1 < u64_mod
    → IsSettled s.match_queue now (match_loop fuel s now)
unfolding match_loop
match_loop-IsSettled zero s now l v h = absurd (omega arith)
match_loop-IsSettled (suc fuel) s now l v h = elim (match_round-ok s now v (omega arith)) [
  | inl (e, none_left) ↦
      rw (e, match_loop)
        (record { inv = v; stopped = e; exhausted = none_left; matched = λ r i. absurd i })
  | inr (s', r, e, v', shorter, next, sub, m) ↦
      let rest = match_loop-IsSettled fuel s' now (omega arith) v' (omega arith) in
      rw (e, match_loop)
        (record {
          inv = rest.inv;
          stopped = rest.stopped;
          exhausted = rest.exhausted;
          matched = λ x i. elim i [
            | inl is_r ↦ subst (λ y. IsMatched s.match_queue now y) is_r m
            | inr later ↦
                IsMatched-mono s.match_queue s'.match_queue now x sub (rest.matched x later)
          ];
        })
]

-- A queue with no complete group holds too few players in every bucket.
few_of_exhausted :
    (q : List MatchTicket) (t : MatchTicket)
    → is_complete (find_group q q []) ≡ false
    → In t q
    → 0 < wanted t
    → 1 + count_if (joins t) q < wanted t
few_of_exhausted q t e i pos =
    omega (arith, find_group_missed q q [] t e i, length-fill_group t q (t ∷ []) (omega arith))

-- What a `tick` promises: the service stays well formed; the loop ran to its end; each new room is
-- full, playing, and seats a group of one bucket that was waiting; and afterwards every waiting
-- player's bucket is short of a full group.
pub record IsTicked (s : RoomMatchService) (now : ℕ) : Type 0 where
  pub inv : Inv (tick s now).0
  pub stopped : match_round (tick s now).0 now ≡ no_group
  pub matched : (r : RoomInfo) → In r (tick s now).1.created_rooms → IsMatched s.match_queue now r
  pub few :
      (t : MatchTicket)
      → In t (tick s now).0.match_queue
      → 1 + count_if (joins t) (tick s now).0.match_queue < wanted t

-- On a well-formed service whose room ids last for the queue, `tick` leaves the service well formed;
-- its loop has ended because no group is left, not because the fuel is spent; each room it reports
-- seats a complete group of the queue; and each ticket that still waits has too few others in its
-- bucket to fill a room.
pub tick-IsTicked :
    (s : RoomMatchService) (now : ℕ)
    → Inv s
    → s.next_room_id + length s.match_queue + 1 < u64_mod
    → IsTicked s now
unfolding tick
tick-IsTicked s now v h = record {
  inv = done.inv;
  stopped = done.stopped;
  matched = λ r i.
      IsMatched-mono s.match_queue waiting.match_queue now r (λ t j. kept t j) (done.matched r i);
  few = λ t i. few_of_exhausted _ t done.exhausted i (done.inv.queue.served t i).1;
}
  where
    waiting : RoomMatchService
    waiting = expire s now

    expired_rooms :
        (waiting.rooms ≡ s.rooms)
        × (waiting.next_room_id ≡ s.next_room_id)
        × (waiting.match_queue ≡ remove_if (timed_out now) s.match_queue)
    expired_rooms = unfold expire in (refl, refl, refl)

    kept : (t : MatchTicket) → In t waiting.match_queue → In t s.match_queue
    kept t i = unfold expire in (In-remove_if (timed_out now) t s.match_queue i).0

    done :
        IsSettled waiting.match_queue now (match_loop (length waiting.match_queue + 1) waiting now)
    done =
        match_loop-IsSettled (length waiting.match_queue + 1) waiting now (omega arith)
          (record { rooms = unfold expire in v.rooms; queue = expire-QueueInv s now v.queue })
          (omega (
            arith,
            expired_rooms.1,
            ap (λ (l : List MatchTicket). length l) expired_rooms.2,
            length-remove_if-le (timed_out now) s.match_queue,
          ))
