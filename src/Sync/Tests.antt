-- ===== src/Sync/Tests.antt =====
-- Runs of the state synchronisation on concrete inputs. The floats of the runs are natural numbers.
use red_culture_service.Common.{
  ◌∷◌, List, ℕ, ◌≡◌, refl, ◌+◌, ◌-◌, ◌*◌, ◌/◌, [], ltb, leb, false, none, arith, ℕ_discrete,
  str_dec, inc_u64,
}
use red_culture_service.Common.Map.{lookup, insert}
use red_culture_service.Sync.Types.{FloatOps, PlayerTransform, StateInput, StateSyncService}
use red_culture_service.Sync.Service.{register_room, add_player}
use red_culture_service.Sync.Authority.{submit_state}
use red_culture_service.Sync.Pending.{RoomsFit, IsBounded}
use red_culture_service.Sync.Steps.{
  Call, registers, adds, submits, builds_due, drains, run, run-IsBounded,
}
use red_culture_service.Sync.Submit.{
  IsAccepted, submit_state-rejected, submit_state-IsAccepted, submit_state_replayed,
}

abbrev whole : FloatOps
whole = record {
  Float = ℕ;
  zero = 0;
  thousand = 1000;
  add = λ a b. a + b;
  sub = λ a b. (a - b) + (b - a);
  mul = λ a b. a * b;
  div = λ a b. a / b;
  sqrt = λ a. a;
  of_count = λ n. n;
  le = leb;
  lt = ltb;
}

abbrev at : ℕ → PlayerTransform whole
at x = record { position = record { x = x; y = 0; z = 0 }; yaw = 0; pitch = 0 }

abbrev empty_service : StateSyncService whole
empty_service = record {
  config = record {
    max_single_update_distance = 100;
    max_move_speed_per_second = 12;
    movement_tolerance = 1;
    snapshot_interval = 50;
    max_pending_deltas_per_room = 2;
  };
  rooms = [];
}

abbrev joined_service : StateSyncService whole
unfolding add_player register_room
joined_service = (add_player whole (register_room whole empty_service 7).0 7 "ann" 1 (at 0) 0).0

abbrev input : ℕ → ℕ → StateInput whole
input sequence x = record {
  room_id = 7;
  player_id = "ann";
  input_sequence = sequence;
  transform = at x;
  action = record { name = "walk"; sequence = sequence };
}

abbrev one_second : ℕ
one_second = 1000 * 1000 * 1000

program : Unit {0}
unfolding submit_state joined_service lookup insert ℕ_discrete str_dec inc_u64
program = tt

submit_state-rejected_example :
    ((submit_state whole joined_service (input 1 50) one_second one_second).0 ≡ joined_service)
    × ((submit_state whole joined_service (input 1 50) one_second one_second).1.state ≡ none)
    × ((submit_state whole joined_service (input 1 50) one_second one_second).1.delta ≡ none)
unfolding program
submit_state-rejected_example =
    submit_state-rejected whole joined_service (input 1 50) one_second one_second refl

submit_state-IsAccepted_example : IsAccepted whole joined_service (input 1 3) one_second one_second
unfolding program
submit_state-IsAccepted_example =
    submit_state-IsAccepted whole joined_service (input 1 3) one_second one_second refl

submit_state_replayed_example :
    let s' = (submit_state whole joined_service (input 5 3) one_second one_second).0 in
    ((submit_state whole s' (input 4 3) one_second one_second).0 ≡ s')
    × ((submit_state whole s' (input 4 3) one_second one_second).1.ok ≡ false)
unfolding program
submit_state_replayed_example =
    submit_state_replayed whole joined_service (input 5 3) (input 4 3) one_second one_second
      one_second one_second refl refl refl (omega arith)

abbrev calls : List (ℕ × Call whole)
calls =
    (0, registers 7)
    ∷ (0, adds 7 "ann" 1 (at 0))
    ∷ (one_second, submits (input 1 3) one_second)
    ∷ (one_second, builds_due)
    ∷ (one_second, drains 7)
    ∷ []

empty_service-IsBounded : IsBounded whole empty_service
unfolding IsBounded RoomsFit lookup
empty_service-IsBounded i room e = absurd (cc)

run-IsBounded_example : IsBounded whole (run whole empty_service calls)
run-IsBounded_example = run-IsBounded whole empty_service calls empty_service-IsBounded
