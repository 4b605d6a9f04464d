-- ===== src/Room/Types.antt =====
-- The structs of include/rcs/room/room_match_service.hpp. Ids and times are numbers; a time is
-- the count of the steady clock, and a duration counts in the same unit.
use red_culture_service.Common.{ℕ, String, Bool, true, false, List, Option, none, some}

pub data RoomState : Type 0 where
  waiting playing closed : RoomState

pub record PlayerRef : Type 0 where
  pub player_id : String
  pub connection_id : ℕ

pub record RoomMember : Type 0 where
  pub player : PlayerRef
  pub ready : Bool
  pub joined_at : ℕ

pub record RoomOptions : Type 0 where
  pub mode : String
  pub max_players : ℕ
  pub auto_start_when_full : Bool

pub record RoomInfo : Type 0 where
  pub id : ℕ
  pub mode : String
  pub state : RoomState
  pub max_players : ℕ
  pub auto_start_when_full : Bool
  pub members : List RoomMember
  pub created_at : ℕ
  pub updated_at : ℕ

pub record RoomResult : Type 0 where
  pub ok : Bool
  pub error : String
  pub room : Option RoomInfo

pub record MatchRequest : Type 0 where
  pub player : PlayerRef
  pub mode : String
  pub preferred_room_size : ℕ
  pub timeout : ℕ

pub record MatchTicket : Type 0 where
  pub id : ℕ
  pub request : MatchRequest
  pub created_at : ℕ

pub record MatchTicketResult : Type 0 where
  pub ok : Bool
  pub error : String
  pub ticket : Option MatchTicket

pub record MatchTickResult : Type 0 where
  pub created_rooms : List RoomInfo
  pub expired_tickets : List MatchTicket

-- The private members of `RoomMatchService`. The mutex is not modelled: every operation holds it
-- from its first read to its last write, so operations are atomic.
pub record RoomMatchService : Type 0 where
  pub next_room_id : ℕ
  pub next_ticket_id : ℕ
  pub rooms : List (ℕ × RoomInfo)
  pub match_queue : List MatchTicket
  pub player_tickets : List (String × ℕ)

-- The results that the code builds by aggregate initialisation.
abbrev pub failed : String → Option RoomInfo → RoomResult
failed error room = record { ok = false; error = error; room = room }

abbrev pub succeeded : RoomInfo → RoomResult
succeeded room = record { ok = true; error = ""; room = some room }

abbrev pub no_ticket : String → MatchTicketResult
no_ticket error = record { ok = false; error = error; ticket = none }

abbrev pub ticket_issued : MatchTicket → MatchTicketResult
ticket_issued t = record { ok = true; error = ""; ticket = some t }
