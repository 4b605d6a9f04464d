-- ===== src/Lib.antt =====
-- The service layer of the red culture server: C++ classes that each keep their state behind a
-- mutex and are called by the HTTP controllers and by the network gateway. Of the parts that are
-- modelled only the gameplay calls others: it asks the room service who is in a room, has the AI
-- service make a question and an explanation, has the speech service speak, and writes to the
-- storage. The server's application wires the parts together.
--
-- The module Common: lists, maps, Boolean tests and unsigned words of 64 bits, which the parts
--   share. `std::unordered_map` is an association list (Common/Map) in the order of insertion: C++
--   leaves the order of iteration open, and no theorem depends on more than that there is one.
-- The module Room: `RoomMatchService` of src/room/room_match_service.cpp. Room/Types has the
--   structs, Room/Rooms the operations on rooms, Room/Matching the queue and `tick`, Room/Queries
--   the queries. Room/Seats, Room/Invariant, Room/Membership and Room/Seating are about who sits
--   where; Room/Tickets, Room/Queue and Room/QueueRooms about the queue and its ticket table;
--   Room/Groups, Room/Opening, Room/Filled, Room/Tick and Room/Loop about matching; Room/Steps
--   about histories; Room/Lookups about queries; Room/Reopening about departures from a closed
--   room.
-- The module Auth: `SessionAuthService` of src/auth/session_auth_service.cpp. Auth/Sessions has
--   the sessions, Auth/Tokens the tokens; the other files are about the invariant, logins, sweeps
--   and histories.
-- The module Net: `FrameCodec` of src/net/message.cpp (Net/Frames) and `RateLimiter` of
--   src/net/rate_limiter.cpp (Net/RateLimiter), with their laws in Net/FrameLaws, Net/Streams and
--   Net/RateLaws.
-- The module Sync: `StateSyncService` of src/sync/state_sync_service.cpp. Sync/Service has the
--   rooms and players, Sync/Authority `submitState`, Sync/Snapshots what reads and drains a room,
--   Sync/Submit and Sync/Trimmed the laws of `submitState`, Sync/Pending and Sync/Steps the bound
--   on the deltas that wait.
-- The module Voice: `VoiceTtsService` of src/voice_tts/voice_tts_service.cpp. Voice/Tasks and
--   Voice/Finish have the queue of tasks, Voice/Cache the cache of audio; Voice/Limit,
--   Voice/Invariant, Voice/Selection, Voice/Turns, Voice/Steps and Voice/Cancel are about them.
-- The module Http: `HttpRouter` of src/http/http_router.cpp and the answers of
--   src/http/http_types.cpp.
-- The module Ai: `AiOrchestratorService` of src/ai_orchestrator/ai_orchestrator_service.cpp.
--   Ai/Tasks has the queue of tasks and the flows, Ai/Prompts `renderPrompt`, Ai/Finish the end of
--   a task and `tick`, Ai/Triggers the rules. Ai/Invariant has the invariant of the service with
--   the tasks that are with the client; Ai/Queue, Ai/Flows, Ai/Triggered, Ai/Turns and Ai/Ends are
--   about the operations, Ai/Stages about the diagram of a flow's stages, Ai/Steps about
--   histories, as a step relation, Ai/Loop, Ai/Quiet and Ai/Progress about `tick`, Ai/Once and
--   Ai/Answers about answers, Ai/Stranded about `cancelTask`; Ai/Runs has a run for the tests.
-- The module Ops: `OpsService` of src/ops/ops_service.cpp. Ops/Service has its state and the
--   health report, Ops/Admin the admin requests; Ops/Health and Ops/Shutdown are about them.
-- The module Gameplay: `CulturalInteractionService` of
--   src/gameplay/cultural_interaction_service.cpp, on the models of the services that it calls.
--   Gameplay/Start and Gameplay/Answer have the two operations, with the speech in Gameplay/Voice;
--   Gameplay/Records and Gameplay/Saving have what they write, Gameplay/Storage the interface of
--   the storage; Gameplay/Speech, Gameplay/Outcome, Gameplay/Recorded, Gameplay/Laws and
--   Gameplay/Once are about answers.
-- The module Config: `ConfigHotReloadService` of
--   src/config_hotreload/config_hotreload_service.cpp. Config/Types has the structs and their
--   defaults, Config/Yaml and Config/Parse the reading of a document, Config/Service the state and
--   the operations; Config/Found is about what a load finds, Config/Reload about a poll,
--   Config/Bounds about the ports.
--
-- How the code is modelled. An operation that holds the mutex is a function from the state to the
-- new state and the result; `tick` of the speech service and of the AI service, which lets go of
-- the mutex while the client runs, is given both as a loop and as its two locked parts, so that
-- histories may put other calls between them. A call of the gameplay, and the health report, are
-- given as one sequence of their locked parts, with no other call between them. An exception is
-- `none`. The readings of the clock are arguments: one reading serves a locked part of the room,
-- AI and operations services and a snapshot, where the code reads the clock more than once;
-- `submitState` and the turns of `tick` have theirs apart. Times and durations are numbers that
-- are not negative, and sums of times do not overflow. Ids are `std::uint64_t` and wrap around
-- (`inc_u64`), as the attempts of a task do in 32 bits; where a theorem needs that they have not,
-- its hypotheses say so.
--
-- Loops with a bound: the match loop of `tick` runs on the length of the queue and one, since each
-- round that goes on takes a ticket from the queue; the loop that cuts the cache down runs on the
-- number of entries, since each turn drops one; the loop that replaces in a prompt runs on the
-- number of characters, since each turn passes one; the digits of a 64-bit number are at most 20.
--
-- Parameters: jwt-cpp (`Jwt` in Auth/Types), the type `float` with its operations (`FloatOps` in
-- Sync/Types), the printing of floats and `std::hash` (`TextOps` in Voice/Types), nlohmann's JSON
-- (`JsonOps` in Common/Json), yaml-cpp (`YamlOps` in Config/Yaml), what the file system and the
-- environment answer (`Disk` in Config/Service), the clients of the AI and the speech service, and
-- the health checks, the exporter and the callback of the operations service. The storage, whose
-- code is in the repository, is an interface as well (`StorageOps` in Gameplay/Storage); its
-- lookup of a user may throw, its writes answer with an error. A score of the gameplay is a number
-- of tenths.
--
-- Not modelled: logging; the sockets and the HTTP server (src/net/tcp_connection.cpp,
-- src/net/network_gateway.cpp, src/http/http_server.cpp); the statements to PostgreSQL
-- (src/storage/storage_service.cpp); telemetry (src/observability); password hashing
-- (src/auth/password_hasher.cpp); the result type (include/rcs/common/result.hpp); and the
-- application under app/redculture_server.
pub mod Common
pub mod Room
pub mod Auth
pub mod Net
pub mod Sync
pub mod Voice
pub mod Http
pub mod Ai
pub mod Ops
pub mod Gameplay
pub mod Config
