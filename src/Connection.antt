-- ===== src/Connection.antt =====
-- handlers.rs: a new connection, the events that a socket answers to, and the server information.
use bc_server_rust.Base.{
  String, ℕ, ℤ, pos, Bool, Option, none, some, List, [], ◌∷◌, if◌then◌else◌, contains, string_eq,
}
use bc_server_rust.Json.{Value, int, text, json_object}
use bc_server_rust.Limits
use bc_server_rust.Limits.{MessageRateLimiter, check_ip_connection_limit, extract_ip}
use bc_server_rust.Protocol.{Emission, emit, emit_io}
use bc_server_rust.Protocol.Events
use bc_server_rust.Server.{reject_rate}
use bc_server_rust.State.World.{World, online_count}

abbrev server_info_json : ℤ → World → Value
server_info_json now w =
    json_object (("Time", int now) ∷ ("OnlinePlayers", int (pos (online_count w))) ∷ [])

unfoldable pub send_server_info_to : ℤ → String → World → List Emission
send_server_info_to now sid w = emit sid Events.server_info (server_info_json now w) ∷ []

unfoldable pub broadcast_server_info : ℤ → World → List Emission
broadcast_server_info now w = emit_io Events.server_info (server_info_json now w) ∷ []

unfoldable pub graceful_shutdown_message : List Emission
graceful_shutdown_message =
    emit_io Events.server_message (text "Server will reboot in 30 seconds.") ∷ []

-- A socket before its session and in it.
pub data Phase : Type 0 where
  visitor player : Phase

abbrev visitor_events : List String
visitor_events =
    Events.account_create ∷ Events.account_login ∷ Events.password_reset
    ∷ Events.password_reset_process ∷ []

abbrev player_events : List String
player_events =
    Events.account_update ∷ Events.account_update_email ∷ Events.account_query
    ∷ Events.account_beep_evt ∷ Events.account_ownership_evt ∷ Events.account_lovership_evt
    ∷ Events.account_difficulty ∷ Events.account_disconnect ∷ Events.chat_room_search
    ∷ Events.chat_room_create ∷ Events.chat_room_join ∷ Events.chat_room_leave
    ∷ Events.chat_room_chat ∷ Events.chat_room_character_update
    ∷ Events.chat_room_character_expression_update ∷ Events.chat_room_character_pose_update
    ∷ Events.chat_room_character_arousal_update ∷ Events.chat_room_character_item_update
    ∷ Events.chat_room_character_map_data_update ∷ Events.chat_room_admin
    ∷ Events.chat_room_allow_item_evt ∷ Events.chat_room_game ∷ []

-- The events that are handled: `on_login` binds those of a visitor to a handler that does nothing.
unfoldable pub is_handled : Phase → String → Bool
unfolding contains
is_handled Phase.visitor event = contains visitor_events event
is_handled Phase.player event = contains player_events event

-- The address of the connection, and its limiter if it is let in.
unfoldable pub on_connection :
    ℕ
    → ℕ
    → ℕ
    → ℤ
    → String
    → Option String
    → Option String
    → World
    → World × List Emission × Option (MessageRateLimiter × String)
unfolding extract_ip check_ip_connection_limit send_server_info_to Limits.new
on_connection connection_limit rate_limit message_limit now sid remote xff w =
    let ip = extract_ip remote xff in
    let (w', over) = check_ip_connection_limit w ip connection_limit rate_limit now in
    if over
    then (w', reject_rate sid, none)
    else (w', send_server_info_to now sid w', some (Limits.new message_limit, ip))
