-- ===== src/Protocol/Events.antt =====
-- The event names of protocol/mod.rs.
use bc_server_rust.Base.{String}

abbrev pub server_info : String
server_info = "ServerInfo"

abbrev pub server_message : String
server_message = "ServerMessage"

abbrev pub force_disconnect : String
force_disconnect = "ForceDisconnect"

abbrev pub creation_response : String
creation_response = "CreationResponse"

abbrev pub password_reset_response : String
password_reset_response = "PasswordResetResponse"

abbrev pub login_response : String
login_response = "LoginResponse"

abbrev pub login_queue : String
login_queue = "LoginQueue"

abbrev pub account_query_result : String
account_query_result = "AccountQueryResult"

abbrev pub account_lovership : String
account_lovership = "AccountLovership"

abbrev pub account_ownership : String
account_ownership = "AccountOwnership"

abbrev pub account_beep : String
account_beep = "AccountBeep"

abbrev pub prison_rental_sync : String
prison_rental_sync = "PrisonRentalSync"

abbrev pub prison_sector_sync : String
prison_sector_sync = "PrisonSectorSync"

abbrev pub chat_room_search_result : String
chat_room_search_result = "ChatRoomSearchResult"

abbrev pub chat_room_create_response : String
chat_room_create_response = "ChatRoomCreateResponse"

abbrev pub chat_room_search_response : String
chat_room_search_response = "ChatRoomSearchResponse"

abbrev pub chat_room_message : String
chat_room_message = "ChatRoomMessage"

abbrev pub chat_room_game_response : String
chat_room_game_response = "ChatRoomGameResponse"

abbrev pub chat_room_sync : String
chat_room_sync = "ChatRoomSync"

abbrev pub chat_room_sync_character : String
chat_room_sync_character = "ChatRoomSyncCharacter"

abbrev pub chat_room_sync_member_join : String
chat_room_sync_member_join = "ChatRoomSyncMemberJoin"

abbrev pub chat_room_sync_member_leave : String
chat_room_sync_member_leave = "ChatRoomSyncMemberLeave"

abbrev pub chat_room_sync_room_properties : String
chat_room_sync_room_properties = "ChatRoomSyncRoomProperties"

abbrev pub chat_room_sync_reorder_players : String
chat_room_sync_reorder_players = "ChatRoomSyncReorderPlayers"

abbrev pub chat_room_sync_single : String
chat_room_sync_single = "ChatRoomSyncSingle"

abbrev pub chat_room_sync_expression : String
chat_room_sync_expression = "ChatRoomSyncExpression"

abbrev pub chat_room_sync_pose : String
chat_room_sync_pose = "ChatRoomSyncPose"

abbrev pub chat_room_sync_arousal : String
chat_room_sync_arousal = "ChatRoomSyncArousal"

abbrev pub chat_room_sync_item : String
chat_room_sync_item = "ChatRoomSyncItem"

abbrev pub chat_room_sync_map_data : String
chat_room_sync_map_data = "ChatRoomSyncMapData"

abbrev pub chat_room_update_response : String
chat_room_update_response = "ChatRoomUpdateResponse"

abbrev pub chat_room_allow_item : String
chat_room_allow_item = "ChatRoomAllowItem"

abbrev pub account_login : String
account_login = "AccountLogin"

abbrev pub account_create : String
account_create = "AccountCreate"

abbrev pub password_reset : String
password_reset = "PasswordReset"

abbrev pub password_reset_process : String
password_reset_process = "PasswordResetProcess"

abbrev pub account_update : String
account_update = "AccountUpdate"

abbrev pub account_update_email : String
account_update_email = "AccountUpdateEmail"

abbrev pub account_query : String
account_query = "AccountQuery"

abbrev pub account_beep_evt : String
account_beep_evt = "AccountBeep"

abbrev pub account_ownership_evt : String
account_ownership_evt = "AccountOwnership"

abbrev pub account_lovership_evt : String
account_lovership_evt = "AccountLovership"

abbrev pub account_difficulty : String
account_difficulty = "AccountDifficulty"

abbrev pub account_disconnect : String
account_disconnect = "AccountDisconnect"

abbrev pub chat_room_search : String
chat_room_search = "ChatRoomSearch"

abbrev pub chat_room_create : String
chat_room_create = "ChatRoomCreate"

abbrev pub chat_room_join : String
chat_room_join = "ChatRoomJoin"

abbrev pub chat_room_leave : String
chat_room_leave = "ChatRoomLeave"

abbrev pub chat_room_chat : String
chat_room_chat = "ChatRoomChat"

abbrev pub chat_room_character_update : String
chat_room_character_update = "ChatRoomCharacterUpdate"

abbrev pub chat_room_character_expression_update : String
chat_room_character_expression_update = "ChatRoomCharacterExpressionUpdate"

abbrev pub chat_room_character_pose_update : String
chat_room_character_pose_update = "ChatRoomCharacterPoseUpdate"

abbrev pub chat_room_character_arousal_update : String
chat_room_character_arousal_update = "ChatRoomCharacterArousalUpdate"

abbrev pub chat_room_character_item_update : String
chat_room_character_item_update = "ChatRoomCharacterItemUpdate"

abbrev pub chat_room_character_map_data_update : String
chat_room_character_map_data_update = "ChatRoomCharacterMapDataUpdate"

abbrev pub chat_room_admin : String
chat_room_admin = "ChatRoomAdmin"

abbrev pub chat_room_allow_item_evt : String
chat_room_allow_item_evt = "ChatRoomAllowItem"

abbrev pub chat_room_game : String
chat_room_game = "ChatRoomGame"
