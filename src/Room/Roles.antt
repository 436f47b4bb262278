-- ===== src/Room/Roles.antt =====
-- room/mod.rs: the role lists of a room.
use bc_server_rust.Base.{String, Bool, not, ◌&&◌, ◌||◌, List, contains, string_eq, int_eq}
use bc_server_rust.State.ChatRoom.{ChatRoom}
use bc_server_rust.State.Account.{OnlineAccount}

unfoldable pub role_list_is_restrictive : List String → Bool
role_list_is_restrictive roles = not (contains roles "All")

unfoldable pub has_any_role : OnlineAccount → ChatRoom → List String → Bool
has_any_role acc room roles =
    contains roles "All"
    || (contains roles "Admin" && contains room.admin acc.member_number)
    || (contains roles "Whitelist" && contains room.whitelist acc.member_number)
