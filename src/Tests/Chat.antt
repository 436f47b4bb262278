-- ===== src/Tests/Chat.antt =====
-- chat/mod.rs at concrete inputs.
use bc_server_rust.Base.{
  ◌≡◌, ◌≢◌, refl, sym, ap, ◌∙◌, pos, Bool, true, false, ◌||◌, Option, some, none, [], ◌∷◌, arith,
  any, contains, leb_ℤ, ◌+i64◌, int_beq, ◌==◌, int_eq, string_eq,
}
use bc_server_rust.Base.HashMap
use bc_server_rust.Base.Text.{trim}
use bc_server_rust.Util.Validate.{is_chat_room_name}
use bc_server_rust.Json.{
  is_some, Value, text, json_object, json_array, is_number, find_field, insert_field,
}
use bc_server_rust.State.Platform.{plain}
use bc_server_rust.State.Account.{OnlineAccount}
use bc_server_rust.Room.Create.{enter, build_room}
use bc_server_rust.Room.Search.{owner_number}
use bc_server_rust.Room.Create.{chat_room_create}
use bc_server_rust.Chat.Permission.{lovers, dominant_value, chat_room_get_allow_item}
use bc_server_rust.Chat.Permission.Levels.{
  at_level, let_in, chat_room_get_allow_item_lem, chat_room_get_allow_item-at_level,
}
use bc_server_rust.Chat.Targets.{character_update}
use bc_server_rust.Chat.Guard.{IsAllowed, character_update_lem}
use bc_server_rust.Tests.World.{club, ann, bea}
use bc_server_rust.Tests.Room.{ann_online}

chat_room_get_allow_item_lem_example : chat_room_get_allow_item plain ann (at_level bea 3) ≡ (
    pos 1 == pos 2
    || is_number (owner_number bea) (pos 1)
    || let_in 3
        (contains bea.black_list (pos 1))
        (leb_ℤ (dominant_value plain bea) (dominant_value plain ann +i64 pos 25))
        (contains bea.white_list (pos 1))
        (contains (lovers bea) (pos 1)))
chat_room_get_allow_item_lem_example = chat_room_get_allow_item_lem plain ann bea 3

-- Bea trusts Ann.
abbrev trusting : OnlineAccount
trusting = record bea { white_list = pos 1 ∷ [] }

chat_room_get_allow_item-at_level_example :
    chat_room_get_allow_item plain ann (at_level trusting 2) ≡ true
unfolding chat_room_get_allow_item int_beq contains
chat_room_get_allow_item-at_level_example =
    chat_room_get_allow_item-at_level plain ann trusting 2 3 (omega arith) refl refl

-- Ann undresses.
dress_data : Value
dress_data = json_object (("ID", text "a") ∷ ("Appearance", json_array []) ∷ [])

abbrev is_dressed : Option OnlineAccount → Bool
is_dressed none = false
is_dressed (some a) = is_some a.appearance

now_dressed :
    is_dressed (HashMap.get (character_update plain "a" dress_data club).0.accounts_by_socket "a")
    ≡ true
unfolding dress_data character_update HashMap.get HashMap.insert HashMap.adjust club
    chat_room_create int_beq find_field insert_field any contains chat_room_get_allow_item
    is_chat_room_name trim build_room
now_dressed = refl

dressed_ann :
    HashMap.get (character_update plain "a" dress_data club).0.accounts_by_socket "a"
    ≢ some (enter "r" ann)
dressed_ann e = ground (arith, sym now_dressed ∙ ap is_dressed e)

character_update_lem_example : IsAllowed plain club "a" "a" (enter "r" ann)
character_update_lem_example =
    character_update_lem plain club "a" "a" (enter "r" ann) ann_online dress_data dressed_ann
