-- ===== src/Tests/Admin.antt =====
-- room/admin.rs at concrete inputs.
use bc_server_rust.Base.{
  ◌≡◌, ◌≢◌, refl, true, false, string_eq, int_eq, pos, some, none, List, [], ◌∷◌, int_beq, contains,
  without,
}
use bc_server_rust.Base.{is_empty, any, fits_i64, position, sym, ap, ◌∙◌, arith}
use bc_server_rust.Base.Text.{trim}
use bc_server_rust.Util.Validate.{is_chat_room_name}
use bc_server_rust.Protocol.{Emission}
use bc_server_rust.Json.{find_field, insert_field}
use bc_server_rust.Room.Create.{chat_room_create}
use bc_server_rust.Room.Admin.{apply_member_or_offline}
use bc_server_rust.Room.Admin.Effects.{emit_effects, props_effect}
use bc_server_rust.Room.Admin.Guard.{IsAuthorized, chat_room_admin_lem}
use bc_server_rust.Base.HashMap
use bc_server_rust.Json.{Value, text, int, json_object}
use bc_server_rust.State.Platform.{plain}
use bc_server_rust.State.ChatRoom.{ChatRoom}
use bc_server_rust.State.World.{World}
use bc_server_rust.State.Consistency.{IsConsistent}
use bc_server_rust.Protocol.{MemberNumber}
use bc_server_rust.Room.Create.{build_room}
use bc_server_rust.Room.Join.{refusal, add_member, move_to}
use bc_server_rust.Room.Join.Consistency.{move_to_lem, move_to-IsConsistent}
use bc_server_rust.Room.Admin.{ban, apply_member, chat_room_admin}
use bc_server_rust.Room.Admin.Ban.{apply_member-ban, banned_rooms}
use bc_server_rust.Room.Admin.Consistency.{chat_room_admin-IsConsistent}
use bc_server_rust.Tests.World.{club, club-IsConsistent, ann, bea}
use bc_server_rust.Tests.Room.{room, in_club, bea_online, allowed}

-- Bea has joined Ann.
abbrev both : World
both = (move_to plain "b" bea "r" club).0

both-IsConsistent : IsConsistent plain both
unfolding build_room
both-IsConsistent =
    move_to-IsConsistent plain club club-IsConsistent "b" bea room bea_online in_club allowed

shared : ChatRoom
shared = add_member (pos 2) room

in_both : HashMap.get both.chat_rooms "r" ≡ some shared
unfolding build_room shared
in_both = (move_to_lem plain club club-IsConsistent "b" bea room bea_online in_club allowed).0

abbrev unshuffled : List MemberNumber → List MemberNumber
unshuffled l = l

move_data : Value
move_data = json_object (("Action", text "MoveLeft") ∷ ("MemberNumber", int (pos 2)) ∷ [])

chat_room_admin-IsConsistent_example :
    IsConsistent plain (chat_room_admin plain unshuffled "a" move_data both).0
chat_room_admin-IsConsistent_example =
    chat_room_admin-IsConsistent plain unshuffled both "a" move_data (λ l m. refl) both-IsConsistent

-- What is left of the room when Bea is banned.
abbrev left_over : ChatRoom
left_over = record room { ban = pos 2 ∷ [] }

bea_listed : contains shared.members (pos 2) ≡ true
unfolding shared build_room contains int_beq
bea_listed = refl

without_bea :
    HashMap.get (apply_member plain unshuffled ban both ann shared (pos 2) 1 false).0.chat_rooms "r"
    ≡ some left_over
unfolding shared build_room contains int_beq without
without_bea =
    banned_rooms plain unshuffled both both-IsConsistent ann shared in_both (pos 2) 1 false
      bea_listed

apply_member-ban_example :
    (contains left_over.members (pos 2) ≡ false)
    × (contains left_over.ban (pos 2) ≡ true)
    × (refusal bea left_over ≢ none)
unfolding shared build_room
apply_member-ban_example =
    apply_member-ban plain unshuffled both both-IsConsistent ann shared in_both (pos 2) 1 false
      bea_listed left_over bea without_bea refl

abbrev ban_data : Value
ban_data = json_object (("Action", text "Ban") ∷ ("MemberNumber", int (pos 2)) ∷ [])

-- Ann bans Bea, who is not in the room.
told : is_empty (chat_room_admin plain unshuffled "a" ban_data club).1 ≡ false
unfolding chat_room_admin HashMap.get HashMap.insert HashMap.adjust club chat_room_create int_beq
    find_field insert_field any contains is_chat_room_name trim build_room position
    apply_member_or_offline fits_i64 emit_effects props_effect
told = refl

acted : chat_room_admin plain unshuffled "a" ban_data club ≢ (club, [])
acted e = ground (arith, sym told ∙ ap (λ (x : World × List Emission). is_empty x.1) e)

chat_room_admin_lem_example : IsAuthorized plain unshuffled club "a" ban_data
chat_room_admin_lem_example = chat_room_admin_lem plain unshuffled club "a" ban_data acted
