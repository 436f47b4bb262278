-- ===== src/Chat/Permission.antt =====
-- chat/mod.rs: `chat_room_get_allow_item`, who may change the items of whom.
pub mod Levels
use bc_server_rust.Base.{
  ℤ, pos, String, Bool, true, false, not, ◌&&◌, ◌||◌, Option, none, some, List, contains,
  filter_map, find_map, leb_ℤ, ltb_ℤ, ◌+i64◌, if◌then◌else◌, ◌==◌, int_eq, string_eq,
}
use bc_server_rust.Json.{
  Value, get_field, str_field, i64_field, as_array, unwrap_or, is_text, is_number, ◌>>=◌,
}
use bc_server_rust.Protocol.{MemberNumber}
use bc_server_rust.State.Platform.{Platform}
use bc_server_rust.State.Account.{OnlineAccount, number_to_i64}
use bc_server_rust.Room.Search.{owner_number}

abbrev pub lovers : OnlineAccount → List MemberNumber
lovers t = filter_map (λ l. i64_field l "MemberNumber") t.lovership

-- A negative level counts as two.
abbrev pub item_perm : OnlineAccount → ℤ
item_perm t = if ltb_ℤ t.item_permission (pos 0) then pos 2 else t.item_permission

module _ (P : Platform) where
  -- The value of a reputation entry of the type "Dominant", if it is a number.
  abbrev dominant_entry : Value → Option ℤ
  dominant_entry e =
      if is_text (str_field e "Type") "Dominant"
      then get_field e "Value" >>= number_to_i64 P
      else none

  unfoldable pub dominant_value : OnlineAccount → ℤ
  unfolding number_to_i64
  dominant_value acc = unwrap_or (acc.reputation >>= as_array >>= find_map dominant_entry) (pos 0)

  unfoldable pub chat_room_get_allow_item : OnlineAccount → OnlineAccount → Bool
  unfolding dominant_value
  chat_room_get_allow_item source target =
      let level = item_perm target in
      let m = source.member_number in
      let trusted = contains target.white_list m || contains (lovers target) m in
      if m == target.member_number
      then true
      else if is_number (owner_number target) m
      then true
      else if leb_ℤ level (pos 0)
      then true
      else if level == pos 1
      then not (contains target.black_list m)
      else if level == pos 2
      then (if contains target.black_list m
          then false
          else (leb_ℤ (dominant_value target) (dominant_value source +i64 pos 25) || trusted))
      else if level == pos 3
      then trusted
      else if level == pos 4
      then contains (lovers target) m
      else false
