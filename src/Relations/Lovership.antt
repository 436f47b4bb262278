-- ===== src/Relations/Lovership.antt =====
-- relations/mod.rs: the lovers of an account, and what `handle_account_lovership` writes and sends of
-- them. A run is one step here, its database calls included.
pub mod Break
pub mod Offer
pub mod Accept
pub mod Handler
pub mod Clean
pub mod Writes
pub mod Persisted
pub mod Parting
use bc_server_rust.Base.{
  String, Bool, true, false, not, ◌&&◌, ◌||◌, Option, none, some, List, [], ◌∷◌, ◌++◌, ℕ, ℤ, pos,
  ltb, length, get_elem?, set, push, position, if◌then◌else◌, ◌==◌, int_eq, string_eq,
}
use bc_server_rust.Json.{
  Value, object, int, text, json_object, json_array, get_field, i64_field, str_field, is_number,
  is_some, remove_field, fields, unwrap_or,
}
use bc_server_rust.Protocol.{MemberNumber, Emission, emit}
use bc_server_rust.Protocol.Events
use bc_server_rust.State.Account.{OnlineAccount}
use bc_server_rust.State.World.{World, get_by_socket, update_account}
use bc_server_rust.Room.Sync.{room_message, sync_character}
use bc_server_rust.Store.{
  Run, Effect, tell, tell_all, json_object_to_set_map, update_fields_by_member_number,
}

abbrev pub is_lover : MemberNumber → Value → Bool
is_lover m l =
    is_number (i64_field l "MemberNumber") m
    || is_number (i64_field l "BeginDatingOfferedByMemberNumber") m

unfoldable pub lover_index : List Value → MemberNumber → Option ℕ
lover_index l m = position (is_lover m) l

-- An entry without its offers.
abbrev pub strip_offers : Value → Value
strip_offers (object fs) = object (
    remove_field
      (remove_field (remove_field fs "BeginEngagementOfferedByMemberNumber")
        "BeginWeddingOfferedByMemberNumber")
      "BeginDatingOfferedByMemberNumber")
strip_offers v = v

abbrev pub is_pending : Value → Bool
is_pending l =
    is_some (get_field l "BeginDatingOfferedByMemberNumber")
    && not (is_some (get_field l "MemberNumber"))

unfoldable pub clean_lovership : List Value → List Value
clean_lovership [] = []
clean_lovership (l ∷ ls) =
    let rest = clean_lovership ls in if is_pending l then rest else strip_offers l ∷ rest

abbrev pub lovership_json : List Value → Value
lovership_json l = json_object (("Lovership", json_array l) ∷ [])

unfoldable pub persist_lovership_clean : MemberNumber → List Value → List Effect
unfolding clean_lovership json_object_to_set_map update_fields_by_member_number
persist_lovership_clean m l = elim (json_object_to_set_map (lovership_json (clean_lovership l))) [
  | none ↦ []
  | some set ↦ update_fields_by_member_number m set
]

-- The list of a session, cleaned, to a socket.
unfoldable pub tell_lovership : String → List Value → Effect
unfolding clean_lovership
tell_lovership sid l = tell (emit sid Events.account_lovership (lovership_json (clean_lovership l)))

abbrev pub set_lovership : (List Value → List Value) → OnlineAccount → OnlineAccount
set_lovership f a = record a { lovership = f a.lovership }

abbrev pub lovership_at : World → String → List Value
lovership_at w sid = elim (get_by_socket w sid) [ none ↦ [] | some a ↦ a.lovership ]

abbrev pub lover_tag : String → String → MemberNumber → Value
lover_tag t name m =
    json_object (("Tag", text t) ∷ ("Text", text name) ∷ ("MemberNumber", int m) ∷ [])

-- The place of the entry if there is one within the list, and else its end.
abbrev pub put_at : ℕ → Value → List Value → List Value
put_at i v l = if ltb i (length l) then set l i v else push l v

abbrev pub put_or_push : Option ℕ → Value → List Value → List Value
put_or_push none v l = push l v
put_or_push (some i) v l = put_at i v l

abbrev pub mutual_world :
    OnlineAccount → OnlineAccount → ℕ → Option ℕ → Value → Value → World → World
mutual_world src target ai tl src_entry tgt_entry w =
    update_account (update_account w src.socket_id (set_lovership (put_at ai src_entry)))
      target.socket_id (set_lovership (put_or_push tl tgt_entry))

-- The word of it to the room, and both characters.
unfoldable pub tell_room :
    (String → Bool) → World → String → String → OnlineAccount → String → Value → List Emission
unfolding room_message sync_character
tell_room connected w sid room_name src content src_entry =
    let lover_name = unwrap_or (str_field src_entry "Name") "" in
    let lover = unwrap_or (i64_field src_entry "MemberNumber") (pos 0) in
    room_message w room_name src.member_number content "ServerMessage" none (
      some (
        json_array (
          lover_tag "SourceCharacter" src.name src.member_number
          ∷ lover_tag "TargetCharacter" lover_name lover
          ∷ [])))
    ++ (sync_character connected w sid src.member_number src.member_number
        ++ sync_character connected w sid lover src.member_number)

unfoldable pub apply_mutual_lover :
    (String → Bool)
    → String
    → String
    → OnlineAccount
    → OnlineAccount
    → ℕ
    → Option ℕ
    → Value
    → Value
    → String
    → Run
unfolding persist_lovership_clean tell_lovership tell_room
apply_mutual_lover connected sid room_name src target ai tl src_entry tgt_entry content w =
    let w' = mutual_world src target ai tl src_entry tgt_entry w in
    let src_list = lovership_at w' src.socket_id in
    let tgt_list = lovership_at w' target.socket_id in
    (
      w',
      persist_lovership_clean src.member_number src_list
          ++ (persist_lovership_clean target.member_number tgt_list
              ++ (tell_lovership sid src_list
                  ∷ tell_lovership target.socket_id tgt_list
                  ∷ tell_all (tell_room connected w' sid room_name src content src_entry))),
    )
