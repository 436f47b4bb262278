-- ===== src/Relations/Lovership/Handler.antt =====
-- relations/mod.rs: `handle_account_lovership`.
use bc_server_rust.Base.{
  String, Bool, not, ◌||◌, Option, none, some, [], ℤ, length, contains, if◌then◌else◌, ◌==◌, int_eq,
  string_eq,
}
use bc_server_rust.Json.{Value, i64_field, str_field, is_text}
use bc_server_rust.Protocol.{MemberNumber}
use bc_server_rust.State.ChatRoom.{ChatRoom}
use bc_server_rust.State.Account.{OnlineAccount}
use bc_server_rust.State.World.{get_by_member}
use bc_server_rust.Chat.{in_room}
use bc_server_rust.Store.{Run, run_both}
use bc_server_rust.Relations.Lovership.{lover_index}
use bc_server_rust.Relations.Lovership.Break.{handle_lover_break}
use bc_server_rust.Relations.Lovership.Offer.{offers}
use bc_server_rust.Relations.Lovership.Accept.{accepts}

module _ (connected : String → Bool) (now : ℤ) (sid : String) where
  unfoldable pub court :
      OnlineAccount → ChatRoom → MemberNumber → Option String → OnlineAccount → Run
  unfolding lover_index offers accepts
  court src r m action target w =
      let al = lover_index src.lovership m in
      let tl = lover_index target.lovership src.member_number in
      run_both (offers now sid src r m target action al tl)
        (accepts connected now sid r m action (length src.lovership) al) w

  unfoldable pub court_in_room : MemberNumber → Option String → Run
  unfolding in_room court
  court_in_room m action w = elim (in_room w sid) [
    | none ↦ (w, [])
    | some (src, r) ↦
        if not (contains r.members m) || src.member_number == m
        then (w, [])
        else elim (get_by_member w m) [
          | none ↦ (w, [])
          | some target ↦
              if contains target.black_list src.member_number
              then (w, [])
              else court src r m action target w
        ]
  ]

  unfoldable pub handle_account_lovership : Value → Run
  unfolding handle_lover_break court_in_room
  handle_account_lovership d w = elim (i64_field d "MemberNumber") [
    | none ↦ (w, [])
    | some m ↦
        if is_text (str_field d "Action") "Break"
        then handle_lover_break connected now sid m (str_field d "Name") w
        else court_in_room m (str_field d "Action") w
  ]
