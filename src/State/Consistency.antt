-- ===== src/State/Consistency.antt =====
-- The consistency of the world's tables, which the handlers rely on and keep.
use bc_server_rust.Base.{
  String, Bool, true, false, not, ◌≡◌, nat_beq, some, contains, IsDistinct, is_empty, int_eq,
  string_eq,
}
use bc_server_rust.Base.HashMap
use bc_server_rust.Base.HashMap.{keys}
use bc_server_rust.Base.Text.{all_chars}
use bc_server_rust.Protocol.{MemberNumber}
use bc_server_rust.State.Platform.{Platform}
use bc_server_rust.State.ChatRoom.{ChatRoom}
use bc_server_rust.State.Account.{OnlineAccount}
use bc_server_rust.State.World.{World, room_key}

-- An environment is "PROD", "DEV" or a number: it has no colon, so that a room key can be read back.
abbrev pub colon_free : String → Bool
colon_free = all_chars (λ c. not (nat_beq c b':'))

module _ (P : Platform) where
  pub record IsConsistent (w : World) : Type 0 where
    -- A socket has one session, which stands under its own id and is found by its member number.
    pub keyed : IsDistinct (keys w.accounts_by_socket)
    pub session :
        (sid : String) (a : OnlineAccount)
        → HashMap.get w.accounts_by_socket sid ≡ some a
        → (a.socket_id ≡ sid)
          × (HashMap.get w.socket_by_member a.member_number ≡ some sid)
          × (colon_free a.environment ≡ true)
    -- The room that a session is in exists and lists its member.
    pub located :
        (sid : String) (a : OnlineAccount) (rid : String)
        → HashMap.get w.accounts_by_socket sid ≡ some a
        → a.chat_room_id ≡ some rid
        → (r : ChatRoom) × (HashMap.get w.chat_rooms rid ≡ some r)
          × (contains r.members a.member_number ≡ true)
    -- Every member of a room is online, in that room.
    pub present :
        (rid : String) (r : ChatRoom) (m : MemberNumber)
        → HashMap.get w.chat_rooms rid ≡ some r
        → contains r.members m ≡ true
        → (sid : String) × (a : OnlineAccount) × (HashMap.get w.accounts_by_socket sid ≡ some a)
          × (a.member_number ≡ m)
          × (a.chat_room_id ≡ some rid)
    -- A room stands under its id and its name, has somebody in it, and nobody twice.
    pub room :
        (rid : String) (r : ChatRoom)
        → HashMap.get w.chat_rooms rid ≡ some r
        → (r.id ≡ rid)
          × (HashMap.get w.room_by_name_env (room_key P r.environment r.name) ≡ some rid)
          × IsDistinct r.members
          × (is_empty r.members ≡ false)
          × (colon_free r.environment ≡ true)
    -- No two rooms have one name, whatever its case and their environments.
    pub unique :
        (rid q : String) (r x : ChatRoom)
        → HashMap.get w.chat_rooms rid ≡ some r
        → HashMap.get w.chat_rooms q ≡ some x
        → P.to_uppercase r.name ≡ P.to_uppercase x.name
        → rid ≡ q
