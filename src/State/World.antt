-- ===== src/State/World.antt =====
-- state/world.rs: the state of the process. The atomics and the lock are plain fields: each method
-- runs under the lock, and returns the new world.
use Prim.Native.String.{◌++◌}
use bc_server_rust.Base.{
  ℕ, suc, String, Bool, not, Option, none, some, List, [], ◌∷◌, ℤ, pos, ◌+i64◌, ◌-i64◌, leb_ℤ,
  length, is_empty, any, contains, without, if◌then◌else◌, ◌==◌, int_eq, string_eq,
}
use bc_server_rust.Base.HashMap
use bc_server_rust.Base.HashMap.{HashMap, values}
use bc_server_rust.Json.{◌>>=◌}
use bc_server_rust.Protocol.{MemberNumber}
use bc_server_rust.State.Platform.{Platform}
use bc_server_rust.State.ChatRoom.{ChatRoom}
use bc_server_rust.State.Account.{OnlineAccount}

pub record AccountCreationRecord : Type 0 where
  pub address : String
  pub time : ℤ

pub record PasswordResetEntry : Type 0 where
  pub account_name : String
  pub reset_number : String

pub record PrisonSectorSession : Type 0 where
  pub host_member_number : MemberNumber
  pub sector_index : ℕ
  pub members : List MemberNumber  -- a set

pub record World : Type 0 where
  pub accounts_by_socket : HashMap String OnlineAccount
  pub socket_by_member : HashMap MemberNumber String
  pub socket_by_account_name : HashMap String String
  pub chat_rooms : HashMap String ChatRoom
  pub room_by_name_env : HashMap String String
  pub prison_sector_sessions : HashMap String PrisonSectorSession
  pub ip_connections : HashMap String (List ℤ)
  pub account_creation_ip : List AccountCreationRecord
  pub password_resets : List PasswordResetEntry
  pub next_member_number : ℤ
  pub next_password_reset_at : ℤ
  pub login_pending : List String  -- a set
  pub login_queue_len : ℕ

unfoldable pub new : ℤ → World
new next = record {
  accounts_by_socket = [];
  socket_by_member = [];
  socket_by_account_name = [];
  chat_rooms = [];
  room_by_name_env = [];
  prison_sector_sessions = [];
  ip_connections = [];
  account_creation_ip = [];
  password_resets = [];
  next_member_number = next;
  next_password_reset_at = pos 0;
  login_pending = [];
  login_queue_len = 0;
}

abbrev pub online_count : World → ℕ
online_count w = length w.accounts_by_socket

-- `fetch_add(1)`: the old value is the number given out.
unfoldable pub allocate_member_number : World → MemberNumber × World
allocate_member_number w =
    (w.next_member_number, record w { next_member_number = w.next_member_number +i64 pos 1 })

abbrev pub get_by_socket : World → String → Option OnlineAccount
get_by_socket w sid = HashMap.get w.accounts_by_socket sid

-- A write through `get_by_socket_mut`.
abbrev pub update_account : World → String → (OnlineAccount → OnlineAccount) → World
update_account w sid f = record w { accounts_by_socket = HashMap.adjust w.accounts_by_socket sid f }

abbrev pub get_by_member : World → MemberNumber → Option OnlineAccount
get_by_member w m = HashMap.get w.socket_by_member m >>= HashMap.get w.accounts_by_socket

abbrev pub get_room : World → String → Option ChatRoom
get_room w id = HashMap.get w.chat_rooms id

-- A write through `chat_rooms.get_mut`.
abbrev pub update_room : World → String → (ChatRoom → ChatRoom) → World
update_room w id f = record w { chat_rooms = HashMap.adjust w.chat_rooms id f }

unfoldable pub insert_account : World → OnlineAccount → World
insert_account w a = record w {
  socket_by_member = HashMap.insert w.socket_by_member a.member_number a.socket_id;
  socket_by_account_name = HashMap.insert w.socket_by_account_name a.account_name a.socket_id;
  accounts_by_socket = HashMap.insert w.accounts_by_socket a.socket_id a;
}

abbrev pub leave_session : MemberNumber → PrisonSectorSession → PrisonSectorSession
leave_session m s = record s { members = without m s.members }

-- The sessions that held the member, by host and sector.
abbrev changed_sessions : MemberNumber → List PrisonSectorSession → List (MemberNumber × ℕ)
changed_sessions m [] = []
changed_sessions m (s ∷ ss) =
    let rest = changed_sessions m ss in
    if contains s.members m then (s.host_member_number, s.sector_index) ∷ rest else rest

abbrev pub purge_account : World → String → OnlineAccount → World
purge_account w sid a = record w {
  accounts_by_socket = HashMap.remove w.accounts_by_socket sid;
  socket_by_member = HashMap.remove w.socket_by_member a.member_number;
  socket_by_account_name = HashMap.remove w.socket_by_account_name a.account_name;
  login_pending = without sid w.login_pending;
  prison_sector_sessions =
      HashMap.retain_values (λ s. not (is_empty s.members))
        (HashMap.map_values (leave_session a.member_number) w.prison_sector_sessions);
}

unfoldable pub remove_account :
    World → String → World × Option (OnlineAccount × List (MemberNumber × ℕ))
remove_account w sid = elim (HashMap.get w.accounts_by_socket sid) [
  | none ↦ (record w { login_pending = without sid w.login_pending }, none)
  | some a ↦ (
    purge_account w sid a,
    some (a, changed_sessions a.member_number (values w.prison_sector_sessions)),
  )
]

abbrev pub find_duplicate_login : World → String → Option String
find_duplicate_login w name = HashMap.get w.socket_by_account_name name

module _ (P : Platform) where
  open P use {to_uppercase}

  unfoldable pub room_key : String → String → String
  room_key env name = env ++ ":" ++ to_uppercase name

  unfoldable pub get_room_by_name : World → String → String → Option ChatRoom
  unfolding room_key
  get_room_by_name w env name =
      HashMap.get w.room_by_name_env (room_key env name) >>= HashMap.get w.chat_rooms

  unfoldable pub room_name_exists_any : World → String → Bool
  room_name_exists_any w name =
      any (λ r. to_uppercase r.name == to_uppercase name) (values w.chat_rooms)

  unfoldable pub insert_room : World → ChatRoom → World
  unfolding room_key
  insert_room w r = record w {
    room_by_name_env = HashMap.insert w.room_by_name_env (room_key r.environment r.name) r.id;
    chat_rooms = HashMap.insert w.chat_rooms r.id r;
  }

  unfoldable pub remove_room : World → String → World
  unfolding room_key
  remove_room w id = elim (HashMap.get w.chat_rooms id) [
    | none ↦ w
    | some r ↦ record w {
      chat_rooms = HashMap.remove w.chat_rooms id;
      room_by_name_env = HashMap.remove w.room_by_name_env (room_key r.environment r.name);
    }
  ]

  unfoldable pub remove_rooms : World → List String → World
  unfolding remove_room
  remove_rooms w [] = w
  remove_rooms w (id ∷ ids) = remove_rooms (remove_room w id) ids

  abbrev pub drop_member : MemberNumber → ChatRoom → ChatRoom
  drop_member m r = record r { members = without m r.members }

  abbrev pub empty_rooms : List ChatRoom → List String
  empty_rooms [] = []
  empty_rooms (r ∷ rs) =
      let rest = empty_rooms rs in if is_empty r.members then r.id ∷ rest else rest

  abbrev leave_chat : OnlineAccount → OnlineAccount
  leave_chat a = record a { chat_room_id = none }

  abbrev pub clear_room_of : World → MemberNumber → World
  clear_room_of w m = elim (get_by_member w m) [
    | none ↦ w
    | some a ↦ update_account w a.socket_id leave_chat
  ]

  unfoldable pub remove_member_from_all_rooms : World → MemberNumber → World
  unfolding remove_rooms
  remove_member_from_all_rooms w m =
      let rooms = HashMap.map_values (drop_member m) w.chat_rooms in
      clear_room_of (remove_rooms (record w { chat_rooms = rooms }) (empty_rooms (values rooms))) m

-- All the creations from an address, and those of the last hour.
unfoldable pub count_records : List AccountCreationRecord → String → ℤ → ℕ × ℕ
count_records [] ip now = (0, 0)
count_records (r ∷ rs) ip now =
    let (total, hour) = count_records rs ip now in
    if r.address == ip
    then (suc total, if leb_ℤ (now -i64 pos 3_600_000) r.time then suc hour else hour)
    else (total, hour)

unfoldable pub count_creations_for_ip : World → String → ℤ → ℕ × ℕ
unfolding count_records
count_creations_for_ip w ip now = count_records w.account_creation_ip ip now
