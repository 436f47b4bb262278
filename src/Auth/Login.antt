-- ===== src/Auth/Login.antt =====
-- auth/login.rs: `handle_account_login`, in two steps: the place in the queue, and what the handler
-- does once it holds the mutex of the logins, which is one step here, its database calls included.
pub mod Queue
pub mod Rooms
pub mod Consistency
pub mod Entry
use bc_server_rust.Base.{
  String, ℕ, suc, ◌-◌, ℤ, pos, Bool, true, false, not, Option, none, some, List, [], ◌∷◌, ◌++◌, ltb,
  contains, without, push, if◌then◌else◌, ◌==◌, int_eq, string_eq,
}
use bc_server_rust.Json.{
  Value, int, text, object, array, nil, cons, Fields, end, find_field, as_str, str_field, get_field,
  unwrap_or, ◌>>=◌,
}
use bc_server_rust.Protocol.{MemberNumber, Emission, emit, disconnect}
use bc_server_rust.Protocol.Events
use bc_server_rust.Protocol.Codes
use bc_server_rust.State.Platform.{Platform}
use bc_server_rust.State.Account.{
  OnlineAccount, from_db_doc, ensure_defaults, to_login_response, purge_after_login,
}
use bc_server_rust.State.World.{
  World, get_by_socket, find_duplicate_login, remove_account, allocate_member_number,
  remove_member_from_all_rooms, insert_account,
}
use bc_server_rust.Disconnect.{leave_on_disconnect, syncs}
use bc_server_rust.Store.{
  Run, Effect, tell, tell_all, then_run, login_handlers, set_member_number, set_last_login,
}
use bc_server_rust.Connection.{send_server_info_to}
use bc_server_rust.Auth.{Bcrypt, verify_password}

-- protocol/mod.rs.
pub record AccountLoginRequest : Type 0 where
  pub account_name : String
  pub password : String

decode_two : Option Value → Option Value → Option AccountLoginRequest
decode_two a p = do
  account_name ← a >>= as_str
  password ← p >>= as_str
  some (record { account_name = account_name; password = password })

unfoldable pub decode_login : Value → Option AccountLoginRequest
unfolding decode_two
decode_login (object fs) = decode_two (find_field fs "AccountName") (find_field fs "Password")
decode_login (array (cons a (cons p nil))) = decode_two (some a) (some p)
decode_login _ = none

abbrev pub respond : String → String → List Effect
respond sid code = tell (emit sid Events.login_response (text code)) ∷ []

abbrev queue_notice : String → ℕ → List Effect
queue_notice sid len =
    if ltb 16 len then tell (emit sid Events.login_queue (int (pos len))) ∷ [] else []

-- The request that goes on to the mutex, if there is one.
unfoldable pub enqueue : String → Value → World → World × List Effect × Option AccountLoginRequest
unfolding decode_login
enqueue sid d w = elim (decode_login d) [
  | none ↦ (w, respond sid Codes.invalid_name_password, none)
  | some req ↦ if contains w.login_pending sid then (w, [], none) else (
    record w { login_pending = push w.login_pending sid; login_queue_len = suc w.login_queue_len },
    queue_notice sid (suc w.login_queue_len),
    some req,
  )
]

unfoldable pub finish_queue_slot : String → World → World
finish_queue_slot sid w = record w {
  login_pending = without sid w.login_pending;
  login_queue_len = w.login_queue_len - 1;
}

-- What happens outside: the connection before the database is asked and after the hash is checked,
-- the document, where `none` is an error, and the environment of the socket.
pub record LoginAnswers : Type 0 where
  pub connected_before : Bool
  pub found : Option (Option Fields)
  pub connected_after : Bool
  pub environment : String

module _ (P : Platform) (B : Bcrypt) (sid : String) (now : ℤ) where
  -- The other session of the account is told, taken off its room and the tables, and disconnected.
  unfoldable pub kick : String → Run
  unfolding leave_on_disconnect remove_account
  kick old w =
      let (w1, left) = leave_on_disconnect P old w in
      let (w2, removed) = remove_account w1 old in
      (
        w2,
        tell (emit old Events.force_disconnect (text Codes.error_duplicated_login))
            ∷ tell_all (left ++ (syncs P w2 removed ++ disconnect old ∷ [])),
      )

  unfoldable pub kick_duplicate : String → Run
  unfolding kick
  kick_duplicate account_name w = elim (find_duplicate_login w account_name) [
    | none ↦ (w, [])
    | some old ↦ kick old w
  ]

  -- A number for an account that has none.
  unfoldable pub numbered : OnlineAccount → World → OnlineAccount × World × List Effect
  unfolding allocate_member_number set_member_number
  numbered a w =
      if a.member_number == pos 0
      then (let (n, w') = allocate_member_number w in
          (record a { member_number = n }, w', set_member_number a.account_name n))
      else (a, w, [])

  -- The session enters the tables, and no room has the member from before.
  unfoldable pub enter_world : OnlineAccount → World → World
  unfolding purge_after_login finish_queue_slot remove_member_from_all_rooms insert_account
  enter_world a w =
      insert_account (finish_queue_slot sid (remove_member_from_all_rooms P w a.member_number))
        (purge_after_login a)

  unfoldable pub start_session : String → Fields → Run
  unfolding numbered enter_world to_login_response send_server_info_to set_last_login from_db_doc
      ensure_defaults
  start_session environment doc w =
      let (a, w1, given) = numbered (ensure_defaults (from_db_doc P sid environment doc now)) w in
      let w2 = enter_world a w1 in
      (
        w2,
        given
            ++ (set_last_login a.account_name now
                ++ (login_handlers sid
                    ∷ tell (emit sid Events.login_response (to_login_response a))
                    ∷ tell_all (send_server_info_to now sid w2))),
      )

  abbrev fail : Run
  fail w = (finish_queue_slot sid w, respond sid Codes.invalid_name_password)

  abbrev pub is_password : String → Fields → Bool
  is_password password doc =
      unwrap_or (verify_password P B password (unwrap_or (find_field doc "Password" >>= as_str) ""))
        false

  -- With the mutex.
  unfoldable pub serve : LoginAnswers → AccountLoginRequest → Run
  unfolding finish_queue_slot verify_password kick_duplicate start_session
  serve answers req w =
      let name = P.to_uppercase req.account_name in
      if not answers.connected_before then (finish_queue_slot sid w, []) else elim answers.found [
        | none ↦ fail w
        | some found ↦ elim found [
          | none ↦ fail w
          | some doc ↦
              if not answers.connected_after
              then (finish_queue_slot sid w, [])
              else if not (is_password req.password doc)
              then fail w
              else then_run (kick_duplicate name w) (start_session answers.environment doc)
        ]
      ]
