-- ===== src/Auth/Login/Queue.antt =====
-- auth/login.rs: every login that is served gives its place in the queue back.
use bc_server_rust.Base.{
  String, ◌-◌, false, ◌≡◌, refl, ap, ◌∙◌, Option, none, some, List, [], ◌∷◌, inl, inr, ℤ, pos,
  arith, contains, contains-without, ◌==◌, ==_iff, int_eq, string_eq, is_empty, Bool-cases,
  Option-cases,
}
use bc_server_rust.Base.HashMap
use bc_server_rust.Base.HashMap.{values}
use bc_server_rust.Json.{Fields}
use bc_server_rust.Protocol.{MemberNumber}
use bc_server_rust.State.Platform.{Platform}
use bc_server_rust.State.Account.{OnlineAccount, ensure_defaults, from_db_doc}
use bc_server_rust.State.World.{
  drop_member, empty_rooms, clear_room_of, World, get_by_member, remove_account, remove_room,
  remove_rooms, remove_member_from_all_rooms, insert_account, allocate_member_number,
}
use bc_server_rust.Room.Leave.{
  leave_room_inner_reason, leave_room_on_disconnect, detach, close_if_empty,
}
use bc_server_rust.Disconnect.{leave_on_disconnect, leave_with}
use bc_server_rust.Auth.{Bcrypt}
use bc_server_rust.Auth.Login.{
  LoginAnswers, AccountLoginRequest, finish_queue_slot, kick, kick_duplicate, numbered, enter_world,
  start_session, serve, is_password,
}

module _ (P : Platform) where
  removed_rooms-queue :
      (ids : List String) (w : World) → (remove_rooms P w ids).login_queue_len ≡ w.login_queue_len
  unfolding remove_rooms remove_room
  removed_rooms-queue [] w = refl
  removed_rooms-queue (id ∷ ids) w = elim (Option-cases (HashMap.get w.chat_rooms id)) [
    | inl e ↦ removed_rooms-queue ids (remove_room P w id) ∙ rw (e, remove_room) refl
    | inr (r, e) ↦ removed_rooms-queue ids (remove_room P w id) ∙ rw (e, remove_room) refl
  ]

  closed-queue :
      (w : World) (id : String) → (close_if_empty P w id).login_queue_len ≡ w.login_queue_len
  unfolding close_if_empty remove_room
  closed-queue w id = elim (Option-cases (HashMap.get w.chat_rooms id)) [
    | inl e ↦ rw (e, close_if_empty) refl
    | inr (r, e) ↦ elim (Bool-cases (is_empty r.members)) [
      | inl h ↦ rw (e, h, close_if_empty, e, remove_room) refl
      | inr h ↦ rw (e, h, close_if_empty) refl
    ]
  ]

  left_at-queue :
      (m : MemberNumber) (o : Option String) (w : World)
      → (leave_with P m o w).0.login_queue_len ≡ w.login_queue_len
  unfolding leave_room_on_disconnect leave_room_inner_reason detach
  left_at-queue m none w = refl
  left_at-queue m (some rid) w = closed-queue (detach w rid m) rid

  left-queue :
      (sid : String) (w : World)
      → (leave_on_disconnect P sid w).0.login_queue_len ≡ w.login_queue_len
  unfolding leave_on_disconnect
  left-queue sid w = elim (Option-cases (HashMap.get w.accounts_by_socket sid)) [
    | inl e ↦ rw (e, leave_on_disconnect) refl
    | inr (a, e) ↦ rw (e, leave_on_disconnect) (left_at-queue a.member_number a.chat_room_id w)
  ]

  removed-queue :
      (sid : String) (w : World) → (remove_account w sid).0.login_queue_len ≡ w.login_queue_len
  unfolding remove_account
  removed-queue sid w = elim (Option-cases (HashMap.get w.accounts_by_socket sid)) [
    | inl e ↦ rw (e, remove_account) refl
    | inr (a, e) ↦ rw (e, remove_account) refl
  ]

  cleared_at-queue :
      (w : World) (m : MemberNumber) → (clear_room_of P w m).login_queue_len ≡ w.login_queue_len
  cleared_at-queue w m = elim (Option-cases (get_by_member w m)) [
    | inl e ↦ rw (clear_room_of, e) refl
    | inr (a, e) ↦ rw (clear_room_of, e) refl
  ]

  cleared-queue :
      (w : World) (m : MemberNumber)
      → (remove_member_from_all_rooms P w m).login_queue_len ≡ w.login_queue_len
  unfolding remove_member_from_all_rooms
  cleared-queue w m =
      let rooms = HashMap.map_values (drop_member P m) w.chat_rooms in
      cleared_at-queue
        (remove_rooms P (record w { chat_rooms = rooms }) (empty_rooms P (values rooms))) m
      ∙ removed_rooms-queue (empty_rooms P (values rooms)) (record w { chat_rooms = rooms })

  kicked-queue :
      (B : Bcrypt) (sid : String) (now : ℤ) (name : String) (w : World)
      → (kick_duplicate P B sid now name w).0.login_queue_len ≡ w.login_queue_len
  unfolding kick_duplicate kick
  kicked-queue B sid now name w = elim (Option-cases (HashMap.get w.socket_by_account_name name)) [
    | inl e ↦ rw (e, kick_duplicate) refl
    | inr (old, e) ↦
        rw (e, kick_duplicate)
          (removed-queue old (leave_on_disconnect P old w).0 ∙ left-queue old w)
  ]

  numbered-queue :
      (B : Bcrypt) (sid : String) (now : ℤ) (a : OnlineAccount) (w : World)
      → (numbered P B sid now a w).1.login_queue_len ≡ w.login_queue_len
  unfolding numbered allocate_member_number
  numbered-queue B sid now a w = elim (Bool-cases (a.member_number == pos 0)) [
    | inl h ↦ rw (h, numbered) refl
    | inr h ↦ rw (h, numbered) refl
  ]

  entered-queue :
      (B : Bcrypt) (sid : String) (now : ℤ) (a : OnlineAccount) (w : World)
      → ((enter_world P B sid now a w).login_queue_len ≡ w.login_queue_len - 1)
        × (contains (enter_world P B sid now a w).login_pending sid ≡ false)
  unfolding enter_world finish_queue_slot insert_account
  entered-queue B sid now a w = (
    ap (λ n. n - 1) (cleared-queue w a.member_number),
    ground (
      arith,
      contains-without (remove_member_from_all_rooms P w a.member_number).login_pending sid sid,
      ==_iff sid sid,
    ),
  )

-- The place of the login is free: it is not pending, and the queue is shorter by one.
pub IsReleased : String → World → World → Type 0
IsReleased sid w w' =
    (w'.login_queue_len ≡ w.login_queue_len - 1) × (contains w'.login_pending sid ≡ false)

module _ (P : Platform) (B : Bcrypt) (sid : String) (now : ℤ) where
  finished : (w : World) → IsReleased sid w (finish_queue_slot sid w)
  unfolding IsReleased finish_queue_slot
  finished w = (refl, ground (arith, contains-without w.login_pending sid sid, ==_iff sid sid))

  started :
      (name environment : String) (doc : Fields) (w : World)
      → IsReleased sid w
          (start_session P B sid now environment doc (kick_duplicate P B sid now name w).0).0
  unfolding IsReleased start_session
  started name environment doc w =
      let w1 = (kick_duplicate P B sid now name w).0 in
      let a = ensure_defaults (from_db_doc P sid environment doc now) in
      let n = numbered P B sid now a w1 in
      let (x, y) = entered-queue P B sid now n.0 n.1 in
      (x ∙ ap (λ k. k - 1) (numbered-queue P B sid now a w1 ∙ kicked-queue P B sid now name w), y)

  -- Every login that is served gives its place in the queue back, however it ends: the socket is not
  -- pending then, and the queue is shorter by one.
  pub serve-IsReleased :
      (answers : LoginAnswers) (req : AccountLoginRequest) (w : World)
      → IsReleased sid w (serve P B sid now answers req w).0
  unfolding serve
  serve-IsReleased answers req w = elim (Bool-cases answers.connected_before) [
    | inr h ↦ rw (h, serve) (finished w)
    | inl h ↦ elim (Option-cases answers.found) [
      | inl e ↦ rw (h, e, serve) (finished w)
      | inr (none, e) ↦ rw (h, e, serve) (finished w)
      | inr (some doc, e) ↦ elim (Bool-cases answers.connected_after) [
        | inr f ↦ rw (h, e, f, serve) (finished w)
        | inl f ↦ elim (Bool-cases (is_password P B sid now req.password doc)) [
          | inr g ↦ rw (h, e, f, g, serve) (finished w)
          | inl g ↦
              rw (h, e, f, g, serve)
                (started (P.to_uppercase req.account_name) answers.environment doc w)
        ]
      ]
    ]
  ]
