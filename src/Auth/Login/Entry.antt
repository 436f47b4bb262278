-- ===== src/Auth/Login/Entry.antt =====
-- auth/login.rs: the session that a login starts enters consistent tables.
use mathlib.Core.Path.{subst}
use bc_server_rust.Base.{
  String, true, ◌≡◌, refl, ap, none, some, inl, inr, ℤ, pos, ltb_ℤ, sym, ◌∙◌, ◌||◌, ◌==◌, int_eq,
  string_eq, Bool-cases, Option-cases,
}
use bc_server_rust.Base.HashMap
use bc_server_rust.Json.{Fields}
use bc_server_rust.State.Platform.{Platform}
use bc_server_rust.State.Account.{OnlineAccount, ensure_defaults, from_db_doc, purge_after_login}
use bc_server_rust.State.World.{World, allocate_member_number, remove_member_from_all_rooms}
use bc_server_rust.State.Consistency.{IsConsistent, colon_free}
use bc_server_rust.State.Insertion.{insert_account-IsConsistent}
use bc_server_rust.Auth.{Bcrypt}
use bc_server_rust.Auth.Create.Consistency.{allocated-IsConsistent}
use bc_server_rust.Auth.Login.{
  LoginAnswers, AccountLoginRequest, finish_queue_slot, kick_duplicate, numbered, enter_world,
  start_session, serve, is_password,
}
use bc_server_rust.Auth.Login.Rooms.{cleaned, remove_member-IsConsistent, world-remove_member}
use bc_server_rust.Auth.Login.Consistency.{IsOrdered, kick_duplicate-IsOrdered}

pub finish_queue_slot-IsConsistent :
    (P : Platform) (sid : String) (w : World)
    → IsConsistent P w
    → IsConsistent P (finish_queue_slot sid w)
unfolding finish_queue_slot
finish_queue_slot-IsConsistent P sid w v = record {
  keyed = v.keyed;
  session = v.session;
  located = v.located;
  present = v.present;
  room = v.room;
  unique = v.unique;
}

-- What a login makes of the stored document.
abbrev pub loaded : Platform → String → ℤ → String → Fields → OnlineAccount
loaded P sid now environment doc = ensure_defaults (from_db_doc P sid environment doc now)

-- Such an account is the socket's, in its environment and in no room.
record IsOutside (sid env : String) (a : OnlineAccount) : Type 0 where
  pub socket : a.socket_id ≡ sid
  pub environment : a.environment ≡ env
  pub outside : a.chat_room_id ≡ none

loaded-IsOutside :
    (P : Platform) (sid : String) (now : ℤ) (environment : String) (doc : Fields)
    → IsOutside sid environment (loaded P sid now environment doc)
unfolding from_db_doc ensure_defaults
loaded-IsOutside P sid now environment doc =
    elim (Bool-cases (ltb_ℤ a.item_permission (pos 0) || ltb_ℤ (pos 5) a.item_permission)) [
      | inl h ↦
          rw (h, ensure_defaults) (record { socket = refl; environment = refl; outside = refl })
      | inr h ↦
          rw (h, ensure_defaults) (record { socket = refl; environment = refl; outside = refl })
    ]
  where
    a : OnlineAccount
    a = from_db_doc P sid environment doc now

module _ (P : Platform) (B : Bcrypt) (sid : String) (now : ℤ) where
  numbered-IsOutside :
      (environment : String) (a : OnlineAccount) (w : World)
      → IsOutside sid environment a
      → IsOutside sid environment (numbered P B sid now a w).0
  unfolding numbered
  numbered-IsOutside environment a w o = elim (Bool-cases (a.member_number == pos 0)) [
    | inl h ↦
        rw (h, numbered)
          (record { socket = o.socket; environment = o.environment; outside = o.outside })
    | inr h ↦ rw (h, numbered) o
  ]

  numbered-IsOrdered :
      (a : OnlineAccount) (w : World) → IsOrdered P w → IsOrdered P (numbered P B sid now a w).1
  unfolding numbered allocate_member_number
  numbered-IsOrdered a w v = elim (Bool-cases (a.member_number == pos 0)) [
    | inl h ↦
        rw (h, numbered)
          (record { consistent = allocated-IsConsistent P w v.consistent; rooms = v.rooms })
    | inr h ↦ rw (h, numbered) v
  ]

  numbered-tables :
      (a : OnlineAccount) (w : World)
      → ((numbered P B sid now a w).1.accounts_by_socket ≡ w.accounts_by_socket)
        × ((numbered P B sid now a w).1.socket_by_member ≡ w.socket_by_member)
  unfolding numbered allocate_member_number
  numbered-tables a w = elim (Bool-cases (a.member_number == pos 0)) [
    | inl h ↦ rw (h, numbered) (refl, refl)
    | inr h ↦ rw (h, numbered) (refl, refl)
  ]

  -- A session that is new to the tables enters them.
  enter_world-IsConsistent :
      (environment : String)
      → colon_free environment ≡ true
      → (a : OnlineAccount) (w : World) → IsOutside sid environment a
      → IsOrdered P w
      → HashMap.get w.accounts_by_socket sid ≡ none
      → HashMap.get w.socket_by_member a.member_number ≡ none
      → IsConsistent P (enter_world P B sid now a w)
  unfolding enter_world finish_queue_slot purge_after_login
  enter_world-IsConsistent environment env a w o v s m =
      insert_account-IsConsistent P
        (finish_queue_slot sid (remove_member_from_all_rooms P w a.member_number))
        (finish_queue_slot-IsConsistent P sid (remove_member_from_all_rooms P w a.member_number)
          (remove_member-IsConsistent P w v.consistent v.rooms a.member_number m))
        (purge_after_login a)
        (subst (λ u. HashMap.get u.accounts_by_socket a.socket_id ≡ none) same
          (ap (HashMap.get w.accounts_by_socket) o.socket ∙ s))
        (subst (λ u. HashMap.get u.socket_by_member a.member_number ≡ none) same m)
        (ap colon_free o.environment ∙ env) o.outside
    where
      same :
          cleaned P w v.consistent v.rooms a.member_number m
          ≡ remove_member_from_all_rooms P w a.member_number
      same = sym (world-remove_member P w v.consistent v.rooms a.member_number m)

  start_session-IsConsistent :
      (environment : String)
      → colon_free environment ≡ true
      → (doc : Fields) (w : World) → IsOrdered P w
      → HashMap.get w.accounts_by_socket sid ≡ none
      → HashMap.get w.socket_by_member
          (numbered P B sid now (loaded P sid now environment doc) w).0.member_number
        ≡ none
      → IsConsistent P (start_session P B sid now environment doc w).0
  unfolding start_session
  start_session-IsConsistent environment env doc w v s m =
      let a = loaded P sid now environment doc in
      let t = numbered-tables a w in
      enter_world-IsConsistent environment env (numbered P B sid now a w).0
        (numbered P B sid now a w).1
        (numbered-IsOutside environment a w (loaded-IsOutside P sid now environment doc))
        (numbered-IsOrdered a w v) (rw t.0 s) (rw t.1 m)

  -- After the other session of the account has left, neither the socket nor the number of the
  -- account, that which it gets if it has none, is known to the tables.
  abbrev pub IsNew : String → String → World → Fields → Type 0
  IsNew name environment w doc =
      (HashMap.get (kick_duplicate P B sid now name w).0.accounts_by_socket sid ≡ none)
      × (HashMap.get (kick_duplicate P B sid now name w).0.socket_by_member
            (numbered P B sid now (loaded P sid now environment doc)
              (kick_duplicate P B sid now name w).0).0.member_number
          ≡ none)

  -- A login that is served keeps a consistent world consistent, if no two of its rooms have one id
  -- and the environment of the socket has no colon, and if, where the database finds an account,
  -- the socket and the number of the account are new to the tables once the other session of the
  -- account has left.
  pub serve-IsConsistent :
      (answers : LoginAnswers) (req : AccountLoginRequest) (w : World)
      → IsOrdered P w
      → colon_free answers.environment ≡ true
      → ((doc : Fields)
          → answers.found ≡ some (some doc)
          → IsNew (P.to_uppercase req.account_name) answers.environment w doc)
      → IsConsistent P (serve P B sid now answers req w).0
  unfolding serve
  serve-IsConsistent answers req w v env new = elim (Bool-cases answers.connected_before) [
    | inr c ↦ rw (c, serve) released
    | inl c ↦ elim (Option-cases answers.found) [
      | inl e ↦ rw (c, e, serve) released
      | inr (none, e) ↦ rw (c, e, serve) released
      | inr (some doc, e) ↦ elim (Bool-cases answers.connected_after) [
        | inr d ↦ rw (c, e, d, serve) released
        | inl d ↦ elim (Bool-cases (is_password P B sid now req.password doc)) [
          | inr h ↦ rw (c, e, d, h, serve) released
          | inl h ↦ rw (c, e, d, h, serve) (started doc (new doc e))
        ]
      ]
    ]
  ]
    where
      released : IsConsistent P (finish_queue_slot sid w)
      released = finish_queue_slot-IsConsistent P sid w v.consistent

      started :
          (doc : Fields)
          → IsNew (P.to_uppercase req.account_name) answers.environment w doc
          → IsConsistent P
              (start_session P B sid now answers.environment doc
                (kick_duplicate P B sid now (P.to_uppercase req.account_name) w).0).0
      started doc n =
          start_session-IsConsistent answers.environment env doc
            (kick_duplicate P B sid now (P.to_uppercase req.account_name) w).0
            (kick_duplicate-IsOrdered P B sid now (P.to_uppercase req.account_name) w v) n.0 n.1
