-- ===== src/Auth/Create/Consistency.antt =====
-- auth/create.rs: the creation of an account keeps the tables consistent.
use bc_server_rust.Base.{
  String, Bool, true, false, ◌||◌, ◌≡◌, refl, none, some, inl, inr, ℤ, leb, int_eq, string_eq,
  Bool-cases, Option-cases,
}
use bc_server_rust.Base.HashMap
use bc_server_rust.Json.{Value}
use bc_server_rust.State.Platform.{Platform}
use bc_server_rust.State.World.{World, allocate_member_number, count_creations_for_ip}
use bc_server_rust.State.Consistency.{IsConsistent, colon_free}
use bc_server_rust.State.Insertion.{insert_account-IsConsistent}
use bc_server_rust.Auth.{Bcrypt, hash_password}
use bc_server_rust.Auth.Create.{
  AccountCreateRequest, CreationLimits, CreationAnswers, decode_create, is_creatable,
  new_online_from_create, record_creation, create_account, create_unless_found,
  handle_account_create,
}

-- A world with other lists and counters and the same tables.
pub allocated-IsConsistent :
    (P : Platform) (w : World) → IsConsistent P w → IsConsistent P (allocate_member_number w).1
unfolding allocate_member_number
allocated-IsConsistent P w v = record {
  keyed = v.keyed;
  session = v.session;
  located = v.located;
  present = v.present;
  room = v.room;
  unique = v.unique;
}

recorded-IsConsistent :
    (P : Platform) (w : World) (ip : String) (now : ℤ)
    → IsConsistent P w
    → IsConsistent P (record_creation w ip now)
recorded-IsConsistent P w ip now v = record {
  keyed = v.keyed;
  session = v.session;
  located = v.located;
  present = v.present;
  room = v.room;
  unique = v.unique;
}

module _ (P : Platform) (B : Bcrypt) (sid : String) (now : ℤ) (environment : String)
    (env : colon_free environment ≡ true) where
  create_account-IsConsistent :
      (w : World)
      → IsConsistent P w
      → HashMap.get w.accounts_by_socket sid ≡ none
      → HashMap.get w.socket_by_member w.next_member_number ≡ none
      → (req : AccountCreateRequest) (name hash : String) (inserted : Bool)
      → IsConsistent P (create_account P B sid now req name hash environment inserted w).0
  unfolding create_account allocate_member_number new_online_from_create
  create_account-IsConsistent w v s m req name hash true =
      insert_account-IsConsistent P (allocate_member_number w).1 (allocated-IsConsistent P w v)
        (new_online_from_create sid name w.next_member_number req.name environment now) s m env refl
  create_account-IsConsistent w v s m req name hash false = allocated-IsConsistent P w v

  create_unless_found-IsConsistent :
      (w : World)
      → IsConsistent P w
      → HashMap.get w.accounts_by_socket sid ≡ none
      → HashMap.get w.socket_by_member w.next_member_number ≡ none
      → (req : AccountCreateRequest) (answers : CreationAnswers)
      → IsConsistent P (create_unless_found P B sid now req environment answers w).0
  unfolding create_unless_found
  create_unless_found-IsConsistent w v s m req answers = elim (Option-cases answers.found) [
    | inl e ↦ rw (e, create_unless_found) v
    | inr (none, e) ↦ elim (Option-cases (hash_password P B req.password)) [
      | inl f ↦ rw (e, f, create_unless_found) v
      | inr (hash, f) ↦
          rw (e, f, create_unless_found)
            (create_account-IsConsistent w v s m req (P.to_uppercase req.account_name) hash
              answers.inserted)
    ]
    | inr (some d, e) ↦ rw (e, create_unless_found) v
  ]

  -- The creation of an account keeps the world consistent, whatever the request and the database's
  -- answers, if the socket has no session, no session has the next member number, and the
  -- environment of the socket has no colon.
  pub handle_account_create-IsConsistent :
      (w : World)
      → IsConsistent P w
      → HashMap.get w.accounts_by_socket sid ≡ none
      → HashMap.get w.socket_by_member w.next_member_number ≡ none
      → (limits : CreationLimits) (ip : String) (answers : CreationAnswers) (d : Value)
      → IsConsistent P (handle_account_create P B sid now limits ip environment answers d w).0
  unfolding handle_account_create
  handle_account_create-IsConsistent w v s m limits ip answers d =
      elim (Option-cases (decode_create d)) [
        | inl e ↦ rw (e, handle_account_create) v
        | inr (req, e) ↦ elim (Bool-cases (is_creatable req)) [
          | inr h ↦ rw (e, h, handle_account_create) v
          | inl h ↦
              elim (Bool-cases (
                leb limits.per_day (count_creations_for_ip w ip now).0
                || leb limits.per_hour (count_creations_for_ip w ip now).1)) [
                  | inl f ↦ rw (e, h, f, handle_account_create) v
                  | inr f ↦
                      rw (e, h, f, handle_account_create)
                        (create_unless_found-IsConsistent (record_creation w ip now)
                          (recorded-IsConsistent P w ip now v) s m req answers)
                ]
        ]
      ]
