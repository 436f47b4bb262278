-- ===== src/Reachable.antt =====
-- The handlers together: what holds of the shared world after any sequence of events.
use bc_server_rust.Base.{
  ℤ, String, Bool, true, ◌≡◌, refl, Option, none, some, List, inl, inr, arith, contains, SameItems,
  IsDistinct, string_eq, int_eq, Bool-cases, Option-cases,
}
use bc_server_rust.Base.HashMap
use bc_server_rust.Base.HashMap.{keys}
use bc_server_rust.Json.{Value, Fields}
use bc_server_rust.Protocol.{MemberNumber}
use bc_server_rust.State.Platform.{Platform}
use bc_server_rust.State.Account.{OnlineAccount}
use bc_server_rust.State.World.{World, new, get_by_socket}
use bc_server_rust.State.Consistency.{IsConsistent, colon_free}
use bc_server_rust.Room.Create.{chat_room_create}
use bc_server_rust.Room.Create.Consistency.{chat_room_create-IsConsistent}
use bc_server_rust.Room.Join.{chat_room_join}
use bc_server_rust.Room.Join.Consistency.{chat_room_join-IsConsistent}
use bc_server_rust.Room.Leave.{chat_room_leave}
use bc_server_rust.Room.Leave.Consistency.{chat_room_leave-IsConsistent}
use bc_server_rust.Room.Admin.{chat_room_admin}
use bc_server_rust.Room.Admin.Consistency.{chat_room_admin-IsConsistent}
use bc_server_rust.Chat.Updates.{expression_update, pose_update, arousal_update, map_data_update}
use bc_server_rust.Chat.Targets.{character_update}
use bc_server_rust.Chat.Handlers.{updates-IsConsistent}
use bc_server_rust.Chat.Consistency.{Keeps, update_account-IsConsistent}
use bc_server_rust.Relations.Ownership.Handler.{handle_account_ownership}
use bc_server_rust.Relations.Ownership.Rules.{IsBond}
use bc_server_rust.Relations.Ownership.Refinement.{handle_account_ownership-IsConsistent}
use bc_server_rust.Relations.Lovership.Handler.{handle_account_lovership}
use bc_server_rust.Relations.Lovership.Persisted.{handle_account_lovership-IsConsistent}
use bc_server_rust.Account.Difficulty.{
  level_of, is_level, can_change, new_difficulty, set_difficulty, handle_account_difficulty,
}
use bc_server_rust.Auth.{Bcrypt}
use bc_server_rust.Auth.Create.{CreationLimits, CreationAnswers, handle_account_create}
use bc_server_rust.Auth.Create.Consistency.{handle_account_create-IsConsistent}
use bc_server_rust.Auth.Login.{LoginAnswers, AccountLoginRequest, decode_login, enqueue, serve}
use bc_server_rust.Auth.Login.Entry.{IsNew, serve-IsConsistent}
use bc_server_rust.Disconnect.{on_disconnect_cleanup}
use bc_server_rust.Disconnect.Consistency.{on_disconnect_cleanup-IsGone}

-- One event, with what is random, stored or outside chosen as it may come.
pub data Step (P : Platform) (B : Bcrypt) (w : World) : World → Type 0 where
  account_created :
      (sid ip environment : String) (now : ℤ) (limits : CreationLimits) (answers : CreationAnswers)
      (d : Value)
      → colon_free environment ≡ true
      → HashMap.get w.accounts_by_socket sid ≡ none
      → HashMap.get w.socket_by_member w.next_member_number ≡ none
      → Step P B w (handle_account_create P B sid now limits ip environment answers d w).0
  login_queued : (sid : String) (d : Value) → Step P B w (enqueue sid d w).0
  login_served :
      (sid : String) (now : ℤ) (answers : LoginAnswers) (req : AccountLoginRequest)
      → IsDistinct (keys w.chat_rooms)
      → colon_free answers.environment ≡ true
      → ((doc : Fields)
          → answers.found ≡ some (some doc)
          → IsNew P B sid now (P.to_uppercase req.account_name) answers.environment w doc)
      → Step P B w (serve P B sid now answers req w).0
  room_created :
      (sid id : String) (now : ℤ) (d : Value)
      → HashMap.get w.chat_rooms id ≡ none
      → Step P B w (chat_room_create P sid id now d w).0
  room_joined : (sid : String) (d : Value) → Step P B w (chat_room_join P sid d w).0
  room_left : (sid : String) → Step P B w (chat_room_leave P sid w).0
  room_administered :
      (shuffled : List MemberNumber → List MemberNumber) (sid : String) (d : Value)
      → ((l : List MemberNumber) → SameItems (shuffled l) l)
      → Step P B w (chat_room_admin P shuffled sid d w).0
  character_updated : (sid : String) (d : Value) → Step P B w (character_update P sid d w).0
  expression_updated : (sid : String) (d : Value) → Step P B w (expression_update sid d w).0
  pose_updated : (sid : String) (d : Value) → Step P B w (pose_update sid d w).0
  arousal_updated : (sid : String) (d : Value) → Step P B w (arousal_update sid d w).0
  map_data_updated : (sid : String) (d : Value) → Step P B w (map_data_update sid d w).0
  ownership_asked :
      (connected : String → Bool) (now : ℤ) (sid : String) (doc : Option Value) (d : Value)
      → ((src : OnlineAccount)
          → HashMap.get w.accounts_by_socket sid ≡ some src
          → IsBond src.ownership)
      → Step P B w (handle_account_ownership connected now sid doc d w).0
  lovership_asked :
      (connected : String → Bool) (now : ℤ) (sid : String) (d : Value)
      → Step P B w (handle_account_lovership connected now sid d w).0
  difficulty_set :
      (now changed : ℤ) (sid : String) (d : Value)
      → Step P B w (handle_account_difficulty now changed sid d w).0
  session_ended :
      (sid ip : String) (a : OnlineAccount)
      → HashMap.get w.accounts_by_socket sid ≡ some a
      → Step P B w (on_disconnect_cleanup P sid ip w).0

-- The worlds that a server comes to, whatever number its first account gets.
pub data Reachable (P : Platform) (B : Bcrypt) : World → Type 0 where
  started : (next : ℤ) → Reachable P B (new next)
  later : {w u : World} → Reachable P B w → Step P B w u → Reachable P B u

new-IsConsistent : (P : Platform) (next : ℤ) → IsConsistent P (new next)
unfolding new HashMap.get
new-IsConsistent P next = record {
  keyed = tt;
  session = λ sid a g. absurd (ground arith);
  located = λ sid a rid g. absurd (ground arith);
  present = λ rid r m g. absurd (ground arith);
  room = λ rid r g. absurd (ground arith);
  unique = λ rid q r x g. absurd (ground arith);
}

enqueue-IsConsistent :
    (P : Platform) (w : World) (sid : String) (d : Value)
    → IsConsistent P w
    → IsConsistent P (enqueue sid d w).0
unfolding enqueue
enqueue-IsConsistent P w sid d v = elim (Option-cases (decode_login d)) [
  | inl e ↦ rw (e, enqueue) v
  | inr (req, e) ↦ elim (Bool-cases (contains w.login_pending sid)) [
    | inl h ↦ rw (e, h, enqueue) v
    | inr h ↦
        rw (e, h, enqueue)
          (record {
            keyed = v.keyed;
            session = v.session;
            located = v.located;
            present = v.present;
            room = v.room;
            unique = v.unique;
          })
  ]
]

difficulty-Keeps : (v : Value) → Keeps (λ b. record b { difficulty = some v })
difficulty-Keeps v = record {
  socket = λ a. refl;
  number = λ a. refl;
  environment = λ a. refl;
  chat_room = λ a. refl;
}

handle_account_difficulty-IsConsistent :
    (P : Platform) (w : World) (now changed : ℤ) (sid : String) (d : Value)
    → IsConsistent P w
    → IsConsistent P (handle_account_difficulty now changed sid d w).0
unfolding handle_account_difficulty set_difficulty
handle_account_difficulty-IsConsistent P w now changed sid d v =
    elim (Bool-cases (is_level (level_of d))) [
      | inr e ↦ rw (e, handle_account_difficulty) v
      | inl e ↦ elim (Option-cases (get_by_socket w sid)) [
        | inl g ↦ rw (e, g, handle_account_difficulty) v
        | inr (a, g) ↦ elim (Bool-cases (can_change now (level_of d) a)) [
          | inr c ↦ rw (e, g, c, handle_account_difficulty) v
          | inl c ↦
              rw (e, g, c, handle_account_difficulty)
                (update_account-IsConsistent P w v sid
                  (λ b. record b { difficulty = some (new_difficulty (level_of d) changed) })
                  (difficulty-Keeps (new_difficulty (level_of d) changed)))
        ]
      ]
    ]

module _ (P : Platform) (B : Bcrypt) where
  step-IsConsistent : {w u : World} → Step P B w u → IsConsistent P w → IsConsistent P u
  step-IsConsistent {w} (account_created sid ip environment now limits answers d env s m) v =
      handle_account_create-IsConsistent P B sid now environment env w v s m limits ip answers d
  step-IsConsistent {w} (login_queued sid d) v = enqueue-IsConsistent P w sid d v
  step-IsConsistent {w} (login_served sid now answers req distinct env is_new) v =
      serve-IsConsistent P B sid now answers req w (record { consistent = v; rooms = distinct }) env
        is_new
  step-IsConsistent {w} (room_created sid id now d fresh) v =
      chat_room_create-IsConsistent P w sid id now d v fresh
  step-IsConsistent {w} (room_joined sid d) v = chat_room_join-IsConsistent P w sid d v
  step-IsConsistent {w} (room_left sid) v = chat_room_leave-IsConsistent P w sid v
  step-IsConsistent {w} (room_administered shuffled sid d same) v =
      chat_room_admin-IsConsistent P shuffled w sid d same v
  step-IsConsistent {w} (character_updated sid d) v = (updates-IsConsistent P w v sid d).0
  step-IsConsistent {w} (expression_updated sid d) v = (updates-IsConsistent P w v sid d).1
  step-IsConsistent {w} (pose_updated sid d) v = (updates-IsConsistent P w v sid d).2
  step-IsConsistent {w} (arousal_updated sid d) v = (updates-IsConsistent P w v sid d).3
  step-IsConsistent {w} (map_data_updated sid d) v = (updates-IsConsistent P w v sid d).4
  step-IsConsistent {w} (ownership_asked connected now sid doc d bond) v =
      handle_account_ownership-IsConsistent P w v connected now sid doc d bond
  step-IsConsistent {w} (lovership_asked connected now sid d) v =
      handle_account_lovership-IsConsistent connected now sid P d w v
  step-IsConsistent {w} (difficulty_set now changed sid d) v =
      handle_account_difficulty-IsConsistent P w now changed sid d v
  step-IsConsistent {w} (session_ended sid ip a online) v =
      (on_disconnect_cleanup-IsGone P w sid ip a v online).consistent

  -- Whatever sequence of events a server has handled since its start, its tables are consistent:
  -- creations of accounts, logins, the handlers of rooms, the updates of characters, requests about
  -- owners and lovers, changes of the difficulty, and ends of sessions. It is asked that the
  -- environment of a socket has no colon; that a session that enters has a socket and a number new to
  -- the tables, and a new room a free id; that a shuffle keeps the members; that at a login no two
  -- rooms have one id; and that whoever asks about an owner has no stage beside an offer to start a
  -- trial.
  pub Reachable-IsConsistent : (w : World) → Reachable P B w → IsConsistent P w
  Reachable-IsConsistent _ (started next) = new-IsConsistent P next
  Reachable-IsConsistent _ (later r s) = step-IsConsistent s (Reachable-IsConsistent _ r)
