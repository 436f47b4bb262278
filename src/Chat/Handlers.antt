-- ===== src/Chat/Handlers.antt =====
-- chat/mod.rs: the updates of a character keep the tables consistent.
use bc_server_rust.Base.{
  String, ◌||◌, not, refl, Option, none, some, inl, inr, arith, int_eq, string_eq, Bool-cases,
  Option-cases,
}
use bc_server_rust.Base.HashMap
use bc_server_rust.Base.HashMap.{get-adjust}
use bc_server_rust.Base.Text.{is_empty_text}
use bc_server_rust.Json.{
  Value, null, bool, int, float, text, array, object, get_field, str_field, is_array, is_object,
}
use bc_server_rust.State.Platform.{Platform}
use bc_server_rust.State.Account.{OnlineAccount}
use bc_server_rust.State.World.{World, update_account}
use bc_server_rust.State.Consistency.{IsConsistent}
use bc_server_rust.Chat.{in_room}
use bc_server_rust.Chat.Updates.{
  with_appearance, expression_for, expression_update, pose_update, arousal_for, arousal_update,
  map_data_update,
}
use bc_server_rust.Chat.Targets.{dressed, may_change, character_for, character_update}
use bc_server_rust.Chat.Consistency.{Keeps, update_account-IsConsistent}

with_appearance-Keeps : (o : Option Value) → Keeps (with_appearance o)
with_appearance-Keeps none = record {
  socket = λ a. refl;
  number = λ a. refl;
  environment = λ a. refl;
  chat_room = λ a. refl;
}
with_appearance-Keeps (some v) = record {
  socket = λ a. ground arith;
  number = λ a. ground arith;
  environment = λ a. ground arith;
  chat_room = λ a. ground arith;
}

dressed-Keeps : (v : Value) (o : Option Value) → Keeps (dressed v o)
dressed-Keeps v none = record {
  socket = λ a. refl;
  number = λ a. refl;
  environment = λ a. refl;
  chat_room = λ a. refl;
}
dressed-Keeps v (some p) = record {
  socket = λ a. refl;
  number = λ a. refl;
  environment = λ a. refl;
  chat_room = λ a. refl;
}

module _ (P : Platform) (w : World) (v : IsConsistent P w) (sid : String) (d : Value) where
  expression_update-IsConsistent : IsConsistent P (expression_update sid d w).0
  unfolding expression_update expression_for
  expression_update-IsConsistent = elim (Option-cases (str_field d "Group")) [
    | inl e ↦ rw (e, expression_update) v
    | inr (group, e) ↦ elim (Option-cases (HashMap.get w.accounts_by_socket sid)) [
      | inl f ↦ rw (e, f, expression_update) v
      | inr (acc, f) ↦ elim (Bool-cases (is_empty_text group)) [
        | inl h ↦ rw (e, f, h, expression_update) v
        | inr h ↦
            rw (e, f, h, expression_update)
              (update_account-IsConsistent P w v sid (with_appearance (get_field d "Appearance"))
                (with_appearance-Keeps (get_field d "Appearance")))
      ]
    ]
  ]

  -- An update of the fields of a session that no table speaks of.
  plain_update :
      (f : OnlineAccount → OnlineAccount) → Keeps f → IsConsistent P (update_account w sid f)
  plain_update f k = update_account-IsConsistent P w v sid f k

  pose_update-IsConsistent : IsConsistent P (pose_update sid d w).0
  unfolding pose_update
  pose_update-IsConsistent = elim (Option-cases (HashMap.get w.accounts_by_socket sid)) [
    | inl f ↦ rw (f, pose_update) v
    | inr (acc, f) ↦ elim (Bool-cases (is_object d)) [
      | inr h ↦ rw (f, h, pose_update) v
      | inl h ↦
          rw (f, h, pose_update)
            (plain_update _ (record {
              socket = λ a. refl;
              number = λ a. refl;
              environment = λ a. refl;
              chat_room = λ a. refl;
            }))
    ]
  ]

  map_data_update-IsConsistent : IsConsistent P (map_data_update sid d w).0
  unfolding map_data_update
  map_data_update-IsConsistent = elim (Option-cases (HashMap.get w.accounts_by_socket sid)) [
    | inl f ↦ rw (f, map_data_update) v
    | inr (acc, f) ↦ elim (Bool-cases (is_object d || is_array d)) [
      | inr h ↦ rw (f, h, map_data_update) v
      | inl h ↦
          rw (f, h, map_data_update)
            (plain_update _ (record {
              socket = λ a. refl;
              number = λ a. refl;
              environment = λ a. refl;
              chat_room = λ a. refl;
            }))
    ]
  ]

  arousal_for-IsConsistent :
      (acc : OnlineAccount) (o : Option Value) → IsConsistent P (arousal_for sid d acc o w).0
  unfolding arousal_for
  arousal_for-IsConsistent acc none = v
  arousal_for-IsConsistent acc (some (object fs)) = plain_update _ (record {
    socket = λ a. refl;
    number = λ a. refl;
    environment = λ a. refl;
    chat_room = λ a. refl;
  })
  arousal_for-IsConsistent acc (some null) = v
  arousal_for-IsConsistent acc (some (bool b)) = v
  arousal_for-IsConsistent acc (some (int n)) = v
  arousal_for-IsConsistent acc (some (float n)) = v
  arousal_for-IsConsistent acc (some (text s)) = v
  arousal_for-IsConsistent acc (some (array vs)) = v

  arousal_update-IsConsistent : IsConsistent P (arousal_update sid d w).0
  unfolding arousal_update
  arousal_update-IsConsistent = elim (Option-cases (HashMap.get w.accounts_by_socket sid)) [
    | inl f ↦ rw (f, arousal_update) v
    | inr (acc, f) ↦ elim (Bool-cases (is_object d || is_array d)) [
      | inr h ↦ rw (f, h, arousal_update) v
      | inl h ↦ rw (f, h, arousal_update) (arousal_for-IsConsistent acc acc.arousal_settings)
    ]
  ]

  character_for-IsConsistent :
      (target_id : String) (appearance : Value)
      → IsConsistent P (character_for P sid target_id appearance d w).0
  unfolding character_for
  character_for-IsConsistent target_id appearance = elim (Option-cases (in_room w sid)) [
    | inl e ↦ rw (e, character_for) v
    | inr ((src, r), e) ↦ elim (Option-cases (HashMap.get w.accounts_by_socket target_id)) [
      | inl f ↦ rw (e, f, character_for) v
      | inr (target, f) ↦ elim (Bool-cases (may_change P w src r target_id target)) [
        | inr h ↦ rw (e, f, h, character_for) v
        | inl h ↦
            rw (e, f, h, character_for)
              (update_account-IsConsistent P w v target_id
                (dressed appearance (get_field d "ActivePose"))
                (dressed-Keeps appearance (get_field d "ActivePose")))
      ]
    ]
  ]

  character_update-IsConsistent : IsConsistent P (character_update P sid d w).0
  unfolding character_update
  character_update-IsConsistent = elim (Option-cases (str_field d "ID")) [
    | inl e ↦ rw (e, character_update) v
    | inr (target_id, e) ↦ elim (Option-cases (get_field d "Appearance")) [
      | inl f ↦ rw (e, f, character_update) v
      | inr (appearance, f) ↦
          elim (Bool-cases (is_empty_text target_id || not (is_array appearance))) [
            | inl h ↦ rw (e, f, h, character_update) v
            | inr h ↦
                rw (e, f, h, character_update) (character_for-IsConsistent target_id appearance)
          ]
    ]
  ]

  -- Every update of a character keeps the world consistent, whatever the payload and whoever sends it:
  -- of the character, the expression, the pose, the arousal and the place on the map.
  pub updates-IsConsistent :
      IsConsistent P (character_update P sid d w).0
      × IsConsistent P (expression_update sid d w).0
      × IsConsistent P (pose_update sid d w).0
      × IsConsistent P (arousal_update sid d w).0
      × IsConsistent P (map_data_update sid d w).0
  updates-IsConsistent = (
    character_update-IsConsistent, expression_update-IsConsistent, pose_update-IsConsistent,
    arousal_update-IsConsistent, map_data_update-IsConsistent,
  )
