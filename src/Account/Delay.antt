-- ===== src/Account/Delay.antt =====
-- account/mod.rs: how long a difficulty stands.
use bc_server_rust.Base.{
  String, true, false, ◌≡◌, refl, ap, ◌∙◌, some, List, [], inl, inr, arith, ℤ, pos, ltb_ℤ, ◌+ℤ◌,
  ◌+i64◌, InI64, wrap_i64-eq, fits_i64, is_empty, ==_iff, string_eq, Bool-cases, Option-cases,
}
use bc_server_rust.Base.HashMap.{get-adjust}
use bc_server_rust.Json.{Value, find_field, insert_field}
use bc_server_rust.State.Account.{OnlineAccount}
use bc_server_rust.State.World.{World, get_by_socket}
use bc_server_rust.Store.{Effect}
use bc_server_rust.Util.Validate.{difficulty_delay_ms}
use bc_server_rust.Account.Difficulty.{
  level_of, is_level, last_change, can_change, new_difficulty, set_difficulty,
  handle_account_difficulty,
}

silent : (r : World × List Effect) (w : World) → r ≡ (w, []) → is_empty r.1 ≡ false → ⊥
silent r w e h = ground (arith, ap (λ (x : World × List Effect). is_empty x.1) e)

module _ (now changed : ℤ) (sid : String) (d : Value) (w : World) where
  abbrev after : World × List Effect
  after = handle_account_difficulty now changed sid d w

  set_difficulty-session :
      (a : OnlineAccount) (v : Value)
      → get_by_socket w sid ≡ some a
      → get_by_socket (set_difficulty sid a v w).0 sid ≡ some (record a { difficulty = some v })
  unfolding set_difficulty
  set_difficulty-session a v g = ground (
    arith,
    get-adjust w.accounts_by_socket sid sid (λ b. record b { difficulty = some v }),
    ==_iff sid sid,
  )

  -- A change stands in the session.
  changed_session :
      is_empty after.1 ≡ false
      → (a : OnlineAccount) × (get_by_socket after.0 sid
          ≡ some (record a { difficulty = some (new_difficulty (level_of d) changed) }))
  unfolding handle_account_difficulty
  changed_session h = elim (Bool-cases (is_level (level_of d))) [
    | inr e ↦ absurd (silent after w (rw (e, handle_account_difficulty) refl) h)
    | inl e ↦ elim (Option-cases (get_by_socket w sid)) [
      | inl g ↦ absurd (silent after w (rw (e, g, handle_account_difficulty) refl) h)
      | inr (a, g) ↦ elim (Bool-cases (can_change now (level_of d) a)) [
        | inr c ↦ absurd (silent after w (rw (e, g, c, handle_account_difficulty) refl) h)
        | inl c ↦ (
          a,
          rw (e, g, c, handle_account_difficulty)
              (set_difficulty-session a (new_difficulty (level_of d) changed) g),
        )
      ]
    ]
  ]

last_change-difficulty :
    (a : OnlineAccount) (level changed : ℤ)
    → InI64 changed
    → last_change (record a { difficulty = some (new_difficulty level changed) }) ≡ changed
unfolding find_field insert_field fits_i64
last_change-difficulty a level changed i = ground arith

-- A session whose difficulty is not old enough is refused the levels 2 and 3.
refused :
    (now changed : ℤ) (sid : String) (d : Value) (w : World) (a : OnlineAccount)
    → get_by_socket w sid ≡ some a
    → ltb_ℤ (pos 1) (level_of d) ≡ true
    → ltb_ℤ (last_change a +i64 difficulty_delay_ms) now ≡ false
    → handle_account_difficulty now changed sid d w ≡ (w, [])
unfolding handle_account_difficulty can_change
refused now changed sid d w a g l o = elim (Bool-cases (is_level (level_of d))) [
  | inr e ↦ rw (e, handle_account_difficulty) refl
  | inl e ↦ rw (e, g, l, o, handle_account_difficulty) refl
]

-- For a week after a request has set the difficulty of a session, the session's requests for the
-- levels 2 and 3 change nothing and write nothing, whatever level was set, if no time leaves the 64
-- bits.
pub handle_account_difficulty-handle_account_difficulty :
    (now changed : ℤ) (sid : String) (d : Value) (w : World)
    → InI64 changed
    → InI64 (changed +ℤ difficulty_delay_ms)
    → is_empty (handle_account_difficulty now changed sid d w).1 ≡ false
    → (now' changed' : ℤ) (d' : Value) → ltb_ℤ (pos 1) (level_of d') ≡ true
    → ltb_ℤ (changed +ℤ difficulty_delay_ms) now' ≡ false
    → handle_account_difficulty now' changed' sid d'
        (handle_account_difficulty now changed sid d w).0
      ≡ ((handle_account_difficulty now changed sid d w).0, [])
unfolding ◌+i64◌
handle_account_difficulty-handle_account_difficulty now changed sid d w i j h now' changed' d' l o =
    let (a, g) = changed_session now changed sid d w h in
    let b = record a { difficulty = some (new_difficulty (level_of d) changed) } in
    refused now' changed' sid d' (handle_account_difficulty now changed sid d w).0 b g l (
      ap (λ t. ltb_ℤ (t +i64 difficulty_delay_ms) now')
        (last_change-difficulty a (level_of d) changed i)
      ∙ old)
  where
    old : ltb_ℤ (changed +i64 difficulty_delay_ms) now' ≡ false
    old = ap (λ t. ltb_ℤ t now') (wrap_i64-eq (changed +ℤ difficulty_delay_ms) j) ∙ o
