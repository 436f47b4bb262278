-- ===== src/Auth/Reset/Tokens.antt =====
-- auth/reset.rs: how long a reset number serves, and how often numbers are sent.
use mathlib.Core.Path.{subst}
use bc_server_rust.Base.{
  String, ℕ, suc, Bool, true, false, not, ◌||◌, ◌≡◌, refl, sym, ap, ◌∙◌, some, List, [], ◌∷◌, inl,
  inr, ℤ, pos, arith, any, retain, ltb_ℤ, ◌+i64◌, ◌==◌, ==_iff, string_eq, Bool-cases, Option-cases,
}
use bc_server_rust.Json.{Value}
use bc_server_rust.Protocol.Codes
use bc_server_rust.State.Platform.{Platform}
use bc_server_rust.State.World.{World, PasswordResetEntry}
use bc_server_rust.Util.Validate.{is_account_name, is_account_password}
use bc_server_rust.Auth.{Bcrypt, hash_password}
use bc_server_rust.Auth.Reset.{
  generate_reset_number, PasswordResetProcessRequest, ResetAnswers, not_of, matches_entry,
  is_pending, clear_resets, issue_all, issue, process_request, refuse, respond, email_of,
  set_next_reset, reset_for, handle_password_reset,
}

-- No entry of an account is left when its entries are no_entry.
no_entry :
    (req s : PasswordResetProcessRequest) (l : List PasswordResetEntry)
    → req.account_name ≡ s.account_name
    → any (matches_entry s) (retain (not_of req.account_name) l) ≡ false
unfolding any retain
no_entry req s [] e = refl
no_entry req s (x ∷ l) e = elim (Bool-cases (x.account_name == req.account_name)) [
  | inl h ↦ ground (arith, no_entry req s l e)
  | inr h ↦ ground (
    arith,
    no_entry req s l e,
    ==_iff x.account_name req.account_name,
    ==_iff x.account_name s.account_name,
  )
]

module _ (P : Platform) (B : Bcrypt) where
  -- A request for an account without an entry of its number.
  refused_by :
      (sid : String) (s : PasswordResetProcessRequest) (w : World) (stored : Bool)
      → is_pending w s ≡ false
      → process_request P B sid stored s w ≡ (w, refuse P B sid)
  unfolding process_request
  refused_by sid s w stored h =
      elim (Bool-cases
        (not (is_account_name s.account_name) || not (is_account_password s.new_password))) [
          | inl f ↦ rw (f, process_request) refl
          | inr f ↦ rw (f, h, process_request) refl
        ]

  granted :
      (sid : String) (req : PasswordResetProcessRequest) (w : World) (hash : String)
      → is_account_name req.account_name ≡ true
      → is_account_password req.new_password ≡ true
      → is_pending w req ≡ true
      → hash_password P B req.new_password ≡ some hash
      → (process_request P B sid true req w).0 ≡ clear_resets req.account_name w
  unfolding process_request
  granted sid req w hash n p h e = rw (n, p, h, e, process_request) refl

  -- A reset number serves once: when a request with a pending number has set the password, every
  -- later request for the account is refused and writes nothing, whatever its number, until a new
  -- number is issued.
  pub process_request-process_request :
      (sid : String) (req s : PasswordResetProcessRequest) (w : World) (hash : String)
      → is_account_name req.account_name ≡ true
      → is_account_password req.new_password ≡ true
      → is_pending w req ≡ true
      → hash_password P B req.new_password ≡ some hash
      → req.account_name ≡ s.account_name
      → (sid' : String) (stored : Bool)
      → process_request P B sid' stored s (process_request P B sid true req w).0
        ≡ ((process_request P B sid true req w).0, refuse P B sid')
  process_request-process_request sid req s w hash n p h e same sid' stored =
      subst (λ x. process_request P B sid' stored s x ≡ (x, refuse P B sid'))
        (sym (granted sid req w hash n p h e))
        (refused_by sid' s (clear_resets req.account_name w) stored
          (no_entry req s w.password_resets same))

-- The time of the next reset after the numbers are issued.
issue_all_time :
    (random : ℕ → List ℕ) (names : List String) (w : World)
    → (issue_all random names w).0.next_password_reset_at ≡ w.next_password_reset_at
unfolding issue_all
issue_all_time random [] w = refl
issue_all_time random (name ∷ names) w =
    issue_all_time (λ n. random (suc n)) names (issue name (generate_reset_number (random 0)) w)

reset_for_time :
    (sid : String) (random : ℕ → List ℕ) (answers : ResetAnswers) (email : String) (w : World)
    → (reset_for sid random answers email w).0.next_password_reset_at ≡ w.next_password_reset_at
unfolding reset_for
reset_for_time sid random answers email w = elim (Option-cases answers.names) [
  | inl e ↦ rw (e, reset_for) refl
  | inr ([], e) ↦ rw (e, reset_for) refl
  | inr (name ∷ more, e) ↦ rw (e, reset_for) (issue_all_time random (name ∷ more) w)
]

-- For five seconds after a request for numbers is let through, every other such request changes
-- nothing and is told to come back later, whoever sends it.
pub handle_password_reset-handle_password_reset :
    (sid : String) (now : ℤ) (random : ℕ → List ℕ) (answers : ResetAnswers) (d : Value)
    (email : String) (w : World)
    → email_of sid d ≡ some email
    → ltb_ℤ now w.next_password_reset_at ≡ false
    → (sid' : String) (later : ℤ) (random' : ℕ → List ℕ) (answers' : ResetAnswers) (d' : Value)
      (email' : String)
    → email_of sid' d' ≡ some email'
    → ltb_ℤ later (now +i64 pos 5000) ≡ true
    → handle_password_reset sid' later random' answers' d'
        (handle_password_reset sid now random answers d w).0
      ≡ ((handle_password_reset sid now random answers d w).0, respond sid' Codes.retry_later)
unfolding handle_password_reset
handle_password_reset-handle_password_reset sid now random answers d email w e f sid' later random'
      answers' d' email' e' l =
    rw (e', late, handle_password_reset) refl
  where
    next :
        (handle_password_reset sid now random answers d w).0.next_password_reset_at
        ≡ now +i64 pos 5000
    next =
        rw (e, f, handle_password_reset)
          (reset_for_time sid random answers email (set_next_reset now w))

    late :
        ltb_ℤ later (handle_password_reset sid now random answers d w).0.next_password_reset_at
        ≡ true
    late = ap (ltb_ℤ later) next ∙ l
