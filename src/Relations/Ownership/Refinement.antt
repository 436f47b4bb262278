-- ===== src/Relations/Ownership/Refinement.antt =====
-- relations/mod.rs: every run of the handler of ownerships follows the rules.
use mathlib.Core.Path.{subst}
use bc_server_rust.Base.{
  String, Bool, true, ◌≡◌, refl, sym, ap, ◌∙◌, inl, inr, Option, none, some, ℤ, contains, int_eq,
  string_eq, Option-cases, Bool-cases,
}
use bc_server_rust.Base.HashMap
use bc_server_rust.Base.HashMap.{map_option, get-adjust}
use bc_server_rust.Json.{Value, i64_field, str_field, is_text}
use bc_server_rust.Protocol.{MemberNumber}
use bc_server_rust.State.Platform.{Platform}
use bc_server_rust.State.ChatRoom.{ChatRoom}
use bc_server_rust.State.Account.{OnlineAccount}
use bc_server_rust.State.World.{World, get_by_member}
use bc_server_rust.State.Consistency.{IsConsistent}
use bc_server_rust.Chat.{in_room}
use bc_server_rust.Relations.Ownership.{break_ownership}
use bc_server_rust.Relations.Ownership.Trial.{consent}
use bc_server_rust.Relations.Ownership.Handler.{with_target, from_room, handle_account_ownership}
use bc_server_rust.Relations.Ownership.Rules.{Step, IsBond, Step-IsBond}
use bc_server_rust.Relations.Ownership.Outcome.{
  Outcome, outcome_steps, outcome_before, outcome-IsConsistent, stay_at,
}
use bc_server_rust.Relations.Ownership.Releases.{
  break_ownership_lem, release_offline_lem, update_notes_lem, release_lem,
}
use bc_server_rust.Relations.Ownership.Trials.{propose_lem, ask_lem, consent_keeps, consent_lem}
use bc_server_rust.Relations.Ownership.Facts.{propose_not_accept, same_world, in_room_online}

module _ (P : Platform) (w : World) (v : IsConsistent P w) (connected : String → Bool) (now : ℤ)
    (doc : Option Value) (sid : String) (src : OnlineAccount)
    (online : HashMap.get w.accounts_by_socket sid ≡ some src) (bond : IsBond src.ownership) where
  with_target_lem :
      (m : MemberNumber) (r : ChatRoom) (t : OnlineAccount) (action notes : Option String)
      → get_by_member w m ≡ some t
      → Outcome w now doc m src (with_target connected now sid src r m t action notes w).0
  unfolding with_target
  with_target_lem m r t action notes g = elim (Bool-cases (is_text action "UpdateNotes")) [
    | inl h ↦
        same_world (rw (h, with_target) refl)
          (update_notes_lem P w v connected now doc sid src online m r t g notes)
    | inr h ↦ elim (Bool-cases (is_text action "Release")) [
      | inl f ↦
          same_world (rw (h, f, with_target) refl)
            (release_lem P w v connected now doc sid src online m r t g)
      | inr f ↦ elim (Bool-cases (is_text action "Propose")) [
        | inl y ↦ same_world (rw (h, f, with_target) refl) (
            propose_lem P w v connected now doc sid src online m r t g action
              (consent connected now sid src r m t action) y
              (λ x.
                consent_keeps P w v connected now doc sid src online m r t g action x
                  (propose_not_accept action y)))
        | inr y ↦ same_world (rw (h, f, with_target) refl) (
            ask_lem P w v connected now doc sid src online m r t g action
              (consent connected now sid src r m t action) y
              (consent_lem P w v connected now doc sid src online m r t g action bond))
      ]
    ]
  ]

  from_room_lem :
      (m : MemberNumber) (action notes : Option String)
      → Outcome w now doc m src (from_room connected now sid doc m action notes w).0
  unfolding from_room
  from_room_lem m action notes = elim (Option-cases (in_room w sid)) [
    | inl e ↦ stay_at (rw (e, from_room) refl)
    | inr ((a, r), e) ↦ elim (Bool-cases (contains r.members m)) [
      | inr h ↦ elim (Bool-cases (is_text action "Release")) [
        | inr f ↦ stay_at (rw (e, h, f, from_room) refl)
        | inl f ↦
            same_world (rw (e, h, f, from_room) refl)
              (release_offline_lem P w v connected now doc sid src online m)
      ]
      | inl h ↦ elim (Option-cases (get_by_member w m)) [
        | inl f ↦ stay_at (rw (e, h, f, from_room) refl)
        | inr (t, f) ↦
            same_world
              (inside r h t f (e ∙ ap (λ x. some (x, r)) (in_room_online w sid src a r online e)))
              (with_target_lem m r t action notes f)
      ]
    ]
  ]
    where
      inside :
          (r : ChatRoom)
          → contains r.members m ≡ true
          → (t : OnlineAccount) → get_by_member w m ≡ some t
          → in_room w sid ≡ some (src, r)
          → (from_room connected now sid doc m action notes w).0
            ≡ (with_target connected now sid src r m t action notes w).0
      inside r h t f e = rw (e, h, f, from_room) refl

  handle_lem :
      (d : Value) (m : MemberNumber)
      → i64_field d "MemberNumber" ≡ some m
      → Outcome w now doc m src (handle_account_ownership connected now sid doc d w).0
  unfolding handle_account_ownership
  handle_lem d m e = elim (Bool-cases (is_text (str_field d "Action") "Break")) [
    | inl h ↦
        same_world (rw (e, h, handle_account_ownership) refl)
          (break_ownership_lem P w v connected now doc sid src online m)
    | inr h ↦
        same_world (rw (e, h, handle_account_ownership) refl)
          (from_room_lem m (str_field d "Action") (str_field d "Notes"))
  ]

  -- A request of an online session about the member `m` moves every session by a step that the
  -- rules allow the sender, if the world is consistent and the sender has no stage beside an offer
  -- to start a trial.
  pub handle_account_ownership_lem :
      (d : Value) (m : MemberNumber)
      → i64_field d "MemberNumber" ≡ some m
      → (j : String) (a : OnlineAccount) → HashMap.get w.accounts_by_socket j ≡ some a
      → (b : OnlineAccount) × (HashMap.get
            (handle_account_ownership connected now sid doc d w).0.accounts_by_socket
            j
          ≡ some b)
        × Step w now doc m src a b
  handle_account_ownership_lem d m e = outcome_steps (handle_lem d m e)

-- The tables are consistent, and no session has a stage beside an offer to start a trial.
pub record IsSound (P : Platform) (w : World) : Type 0 where
  pub consistent : IsConsistent P w
  pub bonds :
      (j : String) (a : OnlineAccount)
      → HashMap.get w.accounts_by_socket j ≡ some a
      → IsBond a.ownership

-- Nothing is changed for a socket without a session.
offline :
    (w : World) (connected : String → Bool) (now : ℤ) (sid : String) (doc : Option Value)
    (d : Value)
    → HashMap.get w.accounts_by_socket sid ≡ none
    → (handle_account_ownership connected now sid doc d w).0 ≡ w
unfolding handle_account_ownership break_ownership from_room in_room
offline w connected now sid doc d e = elim (Option-cases (i64_field d "MemberNumber")) [
  | inl f ↦ rw (f, handle_account_ownership) refl
  | inr (m, f) ↦ elim (Bool-cases (is_text (str_field d "Action") "Break")) [
    | inl h ↦ rw (f, h, e, handle_account_ownership, break_ownership) refl
    | inr h ↦
        let outside : in_room w sid ≡ none = rw (e, in_room) refl in
        rw (f, h, outside, handle_account_ownership, from_room) refl
  ]
]

-- From a consistent world in which no session has a stage beside an offer to start a trial, every
-- request about an ownership leads to such a world.
pub handle_account_ownership-IsSound :
    (P : Platform) (w : World)
    → IsSound P w
    → (connected : String → Bool) (now : ℤ) (sid : String) (doc : Option Value) (d : Value)
    → IsSound P (handle_account_ownership connected now sid doc d w).0
unfolding handle_account_ownership
handle_account_ownership-IsSound P w s connected now sid doc d =
    elim (Option-cases (HashMap.get w.accounts_by_socket sid)) [
      | inl e ↦ subst (IsSound P) (sym (offline w connected now sid doc d e)) s
      | inr (src, e) ↦ elim (Option-cases (i64_field d "MemberNumber")) [
        | inl f ↦ rw (f, handle_account_ownership) s
        | inr (m, f) ↦
            let o =
              handle_lem P w s.consistent connected now doc sid src e (s.bonds sid src e) d m f in
            record {
              consistent = outcome-IsConsistent P s.consistent o;
              bonds =
                  λ j b g. let (a, h, t) = outcome_before o j b g in Step-IsBond t (s.bonds j a h);
            }
      ]
    ]

-- A request about an ownership keeps the tables consistent, if its sender has no stage beside an
-- offer to start a trial.
pub handle_account_ownership-IsConsistent :
    (P : Platform) (w : World)
    → IsConsistent P w
    → (connected : String → Bool) (now : ℤ) (sid : String) (doc : Option Value) (d : Value)
    → ((src : OnlineAccount)
        → HashMap.get w.accounts_by_socket sid ≡ some src
        → IsBond src.ownership)
    → IsConsistent P (handle_account_ownership connected now sid doc d w).0
unfolding handle_account_ownership
handle_account_ownership-IsConsistent P w v connected now sid doc d bond =
    elim (Option-cases (HashMap.get w.accounts_by_socket sid)) [
      | inl e ↦ subst (IsConsistent P) (sym (offline w connected now sid doc d e)) v
      | inr (src, e) ↦ elim (Option-cases (i64_field d "MemberNumber")) [
        | inl f ↦ rw (f, handle_account_ownership) v
        | inr (m, f) ↦
            outcome-IsConsistent P v
              (handle_lem P w v connected now doc sid src e (bond src e) d m f)
      ]
    ]
