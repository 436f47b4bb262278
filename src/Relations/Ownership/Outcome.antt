-- ===== src/Relations/Ownership/Outcome.antt =====
-- relations/mod.rs: a run of the handler of ownerships writes to one session at most.
use mathlib.Core.Path.{subst}
use bc_server_rust.Base.{
  String, ◌≡◌, refl, inl, inr, Option, some, ℤ, arith, int_eq, string_eq, ◌==◌, ==_iff,
  Option-cases, Bool-cases,
}
use bc_server_rust.Base.HashMap
use bc_server_rust.Base.HashMap.{map_option, get-adjust}
use bc_server_rust.Json.{Value}
use bc_server_rust.Protocol.{MemberNumber}
use bc_server_rust.State.Platform.{Platform}
use bc_server_rust.State.Account.{OnlineAccount}
use bc_server_rust.State.World.{World, update_account}
use bc_server_rust.State.Consistency.{IsConsistent}
use bc_server_rust.Chat.Consistency.{Keeps, update_account-IsConsistent}
use bc_server_rust.Relations.Ownership.{freed, offered, end_offered, set_ownership, bound}
use bc_server_rust.Relations.Ownership.Rules.{Step}

-- A write to one session that is a step of it, or none.
pub data Outcome (w : World) (now : ℤ) (doc : Option Value) (m : MemberNumber) (src : OnlineAccount)
    : World → Type 0 where
  unchanged : Outcome w now doc m src w
  written :
      (sid : String) (f : OnlineAccount → OnlineAccount)
      → Keeps f
      → ((a : OnlineAccount)
          → HashMap.get w.accounts_by_socket sid ≡ some a
          → Step w now doc m src a (f a))
      → Outcome w now doc m src (update_account w sid f)

module _ {w : World} {now : ℤ} {doc : Option Value} {m : MemberNumber} {src : OnlineAccount} where
  pub stay_at : {x : World} → x ≡ w → Outcome w now doc m src x
  stay_at e = rw e Outcome.unchanged

  -- Every session moves by a step.
  pub outcome_steps :
      {x : World}
      → Outcome w now doc m src x
      → (j : String) (a : OnlineAccount) → HashMap.get w.accounts_by_socket j ≡ some a
      → (b : OnlineAccount) × (HashMap.get x.accounts_by_socket j ≡ some b)
        × Step w now doc m src a b
  outcome_steps Outcome.unchanged j a g = (a, g, Step.stay)
  outcome_steps (Outcome.written sid f k s) j a g = elim (Bool-cases (sid == j)) [
    | inl h ↦ (
      f a,
      ground (arith, get-adjust w.accounts_by_socket sid j f),
      s a (ground (arith, ==_iff sid j)),
    )
    | inr h ↦ (a, ground (arith, get-adjust w.accounts_by_socket sid j f), Step.stay)
  ]

  pub outcome-IsConsistent :
      (P : Platform) {x : World} → IsConsistent P w → Outcome w now doc m src x → IsConsistent P x
  outcome-IsConsistent P v Outcome.unchanged = v
  outcome-IsConsistent P v (Outcome.written sid f k s) = update_account-IsConsistent P w v sid f k

  -- A session after the run comes from one before it.
  pub outcome_before :
      {x : World}
      → Outcome w now doc m src x
      → (j : String) (b : OnlineAccount) → HashMap.get x.accounts_by_socket j ≡ some b
      → (a : OnlineAccount) × (HashMap.get w.accounts_by_socket j ≡ some a)
        × Step w now doc m src a b
  outcome_before Outcome.unchanged j b g = (b, g, Step.stay)
  outcome_before (Outcome.written sid f k s) j b g = elim (Bool-cases (sid == j)) [
    | inr h ↦ (b, ground (arith, get-adjust w.accounts_by_socket sid j f), Step.stay)
    | inl h ↦ elim (Option-cases (HashMap.get w.accounts_by_socket j)) [
      | inl e ↦ absurd (ground (arith, get-adjust w.accounts_by_socket sid j f))
      | inr (a, e) ↦ (
        a,
        e,
        subst (Step w now doc m src a) (ground (arith, get-adjust w.accounts_by_socket sid j f))
            (s a (ground (arith, ==_iff sid j))),
      )
    ]
  ]

-- The writes keep what the tables speak of.
pub freed-Keeps : Keeps freed
freed-Keeps = record {
  socket = λ a. refl;
  number = λ a. refl;
  environment = λ a. refl;
  chat_room = λ a. refl;
}

pub offered-Keeps : (m : MemberNumber) → Keeps (offered m)
offered-Keeps m = record {
  socket = λ a. refl;
  number = λ a. refl;
  environment = λ a. refl;
  chat_room = λ a. refl;
}

pub end_offered-Keeps : (m : MemberNumber) → Keeps (end_offered m)
end_offered-Keeps m = record {
  socket = λ a. refl;
  number = λ a. refl;
  environment = λ a. refl;
  chat_room = λ a. refl;
}

pub set_ownership-Keeps : (v : Value) → Keeps (set_ownership v)
set_ownership-Keeps v = record {
  socket = λ a. refl;
  number = λ a. refl;
  environment = λ a. refl;
  chat_room = λ a. refl;
}

pub bound-Keeps : (owner : String) (v : Value) → Keeps (bound owner v)
bound-Keeps owner v = record {
  socket = λ a. refl;
  number = λ a. refl;
  environment = λ a. refl;
  chat_room = λ a. refl;
}
