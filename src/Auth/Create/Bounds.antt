-- ===== src/Auth/Create/Bounds.antt =====
-- auth/create.rs: how many accounts an address creates.
use bc_server_rust.Base.{String, ℕ, List, [], ◌∷◌, ◌++◌, ℤ, string_eq}
use bc_server_rust.Json.{Value}
use bc_server_rust.State.Platform.{Platform}
use bc_server_rust.State.World.{World, AccountCreationRecord, count_creations_for_ip}
use bc_server_rust.Auth.{Bcrypt}
use bc_server_rust.Auth.Create.{CreationLimits, CreationAnswers, handle_account_create}

-- A request, and what comes with it from outside.
pub record Attempt : Type 0 where
  pub socket : String
  pub time : ℤ
  pub address : String
  pub environment : String
  pub answers : CreationAnswers
  pub payload : Value

module _ (P : Platform) (B : Bcrypt) (limits : CreationLimits) where
  abbrev pub after : Attempt → World → World
  after a w =
      (handle_account_create P B a.socket a.time limits a.address a.environment a.answers a.payload
        w).0

  abbrev pub after_all : List Attempt → World → World
  after_all [] w = w
  after_all (a ∷ l) w = after_all l (after a w)

  -- The creations of an address since the start.
  abbrev pub creations : World → String → ℤ → ℕ
  creations w ip t = (count_creations_for_ip w ip t).0

  abbrev pushed : Attempt → World → List AccountCreationRecord
  pushed a w = w.account_creation_ip ++ record { address = a.address; time = a.time } ∷ []
