-- ===== src/Server.antt =====
-- The process state beside the world, and `check_message_rate` of handlers.rs.
use bc_server_rust.Base.{String, none, some, List, [], ◌∷◌, ℤ, if◌then◌else◌, string_eq}
use bc_server_rust.Base.HashMap
use bc_server_rust.Base.HashMap.{HashMap}
use bc_server_rust.Json.{text}
use bc_server_rust.Limits
use bc_server_rust.Limits.{MessageRateLimiter}
use bc_server_rust.Protocol.{Emission, emit, disconnect}
use bc_server_rust.Protocol.Events
use bc_server_rust.Protocol.Codes
use bc_server_rust.State.World.{World}

-- What a handler does while it holds the lock, and what it sends.
abbrev pub Action : Type 0
Action = World → World × List Emission

-- `limiters` are the `MessageRateLimiter`s in the extensions of the sockets.
pub record Server : Type 0 where
  pub world : World
  pub limiters : HashMap String MessageRateLimiter

abbrev pub Handler : Type 0
Handler = Server → Server × List Emission

abbrev pub perform : Action → Handler
perform act s = let (w, out) = act s.world in (record s { world = w }, out)

abbrev pub reject_rate : String → List Emission
reject_rate sid =
    emit sid Events.force_disconnect (text Codes.error_rate_limited) ∷ disconnect sid ∷ []

-- `check_message_rate` in front of the rest of a handler.
unfoldable pub rate_limited : ℤ → String → Action → Handler
rate_limited now sid act s = elim (HashMap.get s.limiters sid) [
  | none ↦ perform act s
  | some l ↦
      let (l', over) = Limits.check l now in
      let on = perform act (record s { limiters = HashMap.insert s.limiters sid l' }) in
      if over then (s, reject_rate sid) else on
]
