-- ===== src/Limits.antt =====
-- limits/mod.rs: the limits on connections by address and on messages by socket.
pub mod Messages
pub mod Connections
use bc_server_rust.Base.{
  ℕ, zero, suc, ◌-◌, String, Bool, true, false, ◌&&◌, ◌||◌, Option, none, some, List, [], ◌∷◌, ℤ,
  pos, ◌-i64◌, leb_ℤ, ltb, leb, length, get_elem?, push, if◌then◌else◌, ◌==◌, string_eq,
}
use bc_server_rust.Base.HashMap
use bc_server_rust.Base.Text.{split, trim, is_empty_text}
use bc_server_rust.Json.{unwrap_or}
use bc_server_rust.State.World.{World}

-- `is_some_and(|t| now - t <= 1000)`.
abbrev pub is_recent : ℤ → Option ℤ → Bool
is_recent now none = false
is_recent now (some t) = leb_ℤ (now -i64 t) (pos 1000)

unfoldable pub over_rate : ℕ → ℤ → List ℤ → Bool
over_rate rate_limit now bucket =
    leb rate_limit (length bucket) && is_recent now (get_elem? bucket (length bucket - rate_limit))

abbrev pub bucket_of : World → String → List ℤ
bucket_of w ip = unwrap_or (HashMap.get w.ip_connections ip) []

abbrev set_bucket : World → String → List ℤ → World
set_bucket w ip b = record w { ip_connections = HashMap.insert w.ip_connections ip b }

-- True if the connection is to be rejected. The address has an entry from then on.
unfoldable pub check_ip_connection_limit : World → String → ℕ → ℕ → ℤ → World × Bool
unfolding over_rate
check_ip_connection_limit w ip connection_limit rate_limit now =
    let bucket = bucket_of w ip in
    if leb connection_limit (length bucket) || over_rate rate_limit now bucket
    then (set_bucket w ip bucket, true)
    else (set_bucket w ip (push bucket now), false)

abbrev pub pop_front : List ℤ → List ℤ
pop_front [] = []
pop_front (t ∷ ts) = ts

unfoldable pub on_ip_disconnect : World → String → World
on_ip_disconnect w ip = elim (HashMap.get w.ip_connections ip) [
  | none ↦ w
  | some bucket ↦
      if leb (length bucket) 1
      then record w { ip_connections = HashMap.remove w.ip_connections ip }
      else set_bucket w ip (pop_front bucket)
]

-- The times of the last `limit` messages of a socket, the oldest first.
pub record MessageRateLimiter : Type 0 where
  pub bucket : List ℤ
  pub limit : ℕ

abbrev pub replicate : ℕ → ℤ → List ℤ
replicate zero t = []
replicate (suc n) t = t ∷ replicate n t

unfoldable pub new : ℕ → MessageRateLimiter
new limit = record { bucket = replicate limit (pos 0); limit = limit }

abbrev pub front_or_zero : List ℤ → ℤ
front_or_zero [] = pos 0
front_or_zero (t ∷ ts) = t

-- True if the socket is over its limit and is to be disconnected.
unfoldable pub check : MessageRateLimiter → ℤ → MessageRateLimiter × Bool
check l now = (
  record l { bucket = push (pop_front l.bucket) now },
  leb_ℤ (now -i64 front_or_zero l.bucket) (pos 1000) && ltb 0 l.limit,
)

abbrev last_piece : List String → String
last_piece [] = ""
last_piece (p ∷ []) = p
last_piece (p ∷ q ∷ ps) = last_piece (q ∷ ps)

-- The last hop of `x-forwarded-for`, or the peer, or "unknown".
unfoldable pub extract_ip : Option String → Option String → String
extract_ip remote none = unwrap_or remote "unknown"
extract_ip remote (some xff) =
    let hop = trim (last_piece (split b',' xff)) in
    if is_empty_text hop then unwrap_or remote "unknown" else hop
