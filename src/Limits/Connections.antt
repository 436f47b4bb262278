-- ===== src/Limits/Connections.antt =====
-- limits/mod.rs: the connections of an address, as the bucket counts them.
use bc_server_rust.Base.{
  ℕ, ◌+◌, ◌-◌, ◌≤◌, ◌≡◌, refl, String, Bool, List, [], ◌∷◌, arith, ℤ, length, length-append,
  if◌then◌else◌, string_eq, ==_refl, inl, inr, Option-cases, push,
}
use bc_server_rust.Base.HashMap
use bc_server_rust.Base.HashMap.{get-insert, get-remove}
use bc_server_rust.State.World.{World}
use bc_server_rust.Limits.{check_ip_connection_limit, on_ip_disconnect, bucket_of, pop_front}

-- What happens at one address: a connection is tried at a time, or one ends.
pub data Event : Type 0 where
  connect : ℤ → Event
  leave : Event

module _ (ip : String) (connection_limit rate_limit : ℕ) where
  abbrev pub try : World → ℤ → World × Bool
  try w now = check_ip_connection_limit w ip connection_limit rate_limit now

  pub run : World → List Event → World
  run w [] = w
  run w (connect now ∷ es) = run (try w now).0 es
  run w (leave ∷ es) = run (on_ip_disconnect w ip) es

  -- The connections let in and not yet ended, from `n` at the start.
  pub live : World → ℕ → List Event → ℕ
  live w n [] = n
  live w n (connect now ∷ es) = live (try w now).0 (if (try w now).1 then n else n + 1) es
  live w n (leave ∷ es) = live (on_ip_disconnect w ip) (n - 1) es

  abbrev size : World → ℕ
  size w = length (bucket_of w ip)

  size-try :
      (w : World) (now : ℤ)
      → (size (try w now).0 ≡ (if (try w now).1 then size w else size w + 1))
        × (size w ≤ connection_limit → size (try w now).0 ≤ connection_limit)
  unfolding check_ip_connection_limit
  size-try w now = ground (
    arith,
    get-insert w.ip_connections ip ip (bucket_of w ip),
    get-insert w.ip_connections ip ip (push (bucket_of w ip) now),
    ==_refl ip,
    length-append (bucket_of w ip) (now ∷ []),
  )

  length-pop_front : (b : List ℤ) → length (pop_front b) ≡ length b - 1
  length-pop_front [] = omega arith
  length-pop_front (t ∷ b) = omega arith

  size-on_ip_disconnect : (w : World) → size (on_ip_disconnect w ip) ≡ size w - 1
  unfolding on_ip_disconnect
  size-on_ip_disconnect w = elim (Option-cases (HashMap.get w.ip_connections ip)) [
    | inl e ↦ rw (e, on_ip_disconnect) (ground (arith, e))
    | inr (b, e) ↦ ground (
      arith,
      e,
      get-insert w.ip_connections ip ip (pop_front b),
      get-remove w.ip_connections ip ip,
      ==_refl ip,
      length-pop_front b,
    )
  ]

  -- From a world whose bucket for the address is within the limit, whatever connections are tried and
  -- ended there, the bucket holds as many times as connections are live, and they are within the limit.
  pub live_within_limit :
      (w : World) (es : List Event)
      → size w ≤ connection_limit
      → (length (bucket_of (run w es) ip) ≡ live w (size w) es)
        × (live w (size w) es ≤ connection_limit)
  unfolding run live
  live_within_limit w [] h = (refl, h)
  live_within_limit w (connect now ∷ es) h =
      rw (← (size-try w now).0) (live_within_limit (try w now).0 es ((size-try w now).1 h))
  live_within_limit w (leave ∷ es) h =
      rw (← size-on_ip_disconnect w)
        (live_within_limit (on_ip_disconnect w ip) es (omega (arith, size-on_ip_disconnect w)))
