-- ===== src/Tests/Limits.antt =====
-- limits/mod.rs at concrete inputs.
use bc_server_rust.Base.{
  ◌≡◌, ◌≤◌, refl, pos, List, [], ◌∷◌, length, arith, string_eq, ◌-i64◌, int_beq,
}
use bc_server_rust.Base.HashMap
use bc_server_rust.Limits.{new, check, bucket_of}
use bc_server_rust.Limits.Messages.{IsApart, accepted-IsApart}
use bc_server_rust.Limits.Connections.{Event, connect, leave, run, live, live_within_limit}
use bc_server_rust.Tests.World.{lobby}

accepted-IsApart_example : IsApart (pos 2000) (pos 5000)
unfolding check new int_beq ◌-i64◌
accepted-IsApart_example =
    accepted-IsApart 1 (pos 2000 ∷ pos 5000 ∷ []) 0 (pos 2000) (pos 5000) (omega arith)
      (refl, (refl, tt)) refl refl

-- Two connections, of which the second comes too soon, and the end of the first.
abbrev events : List Event
events = connect (pos 0) ∷ connect (pos 10) ∷ leave ∷ connect (pos 2000) ∷ []

live_within_limit_example :
    (length (bucket_of (run "ip" 2 1 lobby events) "ip") ≡ live "ip" 2 1 lobby 0 events)
    × (live "ip" 2 1 lobby 0 events ≤ 2)
unfolding HashMap.get
live_within_limit_example = live_within_limit "ip" 2 1 lobby events (omega arith)
