-- ===== src/Tests/Disconnect.antt =====
-- handlers.rs at concrete inputs.
use bc_server_rust.State.Platform.{plain}
use bc_server_rust.Disconnect.{on_disconnect_cleanup}
use bc_server_rust.Disconnect.Consistency.{IsGone, on_disconnect_cleanup-IsGone}
use bc_server_rust.Room.Create.{enter}
use bc_server_rust.Tests.World.{club, club-IsConsistent, ann}
use bc_server_rust.Tests.Room.{ann_online}

on_disconnect_cleanup-IsGone_example :
    IsGone plain "a" (enter "r" ann) (on_disconnect_cleanup plain "a" "ip" club).0
on_disconnect_cleanup-IsGone_example =
    on_disconnect_cleanup-IsGone plain club "a" "ip" (enter "r" ann) club-IsConsistent ann_online
