-- ===== src/Account/Flush.antt =====
-- account/mod.rs: `flush_delayed_updates`, which a timer and the end of the server call.
use bc_server_rust.Base.{
  String, Bool-cases, inl, inr, Bool, false, ◌||◌, ◌≡◌, refl, ap, List, [], ◌∷◌, ◌++◌,
  if◌then◌else◌, string_eq,
}
use bc_server_rust.Base.HashMap.{HashMap, values, map_values}
use bc_server_rust.Json.{object, is_no_field, is_some}
use bc_server_rust.State.Account.{OnlineAccount}
use bc_server_rust.State.World.{World}
use bc_server_rust.Store.{Run, Effect, save_fields}
use bc_server_rust.Disconnect.{delayed_fields, clear_delayed}

abbrev has_delayed : OnlineAccount → Bool
has_delayed a = is_some a.delayed_appearance || is_some a.delayed_skill || is_some a.delayed_game

abbrev taken : OnlineAccount → OnlineAccount
taken a = if has_delayed a then clear_delayed a else a

-- The accounts with something pending.
unfoldable pub pending : List OnlineAccount → List OnlineAccount
pending [] = []
pending (a ∷ l) = let rest = pending l in if has_delayed a then a ∷ rest else rest

unfoldable pub save_delayed : List OnlineAccount → List Effect
unfolding save_fields
save_delayed [] = []
save_delayed (a ∷ l) =
    let rest = save_delayed l in
    if is_no_field (delayed_fields a)
    then rest
    else save_fields a.account_name (object (delayed_fields a)) ++ rest

unfoldable pub flush_delayed_updates : Run
unfolding pending save_delayed
flush_delayed_updates w = (
  record w { accounts_by_socket = map_values taken w.accounts_by_socket },
  save_delayed (pending (values w.accounts_by_socket)),
)

taken-has_delayed : (a : OnlineAccount) → has_delayed (taken a) ≡ false
taken-has_delayed a = elim (Bool-cases (has_delayed a)) [
  | inl h ↦ rw h refl
  | inr h ↦ rw (h, h) refl
]

nothing_pending : (m : HashMap String OnlineAccount) → pending (values (map_values taken m)) ≡ []
unfolding pending
nothing_pending [] = refl
nothing_pending ((k, a) ∷ m) = rw (taken-has_delayed a) (nothing_pending m)

-- What was put off is written once: a flush after a flush writes nothing.
flush_delayed_updates-flush_delayed_updates :
    (w : World) → (flush_delayed_updates (flush_delayed_updates w).0).1 ≡ []
unfolding flush_delayed_updates save_delayed
flush_delayed_updates-flush_delayed_updates w =
    ap save_delayed (nothing_pending w.accounts_by_socket)
