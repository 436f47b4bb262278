-- ===== src/Relations/Ownership/Releases.antt =====
-- relations/mod.rs: `Break`, `UpdateNotes` and `Release` follow the rules.
use bc_server_rust.Base.{
  String, Bool, ◌&&◌, ◌≡◌, refl, inl, inr, Option, some, ℤ, pos, arith, int_eq, string_eq,
  Option-cases, Bool-cases,
}
use bc_server_rust.Base.HashMap
use bc_server_rust.Base.HashMap.{map_option, get-adjust}
use bc_server_rust.Json.{Value, get_field, is_number}
use bc_server_rust.Protocol.{MemberNumber}
use bc_server_rust.State.Platform.{Platform}
use bc_server_rust.State.ChatRoom.{ChatRoom}
use bc_server_rust.State.Account.{OnlineAccount}
use bc_server_rust.State.World.{World, get_by_member}
use bc_server_rust.State.Consistency.{IsConsistent}
use bc_server_rust.Relations.Ownership.{
  owner_member, stage_of, start_of, freed, set_ownership, annotate, may_break, break_ownership,
}
use bc_server_rust.Relations.Ownership.Release.{
  update_notes, release, release_online, release_offline,
}
use bc_server_rust.Relations.Ownership.Rules.{Step}
use bc_server_rust.Relations.Ownership.Outcome.{Outcome, stay_at, freed-Keeps, set_ownership-Keeps}
use bc_server_rust.Relations.Ownership.Facts.{
  number_of, get_field-annotate, may_break_lem, at_target, at_source, same_world,
}

module _ (P : Platform) (w : World) (v : IsConsistent P w) (connected : String → Bool) (now : ℤ)
    (doc : Option Value) (sid : String) (src : OnlineAccount)
    (online : HashMap.get w.accounts_by_socket sid ≡ some src) (m : MemberNumber) where
  abbrev Allowed : World → Type 0
  Allowed = Outcome w now doc m src

  pub break_ownership_lem : Allowed (break_ownership now sid w).0
  unfolding break_ownership may_break
  break_ownership_lem = elim (Option-cases (stage_of src.ownership)) [
    | inl e ↦ rw (online, e, break_ownership) Outcome.unchanged
    | inr (s, e) ↦ elim (Option-cases (start_of src.ownership)) [
      | inl f ↦ rw (online, e, f, break_ownership) Outcome.unchanged
      | inr (t, f) ↦ elim (Bool-cases (may_break now src s t)) [
        | inr h ↦ rw (online, e, f, h, break_ownership) Outcome.unchanged
        | inl h ↦
            rw (online, e, f, h, break_ownership)
              (at_source sid freed online freed-Keeps
                (Step.broken e f (may_break_lem now src s t h)))
      ]
    ]
  ]

  release_online_lem :
      (d : Value)
      → doc ≡ some d
      → owner_member (get_field d "Ownership") ≡ some src.member_number
      → Allowed (release_online connected sid src m w).0
  unfolding release_online
  release_online_lem d e o = elim (Option-cases (HashMap.get w.socket_by_member m)) [
    | inl h ↦ rw (h, release_online) Outcome.unchanged
    | inr (j, h) ↦
        rw (h, release_online)
          (Outcome.written j freed freed-Keeps (λ a g. Step.released_stored (rw (h, g) refl) e o))
  ]

  pub release_offline_lem : Allowed (release_offline connected sid doc m w).0
  unfolding release_offline
  release_offline_lem = elim (Option-cases doc) [
    | inl e ↦ stay_at (rw (online, e, release_offline) refl)
    | inr (d, e) ↦
        elim (Bool-cases (is_number (owner_member (get_field d "Ownership")) src.member_number)) [
          | inr h ↦ stay_at (rw (online, e, h, release_offline) refl)
          | inl h ↦
              same_world (rw (online, e, h, release_offline) refl)
                (release_online_lem d e (number_of _ _ h))
        ]
  ]

  module _ (r : ChatRoom) (t : OnlineAccount) (g : get_by_member w m ≡ some t) where
    pub update_notes_lem :
        (notes : Option String) → Allowed (update_notes connected sid src r m t notes w).0
    unfolding update_notes
    update_notes_lem notes =
        elim (Bool-cases (
          is_number (stage_of t.ownership) (pos 1)
          && is_number (owner_member t.ownership) src.member_number)) [
            | inr h ↦ rw (h, update_notes) Outcome.unchanged
            | inl h ↦ elim (Option-cases t.ownership) [
              | inl e ↦ absurd (ground arith)
              | inr (o, e) ↦
                  rw (h, e, update_notes)
                    (at_target v t (set_ownership (annotate notes o)) g
                      (set_ownership-Keeps (annotate notes o))
                      (Step.noted g e
                        (number_of (owner_member t.ownership) src.member_number (ground arith))
                        (number_of (stage_of t.ownership) (pos 1) (ground arith))
                        (get_field-annotate notes o)))
            ]
          ]

    pub release_lem : Allowed (release connected sid src r m t w).0
    unfolding release
    release_lem = elim (Bool-cases (is_number (owner_member t.ownership) src.member_number)) [
      | inr h ↦ rw (h, release) Outcome.unchanged
      | inl h ↦
          rw (h, release) (at_target v t freed g freed-Keeps (Step.released g (number_of _ _ h)))
    ]
