-- ===== src/Relations/Ownership/Trial.antt =====
-- relations/mod.rs: the four steps of handle_account_ownership from the offer of a trial to the collar.
use bc_server_rust.Base.{
  String, Bool, true, false, not, ◌&&◌, ◌||◌, Option, none, some, [], ◌∷◌, ◌++◌, ℤ, pos, ◌+i64◌,
  leb_ℤ, contains, if◌then◌else◌, ◌==◌, int_eq, string_eq,
}
use bc_server_rust.Base.Text.{is_empty_text}
use bc_server_rust.Json.{
  Value, text, json_object, get_field, i64_field, is_text, is_number, is_some, ◌>>=◌,
}
use bc_server_rust.Util.Validate.{ownership_delay_ms}
use bc_server_rust.Protocol.{MemberNumber, emit}
use bc_server_rust.Protocol.Events
use bc_server_rust.State.ChatRoom.{ChatRoom}
use bc_server_rust.State.Account.{OnlineAccount}
use bc_server_rust.State.World.{get_by_socket, update_account}
use bc_server_rust.Room.Sync.{room_message, sync_character}
use bc_server_rust.Store.{Run, tell, tell_all, run_both, save_fields}
use bc_server_rust.Relations.Ownership.{
  owner_member, stage_of, start_offer, end_offer, offered, end_offered, bond, bound, source_tag,
  announce, result_payload,
}

module _ (connected : String → Bool) (now : ℤ) (sid : String) where
  module _ (src : OnlineAccount) (r : ChatRoom) (m : MemberNumber) (target : OnlineAccount) where
    abbrev answer : String → Run
    answer result w = (w, tell (emit sid Events.account_ownership (result_payload m result)) ∷ [])

    -- Step 1.
    unfoldable pub offer_start_trial : Option String → Run
    unfolding room_message
    offer_start_trial action w =
        if is_text action "Propose"
        then (let w' = update_account w target.socket_id (offered src.member_number) in
            (w', tell_all (announce w' src r "OfferStartTrial" (some m) (source_tag src ∷ []))))
        else answer "CanOfferStartTrial" w

    abbrev pub can_end : Option Value → Bool
    can_end none = false
    can_end (some o) =
        is_number (i64_field o "MemberNumber") src.member_number
        && not (is_some (get_field o "EndTrialOfferedByMemberNumber"))
        && is_number (i64_field o "Stage") (pos 0)
        && elim (i64_field o "Start") [
          | none ↦ false
          | some s ↦ leb_ℤ (s +i64 ownership_delay_ms) now
        ]

    -- Step 3.
    unfoldable pub offer_end_trial : Option String → Run
    unfolding room_message
    offer_end_trial action w =
        if can_end target.ownership
        then if is_text action "Propose"
          then (let w' = update_account w target.socket_id (end_offered src.member_number) in
              (w', tell_all (announce w' src r "OfferEndTrial" none (source_tag src ∷ []))))
          else answer "CanOfferEndTrial" w
        else (w, [])

    -- Step 1 and step 3, in front of the rest of the handler. Who proposes to oneself returns early.
    unfoldable pub propose : Option String → Run → Run
    unfolding offer_start_trial offer_end_trial
    propose action rest w =
        let closing = run_both (offer_end_trial action) rest in
        if is_number (owner_member src.ownership) m
        then rest w
        else if contains target.black_list src.member_number || not (is_empty_text target.owner)
        then rest w
        else if is_some (target.ownership >>= λ o. get_field o "MemberNumber")
        then closing w
        else if src.member_number == m
        then (w, [])
        else run_both (offer_start_trial action) closing w

    -- The new state of the one who accepts, to the session, the database and the room.
    unfoldable pub accept : String → ℤ → String → Run
    unfolding save_fields room_message sync_character
    accept owner stage content w =
        let v = bond m target.name now stage in
        let set = json_object (("Ownership", v) ∷ ("Owner", text owner) ∷ []) in
        let w' = update_account w sid (bound owner v) in
        (
          w',
          save_fields src.account_name set
              ++ tell_all (
                  emit sid Events.account_ownership set
                  ∷ (announce w' src r content none (source_tag src ∷ [])
                      ++ sync_character connected w' sid src.member_number src.member_number)),
        )

    -- Step 2.
    unfoldable pub accept_start_trial : Option String → Value → Run
    unfolding accept
    accept_start_trial action o w =
        if is_number (start_offer (some o)) m
        then if is_text action "Accept"
          then accept "" (pos 0) "StartTrial" w
          else answer "CanStartTrial" w
        else (w, [])

    -- Step 4.
    unfoldable pub accept_end_trial : Option String → Value → Run
    unfolding accept
    accept_end_trial action o w =
        if is_number (stage_of (some o)) (pos 0) && is_number (end_offer (some o)) m
        then if is_text action "Accept"
          then accept target.name (pos 1) "EndTrial" w
          else answer "CanEndTrial" w
        else (w, [])

    abbrev pub may_interact : Value → Bool
    may_interact o = elim (owner_member (some o)) [ none ↦ true | some n ↦ n == m ]

    -- Step 2 and step 4 read the ownership of the sender as step 1 and step 3 leave it.
    unfoldable pub consent : Option String → Run
    unfolding accept_start_trial accept_end_trial
    consent action w = elim (get_by_socket w sid >>= λ a. a.ownership) [
      | none ↦ (w, [])
      | some o ↦
          if may_interact o && not (contains target.black_list src.member_number)
          then run_both (accept_start_trial action o) (accept_end_trial action o) w
          else (w, [])
    ]
