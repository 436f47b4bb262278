-- ===== src/Relations/Lovership/Break.antt =====
-- relations/mod.rs: `handle_lover_break`.
use bc_server_rust.Base.{
  String, Bool, not, ◌&&◌, Option, none, some, List, [], ◌∷◌, ◌++◌, ℕ, ℤ, pos, ◌+i64◌, ltb_ℤ,
  get_elem?, remove_at, drop_last, retain, position, if◌then◌else◌, ◌==◌, int_eq, string_eq,
}
use bc_server_rust.Base.HashMap
use bc_server_rust.Json.{Value, i64_field, str_field, is_number, is_text}
use bc_server_rust.Util.Validate.{lovership_delay_ms}
use bc_server_rust.Protocol.{MemberNumber}
use bc_server_rust.State.Account.{OnlineAccount}
use bc_server_rust.State.World.{World, get_by_socket, get_by_member, update_account}
use bc_server_rust.Room.Sync.{sync_character}
use bc_server_rust.Store.{Run, Effect, tell_all, pull_lovership_member}
use bc_server_rust.Relations.Lovership.{
  lover_index, persist_lovership_clean, tell_lovership, set_lovership,
}

-- The first entry of the name, and the last entry if there is none.
unfoldable pub drop_npc : String → List Value → List Value
drop_npc name l = elim (position (λ v. is_text (str_field v "Name") name) l) [
  | none ↦ drop_last l
  | some i ↦ remove_at l i
]

unfoldable pub break_npc : String → Option String → Run
unfolding drop_npc persist_lovership_clean tell_lovership
break_npc sid none w = (w, [])
break_npc sid (some name) w = elim (get_by_socket w sid) [
  | none ↦ (w, [])
  | some acc ↦
      let l = drop_npc name acc.lovership in
      (
        update_account w sid (set_lovership (λ _. l)),
        persist_lovership_clean acc.member_number l ++ tell_lovership sid l ∷ [],
      )
]

abbrev pub is_other : MemberNumber → Value → Bool
is_other m l = not (is_number (i64_field l "MemberNumber") m)

abbrev pub lovership_of_member : World → MemberNumber → List Value
lovership_of_member w m = elim (get_by_member w m) [ none ↦ [] | some t ↦ t.lovership ]

-- The new list to the one who is left, if that one's session is there.
abbrev pub tell_forgotten : World → String → List Effect
tell_forgotten w j = elim (get_by_socket w j) [
  | none ↦ []
  | some t ↦ tell_lovership j t.lovership ∷ []
]

module _ (connected : String → Bool) (now : ℤ) (sid : String) where
  -- After the two lists are changed: the database, the sender, and both characters to their rooms.
  abbrev pub after_break : OnlineAccount → MemberNumber → List Value → Run
  after_break acc m l w = elim (HashMap.get w.socket_by_member m) [
    | none ↦ (
      w,
      persist_lovership_clean acc.member_number l
          ++ (pull_lovership_member m acc.member_number
              ++ (tell_lovership sid l
                  ∷ tell_all (sync_character connected w sid acc.member_number acc.member_number))),
    )
    | some j ↦
        let theirs = lovership_of_member w m in
        (
          w,
          persist_lovership_clean acc.member_number l
              ++ (persist_lovership_clean m theirs
                  ++ (tell_lovership sid l
                      ∷ tell_all (
                          sync_character connected w sid acc.member_number acc.member_number
                          ++ sync_character connected w sid m m))),
        )
  ]

  abbrev pub forget : MemberNumber → List Value → List Value
  forget m = retain (is_other m)

  unfoldable pub break_at : OnlineAccount → MemberNumber → ℕ → Run
  unfolding persist_lovership_clean tell_lovership sync_character pull_lovership_member
  break_at acc m i w =
      let l = remove_at acc.lovership i in
      let w1 = update_account w sid (set_lovership (λ _. l)) in
      elim (HashMap.get w1.socket_by_member m) [
        | none ↦ after_break acc m l w1
        | some j ↦
            let w2 = update_account w1 j (set_lovership (forget acc.member_number)) in
            let (w3, out) = after_break acc m l w2 in (w3, tell_forgotten w2 j ++ out)
      ]

  unfoldable pub may_part : ℤ → ℤ → Bool
  may_part stage start = not (stage == pos 2 && ltb_ℤ now (start +i64 lovership_delay_ms))

  unfoldable pub handle_lover_break : MemberNumber → Option String → Run
  unfolding break_npc lover_index break_at may_part
  handle_lover_break m npc_name w =
      if ltb_ℤ m (pos 0) then break_npc sid npc_name w else elim (get_by_socket w sid) [
        | none ↦ (w, [])
        | some acc ↦ elim (lover_index acc.lovership m) [
          | none ↦ (w, [])
          | some i ↦ elim (get_elem? acc.lovership i) [
            | none ↦ (w, [])
            | some entry ↦ elim (i64_field entry "Stage") [
              | none ↦ (w, [])
              | some stage ↦ elim (i64_field entry "Start") [
                | none ↦ (w, [])
                | some start ↦ if may_part stage start then break_at acc m i w else (w, [])
              ]
            ]
          ]
        ]
      ]
