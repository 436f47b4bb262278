-- ===== src/Relations/Ownership/Trials.antt =====
-- relations/mod.rs: the four steps from the offer to the collar follow the rules.
use mathlib.Core.Path.{subst}
use bc_server_rust.Base.{
  String, Bool, true, false, not, ◌&&◌, ◌||◌, ◌≡◌, refl, ap, ◌∙◌, inl, inr, Option, some, ℤ, pos,
  contains, arith, int_eq, string_eq, ◌==◌, ==_iff, Option-cases, Bool-cases,
}
use bc_server_rust.Base.HashMap
use bc_server_rust.Base.HashMap.{map_option, get-adjust}
use bc_server_rust.Base.Text.{is_empty_text}
use bc_server_rust.Json.{Value, get_field, is_text, is_number, ◌>>=◌}
use bc_server_rust.Protocol.{MemberNumber}
use bc_server_rust.State.Platform.{Platform}
use bc_server_rust.State.ChatRoom.{ChatRoom}
use bc_server_rust.State.Account.{OnlineAccount}
use bc_server_rust.State.World.{World, get_by_member, get_by_socket}
use bc_server_rust.State.Consistency.{IsConsistent}
use bc_server_rust.Store.{Run}
use bc_server_rust.Relations.Ownership.{
  owner_member, stage_of, start_offer, end_offer, offered, end_offered, bond, bound,
}
use bc_server_rust.Relations.Ownership.Trial.{
  offer_start_trial, can_end, offer_end_trial, propose, accept, accept_start_trial,
  accept_end_trial, may_interact, consent,
}
use bc_server_rust.Relations.Ownership.Rules.{staged, Step, IsBond}
use bc_server_rust.Relations.Ownership.Outcome.{
  Outcome, stay_at, offered-Keeps, end_offered-Keeps, bound-Keeps,
}
use bc_server_rust.Relations.Ownership.Facts.{
  number_of, empty_text, no_end, can_end_lem, may_interact_lem, at_target, at_source, same_world,
}

module _ (P : Platform) (w : World) (v : IsConsistent P w) (connected : String → Bool) (now : ℤ)
    (doc : Option Value) (sid : String) (src : OnlineAccount)
    (online : HashMap.get w.accounts_by_socket sid ≡ some src) (m : MemberNumber) where
  abbrev Allowed : World → Type 0
  Allowed = Outcome w now doc m src

  module _ (r : ChatRoom) (t : OnlineAccount) (g : get_by_member w m ≡ some t) where
    -- Step 1 and step 3 on a `Propose`, where what follows them changes nothing.
    pub propose_lem :
        (action : Option String) (rest : Run)
        → is_text action "Propose" ≡ true
        → ((x : World) → (rest x).0 ≡ x)
        → Allowed (propose connected now sid src r m t action rest w).0
    unfolding propose offer_start_trial offer_end_trial
    propose_lem action rest y keep = elim (Bool-cases (is_number (owner_member src.ownership) m)) [
      | inl h ↦ stay_at (rw (h, propose) (keep w))
      | inr h ↦
          elim (Bool-cases
            (contains t.black_list src.member_number || not (is_empty_text t.owner))) [
              | inl f ↦ stay_at (rw (h, f, propose) (keep w))
              | inr f ↦ elim (Option-cases (t.ownership >>= λ o. get_field o "MemberNumber")) [
                | inr (n, e) ↦ elim (Bool-cases (can_end connected now sid src r m t t.ownership)) [
                  | inr c ↦ stay_at (rw (h, f, e, c, propose) (keep w))
                  | inl c ↦
                      let (s, o, z, b, l) = can_end_lem connected now sid src r m t t.ownership c in
                      same_world (rw (h, f, e, c, y, propose) (keep _)) (
                        at_target v t (end_offered src.member_number) g
                          (end_offered-Keeps src.member_number)
                          (Step.offering_end g o z b l (ground arith)))
                ]
                | inl e ↦ elim (Bool-cases (src.member_number == m)) [
                  | inl q ↦ stay_at (rw (h, f, e, q, propose) refl)
                  | inr q ↦
                      same_world
                        (rw
                          (h, f, e, q, y, no_end connected now sid src r m t t.ownership e, propose)
                          (keep _))
                        (at_target v t (offered src.member_number) g
                          (offered-Keeps src.member_number)
                          (Step.offering g (no_owner f) e (ground arith)
                            (λ z. ground (arith, ==_iff src.member_number m))))
                ]
              ]
            ]
    ]
      where
        no_owner :
            (contains t.black_list src.member_number || not (is_empty_text t.owner)) ≡ false
            → t.owner ≡ ""
        no_owner f = empty_text t.owner (ground arith)

    -- Without a `Propose` they change nothing.
    pub ask_lem :
        (action : Option String) (rest : Run)
        → is_text action "Propose" ≡ false
        → Allowed (rest w).0
        → Allowed (propose connected now sid src r m t action rest w).0
    unfolding propose offer_start_trial offer_end_trial
    ask_lem action rest y o = elim (Bool-cases (is_number (owner_member src.ownership) m)) [
      | inl h ↦ same_world (rw (h, propose) refl) o
      | inr h ↦
          elim (Bool-cases
            (contains t.black_list src.member_number || not (is_empty_text t.owner))) [
              | inl f ↦ same_world (rw (h, f, propose) refl) o
              | inr f ↦ elim (Option-cases (t.ownership >>= λ o. get_field o "MemberNumber")) [
                | inr (n, e) ↦ elim (Bool-cases (can_end connected now sid src r m t t.ownership)) [
                  | inr c ↦ same_world (rw (h, f, e, c, propose) refl) o
                  | inl c ↦ same_world (rw (h, f, e, c, y, propose) refl) o
                ]
                | inl e ↦ elim (Bool-cases (src.member_number == m)) [
                  | inl q ↦ stay_at (rw (h, f, e, q, propose) refl)
                  | inr q ↦
                      same_world
                        (rw
                          (h, f, e, q, y, no_end connected now sid src r m t t.ownership e, propose)
                          refl)
                        o
                ]
              ]
            ]
    ]

    start_keeps :
        (action : Option String) (o : Value) (x : World)
        → is_text action "Accept" ≡ false
        → (accept_start_trial connected now sid src r m t action o x).0 ≡ x
    unfolding accept_start_trial
    start_keeps action o x y = elim (Bool-cases (is_number (start_offer (some o)) m)) [
      | inl h ↦ rw (h, y, accept_start_trial) refl
      | inr h ↦ rw (h, accept_start_trial) refl
    ]

    no_start :
        (action : Option String) (o : Value)
        → is_number (start_offer (some o)) m ≡ false
        → (accept_start_trial connected now sid src r m t action o w).0 ≡ w
    unfolding accept_start_trial
    no_start action o h = rw (h, accept_start_trial) refl

    end_keeps :
        (action : Option String) (o : Value) (x : World)
        → is_text action "Accept" ≡ false
        → (accept_end_trial connected now sid src r m t action o x).0 ≡ x
    unfolding accept_end_trial
    end_keeps action o x y =
        elim (Bool-cases
          (is_number (stage_of (some o)) (pos 0) && is_number (end_offer (some o)) m)) [
            | inl h ↦ rw (h, y, accept_end_trial) refl
            | inr h ↦ rw (h, accept_end_trial) refl
          ]

    -- Step 2 and step 4 change nothing without an `Accept`.
    pub consent_keeps :
        (action : Option String) (x : World)
        → is_text action "Accept" ≡ false
        → (consent connected now sid src r m t action x).0 ≡ x
    unfolding consent accept_start_trial accept_end_trial
    consent_keeps action x y = elim (Option-cases (get_by_socket x sid >>= λ a. a.ownership)) [
      | inl e ↦ rw (e, consent) refl
      | inr (o, e) ↦
          elim (Bool-cases (
            may_interact connected now sid src r m t o
            && not (contains t.black_list src.member_number))) [
              | inr h ↦ rw (e, h, consent) refl
              | inl h ↦
                  rw (e, h, consent)
                    (end_keeps action o
                        (accept_start_trial connected now sid src r m t action o x).0 y
                      ∙ start_keeps action o x y)
            ]
    ]

    -- An offer to start leaves step 4 without effect.
    start_lem :
        (action : Option String) (o : Value)
        → IsBond src.ownership
        → src.ownership ≡ some o
        → may_interact connected now sid src r m t o ≡ true
        → contains t.black_list src.member_number ≡ false
        → is_text action "Accept" ≡ true
        → is_number (start_offer (some o)) m ≡ true
        → Allowed
            (accept_end_trial connected now sid src r m t action o
              (accept_start_trial connected now sid src r m t action o w).0).0
    unfolding accept_start_trial accept_end_trial accept
    start_lem action o b e i l y h =
        same_world (rw (h, y, no_stage, accept_start_trial, accept_end_trial, accept) refl) (
          at_source sid (bound "" (bond m t.name now (pos 0))) online
            (bound-Keeps "" (bond m t.name now (pos 0)))
            (Step.starting g (rw e (number_of (start_offer (some o)) m h))
              (rw e (may_interact_lem connected now sid src r m t o i)) l))
      where
        no_stage : is_number (stage_of (some o)) (pos 0) ≡ false
        no_stage = elim (Bool-cases (is_number (stage_of (some o)) (pos 0))) [
          | inr n ↦ n
          | inl x ↦ absurd (
              ground (
                arith,
                staged (some o) (pos 0) (number_of (stage_of (some o)) (pos 0) x)
                    (subst IsBond e b),
                h,
              ))
        ]

    end_lem :
        (action : Option String) (o : Value)
        → src.ownership ≡ some o
        → may_interact connected now sid src r m t o ≡ true
        → contains t.black_list src.member_number ≡ false
        → is_text action "Accept" ≡ true
        → Allowed (accept_end_trial connected now sid src r m t action o w).0
    unfolding accept_end_trial accept
    end_lem action o e i l y =
        elim (Bool-cases
          (is_number (stage_of (some o)) (pos 0) && is_number (end_offer (some o)) m)) [
            | inr h ↦ stay_at (rw (h, accept_end_trial) refl)
            | inl h ↦ same_world (rw (h, y, accept_end_trial, accept) refl) (
                at_source sid (bound t.name (bond m t.name now (pos 1))) online
                  (bound-Keeps t.name (bond m t.name now (pos 1)))
                  (Step.collaring g (rw e (number_of (stage_of (some o)) (pos 0) (ground arith)))
                    (rw e (number_of (end_offer (some o)) m (ground arith)))
                    (rw e (may_interact_lem connected now sid src r m t o i)) l))
          ]

    pub consent_lem :
        (action : Option String)
        → IsBond src.ownership
        → Allowed (consent connected now sid src r m t action w).0
    unfolding consent
    consent_lem action b = elim (Bool-cases (is_text action "Accept")) [
      | inr y ↦ stay_at (consent_keeps action w y)
      | inl y ↦ elim (Option-cases src.ownership) [
        | inl e ↦ stay_at (rw (online, e, consent) refl)
        | inr (o, e) ↦
            elim (Bool-cases (
              may_interact connected now sid src r m t o
              && not (contains t.black_list src.member_number))) [
                | inr h ↦ stay_at (rw (online, e, h, consent) refl)
                | inl h ↦ elim (Bool-cases (is_number (start_offer (some o)) m)) [
                  | inl f ↦
                      same_world (rw (online, e, h, consent) refl)
                        (start_lem action o b e (ground arith) (ground arith) y f)
                  | inr f ↦ same_world (rw (online, e, h, consent) refl) (
                      same_world
                        (ap (λ x. (accept_end_trial connected now sid src r m t action o x).0)
                          (no_start action o f))
                        (end_lem action o e (ground arith) (ground arith) y))
                ]
              ]
      ]
    ]
