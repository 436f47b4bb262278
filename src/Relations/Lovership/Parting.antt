-- ===== src/Relations/Lovership/Parting.antt =====
-- relations/mod.rs: what a break leaves of the two lists.
use bc_server_rust.Base.{
  String, Bool, true, false, ◌≡◌, ◌≢◌, refl, ◌∙◌, inl, inr, Option, some, List, ℕ, ℤ, pos, arith,
  ltb_ℤ, get_elem?, remove_at, IsIn, IsIn-retain, IsIn-retained, ◌⊎◌, ap, zero, suc, length, ltb,
  ◌+i64◌, if◌then◌else◌, [], ◌∷◌, ==_iff, int_eq, string_eq, Option-cases,
}
use bc_server_rust.Base.HashMap
use bc_server_rust.Base.HashMap.{get-adjust, map_option}
use bc_server_rust.Json.{Value, i64_field, is_number}
use bc_server_rust.Protocol.{MemberNumber}
use bc_server_rust.State.Account.{OnlineAccount}
use bc_server_rust.State.World.{World, update_account}
use bc_server_rust.Relations.Lovership.{lover_index, set_lovership}
use bc_server_rust.Relations.Lovership.Break.{
  after_break, break_at, may_part, handle_lover_break, forget, is_other,
}

length-remove_at :
    (l : List Value) (i : ℕ) (v : Value)
    → get_elem? l i ≡ some v
    → suc (length (remove_at l i)) ≡ length l
length-remove_at [] i v h = absurd (ground arith)
length-remove_at (x ∷ l) zero v h = refl
length-remove_at (x ∷ l) (suc i) v h = ap suc (length-remove_at l i v h)

get_elem?-remove_at :
    (l : List Value) (i k : ℕ)
    → get_elem? (remove_at l i) k ≡ get_elem? l (if ltb k i then k else suc k)
get_elem?-remove_at [] i k = refl
get_elem?-remove_at (x ∷ l) zero k = ground arith
get_elem?-remove_at (x ∷ l) (suc i) zero = ground arith
get_elem?-remove_at (x ∷ l) (suc i) (suc k) = ground (arith, get_elem?-remove_at l i k)

-- A marriage of less than a week may not be left.
may :
    (connected : String → Bool) (now : ℤ) (sid : String) (stage start : ℤ)
    → (stage ≢ pos 2) ⊎ (ltb_ℤ now (start +i64 pos 604800000) ≡ false)
    → may_part connected now sid stage start ≡ true
unfolding may_part
may connected now sid stage start (inl n) = ground (arith, ==_iff stage (pos 2))
may connected now sid stage start (inr n) = ground arith

module _ (connected : String → Bool) (now : ℤ) (sid : String) (m : MemberNumber) (w : World)
    (src : OnlineAccount) (online : HashMap.get w.accounts_by_socket sid ≡ some src) (j : String)
    (t : OnlineAccount) (apart : sid ≢ j) (found : HashMap.get w.socket_by_member m ≡ some j)
    (there : HashMap.get w.accounts_by_socket j ≡ some t) where
  abbrev parted : ℕ → OnlineAccount → OnlineAccount
  parted i = set_lovership (λ _. remove_at src.lovership i)

  abbrev forgotten : OnlineAccount → OnlineAccount
  forgotten = set_lovership (forget connected now sid src.member_number)

  after_world : (l : List Value) (x : World) → (after_break connected now sid src m l x).0 ≡ x
  after_world l x = elim (Option-cases (HashMap.get x.socket_by_member m)) [
    | inl e ↦ rw (e, after_break) refl
    | inr (k, e) ↦ rw (e, after_break) refl
  ]

  break_at_world :
      (i : ℕ)
      → (break_at connected now sid src m i w).0
        ≡ update_account (update_account w sid (parted i)) j forgotten
  unfolding break_at
  break_at_world i = rw (found, break_at) (after_world _ _)

  handle_at :
      (name : Option String) (i : ℕ) (entry : Value) (stage start : ℤ)
      → ltb_ℤ m (pos 0) ≡ false
      → lover_index src.lovership m ≡ some i
      → get_elem? src.lovership i ≡ some entry
      → i64_field entry "Stage" ≡ some stage
      → i64_field entry "Start" ≡ some start
      → may_part connected now sid stage start ≡ true
      → (handle_lover_break connected now sid m name w).0 ≡ (break_at connected now sid src m i w).0
  unfolding handle_lover_break
  handle_at name i entry stage start p f g a b c =
      rw (online, p, f, g, a, b, c, handle_lover_break) refl

  own :
      (i : ℕ)
      → HashMap.get
          (update_account (update_account w sid (parted i)) j forgotten).accounts_by_socket
          sid
        ≡ some (parted i src)
  own i = ground (
    arith,
    get-adjust (HashMap.adjust w.accounts_by_socket sid (parted i)) j sid forgotten,
    get-adjust w.accounts_by_socket sid sid (parted i),
    ==_iff j sid,
    ==_iff sid sid,
    online,
  )

  theirs :
      (i : ℕ)
      → HashMap.get
          (update_account (update_account w sid (parted i)) j forgotten).accounts_by_socket
          j
        ≡ some (forgotten t)
  theirs i = ground (
    arith,
    get-adjust (HashMap.adjust w.accounts_by_socket sid (parted i)) j j forgotten,
    get-adjust w.accounts_by_socket sid j (parted i),
    ==_iff sid j,
    ==_iff j j,
    there,
  )

  other_sessions :
      (i : ℕ) (k : String)
      → k ≢ sid
      → k ≢ j
      → HashMap.get
          (update_account (update_account w sid (parted i)) j forgotten).accounts_by_socket
          k
        ≡ HashMap.get w.accounts_by_socket k
  other_sessions i k n p = ground (
    arith,
    get-adjust (HashMap.adjust w.accounts_by_socket sid (parted i)) j k forgotten,
    get-adjust w.accounts_by_socket sid k (parted i),
    ==_iff j k,
    ==_iff sid k,
  )

  -- A member who breaks with a lover who is online, and may, loses the first entry of that lover: the
  -- list is shorter by one, what stood before the entry stays in place, and what stood behind it moves
  -- up. The lover has no entry left with the number of the member, and keeps every entry without it,
  -- the member's own offer of dating among them. No other session changes.
  pub handle_lover_break_lem :
      (name : Option String) (i : ℕ) (entry : Value) (stage start : ℤ)
      → ltb_ℤ m (pos 0) ≡ false
      → lover_index src.lovership m ≡ some i
      → get_elem? src.lovership i ≡ some entry
      → i64_field entry "Stage" ≡ some stage
      → i64_field entry "Start" ≡ some start
      → (stage ≢ pos 2) ⊎ (ltb_ℤ now (start +i64 pos 604800000) ≡ false)
      → (a b : OnlineAccount) × (HashMap.get
            (handle_lover_break connected now sid m name w).0.accounts_by_socket
            sid
          ≡ some a)
        × (suc (length a.lovership) ≡ length src.lovership)
        × ((k : ℕ)
            → get_elem? a.lovership k ≡ get_elem? src.lovership (if ltb k i then k else suc k))
        × (HashMap.get (handle_lover_break connected now sid m name w).0.accounts_by_socket j
            ≡ some b)
        × ((v : Value)
            → IsIn v b.lovership
            → is_number (i64_field v "MemberNumber") src.member_number ≡ false)
        × ((v : Value)
            → IsIn v t.lovership
            → is_number (i64_field v "MemberNumber") src.member_number ≡ false
            → IsIn v b.lovership)
        × ((k : String)
            → k ≢ sid
            → k ≢ j
            → HashMap.get (handle_lover_break connected now sid m name w).0.accounts_by_socket k
              ≡ HashMap.get w.accounts_by_socket k)
  handle_lover_break_lem name i entry stage start p f g x y c =
      let same =
        handle_at name i entry stage start p f g x y (may connected now sid stage start c)
        ∙ break_at_world i in
      (
        parted i src,
        forgotten t,
        rw same (own i),
        length-remove_at src.lovership i entry g,
        get_elem?-remove_at src.lovership i,
        rw same (theirs i),
        λ v h. not_theirs v (IsIn-retained _ v t.lovership h).0,
        λ v h n. IsIn-retain _ v t.lovership (ours v n) h,
        rw same (other_sessions i),
      )
    where
      not_theirs :
          (v : Value)
          → is_other src.member_number v ≡ true
          → is_number (i64_field v "MemberNumber") src.member_number ≡ false
      not_theirs v h = ground arith

      ours :
          (v : Value)
          → is_number (i64_field v "MemberNumber") src.member_number ≡ false
          → is_other src.member_number v ≡ true
      ours v h = ground arith
