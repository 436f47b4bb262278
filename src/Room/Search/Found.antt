-- ===== src/Room/Search/Found.antt =====
-- room/mod.rs: what a search finds, and what it leaves out.
use mathlib.Core.Path.{subst}
use bc_server_rust.Base.{
  ℕ, zero, suc, Bool, true, false, not, ◌&&◌, ◌||◌, ◌==◌, ==_iff, ◌≡◌, refl, ap, ◌⊎◌, IsIn,
  all-IsIn, IsIn-retain, IsIn-retained, IsIn-take, inl, inr, List, [], ◌∷◌, arith, all, retain,
  take, length, contains, is_empty, leb_ℤ, Bool-cases, int_eq, string_eq,
}
use bc_server_rust.Base.HashMap.{values}
use bc_server_rust.Base.Text.{is_empty_text, contains_text}
use bc_server_rust.State.Platform.{Platform}
use bc_server_rust.State.ChatRoom.{ChatRoom, is_full}
use bc_server_rust.State.Account.{OnlineAccount}
use bc_server_rust.State.World.{World}
use bc_server_rust.Room.Roles.{has_any_role}
use bc_server_rust.Room.Search.{
  Filter, is_listed, has_map_type, map_type_raw, insert_newest, newest_first, search_rooms,
}
use bc_server_rust.Room.Search.Listed.{
  not_newer, IsNewestFirst, world-search_rooms, newest_first-IsNewestFirst, retain-IsNewestFirst,
}

-- What the searcher asks of a room, and what the room asks of the searcher.
pub record IsFound (P : Platform) (acc : OnlineAccount) (f : Filter) (r : ChatRoom) : Type 0 where
  pub environment : r.environment ≡ acc.environment
  pub game : (is_empty_text f.game_filter || r.game == f.game_filter) ≡ true
  pub place : (is_full r ≡ false) ⊎ (f.include_full ≡ true)
  pub space : contains f.spaces r.space ≡ true
  pub unbanned : contains r.ban acc.member_number ≡ false
  pub language : (is_empty f.languages || contains f.languages r.language) ≡ true
  pub query :
      (is_empty_text f.query
        || contains_text (P.to_uppercase r.name) f.query
        || (f.search_descs && contains_text (P.to_uppercase r.description) f.query))
      ≡ true
  pub visible : (P.to_uppercase r.name ≡ f.query_upper) ⊎ (has_any_role acc r r.visibility ≡ true)
  pub accessible : (f.show_locked ≡ true) ⊎ (has_any_role acc r r.access ≡ true)
  pub wanted : contains f.ignored (P.to_uppercase r.name) ≡ false
  pub map_type : (is_empty f.map_types || has_map_type P f.map_types (map_type_raw P r)) ≡ true

either : (a b : Bool) → (a || b) ≡ true → (a ≡ true) ⊎ (b ≡ true)
either true b h = inl refl
either false b h = inr h

neither : (b : Bool) → not b ≡ true → b ≡ false
neither b h = ground arith

conjuncts :
    (a b c d e f g h i j k : Bool)
    → (a && b && c && d && e && f && g && h && i && j && k) ≡ true
    → (a ≡ true)
      × (b ≡ true)
      × (c ≡ true)
      × (d ≡ true)
      × (e ≡ true)
      × (f ≡ true)
      × (g ≡ true)
      × (h ≡ true)
      × (i ≡ true)
      × (j ≡ true)
      × (k ≡ true)
conjuncts a b c d e f g h i j k x = (
  ground arith,
  ground arith,
  ground arith,
  ground arith,
  ground arith,
  ground arith,
  ground arith,
  ground arith,
  ground arith,
  ground arith,
  ground arith,
)

is_listed-IsFound :
    (P : Platform) (acc : OnlineAccount) (f : Filter) (r : ChatRoom)
    → is_listed P acc f r ≡ true
    → IsFound P acc f r
unfolding is_listed
is_listed-IsFound P acc f r l =
    let (a, b, c, d, e, g, h, i, j, k, m) = conjuncts _ _ _ _ _ _ _ _ _ _ _ l in
    record {
      environment = (==_iff r.environment acc.environment).0 a;
      game = b;
      place = elim (either (not (is_full r)) f.include_full c) [
        | inl n ↦ inl (neither (is_full r) n)
        | inr n ↦ inr n
      ];
      space = d;
      unbanned = neither (contains r.ban acc.member_number) e;
      language = g;
      query = h;
      visible = elim (either (P.to_uppercase r.name == f.query_upper) _ i) [
        | inl n ↦ inl ((==_iff (P.to_uppercase r.name) f.query_upper).0 n)
        | inr n ↦ inr n
      ];
      accessible = either f.show_locked (has_any_role acc r r.access) j;
      wanted = neither (contains f.ignored (P.to_uppercase r.name)) k;
      map_type = m;
    }

IsFound-is_listed :
    (P : Platform) (acc : OnlineAccount) (f : Filter) (r : ChatRoom)
    → IsFound P acc f r
    → is_listed P acc f r ≡ true
unfolding is_listed
IsFound-is_listed P acc f r i = ground (
  arith,
  i.environment,
  i.game,
  i.place,
  i.space,
  i.unbanned,
  i.language,
  i.query,
  i.visible,
  i.accessible,
  i.wanted,
  i.map_type,
  ==_iff r.environment acc.environment,
  ==_iff (P.to_uppercase r.name) f.query_upper,
)

IsIn-insert_newest :
    (r x : ChatRoom) (xs : List ChatRoom) → IsIn r (x ∷ xs) → IsIn r (insert_newest x xs)
unfolding insert_newest IsIn
IsIn-insert_newest r x [] h = h
IsIn-insert_newest r x (y ∷ xs) h = elim (Bool-cases (leb_ℤ y.creation x.creation)) [
  | inl e ↦ rw e h
  | inr e ↦ rw e (elim h [
    | inl g ↦ inr (IsIn-insert_newest r x xs (inl g))
    | inr (inl g) ↦ inl g
    | inr (inr g) ↦ inr (IsIn-insert_newest r x xs (inr g))
  ])
]

IsIn-inserted :
    (r x : ChatRoom) (xs : List ChatRoom) → IsIn r (insert_newest x xs) → IsIn r (x ∷ xs)
unfolding insert_newest IsIn
IsIn-inserted r x [] h = h
IsIn-inserted r x (y ∷ xs) h = elim (Bool-cases (leb_ℤ y.creation x.creation)) [
  | inl e ↦ rw e at h
  | inr e ↦ elim (rw e at h) [
    | inl g ↦ inr (inl g)
    | inr g ↦ elim (IsIn-inserted r x xs g) [ inl k ↦ inl k | inr k ↦ inr (inr k) ]
  ]
]

IsIn-newest_first : (r : ChatRoom) (xs : List ChatRoom) → IsIn r xs → IsIn r (newest_first xs)
unfolding newest_first IsIn
IsIn-newest_first r [] h = h
IsIn-newest_first r (x ∷ xs) h =
    IsIn-insert_newest r x (newest_first xs)
      (elim h [ inl e ↦ inl e | inr i ↦ inr (IsIn-newest_first r xs i) ])

IsIn-sorted : (r : ChatRoom) (xs : List ChatRoom) → IsIn r (newest_first xs) → IsIn r xs
unfolding newest_first IsIn
IsIn-sorted r [] h = h
IsIn-sorted r (x ∷ xs) h = elim (IsIn-inserted r x (newest_first xs) h) [
  | inl e ↦ inl e
  | inr i ↦ inr (IsIn-sorted r xs i)
]

-- A list that is full of rooms none of which is older than the given one.
abbrev pub IsFullOfNewer : ℕ → ChatRoom → List ChatRoom → Type 0
IsFullOfNewer n r xs = (length xs ≡ n) × (all (λ x. leb_ℤ r.creation x.creation) xs ≡ true)

IsIn-taken :
    (n : ℕ) (r : ChatRoom) (xs : List ChatRoom)
    → IsNewestFirst xs
    → IsIn r xs
    → IsIn r (take n xs) ⊎ IsFullOfNewer n r (take n xs)
unfolding IsIn IsNewestFirst all
IsIn-taken zero r xs s i = inr (refl, refl)
IsIn-taken (suc n) r [] s i = absurd i
IsIn-taken (suc n) r (x ∷ xs) s (inl e) = inl (inl e)
IsIn-taken (suc n) r (x ∷ xs) s (inr i) = elim (IsIn-taken n r xs s.1 i) [
  | inl j ↦ inl (inr j)
  | inr (l, o) ↦ inr (ap suc l, ground (arith, all-IsIn (not_newer x) r xs s.0 i, o))
]

-- A search answers only with rooms of the world that the searcher asks for and may see: in the same
-- environment, of the game, the space, the language, the text and the type of map, not ignored, not
-- full, not locked and visible, as far as the filter says, and without a ban of the searcher.
pub search_rooms-IsFound :
    (P : Platform) (w : World) (acc : OnlineAccount) (f : Filter) (r : ChatRoom)
    → IsIn r (search_rooms P w acc f)
    → IsFound P acc f r × IsIn r (values w.chat_rooms)
search_rooms-IsFound P w acc f r h =
    let (p, i) = IsIn-retained (is_listed P acc f) r (newest_first (values w.chat_rooms)) (
      IsIn-take 240 r (retain (is_listed P acc f) (newest_first (values w.chat_rooms)))
        (subst (IsIn r) (world-search_rooms P w acc f) h)) in
    (is_listed-IsFound P acc f r p, IsIn-sorted r (values w.chat_rooms) i)

-- A room of the world that the searcher asks for and may see is in the answer of the search, or the
-- answer has 240 rooms, none of them older.
pub search_rooms_lem :
    (P : Platform) (w : World) (acc : OnlineAccount) (f : Filter) (r : ChatRoom)
    → IsIn r (values w.chat_rooms)
    → IsFound P acc f r
    → IsIn r (search_rooms P w acc f) ⊎ IsFullOfNewer 240 r (search_rooms P w acc f)
search_rooms_lem P w acc f r i found = rw (world-search_rooms P w acc f) (
    IsIn-taken 240 r (retain (is_listed P acc f) (newest_first (values w.chat_rooms)))
      (retain-IsNewestFirst (is_listed P acc f) (newest_first (values w.chat_rooms))
        (newest_first-IsNewestFirst (values w.chat_rooms)))
      (IsIn-retain (is_listed P acc f) r (newest_first (values w.chat_rooms))
        (IsFound-is_listed P acc f r found) (IsIn-newest_first r (values w.chat_rooms) i)))
