-- ===== src/Room/Search/Listed.antt =====
-- room/mod.rs: which rooms a search answers with.
use bc_server_rust.Base.{
  ℕ, zero, suc, ◌≤◌, ◌≡◌, refl, Bool, true, ◌&&◌, List, [], ◌∷◌, arith, all, retain, length, take,
  leb_ℤ, inl, inr, Bool-cases, int_eq, string_eq,
}
use bc_server_rust.Base.HashMap.{values}
use bc_server_rust.State.Platform.{Platform}
use bc_server_rust.State.ChatRoom.{ChatRoom}
use bc_server_rust.State.Account.{OnlineAccount}
use bc_server_rust.State.World.{World}
use bc_server_rust.Room.Search.{
  Filter, is_listed, insert_newest, newest_first, collect, search_rooms,
  chat_room_search_max_results,
}

collect_lem :
    (p : ChatRoom → Bool) (n : ℕ) (rs : List ChatRoom) → collect p n rs ≡ take n (retain p rs)
unfolding collect retain
collect_lem p zero [] = refl
collect_lem p (suc n) [] = refl
collect_lem p zero (r ∷ rs) = refl
collect_lem p (suc n) (r ∷ rs) = elim (Bool-cases (p r)) [
  | inl e ↦ rw (e, collect_lem p n rs) refl
  | inr e ↦ rw (e, collect_lem p (suc n) rs) refl
]

pub world-search_rooms :
    (P : Platform) (w : World) (acc : OnlineAccount) (f : Filter)
    → search_rooms P w acc f
      ≡ take chat_room_search_max_results
          (retain (is_listed P acc f) (newest_first (values w.chat_rooms)))
unfolding search_rooms
world-search_rooms P w acc f =
    collect_lem (is_listed P acc f) chat_room_search_max_results
      (newest_first (values w.chat_rooms))

abbrev pub not_newer : ChatRoom → ChatRoom → Bool
not_newer r x = leb_ℤ x.creation r.creation

-- No room is older than one after it.
unfoldable pub IsNewestFirst : List ChatRoom → Type 0
IsNewestFirst [] = Unit {0}
IsNewestFirst (r ∷ xs) = (all (not_newer r) xs ≡ true) × IsNewestFirst xs

all-take :
    (p : ChatRoom → Bool) (n : ℕ) (xs : List ChatRoom) → all p xs ≡ true → all p (take n xs) ≡ true
unfolding all
all-take p zero xs h = refl
all-take p (suc n) [] h = refl
all-take p (suc n) (x ∷ xs) h = ground (arith, all-take p n xs)

all-retain :
    (p q : ChatRoom → Bool) (xs : List ChatRoom) → all p xs ≡ true → all p (retain q xs) ≡ true
unfolding all retain
all-retain p q [] h = refl
all-retain p q (x ∷ xs) h = ground (arith, all-retain p q xs)

all-retain_self : (p : ChatRoom → Bool) (xs : List ChatRoom) → all p (retain p xs) ≡ true
unfolding all retain
all-retain_self p [] = refl
all-retain_self p (x ∷ xs) = ground (arith, all-retain_self p xs)

take-IsNewestFirst : (n : ℕ) (xs : List ChatRoom) → IsNewestFirst xs → IsNewestFirst (take n xs)
unfolding IsNewestFirst
take-IsNewestFirst zero xs h = tt
take-IsNewestFirst (suc n) [] h = tt
take-IsNewestFirst (suc n) (x ∷ xs) h =
    (all-take (not_newer x) n xs h.0, take-IsNewestFirst n xs h.1)

pub retain-IsNewestFirst :
    (p : ChatRoom → Bool) (xs : List ChatRoom) → IsNewestFirst xs → IsNewestFirst (retain p xs)
unfolding IsNewestFirst retain
retain-IsNewestFirst p [] h = tt
retain-IsNewestFirst p (x ∷ xs) h = elim (Bool-cases (p x)) [
  | inl e ↦ rw e (all-retain (not_newer x) p xs h.0, retain-IsNewestFirst p xs h.1)
  | inr e ↦ rw e (retain-IsNewestFirst p xs h.1)
]

all-insert_newest :
    (p : ChatRoom → Bool) (r : ChatRoom) (xs : List ChatRoom)
    → all p (insert_newest r xs) ≡ (p r && all p xs)
unfolding all insert_newest
all-insert_newest p r [] = refl
all-insert_newest p r (x ∷ xs) = ground (arith, all-insert_newest p r xs)

-- What is not newer than a room is not newer than a newer one.
all-not_newer :
    (r x : ChatRoom) (xs : List ChatRoom)
    → not_newer r x ≡ true
    → all (not_newer x) xs ≡ true
    → all (not_newer r) xs ≡ true
unfolding all
all-not_newer r x [] e h = refl
all-not_newer r x (y ∷ xs) e h = ground (arith, all-not_newer r x xs)

insert_newest-IsNewestFirst :
    (r : ChatRoom) (xs : List ChatRoom) → IsNewestFirst xs → IsNewestFirst (insert_newest r xs)
unfolding IsNewestFirst insert_newest all
insert_newest-IsNewestFirst r [] h = (refl, tt)
insert_newest-IsNewestFirst r (x ∷ xs) h = elim (Bool-cases (not_newer r x)) [
  | inl e ↦ rw e (ground (arith, all-not_newer r x xs), h)
  | inr e ↦
      rw e
        (ground (arith, all-insert_newest (not_newer x) r xs), insert_newest-IsNewestFirst r xs h.1)
]

pub newest_first-IsNewestFirst : (rs : List ChatRoom) → IsNewestFirst (newest_first rs)
unfolding newest_first IsNewestFirst
newest_first-IsNewestFirst [] = tt
newest_first-IsNewestFirst (r ∷ rs) =
    insert_newest-IsNewestFirst r (newest_first rs) (newest_first-IsNewestFirst rs)

length-take : (n : ℕ) (xs : List ChatRoom) → length (take n xs) ≤ n
length-take zero xs = omega arith
length-take (suc n) [] = omega arith
length-take (suc n) (x ∷ xs) = omega (arith, length-take n xs)

-- The answer of a search has 240 rooms at most, newest first, and each passes the filter of the
-- search.
pub search_rooms-IsNewestFirst :
    (P : Platform) (w : World) (acc : OnlineAccount) (f : Filter)
    → IsNewestFirst (search_rooms P w acc f)
      × (length (search_rooms P w acc f) ≤ 240)
      × (all (is_listed P acc f) (search_rooms P w acc f) ≡ true)
search_rooms-IsNewestFirst P w acc f = rw (world-search_rooms P w acc f) (
  take-IsNewestFirst 240 (retain (is_listed P acc f) rooms) (
      retain-IsNewestFirst (is_listed P acc f) rooms
        (newest_first-IsNewestFirst (values w.chat_rooms))),
  length-take 240 (retain (is_listed P acc f) rooms),
  all-take (is_listed P acc f) 240 (retain (is_listed P acc f) rooms)
      (all-retain_self (is_listed P acc f) rooms),
)
  where
    rooms : List ChatRoom
    rooms = newest_first (values w.chat_rooms)
