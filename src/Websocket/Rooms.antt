-- ===== src/Websocket/Rooms.antt =====
-- websocket.rs: which connection is a member of which room.
use miwidothttp.Prelude.{
  ℕ, ◌≡◌, refl, Bool, true, false, not, ◌||◌, ◌&&◌, Bool-cases, Option-cases, inl, inr, Option,
  none, some, is_some, List, [], ◌∷◌, ◌++◌, String, retain, contains, contains-retain_other,
  is_empty, ◌=?◌, string_eq, arith, if◌then◌else◌,
}
use miwidothttp.Prelude.Assoc.{lookup, insert, remove, lookup-insert, lookup-remove}
use miwidothttp.Websocket.{Room, WebSocketConnection, or_new_room, join, leave, set_room, room_of}

-- Whether a connection is a member of a room.
unfoldable pub in_room : String → String → List (String × Room) → Bool
in_room conn_id room_id rooms = elim (lookup room_id rooms) [
  | none ↦ false
  | some room ↦ contains room.members conn_id
]

contains-append_one :
    (xs : List String) (y c : String) → contains (xs ++ y ∷ []) c ≡ (contains xs c || y =? c)
contains-append_one [] y c = ground arith
contains-append_one (x ∷ xs) y c = ground (arith, contains-append_one xs y c)

contains-empty : (xs : List String) (c : String) → is_empty xs ≡ true → contains xs c ≡ false
contains-empty [] c h = refl
contains-empty (x ∷ xs) c h = ground arith

in_room-insert :
    (q : String) (room : Room) (rooms : List (String × Room)) (c r : String)
    → in_room c r (insert q room rooms)
      ≡ (if q =? r then contains room.members c else in_room c r rooms)
unfolding in_room
in_room-insert q room rooms c r = ground (arith, lookup-insert q r room rooms)

in_room-remove :
    (q : String) (rooms : List (String × Room)) (c r : String)
    → in_room c r (remove q rooms) ≡ (if q =? r then false else in_room c r rooms)
unfolding in_room
in_room-remove q rooms c r = ground (arith, lookup-remove q r rooms)

in_room-found :
    (q : String) (rooms : List (String × Room)) (room : Room)
    → lookup q rooms ≡ some room
    → (c : String) → in_room c q rooms ≡ contains room.members c
unfolding in_room
in_room-found q rooms room found c = ground (arith, found)

in_room-missing :
    (q : String) (rooms : List (String × Room))
    → lookup q rooms ≡ none
    → (c : String) → in_room c q rooms ≡ false
unfolding in_room
in_room-missing q rooms missing c = ground (arith, missing)

contains-members :
    (q : String) (now : ℕ) (rooms : List (String × Room)) (c : String)
    → contains (or_new_room (lookup q rooms) q now).members c ≡ in_room c q rooms
unfolding in_room
contains-members q now rooms c = elim (Option-cases (lookup q rooms)) [
  | inl missing ↦ ground (arith, missing)
  | inr (room, found) ↦ ground (arith, found)
]

pub in_room-join :
    (d q : String) (now : ℕ) (rooms : List (String × Room)) (c r : String)
    → in_room c r (join d q now rooms) ≡ (in_room c r rooms || (d =? c && q =? r))
unfolding join
in_room-join d q now rooms c r =
    let room = or_new_room (lookup q rooms) q now in
    let members = room.members in
    let grown = record room { members = members ++ d ∷ [] } in
    ground (
      arith,
      string_eq.test_iff d c,
      string_eq.test_iff q r,
      contains-members q now rooms c,
      contains-members q now rooms d,
      contains-append_one members d c,
      in_room-insert q room rooms c r,
      in_room-insert q grown rooms c r,
    )

pub in_room-leave :
    (d q : String) (rooms : List (String × Room)) (c r : String)
    → in_room c r (leave d q rooms) ≡ (in_room c r rooms && not (d =? c && q =? r))
unfolding leave
in_room-leave d q rooms c r = elim (Option-cases (lookup q rooms)) [
  | inl missing ↦ ground (arith, missing, in_room-missing q rooms missing c, string_eq.test_iff q r)
  | inr (room, found) ↦
      let members = retain (λ id. not (id =? d)) room.members in
      ground (
        arith,
        found,
        string_eq.test_iff q r,
        string_eq.test_iff d c,
        in_room-found q rooms room found c,
        contains-retain_other d c room.members,
        contains-empty members c,
        in_room-insert q (record room { members = members }) rooms c r,
        in_room-remove q rooms c r,
      )
]

pub room_of-set_room :
    (d c : String) (v : Option String) (connections : List (String × WebSocketConnection))
    → room_of c (set_room d v connections)
      ≡ (if d =? c && is_some (lookup d connections) then v else room_of c connections)
unfolding room_of set_room
room_of-set_room d c v connections = elim (Option-cases (lookup d connections)) [
  | inl missing ↦ ground (arith, missing, string_eq.test_iff d c)
  | inr (conn, found) ↦ ground (
    arith,
    found,
    string_eq.test_iff d c,
    lookup-insert d c (record conn { room_id = v }) connections,
  )
]

-- No room is kept without a member.
abbrev pub NoEmptyRoom : List (String × Room) → Type 0
NoEmptyRoom rooms =
    (r : String) (room : Room) → lookup r rooms ≡ some room → is_empty room.members ≡ false

append_one-not_empty : (xs : List String) (y : String) → is_empty (xs ++ y ∷ []) ≡ false
append_one-not_empty [] y = refl
append_one-not_empty (x ∷ xs) y = refl

contains-not_empty : (xs : List String) (c : String) → contains xs c ≡ true → is_empty xs ≡ false
contains-not_empty [] c h = cc
contains-not_empty (x ∷ xs) c h = refl

insert-NoEmptyRoom :
    (q : String) (room : Room) (rooms : List (String × Room))
    → is_empty room.members ≡ false
    → NoEmptyRoom rooms
    → NoEmptyRoom (insert q room rooms)
insert-NoEmptyRoom q room rooms full v r found_room found =
    ground (arith, lookup-insert q r room rooms, v r found_room)

remove-NoEmptyRoom :
    (q : String) (rooms : List (String × Room)) → NoEmptyRoom rooms → NoEmptyRoom (remove q rooms)
remove-NoEmptyRoom q rooms v r room found = ground (arith, lookup-remove q r rooms, v r room)

pub join-NoEmptyRoom :
    (d q : String) (now : ℕ) (rooms : List (String × Room))
    → NoEmptyRoom rooms
    → NoEmptyRoom (join d q now rooms)
unfolding join
join-NoEmptyRoom d q now rooms v =
    let room = or_new_room (lookup q rooms) q now in
    elim (Bool-cases (contains room.members d)) [
      | inl held ↦
          rw (join, held)
            (insert-NoEmptyRoom q room rooms (contains-not_empty room.members d held) v)
      | inr other ↦
          rw (join, other) (insert-NoEmptyRoom q _ rooms (append_one-not_empty room.members d) v)
    ]

pub leave-NoEmptyRoom :
    (d q : String) (rooms : List (String × Room))
    → NoEmptyRoom rooms
    → NoEmptyRoom (leave d q rooms)
unfolding leave
leave-NoEmptyRoom d q rooms v = elim (Option-cases (lookup q rooms)) [
  | inl missing ↦ rw (leave, missing) v
  | inr (room, found) ↦
      let members = retain (λ id. not (id =? d)) room.members in
      elim (Bool-cases (is_empty members)) [
        | inl emptied ↦ rw (leave, found, emptied) (remove-NoEmptyRoom q rooms v)
        | inr kept ↦ rw (leave, found, kept) (insert-NoEmptyRoom q _ rooms kept v)
      ]
]

pub room_of-missing :
    (d : String) (connections : List (String × WebSocketConnection))
    → is_some (lookup d connections) ≡ false
    → room_of d connections ≡ none
unfolding room_of
room_of-missing d connections h = ground arith
