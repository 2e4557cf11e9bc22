-- ===== src/Relay/Mailbox/Rows.antt =====
-- src/relay/room.js: reading back what a mailbox operation wrote.
use granttap_relay.Prelude.{◌≡◌, refl, ◌≢◌, List, [], ◌∷◌, Option, none, some, get_or}
use granttap_relay.Relay.Submissions.{Item, Role, machine, phone}
use granttap_relay.Relay.Mailbox.{Storage, read, write, rows_of, put_or_delete}

pub rows_of-write :
    (role : Role) (rows : Option (List Item)) (s : Storage)
    → rows_of role (write role rows s) ≡ get_or rows []
unfolding read write
rows_of-write machine rows s = refl
rows_of-write phone rows s = refl

pub read-write_ne :
    (role other : Role) (rows : Option (List Item)) (s : Storage)
    → other ≢ role
    → read other (write role rows s) ≡ read other s
unfolding read write
read-write_ne machine machine rows s h = absurd (h refl)
read-write_ne machine phone rows s h = refl
read-write_ne phone machine rows s h = refl
read-write_ne phone phone rows s h = absurd (h refl)

pub rows_of-put_or_delete :
    (role : Role) (rows : List Item) (s : Storage) → rows_of role (put_or_delete role rows s) ≡ rows
unfolding put_or_delete
rows_of-put_or_delete role [] s = rows_of-write role none s
rows_of-put_or_delete role (item ∷ rows) s = rows_of-write role (some (item ∷ rows)) s

pub read-put_or_delete_ne :
    (role other : Role) (rows : List Item) (s : Storage)
    → other ≢ role
    → read other (put_or_delete role rows s) ≡ read other s
unfolding put_or_delete
read-put_or_delete_ne role other [] s h = read-write_ne role other none s h
read-put_or_delete_ne role other (item ∷ rows) s h = read-write_ne role other _ s h
