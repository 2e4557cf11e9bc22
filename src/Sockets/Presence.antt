-- ===== src/Sockets/Presence.antt =====
-- src/roomPresence/index.js: who was seen in a room.
use granttap_relay.Prelude.{
  ℕ, zero, suc, ◌+◌, ◌-◌, ◌*◌, ◌≤◌, ◌≡◌, refl, Bool, true, not, ◌&&◌, ◌||◌, List, [], ◌∷◌, ◌++◌,
  Option, none, some, arith, if◌then◌else◌, ltb, drop, all-append, text_eq_comm, Option-cases,
  length-filter-le, length, filter, take_last, length-take_last-le, Text, codes, text_eq,
  is_hex_text, all, all-filter, all-filter_self, Bool-cases, inl, inr,
}

-- A role is any word: the code compares it with `phone` and `machine`.
pub record Seen : Type 0 where
  pub id : Text
  pub role : Text
  pub last_seen_at : ℕ

abbrev pub retention_ms : ℕ
retention_ms = 7 * 86_400_000

-- `lastSeenAt > now - RETENTION_MS`
abbrev pub is_recent : ℕ → Seen → Bool
is_recent now row = ltb now (row.last_seen_at + retention_ms)

-- `row.id !== id || row.role !== role`
abbrev pub is_other : Text → Text → Seen → Bool
is_other role id row = not (text_eq row.id id) || not (text_eq row.role role)

abbrev pub is_role : Text → Bool
is_role role = text_eq role (codes "phone") || text_eq role (codes "machine")

-- The role and the id, if both are what `updatePresence` accepts.
unfoldable pub accepted_identity : Option Text → Option Text → Option (Text × Text)
accepted_identity (some role) (some id) =
    if is_role role && is_hex_text 64 64 id then some (role, id) else none
accepted_identity (some role) none = none
accepted_identity none id = none

unfoldable pub update_presence : List Seen → Option Text → Option Text → ℕ → List Seen
unfolding accepted_identity
update_presence rows role id now = elim (accepted_identity role id) [
  | none ↦ filter (is_recent now) rows
  | some (r, i) ↦ take_last 32 (
      filter (is_other r i) (filter (is_recent now) rows)
      ++ record { id = i; role = r; last_seen_at = now } ∷ [])
]

-- One entry for each role and id.
abbrev pub Distinct : List Seen → Type 0
Distinct [] = Unit {0}
Distinct (x ∷ xs) = (all (is_other x.role x.id) xs ≡ true) × Distinct xs

Distinct-filter : (p : Seen → Bool) (rows : List Seen) → Distinct rows → Distinct (filter p rows)
unfolding filter
Distinct-filter p [] d = d
Distinct-filter p (x ∷ xs) d = elim (Bool-cases (p x)) [
  | inl e ↦ rw e (all-filter (is_other x.role x.id) p xs d.0, Distinct-filter p xs d.1)
  | inr e ↦ rw e (Distinct-filter p xs d.1)
]

Distinct-drop : (n : ℕ) (rows : List Seen) → Distinct rows → Distinct (drop n rows)
Distinct-drop zero rows d = d
Distinct-drop (suc n) [] d = d
Distinct-drop (suc n) (x ∷ xs) d = Distinct-drop n xs d.1

is_other_comm : (x y : Seen) → is_other x.role x.id y ≡ is_other y.role y.id x
is_other_comm x y = rw (text_eq_comm x.id y.id, text_eq_comm x.role y.role) refl

Distinct-append :
    (rows : List Seen) (x : Seen)
    → all (is_other x.role x.id) rows ≡ true
    → Distinct rows
    → Distinct (rows ++ x ∷ [])
unfolding all
Distinct-append [] x h d = (refl, tt)
Distinct-append (y ∷ rows) x h d = (
  ground (arith, all-append (is_other y.role y.id) rows (x ∷ []), is_other_comm x y),
  Distinct-append rows x (ground arith) d.1,
)

-- The bound on the entries and their distinctness, and how recent they are.
pub record IsPresence (now : ℕ) (rows : List Seen) : Type 0 where
  pub count : length rows ≤ 32
  pub distinct : Distinct rows
  pub recent : all (is_recent now) rows ≡ true

all-drop :
    (p : Seen → Bool) (n : ℕ) (rows : List Seen) → all p rows ≡ true → all p (drop n rows) ≡ true
unfolding all
all-drop p zero rows h = h
all-drop p (suc n) [] h = h
all-drop p (suc n) (x ∷ xs) h = all-drop p n xs (ground arith)

-- An update of at most 32 entries, one for each role and id, leaves at most 32, one for each role and
-- id, none older than seven days.
pub update_presence-IsPresence :
    (rows : List Seen) (role id : Option Text) (now : ℕ)
    → length rows ≤ 32
    → Distinct rows
    → IsPresence now (update_presence rows role id now)
unfolding update_presence take_last all
update_presence-IsPresence rows role id now few d =
    elim (Option-cases (accepted_identity role id)) [
      | inl e ↦
          rw (e, update_presence)
            (record {
              count = omega (arith, length-filter-le (is_recent now) rows);
              distinct = Distinct-filter (is_recent now) rows d;
              recent = all-filter_self (is_recent now) rows;
            })
      | inr ((r, i), e) ↦
          rw (e, update_presence)
            (record {
              count = length-take_last-le 32 (with_new r i);
              distinct = Distinct-drop (length (with_new r i) - 32) (with_new r i) (
                  Distinct-append (others r i) (new r i)
                    (all-filter_self (is_other r i) (filter (is_recent now) rows))
                    (Distinct-filter (is_other r i) (filter (is_recent now) rows)
                      (Distinct-filter (is_recent now) rows d)));
              recent = all-drop (is_recent now) (length (with_new r i) - 32) (with_new r i) (
                  ground (
                    arith,
                    all-append (is_recent now) (others r i) (new r i ∷ []),
                    all-filter (is_recent now) (is_other r i) (filter (is_recent now) rows),
                    all-filter_self (is_recent now) rows,
                  ));
            })
    ]
  where
    others : Text → Text → List Seen
    others r i = filter (is_other r i) (filter (is_recent now) rows)

    new : Text → Text → Seen
    new r i = record { id = i; role = r; last_seen_at = now }

    with_new : Text → Text → List Seen
    with_new r i = others r i ++ new r i ∷ []
