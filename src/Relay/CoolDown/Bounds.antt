-- ===== src/Relay/CoolDown/Bounds.antt =====
-- src/relay/coolDown.js: the registry stays within its bound and keeps the identity just struck.
use granttap_relay.Prelude.{
  ℕ, ◌+◌, ◌-◌, ◌≤◌, ◌<◌, ◌≡◌, refl, Bool, false, ◌&&◌, ◌⊎◌, inr, List, [], ◌∷◌, ◌++◌, none, some,
  arith, length, length-append, Text, text_eq_refl,
}
use granttap_relay.Relay.CoolDown.{
  Entry, Registry, entry_of, delete, sweep_from, sweep, struck, strike, remaining,
}

-- Once the sweep is through, either the map fits or nothing is left.
length-sweep_from :
    (max_entries reset_ms now size checked : ℕ) (rest : List (Text × Entry))
    → length rest ≤ size
    → size ≤ max_entries + length rest
    → length (sweep_from max_entries reset_ms now size checked rest) + (size - length rest)
      ≤ max_entries
unfolding sweep_from
length-sweep_from max_entries reset_ms now size checked [] low high = omega arith
length-sweep_from max_entries reset_ms now size checked ((key, entry) ∷ rest) low high = ground (
  arith,
  length-sweep_from max_entries reset_ms now (size - 1) (checked + 1) rest,
  length-sweep_from max_entries reset_ms now size (checked + 1) rest,
)

-- A strike never leaves more entries than the registry's bound, however many there were.
pub length-strike :
    (r : Registry) (key : Text) (admission : Bool) (now : ℕ)
    → length (strike r key admission now).0.entries ≤ r.max_entries
unfolding strike sweep
length-strike r key admission now =
    let entries = delete key r.entries ++ (key, struck r key admission now) ∷ [] in
    omega (
      arith,
      length-sweep_from r.max_entries r.reset_ms now (length entries) 0 entries (omega arith)
          (omega arith),
    )

entry_of-delete :
    (key : Text) (entries : List (Text × Entry)) → entry_of key (delete key entries) ≡ none
unfolding entry_of delete
entry_of-delete key [] = refl
entry_of-delete key ((k, e) ∷ entries) = ground (arith, entry_of-delete key entries)

entry_of-append :
    (key : Text) (entry : Entry) (l : List (Text × Entry))
    → entry_of key l ≡ none
    → entry_of key (l ++ (key, entry) ∷ []) ≡ some entry
unfolding entry_of
entry_of-append key entry [] h = rw text_eq_refl
entry_of-append key entry ((k, e) ∷ l) h = ground (arith, entry_of-append key entry l)

-- The sweep takes from the front and stops in time for the entry at the end.
entry_of-sweep_from :
    (max_entries reset_ms now size checked : ℕ) (key : Text) (entry : Entry)
    (l : List (Text × Entry))
    → entry_of key l ≡ none
    → 1 ≤ max_entries
    → now ≤ entry.until
    → (size ≤ max_entries) ⊎ (size ≡ length l + 1)
    → entry_of key (sweep_from max_entries reset_ms now size checked (l ++ (key, entry) ∷ []))
      ≡ some entry
unfolding sweep_from entry_of
entry_of-sweep_from max_entries reset_ms now size checked key entry [] h one later room =
    ground (arith, text_eq_refl key)
entry_of-sweep_from max_entries reset_ms now size checked key entry ((k, e) ∷ l) h one later room =
    ground (
      arith,
      entry_of-append key entry l,
      entry_of-sweep_from max_entries reset_ms now (size - 1) (checked + 1) key entry l,
      entry_of-sweep_from max_entries reset_ms now size (checked + 1) key entry l,
    )

pub entry_of-strike :
    (r : Registry) (key : Text) (admission : Bool) (now : ℕ)
    → 1 ≤ r.max_entries
    → entry_of key (strike r key admission now).0.entries ≡ some (struck r key admission now)
unfolding strike sweep struck
entry_of-strike r key admission now one =
    entry_of-sweep_from r.max_entries r.reset_ms now _ 0 key (struck r key admission now)
      (delete key r.entries) (entry_of-delete key r.entries) one (omega arith)
      (inr (
        omega
          (arith, length-append (delete key r.entries) ((key, struck r key admission now) ∷ []))))

pub struck-strike :
    (r : Registry) (key : Text) (admission admitted : Bool) (now : ℕ)
    → ((struck r key admission now).until ≡ now + (strike r key admission now).1)
      × ((admitted && admission) ≡ false
          → (admitted && (struck r key admission now).admission_only) ≡ false)
unfolding strike struck
struck-strike r key admission admitted now = (refl, λ h. ground arith)

-- Until its back-off is over, an identity that was struck has to wait for exactly what is left of
-- it, unless the strike was an admission close and a valid admission is shown.
pub remaining-strike :
    (r : Registry) (key : Text) (admission admitted : Bool) (now later : ℕ)
    → 1 ≤ r.max_entries
    → 0 < length key
    → (admitted && admission) ≡ false
    → now ≤ later
    → later ≤ now + (strike r key admission now).1
    → remaining (strike r key admission now).0 (some key) admitted later
      ≡ ((strike r key admission now).0, now + (strike r key admission now).1 - later)
unfolding remaining
remaining-strike r key admission admitted now later one long shown after before =
    rw (entry_of-strike r key admission now one, remaining)
      (ground (arith, struck-strike r key admission admitted now))
