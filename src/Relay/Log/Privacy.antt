-- ===== src/Relay/Log/Privacy.antt =====
-- src/relay/relayLog.js: what a line of the log can show.
use granttap_relay.Prelude.{
  ℕ, zero, suc, ◌+◌, ◌≤◌, ◌≡◌, refl, ap, ◌∙◌, sym, subst, Bool, true, ◌⊎◌, inl, inr, [], ◌∷◌,
  Option, none, some, arith, leb, length, all, find, map, take, Text, codes, is_hex, is_hex_text,
  Bool-cases,
}
use granttap_relay.Relay.Json.{Json, undefined, string, is_text}
use granttap_relay.Relay.Log.{
  Fields, Entry, LogState, Options, Line, is_token, token_text, room_tag, role_tag, reason_field,
  sanitize_log_fields, key_of, write_line, in_second, log, plain, is_recent, has_key,
}

-- A room shows as eight hexadecimal digits at most.
abbrev pub IsTag : Text → Type 0
IsTag room = (room ≡ codes "-") ⊎ ((all is_hex room ≡ true) × (length room ≤ 8))

abbrev pub IsRoleWord : Text → Type 0
IsRoleWord role = (role ≡ codes "machine") ⊎ (role ≡ codes "phone") ⊎ (role ≡ codes "-")

-- A reason is left out, or reads as a short token.
abbrev pub IsReason : Json → Type 0
IsReason reason = (reason ≡ undefined) ⊎ (is_token (token_text reason) ≡ true)

pub record IsClean (e : Entry) : Type 0 where
  pub room : IsTag e.room
  pub role : IsRoleWord e.role
  pub reason : IsReason e.reason

all-take : (n : ℕ) (p : ℕ → Bool) (xs : Text) → all p xs ≡ true → all p (take n xs) ≡ true
unfolding all
all-take zero p xs h = refl
all-take (suc n) p [] h = refl
all-take (suc n) p (x ∷ xs) h = ground (arith, all-take n p xs)

length-take-le : (n : ℕ) (xs : Text) → length (take n xs) ≤ n
length-take-le zero xs = omega arith
length-take-le (suc n) [] = omega arith
length-take-le (suc n) (x ∷ xs) = omega (arith, length-take-le n xs)

room_tag-IsTag : (room : Json) → IsTag (room_tag room)
unfolding room_tag is_hex_text
room_tag-IsTag (string room) = elim (Bool-cases (is_hex_text 16 64 room)) [
  | inr other ↦ rw other (inl refl)
  | inl hex ↦ rw hex (inr (all-take 8 is_hex room (ground arith), length-take-le 8 room))
]
room_tag-IsTag _ = inl refl

role_tag-IsRoleWord : (role : Json) → IsRoleWord (role_tag role)
unfolding role_tag
role_tag-IsRoleWord role = elim (Bool-cases (is_text role (codes "machine"))) [
  | inl machine ↦ rw machine (inl refl)
  | inr other ↦ elim (Bool-cases (is_text role (codes "phone"))) [
    | inl phone ↦ rw (other, phone) (inr (inl refl))
    | inr neither ↦ rw (other, neither) (inr (inr refl))
  ]
]

reason_field-IsReason : (reason : Json) → IsReason (reason_field reason)
reason_field-IsReason reason = elim (Bool-cases (is_token (token_text reason))) [
  | inl token ↦ rw token (inr token)
  | inr other ↦ rw other (inl refl)
]

sanitize_log_fields-IsClean : (f : Fields) → IsClean (sanitize_log_fields f)
unfolding sanitize_log_fields
sanitize_log_fields-IsClean f = record {
  room = room_tag-IsTag f.room;
  role = role_tag-IsRoleWord f.role;
  reason = reason_field-IsReason f.reason;
}

abbrev entry_or : Entry → Option Line → Entry
entry_or e none = e
entry_or e (some line) = line.entry

write_line-entry_or :
    (o : Options) (event : Text) (entry : Entry) (now : ℕ) (s : LogState)
    → entry_or entry (write_line o event entry now s).1 ≡ entry
unfolding write_line
write_line-entry_or o event entry now s = elim (Bool-cases (leb o.max_per_second s.second_lines)) [
  | inl full ↦ simp full
  | inr space ↦ simp space
]

write_line-entry :
    (o : Options) (event : Text) (entry : Entry) (now : ℕ) (s : LogState) (line : Line)
    → (write_line o event entry now s).1 ≡ some line
    → (line.entry ≡ entry) × (s.second_lines + 1 ≤ o.max_per_second)
unfolding write_line
write_line-entry o event entry now s line h =
    elim (Bool-cases (leb o.max_per_second s.second_lines)) [
      | inl full ↦ absurd (ground arith)
      | inr space ↦
          (sym (ap (entry_or entry) h) ∙ write_line-entry_or o event entry now s, ground arith)
    ]

log-entry :
    (o : Options) (event : Text) (f : Fields) (now : ℕ) (s : LogState) (line : Line)
    → (log o event f now s).1 ≡ some line
    → line.entry ≡ sanitize_log_fields f
unfolding log
log-entry o event f now s line h = elim (Bool-cases (is_token (map plain event))) [
  | inr other ↦ absurd (ground arith)
  | inl token ↦
      elim (Bool-cases (
        is_recent o.interval_ms now
          (find (has_key (key_of event (sanitize_log_fields f))) s.seen))) [
            | inl recent ↦ absurd (ground arith)
            | inr due ↦
                (write_line-entry o event (sanitize_log_fields f) now (in_second now s) line
                  (ground arith)).0
          ]
]

-- A line that is written shows of a room eight hexadecimal digits at most, a role only as one of the
-- two words, and a reason only if it reads as a short token, whatever the fields of the call hold.
pub log-IsClean :
    (o : Options) (event : Text) (f : Fields) (now : ℕ) (s : LogState) (line : Line)
    → (log o event f now s).1 ≡ some line
    → IsClean line.entry
log-IsClean o event f now s line h =
    subst IsClean (sym (log-entry o event f now s line h)) (sanitize_log_fields-IsClean f)
