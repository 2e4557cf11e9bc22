-- ===== src/Node/Admission/Renewals.antt =====
-- src/node/managed-connection.js: what the renewals of a ticket can do to a connection.
use granttap_relay.Prelude.{
  ℕ, ◌+◌, ◌<◌, ◌≤◌, ◌≡◌, refl, ◌∙◌, subst, Bool, true, false, List, [], ◌∷◌, Option, none, some,
  arith, leb, all, max, Text, codes, text_eq→eq, split, Bool-cases, inl, inr, length, ltb,
  if◌then◌else◌, ◌&&◌,
}
use granttap_relay.Relay.Json.{
  Json, undefined, integer, string, get, exceeds, at_most, is_text, is_safe_integer,
}
use granttap_relay.Relay.Submissions.{Role}
use granttap_relay.Relay.Policy.{CloseToken}
use granttap_relay.Node.Admission.{
  lease_ms, Ticket, Platform, read_parts, read_managed_ticket, Connection, close_for_policy,
  renewal, renew_with, arm_managed_expiry, same_flag, renews, renew_managed_connection, number_of,
  is_valid_claim, names_device, ticket_of,
}

number_of-bounds :
    (value : Json) (now limit : ℕ)
    → exceeds value now ≡ true
    → at_most value limit ≡ true
    → (now < number_of value) × (number_of value ≤ limit)
number_of-bounds (integer n) now limit a b = ground arith
number_of-bounds _ now limit a b = absurd (ground arith)

both_right : (a b c d : Bool) → (a && b && c && d) ≡ true → (c ≡ true) × (d ≡ true)
both_right a b c d e = ground arith

valid_claim-lease :
    (p : Platform) (value : Json) (room : Text) (now : ℕ)
    → is_valid_claim p value room now ≡ true
    → (now < (ticket_of value).expires_at) × ((ticket_of value).expires_at ≤ now + lease_ms)
unfolding is_valid_claim
valid_claim-lease p value room now h =
    let both =
      both_right (names_device p value room) (is_safe_integer (get value (codes "expiresAt")))
        (exceeds (get value (codes "expiresAt")) now)
        (at_most (get value (codes "expiresAt")) (now + lease_ms)) h in
    number_of-bounds (get value (codes "expiresAt")) now (now + lease_ms) both.0 both.1

abbrev ticket_or : Ticket → Option Ticket → Ticket
ticket_or other none = other
ticket_or other (some ticket) = ticket

abbrev Leased : ℕ → Option Ticket → Type 0
Leased now none = Unit {0}
Leased now (some ticket) = (now < ticket.expires_at) × (ticket.expires_at ≤ now + lease_ms)

claimed-Leased :
    (p : Platform) (payload : Option Json) (room : Text) (now : ℕ) (malformed : Bool)
    → Leased now (
        if malformed then none else elim payload [
          | none ↦ none
          | some value ↦ if is_valid_claim p value room now then some (ticket_of value) else none
        ])
claimed-Leased p payload room now true = tt
claimed-Leased p none room now false = tt
claimed-Leased p (some value) room now false = elim (Bool-cases (is_valid_claim p value room now)) [
  | inl valid ↦ simp valid (valid_claim-lease p value room now valid)
  | inr invalid ↦ rw invalid tt
]

read_parts-Leased :
    (p : Platform) (room : Text) (now : ℕ) (parts : List Text)
    → Leased now (read_parts p room now parts)
unfolding read_parts
read_parts-Leased p room now (body ∷ signature ∷ []) = claimed-Leased p (p.payload body) room now _
read_parts-Leased p room now [] = tt
read_parts-Leased p room now (a ∷ []) = tt
read_parts-Leased p room now (a ∷ b ∷ c ∷ rest) = tt

-- A ticket that is read is not over, and is over six minutes from now at the latest.
read_managed_ticket-Leased :
    (p : Platform) (token : Json) (room : Text) (now : ℕ)
    → Leased now (read_managed_ticket p token room now)
unfolding read_managed_ticket
read_managed_ticket-Leased p (string token) room now =
    elim (Bool-cases (ltb 2_048 (length token))) [
      | inl long ↦ rw long tt
      | inr short ↦ simp short (read_parts-Leased p room now (split b'.' token))
    ]
read_managed_ticket-Leased p _ room now = tt

close_for_policy-ticket :
    (token : CloseToken) (envelope : Json) (now : ℕ) (c : Connection)
    → (close_for_policy token envelope now c).0.ticket ≡ c.ticket
unfolding close_for_policy
close_for_policy-ticket token envelope now c = elim (Bool-cases c.is_open) [
  | inl e ↦ simp e
  | inr e ↦ simp e
]

pub record Renewed (limit : ℕ) (first next : Ticket) : Type 0 where
  pub phone : next.is_phone ≡ first.is_phone
  pub account : next.account_id ≡ first.account_id
  pub computer : next.computer_id ≡ first.computer_id
  pub key : next.public_key ≡ first.public_key
  pub later : first.expires_at ≤ next.expires_at
  pub bounded : next.expires_at ≤ max first.expires_at limit

same_flag_eq : (a b : Bool) → same_flag a b ≡ true → a ≡ b
same_flag_eq true true e = refl
same_flag_eq true false e = absurd (ground arith)
same_flag_eq false true e = absurd (ground arith)
same_flag_eq false false e = refl

renews-Renewed :
    (role : Option Role) (first next : Ticket) (limit : ℕ)
    → next.expires_at ≤ limit
    → renews role first next ≡ true
    → Renewed limit first next
unfolding renews
renews-Renewed role first next limit h e = record {
  phone = same_flag_eq next.is_phone first.is_phone (ground arith);
  account = text_eq→eq next.account_id first.account_id (ground arith);
  computer = text_eq→eq next.computer_id first.computer_id (ground arith);
  key = text_eq→eq next.public_key first.public_key (ground arith);
  later = ground arith;
  bounded = ground arith;
}

renewal-Renewed :
    (role : Option Role) (first : Ticket) (candidate : Option Ticket) (now limit : ℕ)
    (next : Ticket)
    → Leased now candidate
    → now + lease_ms ≤ limit
    → renewal role (some first) candidate ≡ some next
    → Renewed limit first next
unfolding renewal
renewal-Renewed role first none now limit next leased h e = absurd (ground arith)
renewal-Renewed role first (some candidate) now limit next leased h e =
    elim (Bool-cases (renews role first candidate)) [
      | inr other ↦ absurd (ground arith)
      | inl good ↦
          let same : candidate ≡ next = ground arith in
          subst (Renewed limit first) same
            (renews-Renewed role first candidate limit (ground (arith, leased.1)) good)
    ]

Renewed-refl : (limit : ℕ) (t : Ticket) → Renewed limit t t
Renewed-refl limit t = record {
  phone = refl;
  account = refl;
  computer = refl;
  key = refl;
  later = ground arith;
  bounded = ground arith;
}

Renewed-trans :
    (limit : ℕ) (a b c : Ticket) → Renewed limit a b → Renewed limit b c → Renewed limit a c
Renewed-trans limit a b c x y = record {
  phone = y.phone ∙ x.phone;
  account = y.account ∙ x.account;
  computer = y.computer ∙ x.computer;
  key = y.key ∙ x.key;
  later = ground (arith, x.later, y.later);
  bounded = ground (arith, x.bounded, y.bounded);
}

-- The ticket that a connection holds afterwards.
abbrev pub HoldsTicket : ℕ → Ticket → Connection → Type 0
HoldsTicket limit first c = (next : Ticket) × (c.ticket ≡ some next) × Renewed limit first next

renew_with-HoldsTicket :
    (candidate result : Option Ticket) (now limit : ℕ) (c : Connection) (first : Ticket)
    → Leased now candidate
    → c.ticket ≡ some first
    → renewal c.role c.ticket candidate ≡ result
    → now + lease_ms ≤ limit
    → HoldsTicket limit first (renew_with result now c).0
unfolding renew_with arm_managed_expiry
renew_with-HoldsTicket candidate none now limit c first leased e rejected h = (
  first,
  close_for_policy-ticket CloseToken.admission_renewal_rejected undefined now c ∙ e,
  Renewed-refl limit first,
)
renew_with-HoldsTicket candidate (some next) now limit c first leased e accepted h = (
  next,
  refl,
  renewal-Renewed c.role first candidate now limit next leased h
      (subst (λ t. renewal c.role t candidate ≡ some next) e accepted),
)

renew_step :
    (p : Platform) (value : Json) (now limit : ℕ) (c : Connection) (first : Ticket)
    → c.ticket ≡ some first
    → now + lease_ms ≤ limit
    → HoldsTicket limit first (renew_managed_connection p value now c).0
unfolding renew_managed_connection
renew_step p value now limit c first e h =
    elim (Bool-cases (is_text (get value (codes "type")) (codes "relay.admission"))) [
      | inr other ↦ (first, simp other e, Renewed-refl limit first)
      | inl admission ↦ elim (Bool-cases c.commercial) [
        | inr free ↦ (first, simp (admission, free) e, Renewed-refl limit first)
        | inl managed ↦
            let candidate = read_managed_ticket p (get value (codes "ticket")) c.room now in
            let (next, held, renewed) =
              renew_with-HoldsTicket candidate (renewal c.role c.ticket candidate) now limit c first
                (read_managed_ticket-Leased p (get value (codes "ticket")) c.room now) e refl h in
            (next, simp (admission, managed) held, renewed)
      ]
    ]

pub record Frame : Type 0 where
  pub value : Json
  pub at : ℕ

module _ (p : Platform) where
  unfoldable pub run : List Frame → Connection → Connection
  unfolding renew_managed_connection
  run [] c = c
  run (f ∷ frames) c = run frames (renew_managed_connection p f.value f.at c).0

  -- Whatever frames a connection reads up to a time, its ticket stays one of the same account, computer,
  -- key and role, it is never a shorter one, and it ends within six minutes of that time unless it did
  -- not from the start.
  pub run-HoldsTicket :
      (frames : List Frame) (c : Connection) (first : Ticket) (until : ℕ)
      → c.ticket ≡ some first
      → all (λ f. leb f.at until) frames ≡ true
      → HoldsTicket (until + lease_ms) first (run frames c)
  unfolding run all
  run-HoldsTicket [] c first until e h = (first, e, Renewed-refl (until + lease_ms) first)
  run-HoldsTicket (f ∷ frames) c first until e h =
      let (next, known, renewed) =
        renew_step p f.value f.at (until + lease_ms) c first e (ground arith) in
      let (last, held, again) =
        run-HoldsTicket frames (renew_managed_connection p f.value f.at c).0 next until known
          (ground arith) in
      (last, held, Renewed-trans (until + lease_ms) first next last renewed again)
