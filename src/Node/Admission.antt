-- ===== src/Node/Admission.antt =====
-- src/node/managed-admission.js, src/node/managed-connection.js and src/node/socket-policy.js: the
-- signed tickets that a managed relay admits, and the renewal of a ticket on an open socket. Whether a
-- signature is the HMAC of its payload, the JSON value in a payload (`none` where JSON.parse throws),
-- the test that a key survives base64 and the digest of a ticket are parameters. The ids of a ticket
-- are texts: a list of one text, which the regular expressions let pass, is not modelled.
pub mod Renewals
use granttap_relay.Prelude.{
  ℕ, ◌+◌, Bool, true, false, not, ◌&&◌, ◌||◌, List, [], ◌∷◌, ◌++◌, Option, none, some, ltb, leb,
  ◌==◌, if◌then◌else◌, length, all, any, take, drop, Text, codes, text_eq, split, is_hex, is_base64,
  is_alphanumeric,
}
use granttap_relay.Relay.Json.{
  Json, undefined, integer, string, get, is_text, is_safe_integer, exceeds, at_most, string_and,
  to_text,
}
use granttap_relay.Relay.Submissions.{Role, machine, phone}
use granttap_relay.Relay.Policy.{CloseToken}
use granttap_relay.Relay.CoolDown.{Registry, socket_identity, remaining}
use granttap_relay.Relay.Closing.{Close, apply_policy_close, refuse_cooling_frame}
use granttap_relay.Room.{role_word}

abbrev pub lease_ms : ℕ
lease_ms = 360_000

-- A ticket of version 1 has no role, one of version 2 is a phone's.
pub record Ticket : Type 0 where
  pub is_phone : Bool
  pub account_id : Text
  pub computer_id : Text
  pub public_key : Text
  pub expires_at : ℕ

-- `[0-9a-f]` with the flag `i`
abbrev is_any_hex : ℕ → Bool
is_any_hex c = is_hex c || leb b'A' c && leb c b'F'

abbrev is_hex_part : ℕ → Text → Bool
is_hex_part count part = length part == count && all is_any_hex part

abbrev starts_within : (ℕ → Bool) → Text → Bool
starts_within test [] = false
starts_within test (c ∷ part) = test c

abbrev is_uuid_version : ℕ → Bool
is_uuid_version c = leb b'1' c && leb c b'8'

abbrev is_uuid_variant : ℕ → Bool
is_uuid_variant c = any (λ d. d == c) (codes "89abAB")

unfoldable is_uuid_of_parts : List Text → Bool
unfolding all any
is_uuid_of_parts (a ∷ b ∷ c ∷ d ∷ e ∷ []) =
    is_hex_part 8 a
    && is_hex_part 4 b
    && is_hex_part 4 c
    && starts_within is_uuid_version c
    && is_hex_part 4 d
    && starts_within is_uuid_variant d
    && is_hex_part 12 e
is_uuid_of_parts _ = false

-- `UUID`
unfoldable pub is_uuid : Text → Bool
unfolding split is_uuid_of_parts
is_uuid text = is_uuid_of_parts (split b'-' text)

abbrev is_base64url : ℕ → Bool
is_base64url c = is_alphanumeric c || c == b'_' || c == b'-'

-- `PUBLIC_KEY`
unfoldable pub is_public_key : Text → Bool
unfolding all text_eq
is_public_key key =
    length key == 44 && all is_base64 (take 43 key) && text_eq (drop 43 key) (codes "=")

abbrev is_undefined : Json → Bool
is_undefined undefined = true
is_undefined _ = false

abbrev is_number : Json → ℕ → Bool
is_number (integer n) m = n == m
is_number _ m = false

-- `supported`
abbrev is_supported : Json → Bool
is_supported value =
    is_number (get value (codes "version")) 1 && is_undefined (get value (codes "role"))
    || is_number (get value (codes "version")) 2
      && is_text (get value (codes "role")) (codes "phone")

abbrev is_known_source : Json → Bool
is_known_source source =
    is_undefined source || is_text source (codes "subscription") || is_text source (codes "beta")

abbrev text_of : Json → Text
text_of (string s) = s
text_of _ = []

abbrev pub number_of : Json → ℕ
number_of (integer n) = n
number_of _ = 0

abbrev pub ticket_of : Json → Ticket
ticket_of value = record {
  is_phone = is_text (get value (codes "role")) (codes "phone");
  account_id = text_of (get value (codes "accountId"));
  computer_id = text_of (get value (codes "computerId"));
  public_key = text_of (get value (codes "publicKey"));
  expires_at = number_of (get value (codes "expiresAt"));
}

-- What the code relies on of the platform
pub record Platform : Type 0 where
  pub signs : Text → Text → Bool
  pub payload : Text → Option Json
  pub round_trips : Text → Bool

-- The claim is of a computer or a phone of an account, for this room.
unfoldable pub names_device : Platform → Json → Text → Bool
unfolding is_uuid is_public_key text_eq
names_device p value room =
    is_supported value
    && is_known_source (get value (codes "source"))
    && string_and (get value (codes "accountId")) is_uuid
    && string_and (get value (codes "computerId")) is_uuid
    && string_and (get value (codes "publicKey")) is_public_key
    && string_and (get value (codes "publicKey")) p.round_trips
    && is_text (get value (codes "room")) room

unfoldable pub is_valid_claim : Platform → Json → Text → ℕ → Bool
unfolding names_device
is_valid_claim p value room now =
    names_device p value room
    && is_safe_integer (get value (codes "expiresAt"))
    && exceeds (get value (codes "expiresAt")) now
    && at_most (get value (codes "expiresAt")) (now + lease_ms)

unfoldable pub read_parts : Platform → Text → ℕ → List Text → Option Ticket
unfolding is_valid_claim all
read_parts p room now (body ∷ signature ∷ []) =
    if not (leb 1 (length body) && all is_base64url body)
      || not (length signature == 43 && all is_base64url signature)
      || not (p.signs body signature)
    then none
    else elim (p.payload body) [
      | none ↦ none
      | some value ↦ if is_valid_claim p value room now then some (ticket_of value) else none
    ]
read_parts p room now _ = none

unfoldable pub read_managed_ticket : Platform → Json → Text → ℕ → Option Ticket
unfolding read_parts split
read_managed_ticket p (string token) room now =
    if ltb 2_048 (length token) then none else read_parts p room now (split b'.' token)
read_managed_ticket p _ room now = none

-- `ws.relayState` with the state of the socket; `closes_at` is the time of `admissionTimer`.
pub record Connection : Type 0 where
  pub is_open : Bool
  pub room : Text
  pub recipient_key_id : Option Text
  pub role : Option Role
  pub identity : Option Text
  pub commercial : Bool
  pub ticket : Option Ticket
  pub closes_at : Option ℕ
  pub cool_downs : Registry

pub data Effect : Type 0 where
  closed : Close → Effect
  admission_accepted : ℕ → Effect

unfoldable pub admitted_socket : Connection → ℕ → Bool
admitted_socket c now = elim c.ticket [ none ↦ false | some ticket ↦ ltb now ticket.expires_at ]

abbrev role_or_from : Option Role → Json → Option Text
role_or_from none envelope = to_text (get envelope (codes "from"))
role_or_from (some role) envelope = some (role_word role)

unfoldable pub identity_of : Connection → Json → Option Text
unfolding socket_identity
identity_of c envelope = elim c.identity [
  | some identity ↦ some identity
  | none ↦
      socket_identity (some c.room) c.recipient_key_id (role_or_from c.role envelope)
        (to_text (get envelope (codes "senderId")))
]

unfoldable pub close_for_policy : CloseToken → Json → ℕ → Connection → Connection × List Effect
unfolding apply_policy_close identity_of
close_for_policy token envelope now c =
    if not c.is_open
    then (c, [])
    else (let (registry, close) =
          apply_policy_close token (identity_of c envelope) now c.cool_downs in
        (record c { is_open = false; cool_downs = registry }, closed close ∷ []))

unfoldable pub refuse_cooling_socket : Json → ℕ → Connection → Connection × List Effect × Bool
unfolding remaining identity_of admitted_socket refuse_cooling_frame
refuse_cooling_socket envelope now c =
    let (registry, wait) =
      remaining c.cool_downs (identity_of c envelope) (admitted_socket c now) now in
    if ltb 0 wait
    then (
      record c { is_open = false; cool_downs = registry },
      closed (refuse_cooling_frame wait) ∷ [],
      true,
    )
    else (record c { cool_downs = registry }, [], false)

unfoldable pub arm_managed_expiry : Ticket → Connection → Connection
arm_managed_expiry ticket c = record c { ticket = some ticket; closes_at = some ticket.expires_at }

-- What the timer does.
unfoldable pub expire_admission : ℕ → Connection → Connection × List Effect
unfolding close_for_policy
expire_admission now c = elim c.closes_at [
  | none ↦ (c, [])
  | some at ↦
      if leb at now then close_for_policy CloseToken.admission_expired undefined now c else (c, [])
]

abbrev plays : Option Role → Ticket → Bool
plays none ticket = true
plays (some phone) ticket = ticket.is_phone
plays (some machine) ticket = not ticket.is_phone

abbrev pub same_flag : Bool → Bool → Bool
same_flag true b = b
same_flag false b = not b

-- `next` renews `current` on a socket of this role.
unfoldable pub renews : Option Role → Ticket → Ticket → Bool
unfolding text_eq
renews role current next =
    same_flag next.is_phone current.is_phone
    && plays role current
    && text_eq next.account_id current.account_id
    && text_eq next.computer_id current.computer_id
    && text_eq next.public_key current.public_key
    && ltb current.expires_at next.expires_at

unfoldable pub renewal : Option Role → Option Ticket → Option Ticket → Option Ticket
unfolding renews
renewal role none next = none
renewal role (some current) none = none
renewal role (some current) (some next) = if renews role current next then some next else none

-- With a renewal that was found to be good, or none.
unfoldable pub renew_with : Option Ticket → ℕ → Connection → Connection × List Effect
unfolding close_for_policy arm_managed_expiry
renew_with (some next) now c = (arm_managed_expiry next c, admission_accepted next.expires_at ∷ [])
renew_with none now c = close_for_policy CloseToken.admission_renewal_rejected undefined now c

-- `true` is a frame that is done with.
unfoldable pub renew_managed_connection :
    Platform → Json → ℕ → Connection → Connection × List Effect × Bool
unfolding read_managed_ticket renew_with renewal text_eq
renew_managed_connection p value now c =
    if not (is_text (get value (codes "type")) (codes "relay.admission"))
    then (c, [], false)
    else if not c.commercial
    then (c, [], true)
    else (let candidate = read_managed_ticket p (get value (codes "ticket")) c.room now in
        let (after, effects) = renew_with (renewal c.role c.ticket candidate) now c in
        (after, effects, true))
