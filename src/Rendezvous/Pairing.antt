-- ===== src/Rendezvous/Pairing.antt =====
-- src/relay/pairingMailbox.js: the mailbox of one pairing code in a Durable Object. The read of the
-- bounded body is an argument (`none` if it fails), and whether a text survives `btoa(atob(...))` is a
-- parameter. Also `validBase64` of src/relay/relayValidation.js.
pub mod SingleUse
use granttap_relay.Prelude.{
  ℕ, ◌+◌, ◌*◌, ◌%◌, Bool, true, false, not, ◌&&◌, ◌||◌, List, [], ◌∷◌, Option, none, some, ltb, leb,
  ◌==◌, if◌then◌else◌, length, Text, codes,
}
use granttap_relay.Relay.Json.{Json, string, get, string_and}
use granttap_relay.Relay.Validation.{is_base64_text}

abbrev pub pair_ttl_ms : ℕ
pair_ttl_ms = 15 * 60 * 1_000

pub record Sealed : Type 0 where
  pub nonce : Text
  pub box : Text

pub record Pairing : Type 0 where
  pub content : Sealed
  pub expires_at : ℕ

-- The storage of the object: its key "pairing", and the alarm.
pub record Mailbox : Type 0 where
  pub pairing : Option Pairing
  pub alarm_at : Option ℕ

abbrev pub empty : Mailbox
empty = record { pairing = none; alarm_at = none }

pub data Reply : Type 0 where
  status : ℕ → Reply
  handed : Sealed → Reply

abbrev is_pairing_live : ℕ → Option Pairing → Bool
is_pairing_live now none = false
is_pairing_live now (some p) = ltb now p.expires_at

abbrev text_of : Json → Text
text_of (string s) = s
text_of _ = []

module _ (round_trips : Text → Bool) where
  unfoldable pub valid_base64 : Json → ℕ → ℕ → Bool
  unfolding is_base64_text
  valid_base64 value low high = string_and value (λ s.
      leb low (length s)
      && leb (length s) high
      && length s % 4 == 0
      && is_base64_text s
      && round_trips s)

  abbrev pub valid_sealed : Json → Bool
  valid_sealed body =
      valid_base64 (get body (codes "nonce")) 32 32
      && valid_base64 (get body (codes "box")) 24 32_768

  unfoldable pub put : Option Json → ℕ → Mailbox → Mailbox × Reply
  unfolding valid_base64
  put none now m = (m, status 400)
  put (some body) now m =
      if not (valid_sealed body)
      then (m, status 400)
      else if is_pairing_live now m.pairing
      then (m, status 409)
      else (
        record {
          pairing = some (record {
            content = record {
              nonce = text_of (get body (codes "nonce"));
              box = text_of (get body (codes "box"));
            };
            expires_at = now + pair_ttl_ms;
          });
          alarm_at = some (now + pair_ttl_ms);
        },
        status 200,
      )

unfoldable pub head : ℕ → Mailbox → Reply
head now m = if is_pairing_live now m.pairing then status 200 else status 404

-- `deleteAll` keeps the alarm.
abbrev pub delete_all : Mailbox → Mailbox
delete_all m = record m { pairing = none }

abbrev pub take_pairing : ℕ → Mailbox → Option Pairing → Mailbox × Reply
take_pairing now m none = (m, status 404)
take_pairing now m (some p) =
    (delete_all m, if ltb now p.expires_at then handed p.content else status 404)

unfoldable pub take : ℕ → Mailbox → Mailbox × Reply
take now m = take_pairing now m m.pairing

unfoldable pub alarm : Mailbox → Mailbox
alarm m = record { pairing = none; alarm_at = none }

pub data Request : Type 0 where
  putting : Option Json → Request
  looking : Request
  taking : Request
  ringing : Request

abbrev pub is_handed : Reply → Bool
is_handed (handed content) = true
is_handed (status code) = false

abbrev pub is_created : Reply → Bool
is_created (handed content) = false
is_created (status code) = code == 200

module _ (round_trips : Text → Bool) where
  -- The mailbox after the requests, and how many of them created a pairing and were handed one.
  unfoldable pub run : List (ℕ × Request) → Mailbox → Mailbox × ℕ × ℕ
  unfolding put head take alarm
  run [] m = (m, 0, 0)
  run ((now, putting body) ∷ requests) m =
      let (m', reply) = put round_trips body now m in
      let (end, created, taken) = run requests m' in
      (end, (if is_created reply then 1 else 0) + created, taken)
  run ((now, looking) ∷ requests) m = run requests m
  run ((now, taking) ∷ requests) m =
      let (m', reply) = take now m in
      let (end, created, taken) = run requests m' in
      (end, created, (if is_handed reply then 1 else 0) + taken)
  run ((now, ringing) ∷ requests) m = run requests (alarm m)
