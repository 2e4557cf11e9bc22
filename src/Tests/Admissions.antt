-- ===== src/Tests/Admissions.antt =====
-- src/node/managed-connection.js at concrete inputs.
use granttap_relay.Prelude.{
  ◌≡◌, refl, true, false, List, [], ◌∷◌, none, some, all, Text, codes, text_eq, leb,
}
use granttap_relay.Relay.Json.{Json, integer, string, object, end, field}
use granttap_relay.Relay.CoolDown.{new_registry}
use granttap_relay.Node.Admission.{Ticket, Platform, Connection}
use granttap_relay.Node.Admission.Renewals.{Frame, HoldsTicket, run, run-HoldsTicket}

abbrev account : Text
account = codes "01234567-89ab-4cde-8f01-23456789abcd"

abbrev key : Text
key = codes "AAAAAAAAAAAAAAAAAAAAAAAAAAAAAAAAAAAAAAAAAAA="

abbrev claim : Json
claim = object (
    field (codes "version") (integer 1) (
      field (codes "accountId") (string account) (
        field (codes "computerId") (string account) (
          field (codes "publicKey") (string key) (
            field (codes "room") (string (codes "r"))
              (field (codes "expiresAt") (integer 200_000) end))))))

abbrev platform : Platform
platform = record {
  signs = λ body signature. text_eq body (codes "claim");
  payload = λ body. some claim;
  round_trips = λ value. true;
}

abbrev ticket : Ticket
ticket = record {
  is_phone = false;
  account_id = account;
  computer_id = account;
  public_key = key;
  expires_at = 100;
}

abbrev connection : Connection
connection = record {
  is_open = true;
  room = codes "r";
  recipient_key_id = none;
  role = none;
  identity = none;
  commercial = true;
  ticket = some ticket;
  closes_at = some 100;
  cool_downs = new_registry 10;
}

abbrev frames : List Frame
frames =
    record {
      value = object (
          field (codes "type") (string (codes "relay.admission")) (
            field (codes "ticket")
              (string (codes "claim.AAAAAAAAAAAAAAAAAAAAAAAAAAAAAAAAAAAAAAAAAAA")) end));
      at = 50;
    }
    ∷ []

renewed_ticket :
    (run platform frames connection).ticket ≡ some (record ticket { expires_at = 200_000 })
unfolding run granttap_relay.Relay.Json.get
renewed_ticket = refl

frames_early : all (λ f. leb f.at 60) frames ≡ true
unfolding all
frames_early = refl

run-HoldsTicket_example : HoldsTicket 360_060 ticket (run platform frames connection)
run-HoldsTicket_example = run-HoldsTicket platform frames connection ticket 60 refl frames_early
