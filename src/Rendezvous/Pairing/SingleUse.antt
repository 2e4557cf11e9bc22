-- ===== src/Rendezvous/Pairing/SingleUse.antt =====
-- src/relay/pairingMailbox.js: a pairing is handed out once.
use granttap_relay.Prelude.{
  ℕ, ◌+◌, ◌≤◌, ◌≡◌, refl, Bool, List, [], ◌∷◌, Option, none, some, arith, if◌then◌else◌, Text,
}
use granttap_relay.Relay.Json.{Json}
use granttap_relay.Rendezvous.Pairing.{
  Pairing, Mailbox, is_handed, is_created, take_pairing, put, take, alarm, Request, putting,
  looking, taking, ringing, run,
}

abbrev pub held : Option Pairing → ℕ
held none = 0
held (some p) = 1

take_pairing-held :
    (now : ℕ) (m : Mailbox) (p : Option Pairing)
    → m.pairing ≡ p
    → (if is_handed (take_pairing now m p).1 then 1 else 0) + held (take_pairing now m p).0.pairing
      ≤ held p
take_pairing-held now m none e = rw e (omega arith)
take_pairing-held now m (some p) e = ground arith

module _ (round_trips : Text → Bool) where
  put-held :
      (body : Option Json) (now : ℕ) (m : Mailbox)
      → held (put round_trips body now m).0.pairing
        ≤ held m.pairing + (if is_created (put round_trips body now m).1 then 1 else 0)
  unfolding put
  put-held none now m = omega arith
  put-held (some body) now m = ground arith

  -- No more pairings are handed out than were put, besides one that was there at the start.
  pub run-handed :
      (requests : List (ℕ × Request)) (m : Mailbox)
      → (run round_trips requests m).2 + held (run round_trips requests m).0.pairing
        ≤ held m.pairing + (run round_trips requests m).1
  unfolding run take alarm
  run-handed [] m = omega arith
  run-handed ((now, putting body) ∷ requests) m =
      omega (arith, run-handed requests (put round_trips body now m).0, put-held body now m)
  run-handed ((now, looking) ∷ requests) m = run-handed requests m
  run-handed ((now, taking) ∷ requests) m =
      omega (arith, run-handed requests (take now m).0, take_pairing-held now m m.pairing refl)
  run-handed ((now, ringing) ∷ requests) m = omega (arith, run-handed requests (alarm m))
