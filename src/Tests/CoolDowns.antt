-- ===== src/Tests/CoolDowns.antt =====
-- src/relay/coolDown.js at concrete inputs.
use granttap_relay.Prelude.{◌+◌, ◌*◌, ◌≡◌, refl, leb, if◌then◌else◌, false, arith, min, codes}
use granttap_relay.Relay.CoolDown.{Registry, new_registry, strike, struck, digest}
use granttap_relay.Relay.CoolDown.Backoff.{strike-strike}

abbrev room_registry : Registry
room_registry = new_registry 256

-- FNV-1a of "a", and the second pass.
digest_a : digest (codes "a") ≡ codes "e40c292ceeaae93a"
unfolding digest
digest_a = refl

strike_first : (strike room_registry (codes "k") false 1_000).1 ≡ 5_000
unfolding strike
strike_first = refl

strike-strike_example :
    (strike (strike room_registry (codes "k") false 1_000).0 (codes "k") false 2_000).1
    ≡ min 300_000 (
        if leb 2_000 (1_000 + (strike room_registry (codes "k") false 1_000).1 + 900_000)
        then 2 * (strike room_registry (codes "k") false 1_000).1
        else 5_000)
unfolding struck
strike-strike_example =
    strike-strike room_registry (codes "k") false false 1_000 2_000 (omega arith) (omega arith)
