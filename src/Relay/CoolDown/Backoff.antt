-- ===== src/Relay/CoolDown/Backoff.antt =====
-- src/relay/coolDown.js: how long a back-off is.
use granttap_relay.Prelude.{
  ℕ, suc, ◌+◌, ◌-◌, ◌*◌, ◌≤◌, ◌≡◌, refl, ◌∙◌, Bool, true, false, leb, if◌then◌else◌, Bool-cases,
  inl, inr, some, arith, Text, min, ap, sym,
}
use native.Mathlib.Nat.{pow-suc}
use granttap_relay.Relay.CoolDown.{
  Entry, Registry, entry_of, has_reset, struck, strike, backoff_ms, sweep,
}
use granttap_relay.Relay.CoolDown.Bounds.{entry_of-strike, struck-strike}

-- No back-off exceeds the maximum of the registry.
pub strike-le :
    (r : Registry) (key : Text) (admission : Bool) (now : ℕ)
    → (strike r key admission now).1 ≤ r.max_ms
unfolding strike backoff_ms
strike-le r key admission now = omega arith

backoff_ms-suc :
    (r : Registry) (n : ℕ)
    → 1 ≤ n
    → n ≤ 30
    → backoff_ms r (n + 1) ≡ min r.max_ms (2 * backoff_ms r n)
unfolding backoff_ms
backoff_ms-suc r n low high =
    let e : min (n + 1 - 1) 30 ≡ suc (n - 1) = omega arith in
    let f : min (n - 1) 30 ≡ n - 1 = omega arith in rw (e, f, pow-suc 2 (n - 1)) (omega arith)

strike_fresh :
    (r : Registry) (key : Text) (admission : Bool) (now : ℕ)
    → 1 ≤ (struck r key admission now).strikes
unfolding struck
strike_fresh r key admission now = ground arith

strike_again :
    (r : Registry) (key : Text) (admission : Bool) (now : ℕ) (p : Entry)
    → entry_of key r.entries ≡ some p
    → has_reset r.reset_ms now p ≡ false
    → (strike r key admission now).1 ≡ backoff_ms r (p.strikes + 1)
unfolding strike struck
strike_again r key admission now p e recent = rw (e, recent) refl

strike_anew :
    (r : Registry) (key : Text) (admission : Bool) (now : ℕ) (p : Entry)
    → entry_of key r.entries ≡ some p
    → has_reset r.reset_ms now p ≡ true
    → (strike r key admission now).1 ≡ backoff_ms r 1
unfolding strike struck
strike_anew r key admission now p e old = rw (e, old) refl

backoff_ms_one : (r : Registry) → backoff_ms r 1 ≡ min r.max_ms r.base_ms
unfolding backoff_ms
backoff_ms_one r = omega arith

-- A strike leaves the options alone.
strike_options :
    (r : Registry) (key : Text) (admission : Bool) (now : ℕ)
    → ((strike r key admission now).0.reset_ms ≡ r.reset_ms)
      × ((n : ℕ) → backoff_ms (strike r key admission now).0 n ≡ backoff_ms r n)
      × ((strike r key admission now).1 ≡ backoff_ms r (struck r key admission now).strikes)
unfolding strike sweep backoff_ms
strike_options r key admission now = (refl, λ n. refl, refl)

-- The next policy close of an identity doubles the back-off up to the maximum (for the first 31
-- closes in a row; the exponent grows no further), unless it comes only when the reset time after
-- the end of the last cool-down is over: then it is the base again, or the maximum if that is less.
pub strike-strike :
    (r : Registry) (key : Text) (first second : Bool) (now later : ℕ)
    → 1 ≤ r.max_entries
    → (struck r key first now).strikes ≤ 30
    → (strike (strike r key first now).0 key second later).1
      ≡ min r.max_ms (
          if leb later (now + (strike r key first now).1 + r.reset_ms)
          then 2 * (strike r key first now).1
          else r.base_ms)
strike-strike r key first second now later one few =
    elim (Bool-cases (leb later (now + (strike r key first now).1 + r.reset_ms))) [
      | inl e ↦ rw e (
          strike_again after key second later p found (recent e)
          ∙ (strike_options r key first now).1 (p.strikes + 1)
          ∙ backoff_ms-suc r p.strikes (strike_fresh r key first now) few
          ∙ ap (λ b. min r.max_ms (2 * b)) (sym (strike_options r key first now).2))
      | inr e ↦ rw e (
          strike_anew after key second later p found (old e)
          ∙ (strike_options r key first now).1 1
          ∙ backoff_ms_one r)
    ]
  where
    after : Registry
    after = (strike r key first now).0

    p : Entry
    p = struck r key first now

    found : entry_of key after.entries ≡ some p
    found = entry_of-strike r key first now one

    recent :
        leb later (now + (strike r key first now).1 + r.reset_ms) ≡ true
        → has_reset after.reset_ms later p ≡ false
    recent e =
        ground (arith, (struck-strike r key first true now).0, (strike_options r key first now).0)

    old :
        leb later (now + (strike r key first now).1 + r.reset_ms) ≡ false
        → has_reset after.reset_ms later p ≡ true
    old e =
        ground (arith, (struck-strike r key first true now).0, (strike_options r key first now).0)
