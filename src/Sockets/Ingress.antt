-- ===== src/Sockets/Ingress.antt =====
-- src/ingressFlow/index.js: cumulative read receipts for a socket that negotiated them.
use granttap_relay.Prelude.{
  ℕ, zero, suc, ◌+◌, ◌-◌, ◌*◌, ◌/◌, ◌%◌, ◌≡◌, refl, Bool, true, false, not, List, [], ◌∷◌, Option,
  none, some, arith, get_or, ◌==◌, if◌then◌else◌, ◌∙◌, ap, Bool-cases, inl, inr,
}

-- `ingressReceived` is undefined before the first frame.
pub record IngressState : Type 0 where
  pub ingress_flow : Bool
  pub ingress_received : Option ℕ

abbrev pub ingress_window : ℕ
ingress_window = 64

abbrev pub receipt_every : ℕ
receipt_every = 16

unfoldable pub ingress_capabilities : Bool → Option ℕ
ingress_capabilities enabled = if enabled then some ingress_window else none

-- The new state, and the count that the receipt names, if one is sent.
unfoldable pub note_ingress_frame : IngressState → IngressState × Option ℕ
note_ingress_frame s =
    let received = get_or s.ingress_received 0 + 1 in
    if not s.ingress_flow
    then (s, none)
    else if received % receipt_every == 0
    then (record s { ingress_received = some received }, some received)
    else (record s { ingress_received = some received }, none)

abbrev pub put_receipt : Option ℕ → List ℕ → List ℕ
put_receipt none rest = rest
put_receipt (some count) rest = count ∷ rest

-- What a socket is sent while `n` frames are read.
unfoldable pub note_frames : ℕ → IngressState → IngressState × List ℕ
note_frames zero s = (s, [])
note_frames (suc n) s =
    let (s', receipt) = note_ingress_frame s in
    let rest = note_frames n s' in (rest.0, put_receipt receipt rest.1)

-- The multiples of 16 from `16 * (k + 1)` on, `n` of them.
unfoldable pub multiples : ℕ → ℕ → List ℕ
multiples k zero = []
multiples k (suc n) = 16 * (k + 1) ∷ multiples (k + 1) n

abbrev flowing : ℕ → IngressState
flowing received = record { ingress_flow = true; ingress_received = some received }

note-hit :
    (received : ℕ)
    → ((received + 1) % receipt_every == 0) ≡ true
    → note_ingress_frame (flowing received) ≡ (flowing (received + 1), some (received + 1))
unfolding note_ingress_frame
note-hit received e = rw e refl

note-miss :
    (received : ℕ)
    → ((received + 1) % receipt_every == 0) ≡ false
    → note_ingress_frame (flowing received) ≡ (flowing (received + 1), none)
unfolding note_ingress_frame
note-miss received e = rw e refl

note_frames_step :
    (n : ℕ) (s s' : IngressState) (receipt : Option ℕ)
    → note_ingress_frame s ≡ (s', receipt)
    → note_frames (suc n) s ≡ ((note_frames n s').0, put_receipt receipt (note_frames n s').1)
unfolding note_frames
note_frames_step n s s' receipt e =
    ap (λ r. ((note_frames n r.0).0, put_receipt r.1 (note_frames n r.0).1)) e

-- While `n` frames of a socket that negotiated receipts are read, it is sent the count of all its
-- frames so far at each multiple of 16 and at no other time.
pub note_frames-flowing :
    (n received : ℕ)
    → note_frames n (flowing received)
      ≡ (flowing (received + n), multiples (received / 16) ((received + n) / 16 - received / 16))
unfolding note_frames multiples
note_frames-flowing zero received =
    let e : received + 0 ≡ received = omega arith in
    let f : received / 16 - received / 16 ≡ zero = omega arith in rw (e, f) refl
note_frames-flowing (suc n) received =
    let sum : received + suc n ≡ received + 1 + n = omega arith in
    elim (Bool-cases ((received + 1) % receipt_every == 0)) [
      | inl e ↦
          let count : (received + 1 + n) / 16 - received / 16
              ≡ suc ((received + 1 + n) / 16 - (received + 1) / 16) =
            ground arith in
          let this : received + 1 ≡ 16 * (received / 16 + 1) = ground arith in
          let next : (received + 1) / 16 ≡ received / 16 + 1 = ground arith in
          rw sum (
            note_frames_step n (flowing received) (flowing (received + 1)) (some (received + 1))
              (note-hit received e)
            ∙ rw (note_frames-flowing n (received + 1), count, next, ← this) refl)
      | inr e ↦
          let next : (received + 1) / 16 ≡ received / 16 = ground arith in
          rw sum (
            note_frames_step n (flowing received) (flowing (received + 1)) none
              (note-miss received e)
            ∙ rw (note_frames-flowing n (received + 1), next) refl)
    ]
