-- ===== src/Relay/Routes/Forwarding.antt =====
-- src/relay/legacyProxy.js and src/relay/requestRouter.js together.
use granttap_relay.Prelude.{
  ◌≡◌, Bool, true, false, ◌&&◌, ◌||◌, not, ap, subst, refl, Option, none, some, arith,
  if◌then◌else◌, codes, text_eq, Bool-cases, inl, inr,
}
use granttap_relay.Relay.Validation.{valid_room}
use granttap_relay.Relay.Routes.{
  Request, Routed, health, refused, is_pairing_path, is_push_path, is_task_path, route_request,
  allowed_request, Upstream, Proxied, declined, fetched, proxy_legacy_request,
}

abbrev pub is_refused : Routed → Bool
is_refused (refused status) = true
is_refused health = false
is_refused _ = false

or_true : (a b : Bool) → b ≡ true → (a || b) ≡ true
or_true a b h = ground arith

push_valid :
    (alive pairing push valid get method socket : Bool)
    → alive ≡ false
    → pairing ≡ false
    → push ≡ true
    → (if alive then get else if pairing then method else if push then valid else socket) ≡ true
    → valid ≡ true
push_valid alive pairing push valid get method socket a b c h = ground arith

socket_valid :
    (alive pairing push valid get method path websocket : Bool)
    → alive ≡ false
    → pairing ≡ false
    → push ≡ false
    → (if alive
        then get
        else if pairing
        then method
        else if push
        then valid
        else path && websocket && valid)
      ≡ true
    → (websocket ≡ true) × (valid ≡ true)
socket_valid alive pairing push valid get method path websocket a b c h = ground arith

allowed-routed :
    (r : Request) → allowed_request r ≡ true → is_refused (route_request true true r) ≡ false
unfolding allowed_request route_request
allowed-routed r h = elim (Bool-cases (text_eq r.path (codes "/health"))) [
  | inl alive ↦ simp alive
  | inr no_health ↦ elim (Bool-cases (is_pairing_path r.path)) [
    | inl pairing ↦ simp (no_health, pairing)
    | inr no_pairing ↦ elim (Bool-cases (is_push_path r.path)) [
      | inl push ↦
          let valid : valid_room r.room ≡ true =
            push_valid _ _ _ _ _ _ _ no_health no_pairing push h in
          simp (no_health, no_pairing, push, valid)
      | inr no_push ↦
          let both = socket_valid _ _ _ _ _ _ _ _ no_health no_pairing no_push h in
          let routed : (is_task_path r.path || r.websocket) ≡ true =
            or_true (is_task_path r.path) r.websocket both.0 in
          simp (no_health, no_pairing, no_push, routed, both.1)
    ]
  ]
]

abbrev fetched_or : Request → Proxied → Request
fetched_or r (fetched sent) = sent
fetched_or r (declined status) = r

-- `sent` is the request `r` as it goes to another host, and a Worker takes it where it would take `r`.
abbrev pub IsForwarded : Request → Request → Type 0
IsForwarded r sent =
    (is_refused (route_request true true sent) ≡ false)
    × (route_request true true sent ≡ route_request true true r)
    × (sent ≡ record r { https = true; host = sent.host })
    × (text_eq sent.host r.host ≡ false)

forwarded :
    (r : Request) (u : Upstream)
    → is_refused (route_request true true r) ≡ false
    → u.https ≡ true
    → text_eq u.host r.host ≡ false
    → IsForwarded r (record r { https = u.https; host = u.host })
unfolding route_request
forwarded r u routed https other =
    (routed, refl, ap (λ b. record r { https = b; host = u.host }) https, other)

-- Whatever the old address sends on goes over HTTPS, and to another host than the one it came to.
-- Everything else of the request is as it came, and a Worker with its bindings routes it as it would
-- have routed the request that came, and does not refuse it.
pub proxy_legacy_request-routed :
    (r sent : Request) (upstream : Option Upstream)
    → proxy_legacy_request r upstream ≡ fetched sent
    → IsForwarded r sent
unfolding proxy_legacy_request
proxy_legacy_request-routed r sent none h = absurd (ground arith)
proxy_legacy_request-routed r sent (some u) h = elim (Bool-cases (allowed_request r)) [
  | inr other ↦ absurd (ground arith)
  | inl allowed ↦ elim (Bool-cases (not u.https || text_eq u.host r.host)) [
    | inl same ↦ absurd (ground arith)
    | inr fits ↦
        let this : fetched (record r { https = u.https; host = u.host }) ≡ fetched sent =
          simp (← h, allowed, fits) refl in
        subst (IsForwarded r) (ap (fetched_or r) this)
          (forwarded r u (allowed-routed r allowed) (ground arith) (ground arith))
  ]
]
