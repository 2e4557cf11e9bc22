-- ===== src/Activities/Delivery.antt =====
-- src/taskActivities/delivery/endpoint.js: the requests of phones and machines over a registry, which
-- is a parameter. What `authorize` and `read` answer stands in the request: an exception of the one is
-- a refusal, of the other no body. What the push service answers and whether it is configured are
-- arguments; `enqueue` runs the deliveries of one activity one after the other.
pub mod Held
pub mod Events
pub mod Spacing
use granttap_relay.Prelude.{
  ℕ, ◌+◌, ◌-◌, ◌/◌, Bool, true, false, not, ◌&&◌, ◌||◌, List, [], ◌∷◌, Option, none, some, ltb,
  ◌==◌, if◌then◌else◌, any, map, Text, codes, text_eq, is_some,
}
use granttap_relay.Relay.Json.{Json, object, string, get, is_text}
use granttap_relay.Relay.Validation.{valid_room}
use granttap_relay.Rendezvous.Endpoints.{count_fields}
use granttap_relay.Activities.{
  valid_activity_id, valid_activity_registration, valid_activity_update,
}
use granttap_relay.Activities.Registries.{
  Enrollment, Activity, enrollment_of, Call, registering, getting, removing, delivering, Answer,
  done, found,
}

pub data Method : Type 0 where
  get_method put_method post_method delete_method other_method : Method

pub record Request : Type 0 where
  pub room : Json
  pub path : Text
  pub method : Method
  pub authorized : Bool
  pub body : Option Json

-- The bodies that matter, beside the status.
pub data Reply : Type 0 where
  refused : ℕ → Reply
  subscriptions : List Enrollment → Reply
  registered : Bool → Reply
  closed : Reply
  duplicate : Reply
  -- Seconds to wait
  too_early : ℕ → Reply
  stale : Bool → Reply
  delivered : Bool → Reply

pub data Sent : Type 0 where
  ok gone failed threw : Sent

pub record Update : Type 0 where
  pub activity_id : Text
  pub delivery_id : Text
  -- Whether the event is `end`, not `update`.
  pub ends : Bool

abbrev text_of : Json → Text
text_of (string s) = s
text_of _ = []

unfoldable pub update_of : Json → Update
unfolding text_eq
update_of body = record {
  activity_id = text_of (get body (codes "activityId"));
  delivery_id = text_of (get body (codes "deliveryId"));
  ends = is_text (get body (codes "event")) (codes "end");
}

abbrev pub register_path : Text
register_path = codes "/push/activity/register"

abbrev pub subscriptions_path : Text
subscriptions_path = codes "/push/activity/subscriptions"

abbrev pub update_path : Text
update_path = codes "/push/activity/update"

abbrev pub is_path : Text → Bool
is_path path =
    text_eq path register_path || text_eq path subscriptions_path || text_eq path update_path

abbrev is_get : Method → Bool
is_get get_method = true
is_get _ = false

abbrev registers : Method → Bool
registers get_method = false
registers other_method = false
registers _ = true

abbrev is_post : Method → Bool
is_post post_method = true
is_post _ = false

abbrev is_delete : Method → Bool
is_delete delete_method = true
is_delete _ = false

-- `Object.keys(body).length === 1`; a body that is no object has no activity id.
abbrev has_one_field : Json → Bool
has_one_field (object fields) = count_fields fields == 1
has_one_field _ = false

abbrev pub is_same_delivery : Option Text → Text → Bool
is_same_delivery none id = false
is_same_delivery (some last) id = text_eq last id

-- `route.lastDeliveredAt > 0 && elapsed < 10_000` for an update
abbrev pub is_too_early : Update → Activity → ℕ → Bool
is_too_early update route now =
    not update.ends && ltb 0 route.last_delivered_at && ltb now (route.last_delivered_at + 10_000)

abbrev pub wait_seconds : Activity → ℕ → ℕ
wait_seconds route now = (route.last_delivered_at + 10_000 - now + 999) / 1_000

module _ {S : Type 0} (call : ℕ × Call → S → S × Answer) where
  abbrev pub has_token : Text → Answer → Bool
  has_token token (done _) = false
  has_token token (found none) = false
  has_token token (found (some row)) = text_eq row.enrollment.token token

  -- After the push
  unfoldable pub settle : ℕ → Update → Activity → Sent → S → S × Reply
  settle now update route threw s = (s, refused 502)
  settle now update route failed s = (s, refused 502)
  settle now update route gone s =
      let (looked, answer) = call (now, getting update.activity_id) s in
      if has_token route.enrollment.token answer
      then ((call (now, removing update.activity_id) looked).0, stale true)
      else (looked, stale false)
  settle now update route ok s =
      let marked = (call (now, delivering update.activity_id update.delivery_id) s).0 in
      (
        if update.ends then (call (now, removing update.activity_id) marked).0 else marked,
        delivered update.ends,
      )

  -- The last component says whether the push service was called.
  unfoldable pub deliver_to : ℕ → Bool → Sent → Update → S → Answer → S × Reply × Bool
  unfolding settle
  deliver_to now configured sent update s (done _) = (s, closed, false)
  deliver_to now configured sent update s (found none) = (s, closed, false)
  deliver_to now configured sent update s (found (some route)) =
      if is_same_delivery route.last_delivery_id update.delivery_id
      then (s, duplicate, false)
      else if not configured
      then (s, refused 503, false)
      else if is_too_early update route now
      then (s, too_early (wait_seconds route now), false)
      else (let after = settle now update route sent s in (after.0, after.1, true))

  unfoldable pub deliver : ℕ → Bool → Sent → Update → S → S × Reply × Bool
  unfolding deliver_to
  deliver now configured sent update s =
      let (looked, answer) = call (now, getting update.activity_id) s in
      deliver_to now configured sent update looked answer

  abbrev registration_reply : Answer → Reply
  registration_reply (done true) = registered true
  registration_reply (done false) = refused 409
  registration_reply (found _) = refused 409

  module _ (round_trips : Text → Bool) (list : ℕ → S → S × List Enrollment) where
    unfoldable pub registration : Method → Json → ℕ → S → S × Reply
    unfolding valid_activity_registration valid_activity_id
    registration method body now s =
        if is_delete method
        then (if not (has_one_field body && valid_activity_id (get body (codes "activityId")))
            then (s, refused 400)
            else (
              (call (now, removing (text_of (get body (codes "activityId")))) s).0,
              registered false,
            ))
        else if not (valid_activity_registration round_trips body now)
        then (s, refused 400)
        else (let (after, answer) = call (now, registering body) s in
            (after, registration_reply answer))

    abbrev handle_body : Bool → Method → ℕ → ℕ → Bool → Sent → Option Json → S → S × Reply × Bool
    handle_body register method now later configured sent none s = (s, refused 400, false)
    handle_body register method now later configured sent (some body) s =
        if register
        then (let after = registration method body now s in (after.0, after.1, false))
        else if not (valid_activity_update round_trips body now)
        then (s, refused 400, false)
        else deliver later configured sent (update_of body) s

    -- A delivery reads the time again.
    unfoldable pub handle : Request → ℕ → ℕ → Bool → Sent → S → S × Reply × Bool
    unfolding valid_room text_eq registration valid_activity_update update_of deliver
    handle request now later configured sent s =
        if not (valid_room request.room)
        then (s, refused 400, false)
        else if not (is_path request.path)
        then (s, refused 404, false)
        else if not request.authorized
        then (s, refused 401, false)
        else if text_eq request.path subscriptions_path
        then (if is_get request.method
            then (let after = list now s in (after.0, subscriptions after.1, false))
            else (s, refused 405, false))
        else (let register = text_eq request.path register_path in
            if not (if register then registers request.method else is_post request.method)
            then (s, refused 405, false)
            else handle_body register request.method now later configured sent request.body s)
