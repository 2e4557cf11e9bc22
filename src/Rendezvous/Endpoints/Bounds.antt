-- ===== src/Rendezvous/Endpoints/Bounds.antt =====
-- src/relay/endpointRetention.js: the number of endpoints, and the alarm that ends them.
use granttap_relay.Prelude.{
  ℕ, ◌+◌, ◌≤◌, ◌≡◌, refl, Bool, true, false, not, ◌&&◌, List, [], ◌∷◌, Option, none, some, arith,
  leb, if◌then◌else◌, length, filter, any, all, length-filter-le, min, Text, Bool-cases, inl, inr,
}
use granttap_relay.Rendezvous.Endpoints.{
  Endpoint, Directory, endpoint_recipient_limit, earliest, is_ahead, purge_endpoint_directory,
  has_key, set_row, put_row, put_directory_endpoint, Method, put, get_endpoint, delete, other,
  endpoint_response,
}
use granttap_relay.Relay.Json.{Json}

-- Whether the alarm rings no later than a time.
abbrev pub rings_by : Option ℕ → ℕ → Bool
rings_by none at = false
rings_by (some alarm) at = leb alarm at

-- There are at most 32 endpoints, and the alarm rings before or when any of them expires.
pub record IsDirectory (d : Directory) : Type 0 where
  pub count : length d.rows ≤ endpoint_recipient_limit
  pub alarm : all (λ row. rings_by d.alarm_at row.expires_at) d.rows ≡ true

all-earlier :
    (expiry at : ℕ) (rows : List Endpoint)
    → all (λ row. rings_by (some at) row.expires_at) rows ≡ true
    → all (λ row. rings_by (some (min expiry at)) row.expires_at) rows ≡ true
unfolding all
all-earlier expiry at [] h = refl
all-earlier expiry at (row ∷ rows) h = ground (arith, all-earlier expiry at rows)

no_earliest :
    (rows : List Endpoint) → all (λ row. rings_by none row.expires_at) rows ≡ true → rows ≡ []
unfolding all
no_earliest [] h = refl
no_earliest (row ∷ rows) h = absurd (ground arith)

all-add :
    (row : Endpoint) (rows : List Endpoint) (alarm : Option ℕ)
    → all (λ r. rings_by alarm r.expires_at) rows ≡ true
    → all
        (λ r.
          rings_by
            (elim alarm [ none ↦ some row.expires_at | some a ↦ some (min row.expires_at a) ])
            r.expires_at)
        (row ∷ rows)
      ≡ true
unfolding all
all-add row rows none h = rw (no_earliest rows h) (ground arith)
all-add row rows (some a) h = ground (arith, all-earlier row.expires_at a rows h)

all-earliest :
    (rows : List Endpoint) → all (λ row. rings_by (earliest rows) row.expires_at) rows ≡ true
unfolding all
all-earliest [] = refl
all-earliest (row ∷ rows) = all-add row rows (earliest rows) (all-earliest rows)

all-set_row :
    (p : Endpoint → Bool) (row : Endpoint) (rows : List Endpoint)
    → all p (row ∷ rows) ≡ true
    → all p (set_row row rows) ≡ true
unfolding all set_row
all-set_row p row [] h = h
all-set_row p row (old ∷ rows) h = ground (arith, all-set_row p row rows)

length-set_row :
    (row : Endpoint) (rows : List Endpoint)
    → length (set_row row rows)
      ≡ (if any (has_key row.key) rows then length rows else length rows + 1)
unfolding set_row any
length-set_row row [] = omega arith
length-set_row row (old ∷ rows) = ground (arith, length-set_row row rows)

put_row-IsDirectory :
    (row : Endpoint) (d : Directory) → IsDirectory d → IsDirectory (put_row row d).0
unfolding put_row
put_row-IsDirectory row d v =
    elim (Bool-cases
      (not (any (has_key row.key) d.rows) && leb endpoint_recipient_limit (length d.rows))) [
        | inl full ↦ rw (full, put_row) v
        | inr free ↦
            rw (free, put_row)
              (record {
                count = ground (arith, length-set_row row d.rows, v.count);
                alarm =
                    all-set_row (λ r. rings_by (earliest (row ∷ d.rows)) r.expires_at) row d.rows
                      (all-earliest (row ∷ d.rows));
              })
      ]

purge-IsDirectory :
    (now : ℕ) (d : Directory)
    → length d.rows ≤ endpoint_recipient_limit
    → IsDirectory (purge_endpoint_directory now d)
unfolding purge_endpoint_directory
purge-IsDirectory now d few = record {
  count = omega (arith, length-filter-le (is_ahead now) d.rows);
  alarm = all-earliest (filter (is_ahead now) d.rows);
}

-- A put into a directory of at most 32 endpoints leaves at most 32, with an alarm no later than the
-- expiry of any of them.
pub put_directory_endpoint-IsDirectory :
    (row : Endpoint) (now : ℕ) (d : Directory)
    → length d.rows ≤ endpoint_recipient_limit
    → IsDirectory (put_directory_endpoint row now d).0
unfolding put_directory_endpoint
put_directory_endpoint-IsDirectory row now d few =
    put_row-IsDirectory row (purge_endpoint_directory now d) (purge-IsDirectory now d few)

module _ (round_trips : Text → Bool) where
  -- Without authorisation no request changes the stored endpoint, and each is answered with an error.
  pub endpoint_response-unauthorized :
      (method : Method) (room : Json) (body : Option Json) (takes : Bool) (now : ℕ)
      (stored : Option Json)
      → ((endpoint_response round_trips method room false body takes now stored).1 ≡ stored)
        × (400 ≤ (endpoint_response round_trips method room false body takes now stored).0)
  unfolding endpoint_response
  endpoint_response-unauthorized put room none takes now stored = ground arith
  endpoint_response-unauthorized put room (some value) takes now stored = ground arith
  endpoint_response-unauthorized get_endpoint room body takes now stored = ground arith
  endpoint_response-unauthorized delete room body takes now stored = ground arith
  endpoint_response-unauthorized other room body takes now stored = ground arith
