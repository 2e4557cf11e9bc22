-- ===== src/Tests/Edges.antt =====
-- src/relay/relayLog.js, src/relay/requestRouter.js and src/relay/legacyProxy.js at concrete inputs.
use granttap_relay.Prelude.{◌≡◌, refl, true, false, [], none, some, Text, codes, all}
use granttap_relay.Relay.Json.{undefined, integer, string}
use granttap_relay.Relay.Log.{Fields, LogState, Options, Line, log, sanitize_log_fields}
use granttap_relay.Relay.Log.Privacy.{IsClean, log-IsClean}
use granttap_relay.Relay.Routes.{Request, Upstream, fetched, proxy_legacy_request}
use granttap_relay.Relay.Routes.Forwarding.{IsForwarded, proxy_legacy_request-routed}

abbrev room : Text
room = codes "0123456789abcdef0123"

abbrev fields : Fields
fields = record {
  room = string room;
  role = string (codes "phone");
  code = integer 4429;
  status = undefined;
  retry_after = undefined;
  reason = string (codes "rate-limit");
}

abbrev options : Options
options = record { interval_ms = 10_000; max_per_second = 50; max_keys = 1_000 }

abbrev quiet_log : LogState
quiet_log = record { seen = []; second_started_at = none; second_lines = 0 }

abbrev line : Line
line = record {
  at = 5;
  event = codes "relay.closed";
  entry = sanitize_log_fields fields;
  suppressed = 0;
}

written : (log options (codes "relay.closed") fields 5 quiet_log).1 ≡ some line
unfolding log
written = refl

log-IsClean_example : IsClean line.entry
log-IsClean_example = log-IsClean options (codes "relay.closed") fields 5 quiet_log line written

abbrev request : Request
request = record {
  method = codes "GET";
  https = false;
  host = codes "old";
  path = codes "/ws";
  room = string room;
  websocket = true;
}

abbrev upstream : Upstream
upstream = record { https = true; host = codes "new" }

abbrev passed : Request
passed = record request { https = true; host = codes "new" }

sent_on : proxy_legacy_request request (some upstream) ≡ fetched passed
unfolding proxy_legacy_request all
sent_on = refl

proxy_legacy_request-routed_example : IsForwarded request passed
proxy_legacy_request-routed_example =
    proxy_legacy_request-routed request passed (some upstream) sent_on
