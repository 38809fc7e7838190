-- ===== src/Als/Tests.antt =====
-- Tests of als.go.
use example_envoy_xds.Base.{ℕ, [], ◌∷◌, map, Text, codes, none, some, ◌≡◌, refl, ok, err, pos}
use native.Mathlib.Decide.{dec_lt}
use example_envoy_xds.Decimal.{format_uint, emit, digits}
use example_envoy_xds.Als.{timezone_jst, AlsApi, HttpLogEntry, LogMessage, stream_access_logs}
use example_envoy_xds.Als.Lines.{IsCuttable, cut, has_tab, parts, stream_access_logs-parts}

abbrev api : AlsApi
api = record {
  Error = Text;
  Timestamp = ℕ;
  DurationMsg = ℕ;
  Time = ℕ;
  timestamp = λ t. 0;
  duration = λ d. pos 0;
  Location = Text;
  load_location = λ name. err (codes "no zones");
  fixed_zone = λ name seconds. name;
  in_location = λ loc t. t;
  format = λ layout t. codes "2020-01-01 09:00:00.000";
  duration_string = λ d. codes "0s";
}

abbrev entry : HttpLogEntry api
entry = record {
  route_name = codes "user";
  protocol_version = codes "HTTP11";
  downstream_remote_address = codes "10.0.0.9";
  upstream_remote_address = codes "10.0.0.1";
  start_time = some 1;
  request_method = codes "GET";
  path = codes "/user";
  user_agent = [];
  referer = [];
  forwarded_for = [];
  response_code = 200;
  time_to_last_rx_byte = none;
  time_to_first_upstream_rx_byte = none;
  time_to_last_upstream_rx_byte = none;
  time_to_first_downstream_tx_byte = none;
  time_to_last_downstream_tx_byte = none;
}

abbrev message : LogMessage api
message = record { log_name = codes "front"; log_entry = entry ∷ [] }

entry-IsCuttable : IsCuttable (codes "front") entry
unfolding has_tab format_uint emit digits dec_lt
entry-IsCuttable = (
  refl,
  (
    refl,
    (
      refl,
      (
        refl,
        (
          refl,
          (
            refl,
            (refl, (refl, (refl, (refl, (refl, (refl, (refl, (refl, (refl, (refl, tt)))))))))),
          ),
        ),
      ),
    ),
  ),
)

stream_access_logs-parts_example :
    ((stream_access_logs {api = api} (λ n. []) (ok message)).1 ≡ ok tt)
    × (map cut (stream_access_logs {api = api} (λ n. []) (ok message)).0
        ≡ map (parts (codes "front")) (entry ∷ []))
stream_access_logs-parts_example =
    stream_access_logs-parts (λ n. []) message (λ n. refl) (entry-IsCuttable, tt)

zone : timezone_jst api ≡ codes "Asia/Tokyo"
unfolding timezone_jst
zone = refl
