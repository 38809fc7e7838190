-- ===== src/Als.antt =====
-- als.go: the access log service, and time.go, the zone of its times. A message of Envoy is a record of what the getters of the code
-- return for it, which for a nil message are zero values; durations are `int64` nanoseconds. The
-- printing of times, durations and enumerations is a parameter, and so is the content of the
-- buffers that the pool hands out.
pub mod Lines
mod Tests
use example_envoy_xds.Base.{
  ℕ, suc, ◌*◌, List, [], ◌∷◌, ◌++◌, map, Text, codes, text_eq, Option, if◌then◌else◌, ℤ, Result, ok,
  err,
}
use example_envoy_xds.Decimal.{format_uint}

pub record AlsApi : Type 1 where
  pub Error : Type 0
  pub Timestamp : Type 0
  pub DurationMsg : Type 0
  pub Time : Type 0
  -- the first results of `ptypes.Timestamp` and `ptypes.Duration`; `none` is a nil message
  pub timestamp : Option Timestamp → Time
  pub duration : Option DurationMsg → ℤ
  pub Location : Type 0
  -- `time.LoadLocation`, and `time.FixedZone` with its seconds east of UTC
  pub load_location : Text → Result Error Location
  pub fixed_zone : Text → ℕ → Location
  -- `t.In(loc)` and `t.Format(layout)`
  pub in_location : Location → Time → Time
  pub format : Text → Time → Text
  -- `(time.Duration).String`
  pub duration_string : ℤ → Text

-- `*HTTPAccessLogEntry`, by what `GetCommonProperties`, `GetRequest`, `GetResponse` and the
-- getters after them return
pub record HttpLogEntry (api : AlsApi) : Type 0 where
  pub route_name : Text
  pub protocol_version : Text
  pub downstream_remote_address : Text
  pub upstream_remote_address : Text
  pub start_time : Option api.Timestamp
  pub request_method : Text
  pub path : Text
  pub user_agent : Text
  pub referer : Text
  pub forwarded_for : Text
  pub response_code : ℕ
  pub time_to_last_rx_byte : Option api.DurationMsg
  pub time_to_first_upstream_rx_byte : Option api.DurationMsg
  pub time_to_last_upstream_rx_byte : Option api.DurationMsg
  pub time_to_first_downstream_tx_byte : Option api.DurationMsg
  pub time_to_last_downstream_tx_byte : Option api.DurationMsg

-- `*StreamAccessLogsMessage`
pub record LogMessage (api : AlsApi) : Type 0 where
  pub log_name : Text
  pub log_entry : List (HttpLogEntry api)

pub record AccessLog (api : AlsApi) : Type 0 where
  pub route : Text
  pub client_address : Text
  pub remote_address : Text
  pub request_time : api.Time
  pub protocol : Text
  pub request_method : Text
  pub request_path : Text
  pub user_agent : Text
  pub referer : Text
  pub forwarded_for : Text
  pub response_status : ℕ
  pub request_receive_duration : ℤ
  pub response_receiving_duration : ℤ
  pub response_complete_duration : ℤ
  pub client_receiving_duration : ℤ
  pub client_complete_duration : ℤ

abbrev pub accesslog_linefeed : Text
accesslog_linefeed = b'\n' ∷ []

abbrev pub accesslog_delimiter : Text
accesslog_delimiter = b'\t' ∷ []

-- `a.write`: the buffer after it
unfoldable pub write : Text → Text → Text → Text
write tag value buf =
    buf ++ (tag ++ ((if text_eq value [] then codes "-" else value) ++ accesslog_delimiter))

module _ (api : AlsApi) where
  -- the zone of the host's database, or without it a fixed zone of the same name
  unfoldable pub timezone_jst : api.Location
  timezone_jst = elim (api.load_location (codes "Asia/Tokyo")) [
    | ok loc ↦ loc
    | err e ↦ api.fixed_zone (codes "Asia/Tokyo") (9 * 60 * 60)
  ]

  -- `defaultTZ`
  abbrev pub default_tz : api.Location
  default_tz = timezone_jst

  -- the request time as `WriteTo` prints it
  abbrev pub format_time : api.Time → Text
  format_time t = api.format (codes "2006-01-02 15:04:05.000") (api.in_location default_tz t)

module _ {api : AlsApi} where
  unfoldable pub write_to : AccessLog api → Text → Text → Text
  unfolding write
  write_to a log_id buf =
      let b1 = write (codes "id:") log_id buf in
      let b2 = write (codes "time:") (format_time api a.request_time) b1 in
      let b3 = write (codes "route:") a.route b2 in
      let b4 = write (codes "proto:") a.protocol b3 in
      let b5 = write (codes "method:") a.request_method b4 in
      let b6 = write (codes "status:") (format_uint a.response_status) b5 in
      let b7 = write (codes "path:") a.request_path b6 in
      let b8 = write (codes "ua:") a.user_agent b7 in
      let b9 = write (codes "referer:") a.referer b8 in
      let b10 = write (codes "client:") a.client_address b9 in
      let b11 = write (codes "remote:") a.remote_address b10 in
      let b12 = write (codes "req.receive:") (api.duration_string a.request_receive_duration) b11 in
      let b13 =
        write (codes "res.receiving:") (api.duration_string a.response_receiving_duration) b12 in
      let b14 =
        write (codes "res.complete:") (api.duration_string a.response_complete_duration) b13 in
      let b15 =
        write (codes "client.receiving:") (api.duration_string a.client_receiving_duration) b14 in
      let b16 =
        write (codes "client.complete:") (api.duration_string a.client_complete_duration) b15 in
      b16 ++ accesslog_linefeed

  -- the body of the loop over the entries
  unfoldable pub access_log : HttpLogEntry api → AccessLog api
  access_log e = record {
    route = e.route_name;
    client_address = e.downstream_remote_address;
    remote_address = e.upstream_remote_address;
    request_time = api.timestamp e.start_time;
    protocol = e.protocol_version;
    request_method = e.request_method;
    request_path = e.path;
    user_agent = e.user_agent;
    referer = e.referer;
    forwarded_for = e.forwarded_for;
    response_status = e.response_code;
    request_receive_duration = api.duration e.time_to_last_rx_byte;
    response_receiving_duration = api.duration e.time_to_first_upstream_rx_byte;
    response_complete_duration = api.duration e.time_to_last_upstream_rx_byte;
    client_receiving_duration = api.duration e.time_to_first_downstream_tx_byte;
    client_complete_duration = api.duration e.time_to_last_downstream_tx_byte;
  }

  -- the loop over the logs: what is written, one call of `Write` each. `pool n` is what the buffer
  -- that the call of `Get` with the number `n` returns already holds.
  unfoldable pub write_logs : (ℕ → Text) → ℕ → Text → List (AccessLog api) → List Text
  unfolding write_to
  write_logs pool n log_id [] = []
  write_logs pool n log_id (acclog ∷ rest) =
      write_to acclog log_id (pool n) ∷ write_logs pool (suc n) log_id rest

  -- `StreamAccessLogs`, by what its one `stream.Recv` returns: what it writes, and its result
  unfoldable pub stream_access_logs :
      (ℕ → Text) → Result api.Error (LogMessage api) → List Text × Result api.Error (Unit {0})
  unfolding access_log write_logs
  stream_access_logs pool (err e) = ([], err e)
  stream_access_logs pool (ok msg) =
      (write_logs pool 0 msg.log_name (map access_log msg.log_entry), ok tt)

-- `accesslogServiceHandler`, by its logger
pub record AccesslogServiceHandler (Logger : Type 0) : Type 0 where
  pub log : Logger

unfoldable pub new_accesslog_service_handler :
    {Logger : Type 0} → Logger → AccesslogServiceHandler Logger
new_accesslog_service_handler logger = record { log = logger }
