-- ===== src/Als/Lines.antt =====
-- The lines of als.go, read back: a line is cut at its tabs.
use mathlib.Core.List.{append_assoc}
use mathlib.Core.Bool.{Bool, ◌||◌, true≢false}
use example_envoy_xds.Base.{
  ℕ, suc, List, [], ◌∷◌, ◌++◌, map, Text, codes, text_eq, if◌then◌else◌, true, false, ◌==◌, ◌≡◌,
  refl, sym, ap, ap₂, ◌∙◌, All, All-zip, ok, Bool-cases, inl, inr,
}
use example_envoy_xds.Decimal.{format_uint}
use example_envoy_xds.Als.{
  AlsApi, AccessLog, format_time, HttpLogEntry, LogMessage, write, write_to, access_log, write_logs,
  stream_access_logs, accesslog_linefeed, accesslog_delimiter,
}

-- the tags of a line with the values of a log, in their order
abbrev fields : {api : AlsApi} → Text → AccessLog api → List (Text × Text)
fields {api} log_id a =
    (codes "id:", log_id)
    ∷ (codes "time:", format_time api a.request_time)
    ∷ (codes "route:", a.route)
    ∷ (codes "proto:", a.protocol)
    ∷ (codes "method:", a.request_method)
    ∷ (codes "status:", format_uint a.response_status)
    ∷ (codes "path:", a.request_path)
    ∷ (codes "ua:", a.user_agent)
    ∷ (codes "referer:", a.referer)
    ∷ (codes "client:", a.client_address)
    ∷ (codes "remote:", a.remote_address)
    ∷ (codes "req.receive:", api.duration_string a.request_receive_duration)
    ∷ (codes "res.receiving:", api.duration_string a.response_receiving_duration)
    ∷ (codes "res.complete:", api.duration_string a.response_complete_duration)
    ∷ (codes "client.receiving:", api.duration_string a.client_receiving_duration)
    ∷ (codes "client.complete:", api.duration_string a.client_complete_duration)
    ∷ []

-- the tags of a line with the values of an entry of the message, in their order
abbrev pub entry_fields : {api : AlsApi} → Text → HttpLogEntry api → List (Text × Text)
entry_fields {api} log_id e =
    (codes "id:", log_id)
    ∷ (codes "time:", format_time api (api.timestamp e.start_time))
    ∷ (codes "route:", e.route_name)
    ∷ (codes "proto:", e.protocol_version)
    ∷ (codes "method:", e.request_method)
    ∷ (codes "status:", format_uint e.response_code)
    ∷ (codes "path:", e.path)
    ∷ (codes "ua:", e.user_agent)
    ∷ (codes "referer:", e.referer)
    ∷ (codes "client:", e.downstream_remote_address)
    ∷ (codes "remote:", e.upstream_remote_address)
    ∷ (codes "req.receive:", api.duration_string (api.duration e.time_to_last_rx_byte))
    ∷ (codes "res.receiving:", api.duration_string (api.duration e.time_to_first_upstream_rx_byte))
    ∷ (codes "res.complete:", api.duration_string (api.duration e.time_to_last_upstream_rx_byte))
    ∷ (
      codes "client.receiving:",
      api.duration_string (api.duration e.time_to_first_downstream_tx_byte),
    )
    ∷ (
      codes "client.complete:",
      api.duration_string (api.duration e.time_to_last_downstream_tx_byte),
    )
    ∷ []

-- a value as it is shown: an empty one is a dash
abbrev pub shown : Text × Text → Text
shown (tag, value) = tag ++ (if text_eq value [] then codes "-" else value)

unfoldable pub has_tab : Text → Bool
has_tab [] = false
has_tab (c ∷ s) = (c == b'\t') || has_tab s

-- puts a character before the first part
unfoldable pub add_first : ℕ → List Text → List Text
add_first c [] = (c ∷ []) ∷ []
add_first c (s ∷ ss) = (c ∷ s) ∷ ss

-- the parts of a line between its tabs
unfoldable pub cut : Text → List Text
unfolding add_first
cut [] = [] ∷ []
cut (c ∷ s) = if c == b'\t' then [] ∷ cut s else add_first c (cut s)

or-false : (a b : Bool) → (a || b) ≡ false → (a ≡ false) × (b ≡ false)
or-false true b h = absurd (true≢false h)
or-false false b h = (refl, h)

cut-part : (s t : Text) → has_tab s ≡ false → cut (s ++ (b'\t' ∷ t)) ≡ s ∷ cut t
unfolding cut has_tab add_first
cut-part [] t h = refl
cut-part (c ∷ s) t h =
    let (e, k) = or-false (c == b'\t') (has_tab s) h in rw e (rw (cut-part s t k) refl)

has_tab-append : (s t : Text) → has_tab s ≡ false → has_tab t ≡ false → has_tab (s ++ t) ≡ false
unfolding has_tab
has_tab-append [] t h k = k
has_tab-append (c ∷ s) t h k =
    let (e, r) = or-false (c == b'\t') (has_tab s) h in rw e (has_tab-append s t r k)

-- a line without the buffer that it is appended to
abbrev body : List (Text × Text) → Text
body [] = accesslog_linefeed
body (f ∷ fs) = shown f ++ (b'\t' ∷ body fs)

abbrev IsPlain : Text × Text → Type 0
IsPlain (tag, value) = (has_tab tag ≡ false) × (has_tab value ≡ false)

has_tab-shown : (f : Text × Text) → IsPlain f → has_tab (shown f) ≡ false
unfolding has_tab
has_tab-shown (tag, value) (h, k) = elim (Bool-cases (text_eq value [])) [
  | inl e ↦ has_tab-append tag _ h (rw e refl)
  | inr e ↦ has_tab-append tag _ h (rw e k)
]

cut-body :
    (fs : List (Text × Text))
    → All IsPlain fs
    → cut (body fs) ≡ map shown fs ++ (accesslog_linefeed ∷ [])
unfolding cut add_first
cut-body [] h = refl
cut-body (f ∷ fs) (hf, h) =
    cut-part (shown f) (body fs) (has_tab-shown f hf) ∙ ap (◌∷◌ (shown f)) (cut-body fs h)

write_all : List (Text × Text) → Text → Text
write_all [] buf = buf
write_all ((tag, value) ∷ fs) buf = write_all fs (write tag value buf)

write-append :
    (tag value buf rest : Text)
    → write tag value buf ++ rest ≡ buf ++ (shown (tag, value) ++ (b'\t' ∷ rest))
unfolding write
write-append tag value buf rest =
    let v = if text_eq value [] then codes "-" else value in
    append_assoc buf (tag ++ (v ++ accesslog_delimiter)) rest
    ∙ ap (◌++◌ buf) (
        append_assoc tag (v ++ accesslog_delimiter) rest
        ∙ ap (◌++◌ tag) (append_assoc v accesslog_delimiter rest)
        ∙ sym (append_assoc tag v (b'\t' ∷ rest)))

write_all-body :
    (fs : List (Text × Text)) (buf : Text) → write_all fs buf ++ accesslog_linefeed ≡ buf ++ body fs
unfolding write_all
write_all-body [] buf = refl
write_all-body ((tag, value) ∷ fs) buf =
    write_all-body fs (write tag value buf) ∙ write-append tag value buf (body fs)

module _ {api : AlsApi} where
  -- no value of the entry holds a tab
  abbrev pub IsCuttable : Text → HttpLogEntry api → Type 0
  IsCuttable log_id e = All (λ f. has_tab f.1 ≡ false) (entry_fields log_id e)

  fields-access_log :
      (log_id : Text) (e : HttpLogEntry api) → fields log_id (access_log e) ≡ entry_fields log_id e
  unfolding access_log
  fields-access_log log_id e = refl

  write_to-body :
      (a : AccessLog api) (log_id buf : Text)
      → write_to a log_id buf ≡ buf ++ body (fields log_id a)
  unfolding write_to write_all
  write_to-body a log_id buf = write_all-body (fields log_id a) buf

  -- the tags hold no tab
  plain :
      (log_id : Text) (e : HttpLogEntry api)
      → IsCuttable log_id e
      → All IsPlain (entry_fields log_id e)
  unfolding has_tab
  plain log_id e h =
      let tags : All (λ f. has_tab f.0 ≡ false) (entry_fields log_id e) = (
        refl,
        (
          refl,
          (
            refl,
            (
              refl,
              (
                refl,
                (
                  refl,
                  (
                    refl,
                    (refl, (refl, (refl, (refl, (refl, (refl, (refl, (refl, (refl, tt))))))))),
                  ),
                ),
              ),
            ),
          ),
        ),
      ) in
      All-zip (λ f. has_tab f.0 ≡ false) (λ f. has_tab f.1 ≡ false) (entry_fields log_id e) tags h

  -- the parts of the line of an entry
  abbrev pub parts : Text → HttpLogEntry api → List Text
  parts log_id e = map shown (entry_fields log_id e) ++ (accesslog_linefeed ∷ [])

  write_logs-parts :
      (pool : ℕ → Text) (n : ℕ) (log_id : Text) (es : List (HttpLogEntry api))
      → ((k : ℕ) → pool k ≡ [])
      → All (IsCuttable log_id) es
      → map cut (write_logs pool n log_id (map access_log es)) ≡ map (parts log_id) es
  unfolding write_logs
  write_logs-parts pool n log_id [] clean h = refl
  write_logs-parts pool n log_id (e ∷ es) clean (he, h) =
      ap₂ (◌∷◌)
        (ap cut (
            write_to-body (access_log e) log_id (pool n)
            ∙ ap₂ (λ b fs. b ++ body fs) (clean n) (fields-access_log log_id e))
          ∙ cut-body (entry_fields log_id e) (plain log_id e he))
        (write_logs-parts pool (suc n) log_id es clean h)

  -- When the message arrives, the buffers of the pool are empty and no value holds a tab, the call
  -- succeeds and writes one line for each entry, in their order: cut at its tabs, the line is the
  -- sixteen tags, each with its field of the entry, or a dash where that is empty, and the line feed.
  pub stream_access_logs-parts :
      (pool : ℕ → Text) (msg : LogMessage api)
      → ((k : ℕ) → pool k ≡ [])
      → All (IsCuttable msg.log_name) msg.log_entry
      → ((stream_access_logs pool (ok msg)).1 ≡ ok tt)
        × (map cut (stream_access_logs pool (ok msg)).0 ≡ map (parts msg.log_name) msg.log_entry)
  unfolding stream_access_logs
  stream_access_logs-parts pool msg clean h =
      (refl, write_logs-parts pool 0 msg.log_name msg.log_entry clean h)
