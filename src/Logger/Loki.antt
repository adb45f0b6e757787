-- ===== src/Logger/Loki.antt =====
-- `LokiLabels` and `sendToLoki` of src/logger.h.
use computer_service_system.Common.{String, Bool, false, none, some, if◌then◌else◌}
use computer_service_system.Std.Text as Text
use computer_service_system.Std.Text.{◌<<◌}
use computer_service_system.Std.Chars.{chars, text}
use computer_service_system.Std.HashMap
use computer_service_system.Std.HashMap.{HashMap}
use computer_service_system.Std.Contains.{print_each}
use computer_service_system.Logger.{
  Host, Logger, LogLevel, debug, info, warning, error, post, emit, get_current_timestamp,
}
use computer_service_system.Logger.Escape.{escape}

abbrev pub LokiLabels : Type 0
LokiLabels = HashMap String

-- labels.add(key, value)
abbrev pub add : String → String → LokiLabels → LokiLabels
add key value labels = HashMap.assign key value labels

-- The level in the words of Loki.
unfoldable pub level_to_loki_string : LogLevel → String
level_to_loki_string debug = "debug"
level_to_loki_string info = "info"
level_to_loki_string warning = "warning"
level_to_loki_string error = "error"

-- "key":"value",
unfoldable pub print_label : String × String → String
print_label (key, value) = "\"" << key << "\":\"" << value << "\","

-- The escaped message; the loop gives one for every message.
unfoldable pub escaped_text : String → String
escaped_text message = elim (escape (chars message)) [ none ↦ "" | some escaped ↦ text escaped ]

module _ (host : Host) where
  open host use {World, curl_init, curl_perform, walk}

  unfoldable pub payload : Logger World → String → String → LokiLabels → String → String
  unfolding print_label escaped_text
  payload lg level message labels timestamp =
      "{\"streams\":[{\"stream\":{\"app\":\""
      << lg.service_name
      << "\",\""
      << "\"level\":\""
      << level
      << "\","
      << print_each print_label (walk.entries labels)
      << "\"job\":\"service_system\"},\"values\":[{\"ts\":\""
      << timestamp
      << "\", \"line\":\""
      << escaped_text message
      << "\"}]}]}"

  unfoldable pub url : Logger World → String
  url lg = "http://" << lg.loki_host << ":" << Text.to_string lg.loki_port << "/loki/api/v1/push"

  -- Nothing is sent if libcurl gives no handle.
  unfoldable pub send_to_loki : String → String → LokiLabels → Logger World → Bool × Logger World
  unfolding payload url
  send_to_loki level message labels lg =
      let (handle, w) = curl_init lg.world in
      let lg' = record lg { world = w } in
      if handle
      then (let (timestamp, lg2) = get_current_timestamp host lg' in
          let body = payload lg level message labels timestamp in
          let (sent, w2) = curl_perform (url lg) body lg2.world in
          (sent, emit host (post (url lg) body) (record lg2 { world = w2 })))
      else (false, lg')
