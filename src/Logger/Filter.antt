-- ===== src/Logger/Filter.antt =====
-- Sequences of messages, and the reports to Loki, which do not go by the level.
use computer_service_system.Common.{
  ◌+◌, String, List, [], ◌∷◌, Bool, true, false, ◌&&◌, if◌then◌else◌, ◌≡◌, refl, ap, ◌∙◌, arith,
  inl, inr, Bool-cases,
}
use computer_service_system.Logger.{
  Host, Logger, LogLevel, debug, emit, write, to_console, get_current_timestamp,
}
use computer_service_system.Logger.Loki.{send_to_loki}
use computer_service_system.Logger.Report.{Report, report}
use computer_service_system.Logger.Loki.{LokiLabels}
use computer_service_system.Logger.Outputs.{
  count_outputs, is_post, count_outputs-append, passes, count-write, write-keeps,
}

module _ (host : Host) where
  open host use {World, curl_init}

  -- The messages of a sequence, written one after the other.
  unfoldable pub write_all : List (LogLevel × String) → Logger World → Logger World
  write_all [] lg = lg
  write_all ((level, message) ∷ ms) lg = write_all ms (write host level message lg)

  -- A write sends nothing to Loki.
  count_posts-write :
      (level : LogLevel) (message : String) (lg : Logger World)
      → count_outputs is_post (write host level message lg).outputs
        ≡ count_outputs is_post lg.outputs
  count_posts-write level message lg =
      count-write host is_post (λ level. false) level message lg (λ path line. refl) (never level)
      ∙ none_added (passes level lg.min_level) lg.console_enabled
    where
      never : (level : LogLevel) (line : String) → is_post (to_console host level line) ≡ false
      never debug line = refl
      never _ line = refl

      none_added :
          (b c : Bool)
          → count_outputs is_post lg.outputs + (if b && c && false then 1 else 0)
            ≡ count_outputs is_post lg.outputs
      none_added b c = ground arith

  count-send_to_loki :
      (level message : String) (labels : LokiLabels) (lg : Logger World)
      → count_outputs is_post (send_to_loki host level message labels lg).1.outputs
        ≡ count_outputs is_post lg.outputs + (if (curl_init lg.world).0 then 1 else 0)
  unfolding send_to_loki emit get_current_timestamp
  count-send_to_loki level message labels lg = elim (Bool-cases (curl_init lg.world).0) [
    | inl handle ↦ rw handle (count_outputs-append is_post lg.outputs _)
    | inr missing ↦ rw missing (omega arith)
  ]

  -- A report with Loki on is sent by one request if libcurl gives a handle, whatever the least
  -- level is; with Loki off nothing is sent.
  pub count_posts-report :
      (r : Report) (lg : Logger World)
      → count_outputs is_post (report host r lg).outputs
        ≡ count_outputs is_post lg.outputs
          + (if lg.loki_format_enabled && (curl_init (write host r.level r.message lg).world).0
              then 1
              else 0)
  unfolding report
  count_posts-report r lg =
      by_loki written.loki_format_enabled
      ∙ ap
          (λ b.
            count_outputs is_post lg.outputs + (if b && (curl_init written.world).0 then 1 else 0))
          (write-keeps host r.level r.message lg).4
    where
      written : Logger World
      written = write host r.level r.message lg

      by_loki :
          (b : Bool)
          → count_outputs is_post
              (if b
                then (send_to_loki host r.loki_level r.message r.labels written).1
                else written).outputs
            ≡ count_outputs is_post lg.outputs + (if b && (curl_init written.world).0 then 1 else 0)
      by_loki true =
          count-send_to_loki r.loki_level r.message r.labels written
          ∙ ap (λ n. n + (if (curl_init written.world).0 then 1 else 0))
              (count_posts-write r.level r.message lg)
      by_loki false = count_posts-write r.level r.message lg ∙ omega arith
