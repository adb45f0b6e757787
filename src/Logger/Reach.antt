-- ===== src/Logger/Reach.antt =====
-- The public calls of the logger, and what every sequence of them keeps.
use computer_service_system.Common.{
  String, List, [], ◌∷◌, Bool, true, false, if◌then◌else◌, ℤ, ◌≡◌, sym, ap, ◌∙◌, arith,
}
use computer_service_system.Logger.{
  Host, Logger, LogLevel, is_open, emit, write, create, init, init_with_loki, set_level,
  enable_console, enable_file, set_service_name, get_current_timestamp,
}
use computer_service_system.Logger.Loki.{LokiLabels, send_to_loki}
use computer_service_system.Logger.Report.{Report, report, write_plain, write_in}
use computer_service_system.Logger.Outputs.{write-keeps}

pub data Call : Type 0 where
  inits : String → LogLevel → Call
  inits_with_loki : String → LogLevel → String → ℤ → Call
  sets_level : LogLevel → Call
  enables_console : Bool → Call
  enables_file : Bool → Call
  sets_service_name : String → Call
  writes : LogLevel → String → Call
  writes_in : LogLevel → String → String → Call
  reports : Report → Call

module _ (host : Host) where
  open host use {World}

  unfoldable pub perform : Call → Logger World → Logger World
  perform (inits path level) = init host path level
  perform (inits_with_loki path level loki_host loki_port) =
      init_with_loki host path level loki_host loki_port
  perform (sets_level level) = set_level host level
  perform (enables_console enabled) = enable_console host enabled
  perform (enables_file enabled) = enable_file host enabled
  perform (sets_service_name name) = set_service_name host name
  perform (writes level message) = write_plain host level message
  perform (writes_in level message context) = write_in host level message context
  perform (reports r) = report host r

  unfoldable pub perform_all : List Call → Logger World → Logger World
  unfolding perform
  perform_all [] lg = lg
  perform_all (c ∷ cs) lg = perform_all cs (perform c lg)

  -- The file is written to only while it is open.
  abbrev pub IsReady : Logger World → Type 0
  IsReady lg = lg.file_enabled ≡ true → is_open lg.log_file ≡ true

  -- What leaves the file and its switch alone keeps this.
  same_file-IsReady :
      (lg lg' : Logger World)
      → lg'.file_enabled ≡ lg.file_enabled
      → lg'.log_file ≡ lg.log_file
      → IsReady lg
      → IsReady lg'
  same_file-IsReady lg lg' e f ready on = ap is_open f ∙ ready (sym e ∙ on)

  write-IsReady :
      (level : LogLevel) (message : String) (lg : Logger World)
      → IsReady lg
      → IsReady (write host level message lg)
  write-IsReady level message lg ready =
      let kept = write-keeps host level message lg in
      same_file-IsReady lg (write host level message lg) kept.2 kept.3 ready

  init-IsReady :
      (path : String) (level : LogLevel) (lg : Logger World) → IsReady (init host path level lg)
  unfolding init
  init-IsReady path level lg = ground arith

  enable_file-IsReady :
      (b : Bool) (lg : Logger World) → IsReady lg → IsReady (enable_file host b lg)
  unfolding enable_file
  enable_file-IsReady b lg ready = ground arith

  send_to_loki-IsReady :
      (level message : String) (labels : LokiLabels) (lg : Logger World)
      → IsReady lg
      → IsReady (send_to_loki host level message labels lg).1
  unfolding send_to_loki emit get_current_timestamp
  send_to_loki-IsReady level message labels lg ready = ground arith

  report-IsReady : (r : Report) (lg : Logger World) → IsReady lg → IsReady (report host r lg)
  unfolding report
  report-IsReady r lg ready =
      let written = write-IsReady r.level r.message lg ready in
      by_loki (write host r.level r.message lg).loki_format_enabled _ _ written (
        send_to_loki-IsReady r.loki_level r.message r.labels (write host r.level r.message lg)
          written)
    where
      by_loki :
          (b : Bool) (lg lg' : Logger World)
          → IsReady lg
          → IsReady lg'
          → IsReady (if b then lg' else lg)
      by_loki true lg lg' p q = q
      by_loki false lg lg' p q = p

  perform-IsReady : (c : Call) (lg : Logger World) → IsReady lg → IsReady (perform c lg)
  unfolding perform
  perform-IsReady (inits path level) lg ready = init-IsReady path level lg
  perform-IsReady (inits_with_loki path level loki_host loki_port) lg ready =
      unfold init_with_loki in init-IsReady path level lg
  perform-IsReady (sets_level level) lg ready = unfold set_level in ready
  perform-IsReady (enables_console enabled) lg ready = unfold enable_console in ready
  perform-IsReady (enables_file enabled) lg ready = enable_file-IsReady enabled lg ready
  perform-IsReady (sets_service_name name) lg ready = unfold set_service_name in ready
  perform-IsReady (writes level message) lg ready = write-IsReady level message lg ready
  perform-IsReady (writes_in level message context) lg ready =
      unfold write_in in write-IsReady level _ lg ready
  perform-IsReady (reports r) lg ready = report-IsReady r lg ready

  perform_all-keeps :
      (cs : List Call) (lg : Logger World) → IsReady lg → IsReady (perform_all cs lg)
  unfolding perform_all
  perform_all-keeps [] lg ready = ready
  perform_all-keeps (c ∷ cs) lg ready =
      perform_all-keeps cs (perform c lg) (perform-IsReady c lg ready)

  -- After any sequence of calls on a new logger, whether or not files could be opened, the switch
  -- for the file is on only while the file is open.
  pub perform_all-IsReady : (w : World) (cs : List Call) → IsReady (perform_all cs (create host w))
  perform_all-IsReady w cs = perform_all-keeps cs (create host w) (unfold create in λ h. cc)
