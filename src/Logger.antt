-- ===== src/Logger.antt =====
-- src/logger.h: the log levels, the state of the one `Logger`, its settings and `write`. What the
-- logger does to the outside is a list of outputs, oldest first; what the outside answers is taken
-- from a `Host`.
pub mod Escape
pub mod Loki
pub mod Report
pub mod Reach
pub mod Refused
pub mod Outputs
pub mod Filter
pub mod Mirror
pub mod Lines
pub mod Reopen
pub mod Levels
pub mod Tests
use computer_service_system.Common.{
  ℕ, ◌+◌, String, List, [], ◌∷◌, ◌++◌, Bool, true, false, ◌&&◌, not, Option, none, some,
  if◌then◌else◌, ltb, ℤ, pos,
}
use computer_service_system.Std.Text as Text
use computer_service_system.Std.Text.{◌<<◌}
use computer_service_system.Std.Chars.{chars, text, before_last_slash}
use computer_service_system.Std.HashMap.{HashMap, Walk}

pub data LogLevel : Type 0 where
  debug info warning error : LogLevel

-- `localtime` and the milliseconds of `system_clock::now()`
pub record Time : Type 0 where
  pub year : ℕ
  pub month : ℕ
  pub day : ℕ
  pub hour : ℕ
  pub minute : ℕ
  pub second : ℕ
  pub millisecond : ℕ

-- The operating system and libcurl: their state, and the answers that the logger reads.
pub record Host : Type 1 where
  pub World : Type 0
  pub now : World → Time × World
  -- whether a file can be opened for appending
  pub open_append : String → World → Bool × World
  -- curl_easy_init() returned a handle
  pub curl_init : World → Bool × World
  -- curl_easy_perform: a POST of a body to a URL returned CURLE_OK
  pub curl_perform : String → String → World → Bool × World
  -- the order in which `unordered_map` is walked
  pub walk : Walk String

pub data Output : Type 0 where
  cout cerr : String → Output
  file_line : String → String → Output
  system : String → Output
  post : String → String → Output

-- A `std::ofstream`: the path that it has open, and whether no error bit is set.
pub record LogFile : Type 0 where
  pub opened : Option String
  pub good : Bool

pub record Logger (World : Type 0) : Type 0 where
  pub log_file : LogFile
  pub min_level : LogLevel
  pub file_enabled : Bool
  pub console_enabled : Bool
  pub loki_format_enabled : Bool
  pub log_file_path : String
  pub service_name : String
  pub loki_host : String
  pub loki_port : ℤ
  pub world : World
  pub outputs : List Output

abbrev pub is_open : LogFile → Bool
is_open f = elim f.opened [ none ↦ false | some path ↦ true ]

abbrev pub rank : LogLevel → ℕ
rank debug = 0
rank info = 1
rank warning = 2
rank error = 3

unfoldable pub level_to_string : LogLevel → String
level_to_string debug = "DEBUG"
level_to_string info = "INFO"
level_to_string warning = "WARNING"
level_to_string error = "ERROR"

-- std::setfill('0') << std::setw(2), and setw(3)
abbrev pub pad2 : ℕ → String
pad2 n = (if ltb n 10 then "0" else "") << Text.to_string_ℕ n

abbrev pub pad3 : ℕ → String
pad3 n = (if ltb n 100 then "0" else "") << pad2 n

-- "%Y-%m-%dT%H:%M:%S", the milliseconds, and a "Z"
unfoldable pub print_time : Time → String
print_time t =
    Text.to_string_ℕ t.year
    << "-"
    << pad2 t.month
    << "-"
    << pad2 t.day
    << "T"
    << pad2 t.hour
    << ":"
    << pad2 t.minute
    << ":"
    << pad2 t.second
    << "."
    << pad3 t.millisecond
    << "Z"

module _ (host : Host) where
  open host use {World, now, open_append}

  -- The logger as its constructor leaves it.
  unfoldable pub create : World → Logger World
  create w = record {
    log_file = record { opened = none; good = true };
    min_level = debug;
    file_enabled = false;
    console_enabled = true;
    loki_format_enabled = false;
    log_file_path = "logs/app.log";
    service_name = "service_system";
    loki_host = "localhost";
    loki_port = pos 3100;
    world = w;
    outputs = [];
  }

  unfoldable pub emit : Output → Logger World → Logger World
  emit o lg = record lg { outputs = lg.outputs ++ o ∷ [] }

  unfoldable pub get_current_timestamp : Logger World → String × Logger World
  get_current_timestamp lg = let (t, w) = now lg.world in (print_time t, record lg { world = w })

  -- `std::ofstream::open`: it fails on a stream that is open already, which keeps its old file.
  unfoldable pub open_file : String → Logger World → Logger World
  open_file path lg = elim lg.log_file.opened [
    | some old ↦ record lg { log_file = record { opened = some old; good = false } }
    | none ↦
        let (done, w) = open_append path lg.world in
        record lg {
          world = w;
          log_file =
              if done
              then record { opened = some path; good = true }
              else record { opened = none; good = false };
        }
  ]

  unfoldable pub entry : String → LogLevel → String → String
  entry timestamp level message =
      "[" << timestamp << "] " << "[" << level_to_string level << "] " << message

  abbrev pub to_console : LogLevel → String → Output
  to_console error line = cerr line
  to_console _ line = cout line

  -- A line goes into the open file only while the stream has no error.
  unfoldable pub append_line : Option String → String → Logger World → Logger World
  unfolding emit
  append_line none line lg = lg
  append_line (some path) line lg =
      if lg.file_enabled && lg.log_file.good then emit (file_line path line) lg else lg

  unfoldable pub write_file : String → Logger World → Logger World
  unfolding append_line
  write_file line lg = append_line lg.log_file.opened line lg

  unfoldable pub write_console : LogLevel → String → Logger World → Logger World
  unfolding emit
  write_console level line lg = if lg.console_enabled then emit (to_console level line) lg else lg

  unfoldable pub write : LogLevel → String → Logger World → Logger World
  unfolding get_current_timestamp write_console write_file entry
  write level message lg =
      if ltb (rank level) (rank lg.min_level)
      then lg
      else (let (timestamp, lg') = get_current_timestamp lg in
          let line = entry timestamp level message in
          write_file line (write_console level line lg'))

  -- mkdir -p of the directory of a path
  unfoldable pub make_directory : String → Logger World → Logger World
  unfolding emit
  make_directory path lg = elim (before_last_slash (chars path)) [
    | none ↦ lg
    | some dir ↦ emit (system ("mkdir -p " << text dir)) lg
  ]

  unfoldable pub init : String → LogLevel → Logger World → Logger World
  unfolding make_directory open_file
  init path level lg =
      let configured = record lg {
        log_file_path = path;
        min_level = level;
        file_enabled = true;
        console_enabled = true;
        loki_format_enabled = false;
      } in
      let opened = open_file path (make_directory path configured) in
      if is_open opened.log_file then opened else record opened { file_enabled = false }

  unfoldable pub init_with_loki : String → LogLevel → String → ℤ → Logger World → Logger World
  unfolding init
  init_with_loki path level loki_host loki_port lg = record (init path level lg) {
    loki_host = loki_host;
    loki_port = loki_port;
    loki_format_enabled = true;
  }

  unfoldable pub set_level : LogLevel → Logger World → Logger World
  set_level level lg = record lg { min_level = level }

  unfoldable pub enable_console : Bool → Logger World → Logger World
  enable_console enabled lg = record lg { console_enabled = enabled }

  unfoldable pub enable_file : Bool → Logger World → Logger World
  unfolding open_file
  enable_file enabled lg =
      if enabled && not (is_open lg.log_file)
      then (let opened = open_file lg.log_file_path lg in
          record opened { file_enabled = is_open opened.log_file })
      else record lg { file_enabled = enabled }

  unfoldable pub set_service_name : String → Logger World → Logger World
  set_service_name name lg = record lg { service_name = name }
