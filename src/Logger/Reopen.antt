-- ===== src/Logger/Reopen.antt =====
-- Opening the logger a second time.
use computer_service_system.Common.{
  ◌+◌, String, List, [], ◌∷◌, Bool, true, false, ◌&&◌, Option, none, some, if◌then◌else◌, ltb, ◌≡◌,
  refl, ap, ◌∙◌, arith, inl, inr, Bool-cases,
}
use computer_service_system.Logger.{
  Host, Logger, LogLevel, debug, rank, is_open, emit, entry, write, append_line, write_console,
  to_console, get_current_timestamp, init, open_file, make_directory,
}
use computer_service_system.Logger.Outputs.{
  count_outputs, is_file, count-write_console, write-keeps,
}
use computer_service_system.Logger.Filter.{write_all}

module _ (host : Host) where
  open host use {World}

  -- Opening a stream that is open leaves it open, on its old file, with its error bit set.
  init_again-log_file :
      (path old : String) (least : LogLevel) (lg : Logger World)
      → lg.log_file.opened ≡ some old
      → ((init host path least lg).file_enabled ≡ true)
        × ((init host path least lg).log_file ≡ record { opened = some old; good = false })
  unfolding init make_directory open_file emit
  init_again-log_file path old least lg h = (ground arith, ground arith)

  count-append_line_bad :
      (o : Option String) (line : String) (lg : Logger World)
      → lg.log_file.good ≡ false
      → count_outputs is_file (append_line host o line lg).outputs
        ≡ count_outputs is_file lg.outputs
  unfolding append_line
  count-append_line_bad none line lg h = refl
  count-append_line_bad (some path) line lg h = ground arith

  count-write_bad :
      (level : LogLevel) (message : String) (lg : Logger World)
      → lg.log_file.good ≡ false
      → count_outputs is_file (write host level message lg).outputs
        ≡ count_outputs is_file lg.outputs
  unfolding write
  count-write_bad level message lg h = elim (Bool-cases (ltb (rank level) (rank lg.min_level))) [
    | inl below ↦ rw below
    | inr shown ↦ rw shown (
        count-append_line_bad on_console.log_file.opened line on_console still_bad
        ∙ count-write_console host is_file level line stamped
        ∙ no_file_line level lg.console_enabled)
  ]
    where
      stamped : Logger World
      stamped = (get_current_timestamp host lg).1

      line : String
      line = entry host (get_current_timestamp host lg).0 level message

      on_console : Logger World
      on_console = write_console host level line stamped

      still_bad : on_console.log_file.good ≡ false
      still_bad = ground arith

      no_file_line :
          (level : LogLevel) (b : Bool)
          → count_outputs is_file lg.outputs
              + (if b && is_file (to_console host level line) then 1 else 0)
            ≡ count_outputs is_file lg.outputs
      no_file_line debug b = ground arith
      no_file_line _ b = ground arith

  count-write_all_bad :
      (ms : List (LogLevel × String)) (lg : Logger World)
      → lg.log_file.good ≡ false
      → count_outputs is_file (write_all host ms lg).outputs ≡ count_outputs is_file lg.outputs
  unfolding write_all
  count-write_all_bad [] lg h = refl
  count-write_all_bad ((level, message) ∷ ms) lg h =
      count-write_all_bad ms (write host level message lg)
        (ap (λ f. f.good) (write-keeps host level message lg).3 ∙ h)
      ∙ count-write_bad level message lg h

  -- Opening the logger again while its file is open breaks the file: the logger still counts it as
  -- open and enabled, and no message is written to it any more.
  pub init_again-loses_file :
      (path old : String) (least : LogLevel) (ms : List (LogLevel × String)) (lg : Logger World)
      → lg.log_file.opened ≡ some old
      → ((init host path least lg).file_enabled ≡ true)
        × (is_open (init host path least lg).log_file ≡ true)
        × (count_outputs is_file (write_all host ms (init host path least lg)).outputs
            ≡ count_outputs is_file (init host path least lg).outputs)
  init_again-loses_file path old least ms lg h =
      let (enabled, file) = init_again-log_file path old least lg h in
      (
        enabled,
        ap is_open file,
        count-write_all_bad ms (init host path least lg) (ap (λ f. f.good) file),
      )
