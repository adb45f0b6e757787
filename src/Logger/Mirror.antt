-- ===== src/Logger/Mirror.antt =====
-- The log file against the console.
use mathlib.Core.List.{append-nil}
use computer_service_system.Common.{
  String, List, [], ◌∷◌, ◌++◌, true, some, ◌≡◌, refl, ap, ◌∙◌, inl, inr, Bool-cases, ltb,
}
use computer_service_system.Logger.{
  Host, Logger, LogLevel, error, rank, Output, cout, cerr, file_line, system, post, emit, write,
  write_console, write_file, append_line, to_console, get_current_timestamp,
}
use computer_service_system.Logger.Outputs.{write-keeps}
use computer_service_system.Logger.Filter.{write_all}

-- The lines in the log file, and those on the console, oldest first.
abbrev pub file_lines : List Output → List String
file_lines [] = []
file_lines (file_line path line ∷ os) = line ∷ file_lines os
file_lines (_ ∷ os) = file_lines os

abbrev pub console_lines : List Output → List String
console_lines [] = []
console_lines (cout line ∷ os) = line ∷ console_lines os
console_lines (cerr line ∷ os) = line ∷ console_lines os
console_lines (_ ∷ os) = console_lines os

file_lines-append :
    (os os' : List Output) → file_lines (os ++ os') ≡ file_lines os ++ file_lines os'
file_lines-append [] os' = refl
file_lines-append (cout line ∷ os) os' = file_lines-append os os'
file_lines-append (cerr line ∷ os) os' = file_lines-append os os'
file_lines-append (file_line path line ∷ os) os' = ap (λ ls. line ∷ ls) (file_lines-append os os')
file_lines-append (system command ∷ os) os' = file_lines-append os os'
file_lines-append (post url body ∷ os) os' = file_lines-append os os'

console_lines-append :
    (os os' : List Output) → console_lines (os ++ os') ≡ console_lines os ++ console_lines os'
console_lines-append [] os' = refl
console_lines-append (cout line ∷ os) os' = ap (λ ls. line ∷ ls) (console_lines-append os os')
console_lines-append (cerr line ∷ os) os' = ap (λ ls. line ∷ ls) (console_lines-append os os')
console_lines-append (file_line path line ∷ os) os' = console_lines-append os os'
console_lines-append (system command ∷ os) os' = console_lines-append os os'
console_lines-append (post url body ∷ os) os' = console_lines-append os os'

module _ (host : Host) where
  open host use {World}

  console_lines-to_console :
      (level : LogLevel) (line : String)
      → console_lines (to_console host level line ∷ []) ≡ line ∷ []
  console_lines-to_console error line = refl
  console_lines-to_console _ line = refl

  file_lines-to_console :
      (level : LogLevel) (line : String) → file_lines (to_console host level line ∷ []) ≡ []
  file_lines-to_console error line = refl
  file_lines-to_console _ line = refl

  -- A line that comes out on the console and then in the file.
  both-mirrored :
      (level : LogLevel) (path line : String) (os : List Output)
      → file_lines os ≡ console_lines os
      → file_lines ((os ++ to_console host level line ∷ []) ++ file_line path line ∷ [])
        ≡ console_lines ((os ++ to_console host level line ∷ []) ++ file_line path line ∷ [])
  both-mirrored level path line os same =
      rw
        (
          file_lines-append (os ++ to_console host level line ∷ []) (file_line path line ∷ []),
          console_lines-append (os ++ to_console host level line ∷ []) (file_line path line ∷ []),
          file_lines-append os (to_console host level line ∷ []),
          console_lines-append os (to_console host level line ∷ []),
          file_lines-to_console level line,
          console_lines-to_console level line,
          same,
          append-nil (console_lines os),
          append-nil (console_lines os ++ line ∷ []),
        )
        refl

  abbrev IsMirrored : Logger World → Type 0
  IsMirrored lg = file_lines lg.outputs ≡ console_lines lg.outputs

  write-IsMirrored :
      (level : LogLevel) (message path : String) (lg : Logger World)
      → lg.console_enabled ≡ true
      → lg.file_enabled ≡ true
      → lg.log_file ≡ record { opened = some path; good = true }
      → IsMirrored lg
      → IsMirrored (write host level message lg)
  unfolding write write_file write_console append_line emit get_current_timestamp
  write-IsMirrored level message path lg console file stream same =
      elim (Bool-cases (ltb (rank level) (rank lg.min_level))) [
        | inl below ↦ rw below same
        | inr shown ↦ rw (shown, console, file, stream) (both-mirrored level path _ lg.outputs same)
      ]

  -- With the console and the file on, the file open and without an error, and the two with the same
  -- lines, any sequence of messages leaves the two with the same lines, in the same order.
  pub write_all-mirrored :
      (ms : List (LogLevel × String)) (path : String) (lg : Logger World)
      → lg.console_enabled ≡ true
      → lg.file_enabled ≡ true
      → lg.log_file ≡ record { opened = some path; good = true }
      → file_lines lg.outputs ≡ console_lines lg.outputs
      → file_lines (write_all host ms lg).outputs ≡ console_lines (write_all host ms lg).outputs
  unfolding write_all
  write_all-mirrored [] path lg console file stream same = same
  write_all-mirrored ((level, message) ∷ ms) path lg console file stream same =
      let kept = write-keeps host level message lg in
      write_all-mirrored ms path (write host level message lg) (kept.1 ∙ console) (kept.2 ∙ file)
        (kept.3 ∙ stream) (write-IsMirrored level message path lg console file stream same)
