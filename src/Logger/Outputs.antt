-- ===== src/Logger/Outputs.antt =====
-- What one message puts out: on the console, into the file and to Loki.
use computer_service_system.Common.{
  ℕ, suc, ◌+◌, String, List, [], ◌∷◌, ◌++◌, Bool, true, false, ◌&&◌, not, Option, none, some,
  if◌then◌else◌, ltb, ◌≡◌, refl, ap, ◌∙◌, arith, inl, inr, Bool-cases,
}
use computer_service_system.Logger.{
  Host, Logger, LogLevel, rank, Output, file_line, post, emit, entry, write, append_line,
  write_file, write_console, to_console, get_current_timestamp,
}
use computer_service_system.Logger.Loki.{url}

abbrev pub count_outputs : (Output → Bool) → List Output → ℕ
count_outputs p [] = 0
count_outputs p (o ∷ os) = if p o then suc (count_outputs p os) else count_outputs p os

abbrev pub is_file : Output → Bool
is_file (file_line path line) = true
is_file _ = false

abbrev pub is_post : Output → Bool
is_post (post url body) = true
is_post _ = false

pub count_outputs-append :
    (p : Output → Bool) (os : List Output) (o : Output)
    → count_outputs p (os ++ o ∷ []) ≡ count_outputs p os + (if p o then 1 else 0)
count_outputs-append p [] o = elim (Bool-cases (p o)) [ inl hit ↦ rw hit | inr miss ↦ rw miss ]
count_outputs-append p (x ∷ os) o = ground (arith, count_outputs-append p os o)

-- A message is written unless its level is below the least one.
abbrev pub passes : LogLevel → LogLevel → Bool
passes level least = not (ltb (rank level) (rank least))

module _ (host : Host) where
  open host use {World, now, curl_init}

  count-append_line :
      (p : Output → Bool) (o : Option String) (line : String) (lg : Logger World)
      → ((path : String) → p (file_line path line) ≡ false)
      → count_outputs p (append_line host o line lg).outputs ≡ count_outputs p lg.outputs
  unfolding append_line
  count-append_line p none line lg other = refl
  count-append_line p (some path) line lg other =
      ground (arith, other path, count_outputs-append p lg.outputs (file_line path line))

  pub count-write_console :
      (p : Output → Bool) (level : LogLevel) (line : String) (lg : Logger World)
      → count_outputs p (write_console host level line lg).outputs
        ≡ count_outputs p lg.outputs
          + (if lg.console_enabled && p (to_console host level line) then 1 else 0)
  unfolding write_console emit
  count-write_console p level line lg =
      ground (arith, count_outputs-append p lg.outputs (to_console host level line))

  -- A test that looks at the console only, and at the level of a line only.
  pub count-write :
      (p : Output → Bool) (q : LogLevel → Bool) (level : LogLevel) (message : String)
      (lg : Logger World)
      → ((path line : String) → p (file_line path line) ≡ false)
      → ((line : String) → p (to_console host level line) ≡ q level)
      → count_outputs p (write host level message lg).outputs
        ≡ count_outputs p lg.outputs
          + (if passes level lg.min_level && lg.console_enabled && q level then 1 else 0)
  unfolding write
  count-write p q level message lg no_file by_level =
      elim (Bool-cases (ltb (rank level) (rank lg.min_level))) [
        | inl below ↦ rw below (omega arith)
        | inr shown ↦ rw shown (
            count-append_line p on_console.log_file.opened line on_console
              (λ path. no_file path line)
            ∙ count-write_console p level line stamped
            ∙ ap (λ b. count_outputs p lg.outputs + (if b then 1 else 0)) (rw (by_level line) refl))
      ]
    where
      stamped : Logger World
      stamped = (get_current_timestamp host lg).1

      line : String
      line = entry host (get_current_timestamp host lg).0 level message

      on_console : Logger World
      on_console = write_console host level line stamped

  -- Writing keeps the settings of the logger.
  pub write-keeps :
      (level : LogLevel) (message : String) (lg : Logger World)
      → ((write host level message lg).min_level ≡ lg.min_level)
        × ((write host level message lg).console_enabled ≡ lg.console_enabled)
        × ((write host level message lg).file_enabled ≡ lg.file_enabled)
        × ((write host level message lg).log_file ≡ lg.log_file)
        × ((write host level message lg).loki_format_enabled ≡ lg.loki_format_enabled)
  unfolding write get_current_timestamp write_file write_console emit
  write-keeps level message lg =
      (ground arith, ground arith, ground arith, ground arith, ground arith)
