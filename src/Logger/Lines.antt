-- ===== src/Logger/Lines.antt =====
-- What a sequence of messages puts on the console, line by line.
use mathlib.Core.List.{append-nil, append_assoc}
use computer_service_system.Common.{
  String, List, [], ◌∷◌, ◌++◌, Bool, true, false, Option, none, some, ltb, ◌≡◌, refl, sym, ap, ◌∙◌,
  inl, inr, Bool-cases,
}
use computer_service_system.Std.Text.{◌<<◌}
use computer_service_system.Logger.{
  Host, Logger, LogLevel, debug, info, warning, error, rank, Time, print_time, Output, cout, cerr,
  file_line, system, post, emit, entry, level_to_string, write, append_line, write_file,
  write_console, to_console, get_current_timestamp,
}
use computer_service_system.Logger.Outputs.{passes, write-keeps}
use computer_service_system.Logger.Filter.{write_all}

-- What came out on the console, oldest first, each line on `cout` or on `cerr`.
abbrev pub on_console : List Output → List Output
on_console [] = []
on_console (cout line ∷ os) = cout line ∷ on_console os
on_console (cerr line ∷ os) = cerr line ∷ on_console os
on_console (_ ∷ os) = on_console os

abbrev pub level_name : LogLevel → String
level_name debug = "DEBUG"
level_name info = "INFO"
level_name warning = "WARNING"
level_name error = "ERROR"

-- The line of a message: its time and its level in brackets, and its text.
abbrev pub line_of : Time → LogLevel → String → String
line_of t level message = "[" << print_time t << "] " << "[" << level_name level << "] " << message

-- An error comes out on `cerr`, any other line on `cout`.
abbrev pub printed : LogLevel → String → Output
printed error line = cerr line
printed _ line = cout line

on_console-append :
    (os os' : List Output) → on_console (os ++ os') ≡ on_console os ++ on_console os'
on_console-append [] os' = refl
on_console-append (cout line ∷ os) os' = ap (λ ls. cout line ∷ ls) (on_console-append os os')
on_console-append (cerr line ∷ os) os' = ap (λ ls. cerr line ∷ ls) (on_console-append os os')
on_console-append (file_line path line ∷ os) os' = on_console-append os os'
on_console-append (system command ∷ os) os' = on_console-append os os'
on_console-append (post url body ∷ os) os' = on_console-append os os'

module _ (host : Host) where
  open host use {World, now}

  abbrev pub shown_if : Bool → LogLevel → String → World → List Output × World
  shown_if true level message w =
      let (t, w') = now w in (printed level (line_of t level message) ∷ [], w')
  shown_if false level message w = ([], w)

  -- What one message puts on the console, and the clock after it, which is read only for a message
  -- that is not below the least level.
  abbrev pub shown : LogLevel → LogLevel → String → World → List Output × World
  shown least level message w = shown_if (passes level least) level message w

  abbrev pub all_shown : LogLevel → List (LogLevel × String) → World → List Output
  all_shown least [] w = []
  all_shown least ((level, message) ∷ ms) w =
      let (lines, w') = shown least level message w in lines ++ all_shown least ms w'

  on_console-to_console :
      (level : LogLevel) (t : Time) (message : String)
      → on_console (to_console host level (entry host (print_time t) level message) ∷ [])
        ≡ printed level (line_of t level message) ∷ []
  unfolding entry level_to_string
  on_console-to_console debug t message = refl
  on_console-to_console info t message = refl
  on_console-to_console warning t message = refl
  on_console-to_console error t message = refl

  -- The file takes nothing to the console, and leaves the clock.
  append_line-quiet :
      (o : Option String) (line : String) (lg : Logger World)
      → (on_console (append_line host o line lg).outputs ≡ on_console lg.outputs)
        × ((append_line host o line lg).world ≡ lg.world)
  unfolding append_line emit
  append_line-quiet none line lg = (refl, refl)
  append_line-quiet (some path) line lg = elim (Bool-cases lg.file_enabled) [
    | inr off ↦ rw off (refl, refl)
    | inl on ↦ elim (Bool-cases lg.log_file.good) [
      | inr bad ↦ rw (on, bad) (refl, refl)
      | inl good ↦
          rw (on, good)
            (
              on_console-append lg.outputs (file_line path line ∷ [])
                  ∙ append-nil (on_console lg.outputs),
              refl,
            )
    ]
  ]

  -- One message.
  write-shown :
      (level : LogLevel) (message : String) (lg : Logger World)
      → lg.console_enabled ≡ true
      → let (lines, w) = shown lg.min_level level message lg.world in
        (on_console (write host level message lg).outputs ≡ on_console lg.outputs ++ lines)
        × ((write host level message lg).world ≡ w)
  unfolding write write_file write_console emit get_current_timestamp
  write-shown level message lg on = elim (Bool-cases (ltb (rank level) (rank lg.min_level))) [
    | inl below ↦ rw below (sym (append-nil (on_console lg.outputs)), refl)
    | inr enough ↦
        rw (enough, on)
          (
            (append_line-quiet lg.log_file.opened line stamped).0
                ∙ on_console-append lg.outputs (to_console host level line ∷ [])
                ∙ ap (λ ls. on_console lg.outputs ++ ls) (on_console-to_console level t message),
            (append_line-quiet lg.log_file.opened line stamped).1,
          )
  ]
    where
      t : Time
      t = (now lg.world).0

      line : String
      line = entry host (print_time t) level message

      stamped : Logger World
      stamped = record lg {
        outputs = lg.outputs ++ to_console host level line ∷ [];
        world = (now lg.world).1;
        console_enabled = true;
      }

  -- Of a sequence of messages, with the console on, exactly those come out on the console, in their
  -- order, that are not below the least level: each as a line with the time of the clock at its
  -- turn and the name of its level in brackets and then its text, an error on `cerr` and any other
  -- on `cout`. The clock is read once for each of them, and not for the others.
  pub write_all-console :
      (ms : List (LogLevel × String)) (lg : Logger World)
      → lg.console_enabled ≡ true
      → on_console (write_all host ms lg).outputs
        ≡ on_console lg.outputs ++ all_shown lg.min_level ms lg.world
  unfolding write_all
  write_all-console [] lg on = sym (append-nil (on_console lg.outputs))
  write_all-console ((level, message) ∷ ms) lg on =
      let (kept, same) = write-shown level message lg on in
      let settings = write-keeps host level message lg in
      write_all-console ms (write host level message lg) (settings.1 ∙ on)
      ∙ (λ i. kept i ++ all_shown (settings.0 i) ms (same i))
      ∙ append_assoc (on_console lg.outputs) _ _
