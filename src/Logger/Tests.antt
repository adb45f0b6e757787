-- ===== src/Logger/Tests.antt =====
-- The theorems on the logger on a concrete host.
use mathlib.Core.List.Perm
use Prim.Native.Char.{Char}
use computer_service_system.Common.{
  ℕ, ◌+◌, String, ◌≡◌, refl, List, [], ◌∷◌, true, false, some, pos,
}
use computer_service_system.Std.Chars.{chars}
use computer_service_system.Std.Text.{to_string_ℕ}
use computer_service_system.Logger.{
  Host, Logger, LogLevel, debug, info, error, is_open, create, init, cout, cerr, print_time,
}
use computer_service_system.Logger.Escape.{escape}
use computer_service_system.Logger.Escape.Loop.{
  escaped, escape-escaped, escape_loses, unescaped, unescape-escape,
}
use computer_service_system.Logger.Report.{auth_report, report}
use computer_service_system.Logger.Outputs.{count_outputs, is_file, is_post}
use computer_service_system.Logger.Filter.{write_all, count_posts-report}
use computer_service_system.Logger.Lines.{on_console, write_all-console}
use computer_service_system.Logger.Mirror.{file_lines, console_lines, write_all-mirrored}
use computer_service_system.Logger.Refused.{is_readable_post, perform_all-unreadable}
use computer_service_system.Logger.Refused.Body.{is_plain_name-IsPlainName}
use computer_service_system.Logger.Reopen.{init_again-loses_file}
use computer_service_system.Logger.Reach.{
  Call, inits_with_loki, enables_file, sets_service_name, writes, reports, perform_all, IsReady,
  perform_all-IsReady,
}

-- A clock that stands still, a disk that takes every file, and a Loki that is reached.
abbrev pub desk : Host
desk = record {
  World = ℕ;
  now = λ w. (
    record { year = 2025; month = 3; day = 9; hour = 7; minute = 5; second = 4; millisecond = 42 },
    w,
  );
  open_append = λ path w. (true, w + 1);
  curl_init = λ w. (true, w + 1);
  curl_perform = λ url body w. (true, w + 1);
  walk = record { entries = λ m. m; entries-perm = λ m. Perm.refl m };
}

abbrev pub opened : Logger ℕ
opened = record {
  log_file = record { opened = some "logs/app.log"; good = true };
  min_level = info;
  file_enabled = true;
  console_enabled = true;
  loki_format_enabled = true;
  log_file_path = "logs/app.log";
  service_name = "service_system";
  loki_host = "loki";
  loki_port = pos 3100;
  world = 0;
  outputs = [];
}

abbrev quoted : List Char
quoted = chars "say \"a\\b\""

escape_computed : escape (chars "a\"b\\c") ≡ some (chars "a\\b\\\\c")
unfolding escape chars
escape_computed = refl

escape-escaped_example : escape quoted ≡ some (escaped quoted)
escape-escaped_example = escape-escaped quoted

escape_loses_example :
    (escape (chars "a\"b") ≡ escape (chars "a\nb")) × (escape (chars "a\"b") ≡ some (chars "a\\b"))
unfolding chars escaped
escape_loses_example = escape_loses (chars "a") (chars "b") "\"" "\n" refl refl

unescape-escape_example :
    (e : List Char) × (escape (chars "a\\b") ≡ some e) × (unescaped e ≡ chars "a\\b")
unfolding chars
unescape-escape_example = unescape-escape (chars "a\\b") (refl, (refl, (refl, tt)))

abbrev messages : List (LogLevel × String)
messages = (debug, "query") ∷ (info, "started") ∷ (error, "lost") ∷ []

write_all-console_example :
    on_console (write_all desk messages opened).outputs
    ≡ cout "[2025-03-09T07:05:04.042Z] [INFO] started"
      ∷ cerr "[2025-03-09T07:05:04.042Z] [ERROR] lost"
      ∷ []
unfolding print_time to_string_ℕ
write_all-console_example = write_all-console desk messages opened refl

write_all-mirrored_example :
    file_lines (write_all desk messages opened).outputs
    ≡ console_lines (write_all desk messages opened).outputs
write_all-mirrored_example =
    write_all-mirrored desk messages "logs/app.log" opened refl refl refl refl

count_posts-report_example :
    count_outputs is_post (report desk (auth_report "eve" false "10.0.0.7" "") opened).outputs ≡ 1
count_posts-report_example = count_posts-report desk (auth_report "eve" false "10.0.0.7" "") opened

init_again-loses_file_example :
    ((init desk "logs/next.log" info opened).file_enabled ≡ true)
    × (is_open (init desk "logs/next.log" info opened).log_file ≡ true)
    × (count_outputs is_file
          (write_all desk messages (init desk "logs/next.log" info opened)).outputs
        ≡ count_outputs is_file (init desk "logs/next.log" info opened).outputs)
init_again-loses_file_example =
    init_again-loses_file desk "logs/next.log" "logs/app.log" info messages opened refl

-- As the server names its service, and reports a login to Loki.
abbrev named_calls : List Call
named_calls =
    sets_service_name "service_system"
    ∷ inits_with_loki "logs/app.log" info "loki" (pos 3100)
    ∷ reports (auth_report "eve" false "10.0.0.7" "")
    ∷ []

perform_all-unreadable_example :
    count_outputs is_readable_post (perform_all desk named_calls (create desk 0)).outputs ≡ 0
perform_all-unreadable_example =
    perform_all-unreadable desk 0 named_calls
      (is_plain_name-IsPlainName "service_system" refl, (tt, (tt, tt)))

abbrev calls : List Call
calls =
    inits_with_loki "logs/app.log" info "loki" (pos 3100)
    ∷ writes info "started"
    ∷ reports (auth_report "eve" false "10.0.0.7" "")
    ∷ enables_file true
    ∷ []

perform_all-IsReady_example : IsReady desk (perform_all desk calls (create desk 0))
perform_all-IsReady_example = perform_all-IsReady desk 0 calls
