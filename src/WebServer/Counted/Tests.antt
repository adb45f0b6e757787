-- ===== src/WebServer/Counted/Tests.antt =====
-- What a sequence of requests counts, on the concrete platform.
use computer_service_system.Common.{ℕ, List, [], ◌∷◌, ◌≡◌, refl, some, map, length}
use computer_service_system.Std.Floating.{milli}
use computer_service_system.Metrics.Registry.{empty}
use computer_service_system.Metrics.Registry.History.{initializes, run}
use computer_service_system.WebServer.{Server}
use computer_service_system.WebServer.Session.{read_login}
use computer_service_system.WebServer.Routes.{handle_all, routes, Call}
use computer_service_system.Metrics.Histogram.{Histogram}
use computer_service_system.Metrics.Registry.Durations.{duration_histogram}
use computer_service_system.WebServer.Counted.Measured.{api_calls-measured}
use computer_service_system.Std.Lines.{lines, literal}
use computer_service_system.Metrics.Registry.{Registry}
use computer_service_system.Metrics.Registry.Document.{show, document}
use computer_service_system.WebServer.Files.{get_metrics}
use computer_service_system.WebServer.Counted.Scraped.{NamesAreLines, get_metrics-lines}
use computer_service_system.WebServer.Tests.{toy, server, one_file, head_text, request}
use computer_service_system.WebServer.Requests.Tests.{plain_crow, in_order, calls}

-- A login that cannot be read.
abbrev bad_login : List Call
bad_login = record { method = "POST"; url = "/api/login"; request = request "{" } ∷ []

-- A server as `run` hands it to Crow.
abbrev started_server : Server toy
started_server = record server { metrics = run milli (initializes ∷ []) empty }

-- The login and the record are calls of the API, the scrape is not.
api_calls-measured_example :
    (h : Histogram ℕ) × (duration_histogram milli
        (handle_all toy plain_crow one_file in_order in_order calls started_server).metrics
      ≡ some h)
    × (h.count ≡ 2)
    × (length h.values ≡ 2)
unfolding routes
api_calls-measured_example =
    api_calls-measured toy plain_crow one_file in_order in_order (λ v. (head_text v, refl)) [] calls
      started_server refl

calls-NamesAreLines : NamesAreLines toy plain_crow one_file in_order in_order calls
unfolding routes read_login
calls-NamesAreLines = ((literal "admin" refl).1, (tt, (tt, tt)))

get_metrics-lines_example :
    let now : Registry ℕ =
      (handle_all toy plain_crow one_file in_order in_order calls server).metrics in
    lines (get_metrics milli in_order in_order now).body
    ≡ map show (document milli in_order in_order now)
unfolding run
get_metrics-lines_example =
    get_metrics-lines toy plain_crow one_file in_order in_order (λ v. (head_text v, refl)) [] calls
      server refl tt calls-NamesAreLines

-- A login with an account.
abbrev good_login : List Call
good_login = record { method = "POST"; url = "/api/login"; request = request "admin" } ∷ []
