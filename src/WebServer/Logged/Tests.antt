-- ===== src/WebServer/Logged/Tests.antt =====
-- What a sequence of requests counts, on the concrete platform.
use computer_service_system.Common.{List, ◌≡◌}
use computer_service_system.Std.Floating.{milli}
use computer_service_system.Common.{ℕ}
use computer_service_system.Metrics.Registry.History.{Event, run}
use computer_service_system.WebServer.Routes.{handle_all}
use computer_service_system.WebServer.Counted.{requests}
use computer_service_system.WebServer.Logged.Sequence.{Logged, handle_all-Logged}
use computer_service_system.WebServer.Tests.{toy, server, one_file}
use computer_service_system.WebServer.Requests.Tests.{plain_crow, in_order, calls}

handle_all-Logged_example :
    (events : List (Event ℕ)) × ((handle_all toy plain_crow one_file in_order in_order calls
        server).metrics
      ≡ run milli events server.metrics)
    × Logged toy plain_crow one_file in_order in_order calls server (requests events)
handle_all-Logged_example = handle_all-Logged toy plain_crow one_file in_order in_order calls server
