-- ===== src/WebServer/Main.antt =====
-- src/main.cpp. What Crow does when it listens is a parameter.
use computer_service_system.Common.{ℕ, String, List, ◌∷◌, ◌≡◌, refl, ◌↔◌, true}
use computer_service_system.Exec.{Result, ok, throws, Exec}
use computer_service_system.WebServer.{Platform, Server}
use computer_service_system.WebServer.Files.{FileSystem}
use computer_service_system.WebServer.Start.{Site, construct, prepare}
use computer_service_system.WebServer.Startup.{IsBacked, construct-IsBacked}

-- argv[1], if it is there; the first argument is the name of the program.
unfoldable pub config_path : List String → String
config_path (program ∷ path ∷ rest) = path
config_path arguments = "config.json"

-- What `main` returns by the way the `try` block ends.
unfoldable pub exit_code : Result (Unit {0}) → ℕ
exit_code (ok done) = 0
exit_code (throws what) = 1

module _ (p : Platform) (listen : Exec (Site p) (Unit {0})) (files : FileSystem) where
  -- app.port(port).multithreaded().run(), after the metrics were initialized
  unfoldable pub run : Exec (Site p) (Unit {0})
  run site = listen (prepare p site)

  -- The exit code, and the site as it is left.
  unfoldable pub main : List String → Server p → ℕ × Site p
  unfolding run config_path exit_code
  main arguments server =
      let (r, site) = run (construct p files (config_path arguments) server) in (exit_code r, site)

  -- However the program is started, it hands to Crow, once, a server whose metrics registry is
  -- initialized and whose routes are set up only if the database was connected; what is left is
  -- what Crow leaves, and the exit code is 0 exactly if Crow returned without an exception.
  pub main-IsBacked :
      (arguments : List String) (server : Server p)
      → (site : Site p) × IsBacked p site
        × (site.server.metrics.initialized ≡ true)
        × ((main arguments server).1 ≡ (listen site).1)
        × (((main arguments server).0 ≡ 0) ↔ ((listen site).0 ≡ ok tt))
  unfolding main
  main-IsBacked arguments server =
      let (backed, initialized) = construct-IsBacked p files (config_path arguments) server in
      let site = prepare p (construct p files (config_path arguments) server) in
      (site, backed, initialized, refl, by_end (listen site).0)
    where
      by_end : (r : Result (Unit {0})) → (exit_code r ≡ 0) ↔ (r ≡ ok tt)
      by_end (ok done) = (λ e. refl, λ e. refl)
      by_end (throws what) = (λ e. cc, λ e. cc)
