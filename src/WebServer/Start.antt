-- ===== src/WebServer/Start.antt =====
-- The constructor of `WebServer`, which reads the configuration, and what `run` does before it hands
-- over to Crow.
use computer_service_system.Common.{
  String, Bool, true, false, ◌&&◌, Option, none, some, ℤ, pos, if◌then◌else◌,
}
use computer_service_system.Exec.{Result, ok, Exec, pure, lift, ◌>>=◌, ◌>>◌, try_catch}
use computer_service_system.Std.Text as Text
use computer_service_system.Std.Text.{◌<<◌}
use computer_service_system.Logger.{Logger, info, error, debug, init_with_loki, set_service_name}
use computer_service_system.Logger.Report.{log_lifecycle, log_database, write_in}
use computer_service_system.Database.{open_database, connect}
use computer_service_system.Metrics.Registry.Start.{initialize}
use computer_service_system.WebServer.{Platform, Server}
use computer_service_system.WebServer.Files.{FileSystem}

-- The server, with what the constructor sets beside the three shared objects.
pub record Site (p : Platform) : Type 0 where
  pub server : Server p
  pub port : ℤ
  pub is_connected : Bool
  pub has_routes : Bool

module _ (p : Platform) where
  open p.js use {Value, parse, at, get_string, get_int}

  abbrev pub on_site_logger : (Logger p.host.World → Logger p.host.World) → Exec (Site p) (Unit {0})
  on_site_logger f site =
      (ok tt, record site { server = record site.server { logger = f site.server.logger } })

  -- Logger::getInstance().info(message, "webserver.cpp")
  abbrev pub tell : String → Exec (Site p) (Unit {0})
  tell message = on_site_logger (write_in p.host info message "webserver.cpp")

  -- config[group][key].get<T>()
  abbrev pub setting : {A : Type 0} → (Value → Result A) → Value → String → String → Exec (Site p) A
  setting get config group key = do
    inner ← lift (at config group)
    value ← lift (at inner key)
    lift (get value)

  unfoldable pub read_conn_str : Value → Exec (Site p) String
  read_conn_str config = do
    host ← setting get_string config "database" "host"
    port ← setting get_int config "database" "port"
    dbname ← setting get_string config "database" "dbname"
    user ← setting get_string config "database" "user"
    password ← setting get_string config "database" "password"
    pure (
        "host="
        << host
        << " "
        << "port="
        << Text.to_string port
        << " "
        << "dbname="
        << dbname
        << " "
        << "user="
        << user
        << " "
        << "password="
        << password)

  -- db = std::make_unique<Database>(conn_str), and db->connect()
  unfoldable pub open_connection : String → Exec (Site p) Bool
  open_connection conn_str site =
      let (made, w) = open_database p.db conn_str site.server.database in
      let connected = made && connect p.db w in
      (
        ok connected,
        record site { server = record site.server { database = w }; is_connected = connected },
      )

  unfoldable pub refuse : Exec (Site p) (Unit {0})
  refuse = do
    on_site_logger (write_in p.host error "Failed to connect to database" "webserver.cpp")
    on_site_logger (log_database p.host "connect" false "Connection failed")

  abbrev pub initialize_metrics : Exec (Site p) (Unit {0})
  initialize_metrics site = (
    ok tt,
    record site { server = record site.server { metrics = initialize p.fl site.server.metrics } },
  )

  abbrev pub setup_routes : Exec (Site p) (Unit {0})
  setup_routes site = (ok tt, record site { has_routes = true })

  unfoldable pub serve : ℤ → Exec (Site p) (Unit {0})
  serve port = do
    λ site. (ok tt, record site { port = port })
    tell ("Server configured for port: " << Text.to_string port)
    initialize_metrics
    tell "Prometheus metrics initialized"
    setup_routes
    tell "Routes configured successfully"

  unfoldable pub accept : Value → Exec (Site p) (Unit {0})
  accept config = do
    tell "Connected to database successfully"
    on_site_logger (log_database p.host "connect" true "Database connection established")
    port ← setting get_int config "server" "port"
    serve port

  -- The `try` block.
  unfoldable pub configure : String → Exec (Site p) (Unit {0})
  configure content = do
    config ← lift (parse content)
    conn_str ← read_conn_str config
    tell "Connecting to database..."
    connected ← open_connection conn_str
    if connected then accept config else refuse

  unfoldable pub greet : Exec (Site p) (Unit {0})
  greet = do
    on_site_logger (init_with_loki p.host "logs/webserver.log" debug "localhost" (pos 3100))
    on_site_logger (set_service_name p.host "service_system")
    on_site_logger (log_lifecycle p.host "startup" "WebServer constructor started")
    tell "WebServer constructor started with Loki integration"

  -- With what the file holds, or with none if it cannot be opened.
  unfoldable pub read_content : String → Option String → Exec (Site p) (Unit {0})
  read_content config_file none =
      on_site_logger
        (write_in p.host error ("Cannot open config file: " << config_file) "webserver.cpp")
  read_content config_file (some content) = do
    tell ("Config file opened: " << config_file)
    try_catch (configure content)
        (λ what. on_site_logger (write_in p.host error ("Config error: " << what) "webserver.cpp"))

  unfoldable pub read_config : FileSystem → String → Exec (Site p) (Unit {0})
  read_config files config_file = read_content config_file (files config_file)

  -- The site before its constructor has run, and after.
  unfoldable pub blank : Server p → Site p
  blank server = record {
    server = server;
    port = pos 8080;
    is_connected = false;
    has_routes = false;
  }

  unfoldable pub construct : FileSystem → String → Server p → Site p
  construct files config_file server = ((greet >> read_config files config_file) (blank server)).1

  -- `run`, up to the call of Crow.
  unfoldable pub prepare : Site p → Site p
  prepare site = (initialize_metrics site).1
