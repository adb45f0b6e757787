-- ===== src/WebServer/Session.antt =====
-- The handlers of "/api/test-db", "/api/login" and "/api/logout".
use computer_service_system.Common.{
  ℕ, String, [], ◌∷◌, Bool, true, false, pos, if◌then◌else◌, str_eq, ◌&&◌,
}
use computer_service_system.Exec.{Result, ok, throws, Exec, lift, ◌>>=◌, ◌>>◌, try_catch}
use computer_service_system.Std.Text.{◌<<◌}
use computer_service_system.Logger.{Logger, info, error}
use computer_service_system.Logger.Report.{log_request, log_auth, write_in}
use computer_service_system.Database.{test_connection}
use computer_service_system.Metrics.Registry.Record.{
  record_http_request, record_db_operation, record_auth_attempt,
}
use computer_service_system.WebServer.{
  Platform, Server, Request, Response, client_ip, on_metrics, on_logger, on_database_or_throw,
  count_request, json_response,
}

-- What the check of a user name and a password gives.
pub record Verdict : Type 0 where
  pub success : Bool
  pub message : String

unfoldable pub check_credentials : String → String → Verdict
check_credentials username password =
    if str_eq username "admin" && str_eq password "admin123"
    then record { success = true; message = "Administrator login successful" }
    else if str_eq username "user" && str_eq password "user123"
    then record { success = true; message = "User login successful" }
    else record { success = false; message = "Invalid credentials" }

module _ (p : Platform) where
  open p.js use {Value, parse, at, get_string, object, str, int, bool}

  unfoldable pub test_db : Request → Exec (Server p) Response
  unfolding json_response
  test_db req = do
    connected ← on_database_or_throw p (test_connection p.db)
    on_metrics p (count_request p "GET" "/api/test-db" 200 req)
    on_metrics p (record_db_operation p.fl "test_connection" connected)
    json_response p 200
        (object (("database_connected", bool connected) ∷ ("timestamp", int req.time) ∷ []))

  -- The log line of each of the three outcomes.
  unfoldable pub log_verdict : String → String → String → Logger p.host.World → Logger p.host.World
  log_verdict username password ip =
      if str_eq username "admin" && str_eq password "admin123"
      then write_in p.host info "Admin user authenticated successfully" "webserver.cpp"
      else if str_eq username "user" && str_eq password "user123"
      then write_in p.host info "Regular user authenticated successfully" "webserver.cpp"
      else log_auth p.host username false ip "Invalid username or password"

  -- The `try` block of the login, after the body of the request has been read.
  unfoldable pub answer_login : Request → String → String → Exec (Server p) Response
  unfolding json_response
  answer_login req username password = do
    let verdict = check_credentials username password
    let status : ℕ = if verdict.success then 200 else 401
    on_logger p (log_auth p.host username true (client_ip req) "Login attempt started")
    on_logger p (log_verdict username password (client_ip req))
    on_logger p
        (log_request p.host (client_ip req) "POST" "/api/login" (pos status) req.duration_ms)
    on_metrics p (record_auth_attempt p.fl username verdict.success)
    on_metrics p (count_request p "POST" "/api/login" status req)
    json_response p status (
        object (
          ("success", bool verdict.success)
          ∷ ("message", str verdict.message)
          ∷ ("username", str username)
          ∷ ("token", str (if verdict.success then "mock-jwt-token-" << username else ""))
          ∷ []))

  unfoldable pub read_login : String → Result (String × String)
  read_login body = elim (parse body) [
    | throws what ↦ throws what
    | ok value ↦ elim (at value "username") [
      | throws what ↦ throws what
      | ok username ↦ elim (get_string username) [
        | throws what ↦ throws what
        | ok username' ↦ elim (at value "password") [
          | throws what ↦ throws what
          | ok password ↦ elim (get_string password) [
            | throws what ↦ throws what
            | ok password' ↦ ok (username', password')
          ]
        ]
      ]
    ]
  ]

  unfoldable pub reject_login : Request → String → Exec (Server p) Response
  unfolding json_response
  reject_login req what = do
    on_logger p (log_request p.host (client_ip req) "POST" "/api/login" (pos 400) req.duration_ms)
    on_logger p (write_in p.host error ("Login error: " << what) "webserver.cpp")
    on_metrics p (record_auth_attempt p.fl "unknown" false)
    on_metrics p (count_request p "POST" "/api/login" 400 req)
    json_response p 400 (object (("success", bool false) ∷ ("error", str what) ∷ []))

  unfoldable pub login : Request → Exec (Server p) Response
  login req =
      try_catch
        (do credentials ← lift (read_login req.body); answer_login req credentials.0 credentials.1)
        (reject_login req)

  unfoldable pub logout : Request → Exec (Server p) Response
  unfolding json_response
  logout req = do
    on_logger p (write_in p.host info "User logout successful" "webserver.cpp")
    on_metrics p (record_http_request p.fl "POST" "/api/logout" 200 (p.fl.thousandths 1))
    on_metrics p (record_db_operation p.fl "logout" true)
    on_logger p (log_request p.host (client_ip req) "POST" "/api/logout" (pos 200) (pos 1))
    json_response p 200
        (object (("success", bool true) ∷ ("message", str "Logged out successfully") ∷ []))
