-- ===== src/WebServer/Startup.antt =====
-- When the server has its routes.
use computer_service_system.Common.{
  String, Bool, true, false, Option, none, some, if◌then◌else◌, ◌≡◌, refl, ◌∙◌, inl, inr,
  Bool-cases, arith,
}
use computer_service_system.Exec.{Result, Exec, lift, ◌>>=◌, try_catch, Result-cases}
use computer_service_system.Logger.{error}
use computer_service_system.Logger.Report.{write_in}
use computer_service_system.Std.Text.{◌<<◌}
use computer_service_system.Metrics.Registry.Start.{initialize}
use computer_service_system.WebServer.{Platform, Server}
use computer_service_system.WebServer.Files.{FileSystem}
use computer_service_system.WebServer.Start.{
  Site, on_site_logger, setting, read_conn_str, open_connection, refuse, serve, accept, configure,
  greet, read_content, read_config, blank, construct, prepare,
}

-- A computation that only reads.
abbrev Still : {S A : Type 0} → Exec S A → Type 0
Still {S} m = (s : S) → (m s).1 ≡ s

bind-Still :
    {S A B : Type 0} (m : Exec S A) (f : A → Exec S B)
    → Still m
    → ((a : A) → Still (f a))
    → Still (m >>= f)
bind-Still m f still stills s = elim (Result-cases (m s).0) [
  | inl (a, e) ↦ rw e (stills a (m s).1 ∙ still s)
  | inr (what, e) ↦ rw e (still s)
]

-- What a first part that only reads hands on to the rest.
bind_reads :
    {S A B : Type 0} (P : S → Type 0) (m : Exec S A) (f : A → Exec S B) (s : S)
    → Still m
    → P s
    → ((a : A) → P (f a s).1)
    → P ((m >>= f) s).1
bind_reads P m f s still before after = elim (Result-cases (m s).0) [
  | inl (a, e) ↦ rw (e, still s) (after a)
  | inr (what, e) ↦ rw (e, still s) before
]

module _ (p : Platform) where
  open p.js use {Value, parse, at, get_string, get_int}

  -- The routes are there only with a database.
  abbrev pub IsBacked : Site p → Type 0
  IsBacked site = site.has_routes ≡ true → site.is_connected ≡ true

  setting-Still :
      {A : Type 0} (get : Value → Result A) (config : Value) (group key : String)
      → Still (setting p get config group key)
  setting-Still get config group key =
      bind-Still (lift (at config group)) _ (λ s. refl)
        (λ inner. bind-Still (lift (at inner key)) _ (λ s. refl) (λ value s. refl))

  read_conn_str-Still : (config : Value) → Still (read_conn_str p config)
  unfolding read_conn_str
  read_conn_str-Still config =
      bind-Still (setting p get_string config "database" "host") _
        (setting-Still get_string config "database" "host")
        (λ host.
          bind-Still (setting p get_int config "database" "port") _
            (setting-Still get_int config "database" "port")
            (λ port.
              bind-Still (setting p get_string config "database" "dbname") _
                (setting-Still get_string config "database" "dbname")
                (λ dbname.
                  bind-Still (setting p get_string config "database" "user") _
                    (setting-Still get_string config "database" "user")
                    (λ user.
                      bind-Still (setting p get_string config "database" "password") _
                        (setting-Still get_string config "database" "password")
                        (λ password s. refl)))))

  off-IsBacked : (site : Site p) → site.has_routes ≡ false → IsBacked site
  off-IsBacked site off on = cc

  accept-is_connected :
      (config : Value) (site : Site p)
      → site.is_connected ≡ true
      → (accept p config site).1.is_connected ≡ true
  unfolding accept serve
  accept-is_connected config site connected =
      bind_reads (λ s. s.is_connected ≡ true) (setting p get_int config "server" "port") _ _
        (setting-Still get_int config "server" "port") connected (λ port. connected)

  connection-IsBacked :
      (config : Value) (conn_str : String) (site : Site p)
      → site.has_routes ≡ false
      → IsBacked
          ((open_connection p conn_str
              >>= (λ (connected : Bool). if connected then accept p config else refuse p))
            site).1
  unfolding open_connection refuse
  connection-IsBacked config conn_str site off =
      elim (Bool-cases ((open_connection p conn_str site).1.is_connected)) [
        | inl made ↦ rw made (λ on. accept-is_connected config _ refl)
        | inr failed ↦ rw failed (λ on. cc (off, on))
      ]

  configure-IsBacked :
      (content : String) (site : Site p)
      → site.has_routes ≡ false
      → IsBacked (configure p content site).1
  unfolding configure
  configure-IsBacked content site off =
      bind_reads IsBacked (lift (parse content)) _ site (λ s. refl) (off-IsBacked site off)
        (λ config.
          bind_reads IsBacked (read_conn_str p config) _ site (read_conn_str-Still config)
            (off-IsBacked site off) (λ conn_str. connection-IsBacked config conn_str _ off))

  caught-IsBacked :
      (content : String) (site : Site p)
      → site.has_routes ≡ false
      → IsBacked
          (try_catch
            (configure p content)
            (λ what.
              on_site_logger p (write_in p.host error ("Config error: " << what) "webserver.cpp"))
            site).1
  caught-IsBacked content site off = elim (Result-cases (configure p content site).0) [
    | inl (a, e) ↦ rw e (configure-IsBacked content site off)
    | inr (what, e) ↦ rw e (configure-IsBacked content site off)
  ]

  read_content-IsBacked :
      (config_file : String) (content : Option String) (site : Site p)
      → site.has_routes ≡ false
      → IsBacked (read_content p config_file content site).1
  unfolding read_content
  read_content-IsBacked config_file none site off = off-IsBacked site off
  read_content-IsBacked config_file (some content) site off = caught-IsBacked content _ off

  initialize-initialized : (site : Site p) → (prepare p site).server.metrics.initialized ≡ true
  unfolding prepare initialize
  initialize-initialized site = ground arith

  -- Whatever the configuration file holds, and whatever the database and the JSON library answer or
  -- throw: when the server starts to listen, its routes are set up only if the database was
  -- connected, and the metrics registry is initialized.
  pub construct-IsBacked :
      (files : FileSystem) (config_file : String) (server : Server p)
      → IsBacked (prepare p (construct p files config_file server))
        × ((prepare p (construct p files config_file server)).server.metrics.initialized ≡ true)
  unfolding construct greet blank prepare read_config
  construct-IsBacked files config_file server = (
    read_content-IsBacked config_file (files config_file) _ refl,
    initialize-initialized (construct p files config_file server),
  )
