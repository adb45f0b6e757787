-- ===== src/Logger/Refused.antt =====
-- What Loki is sent by a sequence of calls of the logger, held against the grammar of JSON.
pub mod Body
use Prim.Native.Char.{code}
use package.text.Mathlib.TextLemmas.{nil-append, cons-append}
use computer_service_system.Common.{
  ℕ, ◌+◌, String, List, [], ◌∷◌, Bool, true, false, ◌==◌, ◌&&◌, not, ltb, Option-cases,
  if◌then◌else◌, ◌≡◌, refl, ap, ◌∙◌, inl, inr, Bool-cases, arith, All,
}
use computer_service_system.Json.Grammar.{
  Frame, in_object, in_array, value, in_string, refused, Config, step, scan, finished, is_json,
}
use computer_service_system.Std.Text.{◌<<◌}
use computer_service_system.Std.Chars.{chars, text, before_last_slash}
use computer_service_system.Std.Held.{either}
use computer_service_system.Logger.{
  Host, Logger, LogLevel, debug, is_open, Output, system, post, emit, write, write_file,
  write_console, to_console, create, init, init_with_loki, make_directory, open_file, set_level,
  enable_console, enable_file, set_service_name, get_current_timestamp,
}
use computer_service_system.Logger.Loki.{LokiLabels, payload, url, send_to_loki}
use computer_service_system.Logger.Report.{Report, report, write_in}
use computer_service_system.Logger.Outputs.{
  count_outputs, count_outputs-append, count-write, passes,
}
use computer_service_system.Logger.Reach.{
  Call, inits, inits_with_loki, sets_level, enables_console, enables_file, sets_service_name,
  writes, writes_in, reports, perform, perform_all,
}
use computer_service_system.Logger.Refused.Body.{
  IsPlainName, is_plain_name-IsPlainName, payload-refused,
}

-- A request to Loki with a body that is JSON.
abbrev pub is_readable_post : Output → Bool
is_readable_post (post url body) = is_json body
is_readable_post _ = false

-- The names that a call gives to the service.
abbrev pub NamesPlainly : Call → Type 0
NamesPlainly (sets_service_name name) = IsPlainName name
NamesPlainly _ = Unit

module _ (host : Host) where
  open host use {World, curl_init, curl_perform}

  -- Nothing that is JSON has been sent, and the name of the service is plain.
  abbrev IsUnread : Logger World → Type 0
  IsUnread lg = (count_outputs is_readable_post lg.outputs ≡ 0) × IsPlainName lg.service_name

  write-name :
      (level : LogLevel) (message : String) (lg : Logger World)
      → (write host level message lg).service_name ≡ lg.service_name
  unfolding write get_current_timestamp write_file write_console emit
  write-name level message lg = ground arith

  write-IsUnread :
      (level : LogLevel) (message : String) (lg : Logger World)
      → IsUnread lg
      → IsUnread (write host level message lg)
  write-IsUnread level message lg u =
      let counted =
        count-write host is_readable_post (λ l. false) level message lg (λ path line. refl)
          (never level) in
      (
        counted
            ∙ ap
                (λ n.
                  n + (if passes level lg.min_level && lg.console_enabled && false then 1 else 0))
                u.0
            ∙ nothing (passes level lg.min_level) lg.console_enabled,
        rw (write-name level message lg) u.1,
      )
    where
      never :
          (level : LogLevel) (line : String) → is_readable_post (to_console host level line) ≡ false
      never debug line = refl
      never _ line = refl

      nothing : (b c : Bool) → ◌≡◌ {A = ℕ} (0 + (if b && c && false then 1 else 0)) 0
      nothing b c = ground arith

  emit-IsUnread :
      (o : Output) (lg : Logger World)
      → is_readable_post o ≡ false
      → IsUnread lg
      → IsUnread (emit host o lg)
  unfolding emit
  emit-IsUnread o lg other u = (
    count_outputs-append is_readable_post lg.outputs o
        ∙ ap (λ n. n + (if is_readable_post o then 1 else 0)) u.0
        ∙ ap (λ (b : Bool). 0 + (if b then 1 else 0)) other,
    u.1,
  )

  send_to_loki-IsUnread :
      (level message : String) (labels : LokiLabels) (lg : Logger World)
      → IsUnread lg
      → IsUnread (send_to_loki host level message labels lg).1
  unfolding send_to_loki get_current_timestamp
  send_to_loki-IsUnread level message labels lg u = elim (Bool-cases (curl_init lg.world).0) [
    | inl handle ↦
        let (timestamp, stamped) =
          get_current_timestamp host (record lg { world = (curl_init lg.world).1 }) in
        let body = payload host lg level message labels timestamp in
        let sent : Logger World = record stamped {
          world = (curl_perform (url host lg) body stamped.world).1;
        } in
        rw handle (
          emit-IsUnread (post (url host lg) body) sent
            (payload-refused host lg level message labels timestamp u.1) u)
    | inr missing ↦ rw missing u
  ]

  report-IsUnread : (r : Report) (lg : Logger World) → IsUnread lg → IsUnread (report host r lg)
  unfolding report
  report-IsUnread r lg u =
      let written = write-IsUnread r.level r.message lg u in
      either IsUnread (write host r.level r.message lg).loki_format_enabled
        (send_to_loki-IsUnread r.loki_level r.message r.labels (write host r.level r.message lg)
          written)
        written

  open_file-IsUnread :
      (path : String) (lg : Logger World) → IsUnread lg → IsUnread (open_file host path lg)
  unfolding open_file
  open_file-IsUnread path lg u = elim (Option-cases lg.log_file.opened) [
    | inl closed ↦ rw (closed, open_file) u
    | inr (old, open_already) ↦ rw (open_already, open_file) u
  ]

  make_directory-IsUnread :
      (path : String) (lg : Logger World) → IsUnread lg → IsUnread (make_directory host path lg)
  unfolding make_directory
  make_directory-IsUnread path lg u = elim (Option-cases (before_last_slash (chars path))) [
    | inl flat ↦ rw (flat, make_directory) u
    | inr (dir, found) ↦
        rw (found, make_directory) (emit-IsUnread (system ("mkdir -p " << text dir)) lg refl u)
  ]

  init-IsUnread :
      (path : String) (level : LogLevel) (lg : Logger World)
      → IsUnread lg
      → IsUnread (init host path level lg)
  unfolding init
  init-IsUnread path level lg u =
      let configured : Logger World = record lg {
        log_file_path = path;
        min_level = level;
        file_enabled = true;
        console_enabled = true;
        loki_format_enabled = false;
      } in
      let made = make_directory host path configured in
      let opened = open_file-IsUnread path made (make_directory-IsUnread path configured u) in
      elim (Bool-cases (is_open (open_file host path made).log_file)) [
        | inl there ↦ rw there opened
        | inr missing ↦ rw missing opened
      ]

  enable_file-IsUnread :
      (enabled : Bool) (lg : Logger World) → IsUnread lg → IsUnread (enable_file host enabled lg)
  unfolding enable_file
  enable_file-IsUnread enabled lg u = elim (Bool-cases (enabled && not (is_open lg.log_file))) [
    | inl reopens ↦ rw reopens (open_file-IsUnread lg.log_file_path lg u)
    | inr stays ↦ rw stays u
  ]

  perform-IsUnread :
      (c : Call) (lg : Logger World) → NamesPlainly c → IsUnread lg → IsUnread (perform host c lg)
  unfolding perform init_with_loki set_level enable_console set_service_name write_in
  perform-IsUnread (inits path level) lg h u = init-IsUnread path level lg u
  perform-IsUnread (inits_with_loki path level loki_host loki_port) lg h u =
      init-IsUnread path level lg u
  perform-IsUnread (sets_level level) lg h u = u
  perform-IsUnread (enables_console enabled) lg h u = u
  perform-IsUnread (enables_file enabled) lg h u = enable_file-IsUnread enabled lg u
  perform-IsUnread (sets_service_name name) lg h u = (u.0, h)
  perform-IsUnread (writes level message) lg h u = write-IsUnread level message lg u
  perform-IsUnread (writes_in level message context) lg h u = write-IsUnread level _ lg u
  perform-IsUnread (reports r) lg h u = report-IsUnread r lg u

  perform_all-IsUnread :
      (cs : List Call) (lg : Logger World)
      → All NamesPlainly cs
      → IsUnread lg
      → IsUnread (perform_all host cs lg)
  unfolding perform_all
  perform_all-IsUnread [] lg h u = u
  perform_all-IsUnread (c ∷ cs) lg h u =
      perform_all-IsUnread cs (perform host c lg) h.1 (perform-IsUnread c lg h.0 u)

  create-IsUnread : (w : World) → IsUnread (create host w)
  unfolding create
  create-IsUnread w = (refl, is_plain_name-IsPlainName "service_system" refl)

  -- After any sequence of calls on a new logger, none of the requests to Loki that it has made has
  -- a body that is JSON by RFC 8259, whatever was reported, unless a name given to the service
  -- holds a quote, a backslash or a control character.
  pub perform_all-unreadable :
      (w : World) (cs : List Call)
      → All NamesPlainly cs
      → count_outputs is_readable_post (perform_all host cs (create host w)).outputs ≡ 0
  perform_all-unreadable w cs h = (perform_all-IsUnread cs (create host w) h (create-IsUnread w)).0
