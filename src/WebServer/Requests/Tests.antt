-- ===== src/WebServer/Requests/Tests.antt =====
-- The theorems on sequences of requests, on the concrete platform.
use mathlib.Core.List.Perm
use text.Mathlib.TextEquality.{eq_iff}
use computer_service_system.Common.{
  ℕ, String, List, [], ◌∷◌, Bool, true, false, Option, none, some, ◌≡◌, refl, inl, inr,
  if◌then◌else◌, str_eq, negsuc, ◌&&◌, ◌||◌, Bool-cases, arith, ◌↔◌,
}
use computer_service_system.Exec.{ok, Exec}
use computer_service_system.Std.HashMap.{Walk}
use computer_service_system.Std.Floating.{milli}
use computer_service_system.Std.OrderedMap.{OrderedMap}
use computer_service_system.Metrics.Labels.{Labels}
use computer_service_system.Metrics.Registry.{
  empty, get_counter, get_histogram, increment_at, observe_at,
}
use computer_service_system.Database.Tests.{book_transactions}
use computer_service_system.WebServer.Routes.{
  respond, dispatch, handle, Rule, routes, In, Crow, Call, handle_all,
}
use computer_service_system.WebServer.Files.{has_part, get_metrics}
use computer_service_system.WebServer.Devices.{post_device}
use computer_service_system.WebServer.{json_response}
use computer_service_system.Std.Contains.{Contains, Lacks}
use computer_service_system.Std.Text as Text
use computer_service_system.Std.Text.{◌<<◌}
use computer_service_system.Metrics.Labels
use computer_service_system.Metrics.Registry.{Registry}
use computer_service_system.Metrics.Registry.Lookup.{counter_at, value_at}
use computer_service_system.Metrics.Registry.Record.{
  numbered_labels, record_http_request, record_device_operation, observe_duration, count,
}
use computer_service_system.Std.Nested
use computer_service_system.Std.HashMap
use computer_service_system.Std.OrderedMap
use computer_service_system.Metrics.Counter
use computer_service_system.Metrics.Registry.History.{run}
use computer_service_system.Metrics.Registry.Start.{http_labels}
use computer_service_system.WebServer.Effects.{Effects}
use computer_service_system.WebServer.Requests.{
  all_inserts, handle_all-Effects, get_metrics-exposed,
}
use computer_service_system.WebServer.Start.{Site}
use computer_service_system.WebServer.Startup.{IsBacked}
use computer_service_system.WebServer.Main.{main, main-IsBacked}
use computer_service_system.WebServer.Tests.{toy, server, request, one_file}

-- Whether a rule allows a method.
abbrev allows : List String → String → Bool
allows [] method = false
allows (m ∷ ms) method = str_eq method m || allows ms method

-- The first rule with the very path and method; it has no parameters.
abbrev first_rule : List Rule → String → String → Option (Rule × String)
first_rule [] method url = none
first_rule (r ∷ rules) method url =
    let rest = first_rule rules method url in
    if str_eq url r.path && allows r.methods method then some (r, "") else rest

allows-In : (ms : List String) (method : String) → allows ms method ≡ true → In method ms
allows-In [] method h = cc
allows-In (m ∷ ms) method h = elim (Bool-cases (str_eq method m)) [
  | inl same ↦ inl ((eq_iff method m).0 same)
  | inr differs ↦ inr (allows-In ms method (rw differs at h))
]

pub first_rule-In :
    (rules : List Rule) (method url : String) (r : Rule) (arg : String)
    → first_rule rules method url ≡ some (r, arg)
    → In r rules × In method r.methods × (url ≡ r.path)
first_rule-In [] method url r arg h = absurd (let x : ⊥ = cc in x)
first_rule-In (r' ∷ rules) method url r arg h =
    elim (Bool-cases (str_eq url r'.path && allows r'.methods method)) [
      | inl fits ↦ taken fits (ground (arith, h, fits))
      | inr other ↦
          let (known, allowed, path) = first_rule-In rules method url r arg (rw other at h) in
          (inr known, allowed, path)
    ]
  where
    taken :
        (str_eq url r'.path && allows r'.methods method) ≡ true
        → r' ≡ r
        → In r (r' ∷ rules) × In method r.methods × (url ≡ r.path)
    taken fits same =
        rw (← same)
          (inl refl, allows-In r'.methods method (ground arith), ground (arith, eq_iff url r'.path))

pub first_rule_chosen :
    (rules : List Rule) (method url : String) (r : Rule) (arg : String)
    → first_rule rules method url ≡ some (r, arg)
    → In r rules × In method r.methods
first_rule_chosen rules method url r arg h =
    let (known, allowed, path) = first_rule-In rules method url r arg h in (known, allowed)

pub first_rule_path :
    (rules : List Rule) (method url : String) (r : Rule) (arg : String)
    → first_rule rules method url ≡ some (r, arg)
    → has_part r.path "<" ≡ false
    → url ≡ r.path
first_rule_path rules method url r arg h literal = (first_rule-In rules method url r arg h).2

pub first_rule_arg :
    (rules : List Rule) (method url : String) (r : Rule) (arg : String)
    → first_rule rules method url ≡ some (r, arg)
    → Lacks b'/' arg
first_rule_arg [] method url r arg h = absurd (let x : ⊥ = cc in x)
first_rule_arg (r' ∷ rules) method url r arg h =
    elim (Bool-cases (str_eq url r'.path && allows r'.methods method)) [
      | inl fits ↦ let none_taken : "" ≡ arg = ground (arith, h, fits) in rw (← none_taken) tt
      | inr other ↦ first_rule_arg rules method url r arg (rw other at h)
    ]

abbrev pub plain_crow : Crow
plain_crow = record {
  choose = first_rule;
  miss = record { code = 404; headers = []; body = "" };
  choose-In = first_rule_chosen;
  choose-path = first_rule_path;
  choose-arg = first_rule_arg;
}

abbrev call_of : String → String → String → Call
call_of method url body = record { method = method; url = url; request = request body }

abbrev pub calls : List Call
calls =
    call_of "POST" "/api/login" "admin"
    ∷ call_of "POST" "/api/service-history" "record"
    ∷ call_of "GET" "/metrics" ""
    ∷ []

abbrev pub in_order {ℓ} : {V : Type ℓ} → Walk V
in_order = record { entries = λ m. m; entries-perm = λ m. Perm.refl m }

handle_all-Effects_example :
    Effects toy book_transactions
      (all_inserts calls)
      server
      (handle_all toy plain_crow one_file in_order in_order calls server)
handle_all-Effects_example =
    handle_all-Effects toy book_transactions (λ sql w is_select. refl) plain_crow one_file in_order
      in_order calls server

abbrev returns : Exec (Site toy) (Unit {0})
returns site = (ok tt, site)

main-IsBacked_example :
    (site : Site toy) × IsBacked toy site
    × (site.server.metrics.initialized ≡ true)
    × ((main toy returns one_file ("server" ∷ []) server).1 ≡ (returns site).1)
    × (((main toy returns one_file ("server" ∷ []) server).0 ≡ 0) ↔ ((returns site).0 ≡ ok tt))
main-IsBacked_example = main-IsBacked toy returns one_file ("server" ∷ []) server

abbrev blocked_call : List Call
blocked_call = call_of "POST" "/api/devices" "{}" ∷ []

abbrev blocked_labels : Labels
blocked_labels = numbered_labels "device_id" "create_blocked" (negsuc 0) false

get_metrics-exposed_example :
    let now : Registry ℕ =
      (handle_all toy plain_crow one_file in_order in_order blocked_call server).metrics in
    Contains
      ("device_operations_total"
        << Labels.to_string blocked_labels
        << " "
        << milli.fixed 0 (value_at milli "device_operations_total" blocked_labels now)
        << "\n")
      (get_metrics milli in_order in_order now).body
unfolding handle_all handle dispatch respond routes post_device json_response counter_at run
    record_http_request record_device_operation observe_duration count get_counter get_histogram
    increment_at observe_at empty numbered_labels Nested.find Nested.update Nested.find_or_create
    HashMap.find HashMap.modify HashMap.upsert OrderedMap.find OrderedMap.emplace OrderedMap.modify
    OrderedMap.assign http_labels Counter.create Counter.increment Text.to_string
get_metrics-exposed_example =
    get_metrics-exposed toy book_transactions (λ sql w is_select. refl) plain_crow one_file in_order
      in_order [] blocked_call server "device_operations_total" blocked_labels
      (record {
        value = 1000;
        name = "device_operations_total";
        help = "Total number of device operations";
        labels = blocked_labels;
      })
      refl refl
