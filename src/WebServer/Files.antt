-- ===== src/WebServer/Files.antt =====
-- The handlers of "/metrics", "/" and of the static files. The file system is a parameter: the
-- contents of each path that can be opened.
use Prim.Native.Char.{code}
use computer_service_system.Common.{
  String, [], ◌∷◌, Bool, true, false, ◌||◌, Option, none, some, if◌then◌else◌, ◌==◌, ◌&&◌,
}
use computer_service_system.Std.OrderedMap.{OrderedMap}
use computer_service_system.Std.HashMap.{Walk}
use computer_service_system.Std.Floating.{Floating}
use computer_service_system.Std.Text.{◌<<◌}
use computer_service_system.Metrics.Labels.{Labels}
use computer_service_system.Metrics.Counter.{Counter}
use computer_service_system.Metrics.Histogram.{Histogram}
use computer_service_system.Metrics.Registry.{Registry}
use computer_service_system.Metrics.Registry.Format.{format}
use computer_service_system.WebServer.{Response}

abbrev pub FileSystem : Type 0
FileSystem = String → Option String

-- Whether a text begins with another, and whether it has it as a part: find(part) != npos.
unfoldable pub begins : String → String → Bool
begins s String.[] = true
begins String.[] (String.◌∷◌ d t) = false
begins (String.◌∷◌ c s) (String.◌∷◌ d t) = code c == code d && begins s t

unfoldable pub has_part : String → String → Bool
unfolding begins
has_part String.[] part = begins "" part
has_part (String.◌∷◌ c s) part = begins (String.◌∷◌ c s) part || has_part s part

unfoldable pub content_type : String → String
content_type filename =
    if has_part filename ".css"
    then "text/css"
    else if has_part filename ".js"
    then "application/javascript"
    else if has_part filename ".png"
    then "image/png"
    else if has_part filename ".jpg" || has_part filename ".jpeg"
    then "image/jpeg"
    else "text/html"

-- The file under "www/", or else under "../www/".
unfoldable pub find_file : FileSystem → String → Option String
find_file files filename = elim (files ("www/" << filename)) [
  | some content ↦ some content
  | none ↦ files ("../www/" << filename)
]

unfoldable pub not_found : String → Response
not_found message = record { code = 404; headers = []; body = message }

unfoldable pub index_page : FileSystem → Response
unfolding find_file not_found
index_page files = elim (find_file files "index.html") [
  | none ↦ not_found "Index file not found"
  | some content ↦ record {
    code = 200;
    headers = ("Content-Type", "text/html; charset=utf-8") ∷ [];
    body = content;
  }
]

unfoldable pub static_file : FileSystem → String → Response
unfolding find_file not_found content_type
static_file files filename = elim (find_file files filename) [
  | none ↦ not_found ("File not found: " << filename)
  | some content ↦ record {
    code = 200;
    headers = ("Content-Type", content_type filename) ∷ [];
    body = content;
  }
]

module _ (fl : Floating) (wc : Walk (OrderedMap Labels (Counter fl.Double)))
    (wh : Walk (OrderedMap Labels (Histogram fl.Double))) where
  unfoldable pub get_metrics : Registry fl.Double → Response
  get_metrics r = record {
    code = 200;
    headers = ("Content-Type", "text/plain; version=0.0.4; charset=utf-8") ∷ [];
    body = format fl wc wh r;
  }
