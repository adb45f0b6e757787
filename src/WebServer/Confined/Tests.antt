-- ===== src/WebServer/Confined/Tests.antt =====
-- The theorem on the files that a request can reach, on the concrete platform.
use text.Mathlib.TextLemmas.{cons-append, append_assoc}
use Prim.Native.Char.{code}
use computer_service_system.Common.{String, some, none, ◌≡◌, refl, str_eq, if◌then◌else◌, ◌==◌}
use computer_service_system.Std.Text.{◌<<◌}
use computer_service_system.WebServer.Routes.{Call, handle}
use computer_service_system.WebServer.Files.{FileSystem}
use computer_service_system.WebServer.Confined.{SamePages, handle-SamePages}
use computer_service_system.WebServer.Tests.{toy, server, request}
use computer_service_system.WebServer.Requests.Tests.{plain_crow, in_order}

-- A file system with a page, and one that has absolute paths besides.
abbrev pages : FileSystem
pages path = if str_eq path "www/index.html" then some "<html>" else none

abbrev pages_and_more : FileSystem
pages_and_more String.[] = none
pages_and_more (String.◌∷◌ c rest) =
    if code c == b'/' then some "secret" else pages (String.◌∷◌ c rest)

abbrev home : Call
home = record { method = "GET"; url = "/"; request = request "" }

-- A path that begins with "w" or with "." leads to the same file in both.
same_at_w : (rest : String) → pages ("w" << rest) ≡ pages_and_more ("w" << rest)
same_at_w rest = rw (cons-append "w" "" rest) refl

same_at_dot : (rest : String) → pages ("." << rest) ≡ pages_and_more ("." << rest)
same_at_dot rest = rw (cons-append "." "" rest) refl

same_pages : SamePages pages pages_and_more
same_pages name simple = (
  rw (append_assoc "w" "ww/" name) (same_at_w ("ww/" << name)),
  rw (append_assoc "." "./www/" name) (same_at_dot ("./www/" << name)),
)

handle-SamePages_example :
    handle toy plain_crow pages in_order in_order home server
    ≡ handle toy plain_crow pages_and_more in_order in_order home server
handle-SamePages_example =
    handle-SamePages toy plain_crow in_order in_order pages pages_and_more same_pages home server
