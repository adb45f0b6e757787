-- ===== src/WebServer/Confined.antt =====
-- Which files a request can reach.
pub mod Tests
use computer_service_system.Common.{
  String, [], ◌∷◌, Option, none, some, ◌≡◌, refl, ap, ◌⊎◌, inl, inr, Option-cases, arith,
}
use computer_service_system.Exec.{Result, ok}
use computer_service_system.Std.OrderedMap.{OrderedMap}
use computer_service_system.Std.HashMap.{Walk}
use computer_service_system.Std.Text.{◌<<◌}
use computer_service_system.Std.Contains.{Lacks}
use computer_service_system.Metrics.Labels.{Labels}
use computer_service_system.Metrics.Counter.{Counter}
use computer_service_system.Metrics.Histogram.{Histogram}
use computer_service_system.WebServer.{Platform, Server, Request, Response}
use computer_service_system.WebServer.Files.{FileSystem, find_file, index_page, static_file}
use computer_service_system.WebServer.Routes.{
  Endpoint, scrape, index, file, check_db, log_in, log_out, list_devices, add_device, list_types,
  list_history, add_record, list_records, Rule, routes, Crow, Call, respond, dispatch, handle,
}

-- Two file systems have the same files right in the two directories.
abbrev pub SamePages : FileSystem → FileSystem → Type 0
SamePages files files' =
    (name : String)
    → Lacks b'/' name
    → (files ("www/" << name) ≡ files' ("www/" << name))
      × (files ("../www/" << name) ≡ files' ("../www/" << name))

find_file-SamePages :
    (files files' : FileSystem) (name : String)
    → SamePages files files'
    → Lacks b'/' name
    → find_file files name ≡ find_file files' name
unfolding find_file
find_file-SamePages files files' name same simple =
    let (here, above) = same name simple in
    λ i. elim (here i) [ some content ↦ some content | none ↦ above i ]

index-Lacks : Lacks b'/' "index.html"
index-Lacks = (refl, (refl, (refl, (refl, (refl, (refl, (refl, (refl, (refl, (refl, tt))))))))))

index_page-SamePages :
    (files files' : FileSystem) → SamePages files files' → index_page files ≡ index_page files'
unfolding index_page
index_page-SamePages files files' same =
    rw (find_file-SamePages files files' "index.html" same index-Lacks, index_page) refl

static_file-SamePages :
    (files files' : FileSystem) (name : String)
    → SamePages files files'
    → Lacks b'/' name
    → static_file files name ≡ static_file files' name
unfolding static_file
static_file-SamePages files files' name same simple =
    rw (find_file-SamePages files files' name same simple, static_file) refl

module _ (p : Platform) (crow : Crow) (wc : Walk (OrderedMap Labels (Counter p.fl.Double)))
    (wh : Walk (OrderedMap Labels (Histogram p.fl.Double))) (files files' : FileSystem)
    (same : SamePages files files') where
  respond-SamePages :
      (e : Endpoint) (arg : String) (req : Request) (s : Server p)
      → Lacks b'/' arg
      → respond p crow files wc wh e arg req s ≡ respond p crow files' wc wh e arg req s
  unfolding respond
  respond-SamePages index arg req s simple =
      ap (λ (r : Response). (ok r, s)) (index_page-SamePages files files' same)
  respond-SamePages file arg req s simple =
      ap (λ (r : Response). (ok r, s)) (static_file-SamePages files files' arg same simple)
  respond-SamePages _ arg req s simple = refl

  -- What a request is answered, and what it leaves, depends only on the files that stand directly
  -- in "www/" and in "../www/": with two file systems that have the same of these, whatever else
  -- they hold, it is the same. It is supposed of Crow that the text it takes for "<string>" has no
  -- slash.
  pub handle-SamePages :
      (call : Call) (s : Server p)
      → handle p crow files wc wh call s ≡ handle p crow files' wc wh call s
  unfolding handle dispatch
  handle-SamePages call s = elim (Option-cases (crow.choose routes call.method call.url)) [
    | inl missed ↦ rw missed refl
    | inr ((r, arg), found) ↦ rw found (
        respond-SamePages r.endpoint arg call.request s
          (crow.choose-arg routes call.method call.url r arg found))
  ]
