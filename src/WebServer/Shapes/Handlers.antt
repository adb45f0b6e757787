-- ===== src/WebServer/Shapes/Handlers.antt =====
-- The shape of each handler's answer.
use computer_service_system.Common.{
  arith, Bool, true, false, String, [], ◌∷◌, ◌≡◌, refl, if◌then◌else◌,
}
use computer_service_system.Std.Text.{◌<<◌}
use computer_service_system.Exec.{ok, lift, ◌>>=◌}
use computer_service_system.Std.OrderedMap.{OrderedMap}
use computer_service_system.Std.HashMap.{Walk}
use computer_service_system.Metrics.Labels.{Labels}
use computer_service_system.Metrics.Counter.{Counter}
use computer_service_system.Metrics.Histogram.{Histogram}
use computer_service_system.Database.{ServiceRecord, test_connection}
use computer_service_system.Database.Write.{add_service_record}
use computer_service_system.WebServer.{Platform, Server, Request, Response, on_database_or_throw}
use computer_service_system.WebServer.Session.{
  test_db, login, logout, answer_login, reject_login, check_credentials, read_login,
}
use computer_service_system.WebServer.Devices.{post_device}
use computer_service_system.WebServer.Service.{
  post_service_history, read_record, store_record, reject_record,
}
use computer_service_system.WebServer.Routes.{
  Endpoint, scrape, index, file, check_db, log_in, log_out, list_devices, add_device, list_types,
  list_history, add_record, list_records, Crow, respond,
}
use computer_service_system.WebServer.Files.{FileSystem}
use computer_service_system.WebServer.Counted.{api_calls}
use computer_service_system.WebServer.Shapes.{HasShape, shape_of, HasReply}
use computer_service_system.WebServer.Shapes.Replies.{
  bind-Returns, try_catch-Returns, json_response-HasReply,
}
use computer_service_system.WebServer.Shapes.Listings.{
  HasReplies, get_devices-HasReply, get_service_types-HasReply, get_service_records-HasReply,
  get_service_history-HasReply,
}

module _ (p : Platform) where
  open p.js use {Value}

  test_db-HasReply : (req : Request) → HasReplies p check_db (test_db p req)
  unfolding test_db
  test_db-HasReply req =
      bind-Returns (HasReply p check_db) (on_database_or_throw p (test_connection p.db)) _
        (λ connected s r h.
          json_response-HasReply p check_db 200 _
            (_, refl, (refl, (connected, refl), (refl, (req.time, refl), tt))) _ r h)

  logout-HasReply : (req : Request) → HasReplies p log_out (logout p req)
  unfolding logout
  logout-HasReply req s r h =
      json_response-HasReply p log_out 200 _ (_, refl, (refl, (true, refl), (refl, (_, refl), tt)))
        _ r h

  post_device-HasReply : (req : Request) → HasReplies p add_device (post_device p req)
  unfolding post_device
  post_device-HasReply req s r h =
      json_response-HasReply p add_device 403 _
        (_, refl, (refl, (false, refl), (refl, (_, refl), tt))) _ r h

  reject_login-HasReply :
      (req : Request) (what : String) → HasReplies p log_in (reject_login p req what)
  unfolding reject_login
  reject_login-HasReply req what s r h =
      json_response-HasReply p log_in 400 _
        (_, refl, (refl, (false, refl), (refl, (what, refl), tt))) _ r h

  answer_login-HasReply :
      (req : Request) (username password : String)
      → HasReplies p log_in (answer_login p req username password)
  unfolding answer_login
  answer_login-HasReply req username password s r h =
      json_response-HasReply p log_in _ _ (by_success (check_credentials username password).success)
        _ r h
    where
      by_success :
          (success : Bool)
          → HasShape p.js (shape_of log_in (if success then 200 else 401)) (
              p.js.object (
                ("success", p.js.bool (check_credentials username password).success)
                ∷ ("message", p.js.str (check_credentials username password).message)
                ∷ ("username", p.js.str username)
                ∷ (
                  "token",
                  p.js.str (
                      if (check_credentials username password).success
                      then "mock-jwt-token-" << username
                      else ""),
                )
                ∷ []))
      by_success true =
          (_, refl, (refl, (_, refl), (refl, (_, refl), (refl, (_, refl), (refl, (_, refl), tt)))))
      by_success false =
          (_, refl, (refl, (_, refl), (refl, (_, refl), (refl, (_, refl), (refl, (_, refl), tt)))))

  login-HasReply : (req : Request) → HasReplies p log_in (login p req)
  unfolding login
  login-HasReply req =
      try_catch-Returns (HasReply p log_in)
        (λ s. (lift (read_login p req.body) >>= (λ c. answer_login p req c.0 c.1)) s)
        (reject_login p req)
        (bind-Returns (HasReply p log_in) (lift (read_login p req.body))
          (λ c. answer_login p req c.0 c.1) (λ c. answer_login-HasReply req c.0 c.1))
        (reject_login-HasReply req)

  reject_record-HasReply :
      (req : Request) (what : String) → HasReplies p add_record (reject_record p req what)
  unfolding reject_record
  reject_record-HasReply req what s r h =
      json_response-HasReply p add_record 400 _
        (_, refl, (refl, (false, refl), (refl, (what, refl), tt))) _ r h

  store_record-HasReply :
      (req : Request) (r : ServiceRecord p.fl.Double)
      → HasReplies p add_record (store_record p req r)
  unfolding store_record
  store_record-HasReply req stored =
      bind-Returns (HasReply p add_record) (on_database_or_throw p (add_service_record p.db stored))
        _
        (λ success s r h.
          json_response-HasReply p add_record 200 _ (_, refl, (refl, (success, refl), tt)) _ r h)

  post_service_history-HasReply :
      (req : Request) → HasReplies p add_record (post_service_history p req)
  unfolding post_service_history
  post_service_history-HasReply req =
      try_catch-Returns (HasReply p add_record) (read_record p req.body >>= store_record p req)
        (reject_record p req)
        (bind-Returns (HasReply p add_record) (read_record p req.body) (store_record p req)
          (store_record-HasReply req))
        (reject_record-HasReply req)

  module _ (crow : Crow) (files : FileSystem) (wc : Walk (OrderedMap Labels (Counter p.fl.Double)))
      (wh : Walk (OrderedMap Labels (Histogram p.fl.Double))) where
    -- Whatever a handler of the API returns has the two headers of the API, and its body is written
    -- from a JSON value of the shape that the handler and the code of the response say: the
    -- listings have the fields of their rows, each with its type; a login has a flag, a message, a
    -- name and a token unless it is answered with 400; a new record has a flag unless it is
    -- answered with 400; and these two answered with 400, and a new device in any case, have a flag
    -- and the text of an error.
    pub respond-HasReply :
        (e : Endpoint) (arg : String) (req : Request) (s : Server p) (r : Response)
        → api_calls e ≡ 1
        → (respond p crow files wc wh e arg req s).0 ≡ ok r
        → HasReply p e r
    unfolding respond
    respond-HasReply scrape arg req s r api h = absurd (omega arith)
    respond-HasReply index arg req s r api h = absurd (omega arith)
    respond-HasReply file arg req s r api h = absurd (omega arith)
    respond-HasReply check_db arg req s r api h = test_db-HasReply req s r h
    respond-HasReply log_in arg req s r api h = login-HasReply req s r h
    respond-HasReply log_out arg req s r api h = logout-HasReply req s r h
    respond-HasReply list_devices arg req s r api h = get_devices-HasReply p req s r h
    respond-HasReply add_device arg req s r api h = post_device-HasReply req s r h
    respond-HasReply list_types arg req s r api h = get_service_types-HasReply p req s r h
    respond-HasReply list_history arg req s r api h = get_service_history-HasReply p req s r h
    respond-HasReply add_record arg req s r api h = post_service_history-HasReply req s r h
    respond-HasReply list_records arg req s r api h = get_service_records-HasReply p req s r h
