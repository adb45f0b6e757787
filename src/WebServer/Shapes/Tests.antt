-- ===== src/WebServer/Shapes/Tests.antt =====
-- The theorem on the shapes of the answers, on the concrete platform.
use computer_service_system.Common.{refl}
use computer_service_system.WebServer.{Response, json_headers, json_response}
use computer_service_system.WebServer.Session.{login, read_login, answer_login, check_credentials}
use computer_service_system.WebServer.Routes.{log_in, respond}
use computer_service_system.WebServer.Shapes.{HasReply}
use computer_service_system.WebServer.Shapes.Handlers.{respond-HasReply}
use computer_service_system.WebServer.Tests.{toy, server, one_file, request}
use computer_service_system.WebServer.Requests.Tests.{plain_crow, in_order}

-- The platform writes an object as the text of its first field.
abbrev let_in : Response
let_in = record { code = 200; headers = json_headers; body = "true" }

respond-HasReply_example : HasReply toy log_in let_in
unfolding respond login read_login answer_login check_credentials json_response
respond-HasReply_example =
    respond-HasReply toy plain_crow one_file in_order in_order log_in "" (request "admin") server
      let_in refl refl
