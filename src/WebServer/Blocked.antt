-- ===== src/WebServer/Blocked.antt =====
-- The creation of devices, which is blocked.
use computer_service_system.Common.{[], ◌∷◌, false, refl, negsuc}
use computer_service_system.Metrics.Registry.History.{http_request, device_operation, apply, run}
use computer_service_system.WebServer.{Platform, Server, Request, json_response}
use computer_service_system.WebServer.Devices.{post_device}
use computer_service_system.WebServer.Answers.{Answers, Keeps, Dumps}

module _ (p : Platform) where
  -- Whatever a request to create a device holds, it is answered with 403, counted as a failed
  -- "create_blocked" and as a request with status 403, and leaves the database as it was. It is
  -- supposed that every response can be written as JSON.
  pub post_device-Keeps :
      (req : Request) (s : Server p)
      → Dumps p
      → Answers p 403
          (device_operation "create_blocked" (negsuc 0) false
            ∷ http_request "POST" "/api/devices" 403 (p.fl.thousandths 1)
            ∷ [])
          s
          (post_device p req s)
        × Keeps p s (post_device p req s)
  unfolding post_device json_response run apply
  post_device-Keeps req s dumps = rw (dumps _).1 ((refl, refl), refl)
