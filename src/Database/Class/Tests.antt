-- ===== src/Database/Class/Tests.antt =====
-- The class over a server that keeps its statements in a list.
use computer_service_system.Common.{refl}
use computer_service_system.Std.Floating.{milli}
use computer_service_system.Database.Class.{methods, IsLawful, methods-IsLawful}
use computer_service_system.Database.Tests.{book, book_transactions}
use computer_service_system.WebServer.Tests.{toy_json}

methods-IsLawful_example :
    IsLawful milli book toy_json book_transactions (methods milli book toy_json)
methods-IsLawful_example =
    methods-IsLawful milli book toy_json book_transactions (λ sql w is_select. refl)
