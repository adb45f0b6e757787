-- ===== src/WebServer/Counted/Quiet.antt =====
-- Computations that only read a request.
use computer_service_system.Common.{String, ◌≡◌, refl, ◌∙◌, inl, inr}
use computer_service_system.Exec.{Result, Exec, lift, ◌>>=◌, Result-cases}
use computer_service_system.WebServer.{Platform, Server}
use computer_service_system.WebServer.Service.{read_record, field}

module _ (p : Platform) where
  open p.fl use {Double}
  open p.js use {Value, parse, at, get_string, get_int, get_double}

  -- A computation that reads and leaves the server as it was.
  abbrev Quiet : {A : Type 0} → Exec (Server p) A → Type 0
  Quiet m = (s : Server p) → (m s).1 ≡ s

  bind-Quiet :
      {A B : Type 0} (m : Exec (Server p) A) (f : A → Exec (Server p) B)
      → Quiet m
      → ((x : A) → Quiet (f x))
      → Quiet (m >>= f)
  bind-Quiet m f first rest s = elim (Result-cases (m s).0) [
    | inl (x, e) ↦ rw e (rest x (m s).1 ∙ first s)
    | inr (what, e) ↦ rw e (first s)
  ]

  field-Quiet :
      {A : Type 0} (get : Value → Result A) (body : Value) (key : String)
      → Quiet (field p get body key)
  field-Quiet get body key =
      bind-Quiet (lift (at body key)) (λ v. lift (get v)) (λ s. refl) (λ v s. refl)

  pub read_record-Quiet : (text : String) → Quiet (read_record p text)
  unfolding read_record
  read_record-Quiet text =
      bind-Quiet (lift (parse text)) _ (λ s. refl)
        (λ body.
          bind-Quiet (field p get_int body "device_id") _ (field-Quiet get_int body "device_id")
            (λ d.
              bind-Quiet (field p get_int body "service_id") _
                (field-Quiet get_int body "service_id")
                (λ i.
                  bind-Quiet (field p get_string body "service_date") _
                    (field-Quiet get_string body "service_date")
                    (λ date.
                      bind-Quiet (field p get_double body "cost") _
                        (field-Quiet get_double body "cost")
                        (λ c.
                          bind-Quiet (field p get_string body "notes") _
                            (field-Quiet get_string body "notes")
                            (λ n.
                              bind-Quiet (field p get_string body "next_due_date") _
                                (field-Quiet get_string body "next_due_date") (λ due s. refl)))))))
