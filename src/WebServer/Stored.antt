-- ===== src/WebServer/Stored.antt =====
-- Adding a service record over HTTP: what the client is told, what is counted, what is stored.
use computer_service_system.Common.{
  ℕ, String, List, [], ◌∷◌, Bool, true, false, ◌≡◌, refl, sym, ap, ◌∙◌, ◌⊎◌, inl, inr, pos, negsuc,
  if◌then◌else◌,
}
use computer_service_system.Exec.{ok, throws, Result-cases}
use computer_service_system.Database.{ServiceRecord}
use computer_service_system.Database.Write.{
  Statement, add_service_record_statement, add_service_record,
}
use computer_service_system.Database.Atomic.{Transactional, Refused, InDoubt, run_statement-Atomic}
use computer_service_system.Metrics.Registry.History.{
  Event, http_request, db_operation, service_operation, apply, run,
}
use computer_service_system.WebServer.{Platform, Server, Request, json_response}
use computer_service_system.WebServer.Service.{
  read_record, store_record, reject_record, post_service_history,
}
use computer_service_system.WebServer.Counted.Quiet.{read_record-Quiet}
use computer_service_system.WebServer.Answers.{
  Answers, Keeps, Dumps, Replies, Refuses, refusal, as_response,
}

module _ (p : Platform) where
  open p.fl use {Double}
  open p.js use {Value, object, bool, dump}

  abbrev pub creation : Bool → ℕ → Request → List (Event Double)
  creation success code req =
      service_operation "create" (if success then pos 1 else negsuc 0) success
      ∷ db_operation "add_service_record" success
      ∷ http_request "POST" "/api/service-history" code (p.fl.of_ms req.duration_ms)
      ∷ []

  pub post_service_history-answer :
      (req : Request) (s : Server p) (r : ServiceRecord Double) (success : Bool)
      → Dumps p
      → read_record p req.body s ≡ (ok r, s)
      → (add_service_record p.db r s.database).0 ≡ ok success
      → Answers p 200
          (creation success (if success then 200 else 400) req)
          s
          (post_service_history p req s)
        × ((post_service_history p req s).1.database ≡ (add_service_record p.db r s.database).1)
  unfolding post_service_history store_record json_response run apply
  post_service_history-answer req s r success dumps read added =
      rw read (rw added (rw (dumps _).1 ((refl, refl), refl)))

  -- A request whose record cannot be read is answered with code 400 and counted as a failure, and
  -- leaves the database as it was. It is supposed that every response can be written as JSON.
  pub post_service_history-malformed :
      (req : Request) (s : Server p) (what : String)
      → Dumps p
      → read_record p req.body s ≡ (throws what, s)
      → Answers p 400 (creation false 400 req) s (post_service_history p req s)
        × Keeps p s (post_service_history p req s)
  unfolding post_service_history reject_record json_response run apply
  post_service_history-malformed req s what dumps unread =
      rw unread (rw (dumps _).1 ((refl, refl), refl))

  -- The reply to a request whose record was read.
  abbrev pub told : Bool → Value
  told success = object (("success", bool success) ∷ [])

  -- The reply with what the database answered is sent, or refused; and the database is as after
  -- that answer.
  abbrev pub Tells : Bool → ServiceRecord Double → Request → Server p → Type 0
  Tells success r req s =
      Replies p 200 (told success) (creation success (if success then 200 else 400) req)
        (creation false 400 req) s (post_service_history p req s)
      × ((post_service_history p req s).1.database ≡ (add_service_record p.db r s.database).1)

  pub post_service_history-Tells :
      (req : Request) (s : Server p) (r : ServiceRecord Double) (success : Bool)
      → read_record p req.body s ≡ (ok r, s)
      → (add_service_record p.db r s.database).0 ≡ ok success
      → Tells success r req s
  unfolding post_service_history store_record reject_record json_response run apply
  post_service_history-Tells req s r success read added = rw read (
      rw added (elim (Result-cases (dump (told success))) [
        | inl (body, sent) ↦ rw sent (inl (body, refl, refl, refl), refl)
        | inr (what, unsent) ↦ rw unsent (elim (Result-cases (dump (refusal p what))) [
          | inl (body, sent) ↦
              rw sent (inr (what, refl, (sym (ap (as_response 400) sent), refl)), refl)
          | inr (lost, unsent') ↦
              rw unsent' (inr (what, refl, (sym (ap (as_response 400) unsent'), refl)), refl)
        ])
      ]))

  pub post_service_history-Refuses :
      (req : Request) (s : Server p) (what : String)
      → read_record p req.body s ≡ (throws what, s)
      → Refuses p what (creation false 400 req) s (post_service_history p req s)
        × Keeps p s (post_service_history p req s)
  unfolding post_service_history reject_record json_response run apply
  post_service_history-Refuses req s what unread =
      rw unread (elim (Result-cases (dump (refusal p what))) [
        | inl (body, sent) ↦ rw sent ((refl, refl), refl)
        | inr (lost, unsent) ↦ rw unsent ((refl, refl), refl)
      ])

  -- The committed tables with a record inserted.
  abbrev pub with_record : (t : Transactional p.db) → ServiceRecord Double → Server p → t.Tables
  with_record t r s =
      let insert : Statement Double = add_service_record_statement r in
      t.execute insert.sql insert.params (t.committed s.database)

  -- What a request to add a record comes to: its record is stored; or one of the calls of the
  -- transaction threw; or the record could not be read. With the answer, what is counted, and the
  -- committed tables.
  pub data Outcome (t : Transactional p.db) (req : Request) (s : Server p) : Type 0 where
    stored :
        (r : ServiceRecord Double)
        → read_record p req.body s ≡ (ok r, s)
        → Replies p 200
            (told true)
            (creation true 200 req)
            (creation false 400 req)
            s
            (post_service_history p req s)
        → t.committed (post_service_history p req s).1.database ≡ with_record t r s
        → Outcome t req s
    not_stored :
        (r : ServiceRecord Double)
        → read_record p req.body s ≡ (ok r, s)
        → Refused p.db (add_service_record_statement r) s.database
        → Replies p 200
            (told false)
            (creation false 400 req)
            (creation false 400 req)
            s
            (post_service_history p req s)
        → (t.committed (post_service_history p req s).1.database ≡ t.committed s.database)
          ⊎ (InDoubt p.db (add_service_record_statement r) s.database
              × (t.committed (post_service_history p req s).1.database ≡ with_record t r s))
        → Outcome t req s
    unreadable :
        (what : String)
        → read_record p req.body s ≡ (throws what, s)
        → Refuses p what (creation false 400 req) s (post_service_history p req s)
        → (post_service_history p req s).1.database ≡ s.database
        → Outcome t req s

  -- A record that was read.
  store-Outcome :
      (t : Transactional p.db) (req : Request) (s : Server p) (r : ServiceRecord Double)
      → read_record p req.body s ≡ (ok r, s)
      → Outcome t req s
  store-Outcome t req s r read =
      elim (run_statement-Atomic p.db t (add_service_record_statement r) s.database) [
        | inl (added, tables) ↦
            let (replies, world) = post_service_history-Tells req s r true read added in
            stored r read replies (ap t.committed world ∙ tables)
        | inr (failed, refused, inl kept) ↦
            let (replies, world) = post_service_history-Tells req s r false read failed in
            not_stored r read refused replies (inl (ap t.committed world ∙ kept))
        | inr (failed, refused, inr (doubt, tables)) ↦
            let (replies, world) = post_service_history-Tells req s r false read failed in
            not_stored r read refused replies (inr (doubt, ap t.committed world ∙ tables))
      ]

  -- A request to add a service record has one of three outcomes. Its record is read and inserted
  -- into the committed tables; a success is replied and counted. Or its record is read and
  -- beginning the transaction, the insertion or the commit threw; a failure is replied, with code
  -- 200, and counted, with 400 as the status of the request, and the committed tables are as
  -- before, or have the record inserted, and this only where it was the commit that threw. Or its
  -- record cannot be read; it is refused with 400 and counted as a failure, and the database is as
  -- before. A reply that cannot be written as JSON is refused with 400, and a failure is counted
  -- besides; and where the text of a refusal cannot be written, the exception of writing it leaves
  -- the handler. It is supposed that PostgreSQL keeps what it promises of a transaction.
  pub post_service_history-Outcome :
      (t : Transactional p.db) (req : Request) (s : Server p) → Outcome t req s
  post_service_history-Outcome t req s = elim (Result-cases (read_record p req.body s).0) [
    | inl (r, e) ↦ store-Outcome t req s r (λ i. (e i, read_record-Quiet p req.body s i))
    | inr (what, e) ↦
        let unread : read_record p req.body s ≡ (throws what, s) =
          λ i. (e i, read_record-Quiet p req.body s i) in
        let (refuses, keeps) = post_service_history-Refuses req s what unread in
        unreadable what unread refuses keeps
  ]
