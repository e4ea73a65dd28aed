-- ===== src/Superuser/Writes.antt =====
-- The entry that each writing request leaves when no statement fails.
use lesser.Common.{
  ℕ, ◌≡◌, refl, ap, Bool, true, false, Option, some, List, [], ◌∷◌, arith, map, length, suc, inl,
  inr,
}
use lesser.Db.{Store, ok}
use lesser.Superuser.{Crypto, Tables, AuditLog}
use lesser.Superuser.Service
use lesser.Superuser.Query
use lesser.Superuser.Handler.{
  Metadata, Request, Response, Backend, validate_auth, serve, ban_user, unban_user, delete_user,
  update_user, delete_content, batch_delete_contents, run_query, or_nil,
}
use lesser.Superuser.Audit.{batch_delete-audit_logs, IsLogged}
use lesser.Superuser.Trail.{serve-IsLogged}
use lesser.Superuser.Access.{needs_auth}
use lesser.Superuser.Sessions.{never}

-- The requests that change the tables of the other services, and the queries.
abbrev pub is_recorded : Request → Bool
is_recorded (ban_user id reason seconds) = true
is_recorded (unban_user id) = true
is_recorded (delete_user id hard) = true
is_recorded (update_user r) = true
is_recorded (delete_content id hard) = true
is_recorded (batch_delete_contents ids hard) = true
is_recorded (run_query text limit) = true
is_recorded _ = false

-- One more entry, which names the operator and the time.
abbrev pub IsRecorded : (now by : ℕ) → List AuditLog → List AuditLog → Type 0
IsRecorded now by before after =
    (e : AuditLog) × ((e.superuser_id ≡ by) × ((e.created_at ≡ now) × (after ≡ e ∷ before)))

batch_delete-ok :
    (hard : Bool) (ids : List ℕ) (s : Store Tables)
    → (r : ℕ × List ℕ) × ((Service.batch_delete never hard ids s).0 ≡ ok r)
unfolding Service.batch_delete
batch_delete-ok hard [] s = ((0, []), refl)
batch_delete-ok hard (id ∷ ids) s =
    let (deleted, t) = Service.delete_content_row never hard id s in
    let (rest, e) = batch_delete-ok hard ids t in
    (Service.counted never id deleted rest, ground (arith, e))

batch_delete_contents-length :
    (now by : ℕ) (ids : List ℕ) (hard : Bool) (s : Store Tables)
    → length (Service.batch_delete_contents never now by ids hard s).1.tables.audit_logs
      ≡ suc (length s.tables.audit_logs)
unfolding Service.batch_delete_contents Service.log_audit
batch_delete_contents-length now by ids hard s =
    let (r, e) = batch_delete-ok hard ids s in
    ground (arith, e, batch_delete-audit_logs never hard ids s)

recorded-needs_auth : (r : Request) → is_recorded r ≡ true → needs_auth r ≡ true
recorded-needs_auth r w = grind arith

-- A list that is as it was has the length that it had.
grown :
    (now by : ℕ) (before after : List AuditLog)
    → length after ≡ suc (length before)
    → IsLogged now by before after
    → IsRecorded now by before after
grown now by before after longer (inl same) = ground (arith, longer, ap length same)
grown now by before after longer (inr entry) = entry

module _ (crypto : Crypto) (now by : ℕ) (db : Backend) (fresh : ℕ) (md : Option Metadata)
    (s : Store Tables) (v : validate_auth crypto now md ≡ some by) where
  serve-length :
      (r : Request) (a : Response)
      → is_recorded r ≡ true
      → (serve crypto now db never fresh md r s).0 ≡ ok a
      → length (serve crypto now db never fresh md r s).1.tables.audit_logs
        ≡ suc (length s.tables.audit_logs)
  unfolding serve Service.ban_user Service.unban_user Service.delete_user Service.update_user
      Service.get_user Service.delete_content Service.log_audit Query.execute_query
  serve-length (ban_user id reason seconds) a w done = ground (arith, v, done)
  serve-length (unban_user id) a w done = ground (arith, v, done)
  serve-length (delete_user id hard) a w done = ground (arith, v, done)
  serve-length (update_user r) a w done = ground (arith, v, done)
  serve-length (delete_content id hard) a w done = ground (arith, v, done)
  serve-length (batch_delete_contents ids hard) a w done =
      ground (arith, v, batch_delete_contents-length now by (map or_nil ids) hard s)
  serve-length (run_query text limit) a w done = ground (arith, v, done)
  serve-length _ a w done = cc w

  -- When no statement fails: an operator's request to ban or unban a user, to change or delete a user or
  -- contents, or to run a query, if it is answered without an error, adds exactly one entry to the audit
  -- log, which names him and the time.
  pub serve-IsRecorded :
      (r : Request) (a : Response)
      → is_recorded r ≡ true
      → (serve crypto now db never fresh md r s).0 ≡ ok a
      → IsRecorded now by s.tables.audit_logs
          (serve crypto now db never fresh md r s).1.tables.audit_logs
  serve-IsRecorded r a w done =
      grown now by s.tables.audit_logs _ (serve-length r a w done)
        (serve-IsLogged never crypto now by db fresh md s v r (recorded-needs_auth r w))
