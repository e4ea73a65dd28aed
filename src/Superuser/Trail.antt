-- ===== src/Superuser/Trail.antt =====
-- What each request leaves in the audit log.
use lesser.Common.{ℕ, ◌≡◌, Bool, true, Option, none, some, List, arith, map}
use lesser.Common.Int.{ℤ}
use lesser.Common.Text.{Text}
use lesser.Db.{Store}
use lesser.Superuser.{Crypto, Tables}
use lesser.Superuser.Service
use lesser.Superuser.Lists
use lesser.Superuser.Handler
use lesser.Superuser.Handler.{
  Metadata, Request, Response, Backend, validate_auth, serve, login, logout, refresh_token,
  list_users, get_user, ban_user, unban_user, delete_user, update_user, list_contents,
  delete_content, batch_delete_contents, get_system_stats, run_query, get_audit_logs, with_update,
  or_nil,
}
use lesser.Superuser.Access.{needs_auth}
use lesser.Superuser.Audit.{IsLogged}
use lesser.Superuser.Audit

module _ (fails : ℕ → Bool) (crypto : Crypto) (now by : ℕ) (db : Backend) (fresh : ℕ)
    (md : Option Metadata) (s : Store Tables) (v : validate_auth crypto now md ≡ some by) where
  abbrev After : Request → Type 0
  After r =
      IsLogged now by s.tables.audit_logs
        (serve crypto now db fails fresh md r s).1.tables.audit_logs

  list_users-IsLogged : (f : Lists.UserFilter) → After (list_users f)
  unfolding serve Lists.list_users
  list_users-IsLogged f = ground (arith, v)

  get_user-IsLogged : (id : Option ℕ) → After (get_user id)
  unfolding serve Service.get_user
  get_user-IsLogged id = ground (arith, v)

  list_contents-IsLogged : (f : Lists.ContentFilter) → After (list_contents f)
  unfolding serve Lists.list_contents
  list_contents-IsLogged f = ground (arith, v)

  get_audit_logs-IsLogged : (f : Lists.AuditLogFilter) → After (get_audit_logs f)
  unfolding serve Lists.get_audit_logs
  get_audit_logs-IsLogged f = ground (arith, v)

  get_system_stats-IsLogged : After get_system_stats
  unfolding serve Lists.get_system_stats
  get_system_stats-IsLogged = ground (arith, v)

  ban_user-IsLogged :
      (id : Option ℕ) (reason : Text) (seconds : ℤ) → After (ban_user id reason seconds)
  unfolding serve
  ban_user-IsLogged none reason seconds = ground (arith, v)
  ban_user-IsLogged (some id) reason seconds =
      ground (arith, v, Audit.ban_user-IsLogged fails now by s id reason seconds)

  unban_user-IsLogged : (id : Option ℕ) → After (unban_user id)
  unfolding serve
  unban_user-IsLogged none = ground (arith, v)
  unban_user-IsLogged (some id) = ground (arith, v, Audit.unban_user-IsLogged fails now by s id)

  delete_user-IsLogged : (id : Option ℕ) (hard : Bool) → After (delete_user id hard)
  unfolding serve
  delete_user-IsLogged none hard = ground (arith, v)
  delete_user-IsLogged (some id) hard =
      ground (arith, v, Audit.delete_user-IsLogged fails now by s id hard)

  delete_content-IsLogged : (id : Option ℕ) (hard : Bool) → After (delete_content id hard)
  unfolding serve
  delete_content-IsLogged none hard = ground (arith, v)
  delete_content-IsLogged (some id) hard =
      ground (arith, v, Audit.delete_content-IsLogged fails now by s id hard)

  batch_delete_contents-IsLogged :
      (ids : List (Option ℕ)) (hard : Bool) → After (batch_delete_contents ids hard)
  unfolding serve
  batch_delete_contents-IsLogged ids hard =
      ground (arith, v, Audit.batch_delete_contents-IsLogged fails now by s (map or_nil ids) hard)

  run_query-IsLogged : (text : Text) (limit : ℤ) → After (run_query text limit)
  unfolding serve
  run_query-IsLogged text limit =
      ground (arith, v, Audit.execute_query-IsLogged fails now by s db.run text limit)

  update_user-IsLogged : (r : Handler.UpdateUserRequest) → After (update_user r)
  unfolding serve Service.get_user Service.update_user Service.log_audit
  update_user-IsLogged r = ground (arith, v)

  -- Whatever fails: a request of an operator, other than a login, a logout, a refresh and a validation,
  -- leaves the audit log as it was or adds one entry, which names him and the time.
  pub serve-IsLogged :
      (r : Request)
      → needs_auth r ≡ true
      → IsLogged now by s.tables.audit_logs
          (serve crypto now db fails fresh md r s).1.tables.audit_logs
  serve-IsLogged (login username password) needs = cc needs
  serve-IsLogged (logout token) needs = cc needs
  serve-IsLogged (refresh_token token) needs = cc needs
  serve-IsLogged (Handler.validate_token token) needs = cc needs
  serve-IsLogged (list_users f) needs = list_users-IsLogged f
  serve-IsLogged (get_user id) needs = get_user-IsLogged id
  serve-IsLogged (ban_user id reason seconds) needs = ban_user-IsLogged id reason seconds
  serve-IsLogged (unban_user id) needs = unban_user-IsLogged id
  serve-IsLogged (delete_user id hard) needs = delete_user-IsLogged id hard
  serve-IsLogged (update_user r) needs = update_user-IsLogged r
  serve-IsLogged (list_contents f) needs = list_contents-IsLogged f
  serve-IsLogged (delete_content id hard) needs = delete_content-IsLogged id hard
  serve-IsLogged (batch_delete_contents ids hard) needs = batch_delete_contents-IsLogged ids hard
  serve-IsLogged get_system_stats needs = get_system_stats-IsLogged
  serve-IsLogged (run_query text limit) needs = run_query-IsLogged text limit
  serve-IsLogged (get_audit_logs f) needs = get_audit_logs-IsLogged f
