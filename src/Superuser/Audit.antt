-- ===== src/Superuser/Audit.antt =====
-- What the audit log tells.
use lesser.Common.{ℕ, ◌≡◌, refl, ◌∙◌, Bool, Option, none, some, List, [], ◌∷◌, ◌⊎◌, inl, inr, arith}
use lesser.Common.Int.{ℤ}
use lesser.Common.Text.{Text}
use lesser.Db.{pure, Store}
use lesser.Db.Laws.{bind-after}
use lesser.Superuser.{AuditLog, Tables, Action, TargetType, Details, UserRow}
use lesser.Superuser.Service.{
  log_audit, ban_user, unban_user, delete_user, update_user, delete_content, batch_delete_contents,
  batch_delete, delete_content_row,
}
use lesser.Superuser.Query.{execute_query, QueryResult}
use lesser.Superuser.Service.{counted}
use lesser.Common.{Bool-cases, ap}
use lesser.Db.{pure, ◌>>◌}

-- The log is as it was, or has one more entry, which names the operator and the time.
abbrev pub IsLogged : (now by : ℕ) → List AuditLog → List AuditLog → Type 0
IsLogged now by before after =
    (after ≡ before)
    ⊎ ((e : AuditLog) × ((e.superuser_id ≡ by) × ((e.created_at ≡ now) × (after ≡ e ∷ before))))

module _ (fails : ℕ → Bool) where
  row-audit_logs :
      (hard : Bool) (id : ℕ) (s : Store Tables)
      → (delete_content_row fails hard id s).1.tables.audit_logs ≡ s.tables.audit_logs
  row-audit_logs hard id s = ground arith

  pub batch_delete-audit_logs :
      (hard : Bool) (ids : List ℕ) (s : Store Tables)
      → (batch_delete fails hard ids s).1.tables.audit_logs ≡ s.tables.audit_logs
  unfolding batch_delete
  batch_delete-audit_logs hard [] s = refl
  batch_delete-audit_logs hard (id ∷ ids) s =
      let t = (delete_content_row fails hard id s).1 in
      bind-after (λ u. u.tables.audit_logs ≡ s.tables.audit_logs)
        (λ rest. pure (counted fails id (delete_content_row fails hard id s).0 rest))
        (batch_delete fails hard ids) t
        (batch_delete-audit_logs hard ids t ∙ row-audit_logs hard id s)
        (λ rest. batch_delete-audit_logs hard ids t ∙ row-audit_logs hard id s)

  module _ (now by : ℕ) (s : Store Tables) where
    log_audit-IsLogged :
        (action : Action) (type : Option TargetType) (target : Option ℕ) (d : Details)
        (ip : Option Text) (t : Store Tables)
        → t.tables.audit_logs ≡ s.tables.audit_logs
        → IsLogged now by s.tables.audit_logs
            (log_audit fails now by action type target d ip t).1.tables.audit_logs
    unfolding log_audit
    log_audit-IsLogged action type target d ip t e = elim (Bool-cases (fails t.statements)) [
      | inl down ↦ rw (down) (inl e)
      | inr up ↦
          let entry : AuditLog = record {
            superuser_id = by;
            action = action;
            target_type = type;
            target_id = target;
            details = d;
            ip_address = ip;
            created_at = now;
          } in
          rw (up) (inr (entry, (refl, (refl, ap (λ l. entry ∷ l) e))))
    ]

    pub ban_user-IsLogged :
        (id : ℕ) (reason : Text) (seconds : ℤ)
        → IsLogged now by s.tables.audit_logs
            (ban_user fails now by id reason seconds s).1.tables.audit_logs
    unfolding ban_user log_audit
    ban_user-IsLogged id reason seconds = ground arith

    pub unban_user-IsLogged :
        (id : ℕ)
        → IsLogged now by s.tables.audit_logs (unban_user fails now by id s).1.tables.audit_logs
    unfolding unban_user log_audit
    unban_user-IsLogged id = ground arith

    pub delete_user-IsLogged :
        (id : ℕ) (hard : Bool)
        → IsLogged now by s.tables.audit_logs
            (delete_user fails now by id hard s).1.tables.audit_logs
    unfolding delete_user log_audit
    delete_user-IsLogged id hard = ground arith

    pub update_user-IsLogged :
        (u : UserRow)
        → IsLogged now by s.tables.audit_logs (update_user fails now by u s).1.tables.audit_logs
    unfolding update_user log_audit
    update_user-IsLogged u = ground arith

    pub delete_content-IsLogged :
        (id : ℕ) (hard : Bool)
        → IsLogged now by s.tables.audit_logs
            (delete_content fails now by id hard s).1.tables.audit_logs
    unfolding delete_content log_audit
    delete_content-IsLogged id hard = ground arith

    pub batch_delete_contents-IsLogged :
        (ids : List ℕ) (hard : Bool)
        → IsLogged now by s.tables.audit_logs
            (batch_delete_contents fails now by ids hard s).1.tables.audit_logs
    unfolding batch_delete_contents
    batch_delete_contents-IsLogged ids hard =
        bind-after (λ t. IsLogged now by s.tables.audit_logs t.tables.audit_logs)
          (λ r.
            log_audit fails now by Action.batch_delete_contents (some TargetType.content) none
              (Details.batch ids hard r.0 r.1) none
            >> pure r)
          (batch_delete fails hard ids) s (inl (batch_delete-audit_logs hard ids s))
          (λ r.
            let t = (batch_delete fails hard ids s).1 in
            let rest =
              log_audit-IsLogged Action.batch_delete_contents (some TargetType.content) none
                (Details.batch ids hard r.0 r.1) none t (batch_delete-audit_logs hard ids s) in
            bind-after (λ t. IsLogged now by s.tables.audit_logs t.tables.audit_logs) (λ _. pure r)
              (log_audit fails now by Action.batch_delete_contents (some TargetType.content) none
                (Details.batch ids hard r.0 r.1) none)
              t rest (λ _. rest))

    pub execute_query-IsLogged :
        (run : Text → Tables → Option QueryResult) (text : Text) (limit : ℤ)
        → IsLogged now by s.tables.audit_logs
            (execute_query fails run now by text limit s).1.tables.audit_logs
    unfolding execute_query log_audit
    execute_query-IsLogged run text limit = ground arith
