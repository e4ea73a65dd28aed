-- ===== src/Superuser/Statements.antt =====
-- The SQL statements of service/superuser/internal/data_access.
use lesser.Common.{
  ℕ, ◌+◌, Bool, true, false, ◌&&◌, not, Option, none, some, ◌∷◌, map, ◌==◌, ltb, any, find, remove,
  if◌then◌else◌,
}
use lesser.Common.Text.{Text}
use lesser.Superuser.{SuperUser, Session, AuditLog, Ban, UserRow, Tables}

abbrev pub is_some {ℓ} : {A : Type ℓ} → Option A → Bool
is_some none = false
is_some (some a) = true

abbrev pub set_at {ℓ} : {A : Type ℓ} → ℕ → A → (ℕ → A) → ℕ → A
set_at i a f j = if j == i then a else f j

abbrev pub superuser_by_username : ℕ → Tables → Option SuperUser
superuser_by_username n t = find (λ s. s.username == n) t.superusers

abbrev pub superuser_by_id : ℕ → Tables → Option SuperUser
superuser_by_id id t = find (λ s. s.id == id) t.superusers

abbrev pub update_login_info : (now id : ℕ) → Text → Tables → Tables
update_login_info now id ip t = record t {
  superusers =
      map
        (λ s.
          if s.id == id
          then record s {
            last_login_at = some now;
            last_login_ip = some ip;
            login_count = s.login_count + 1;
          }
          else s)
        t.superusers;
}

-- revoked_at IS NULL
abbrev pub is_open : Session → Bool
is_open s = not (is_some s.revoked_at)

-- WHERE token_hash = $1 AND revoked_at IS NULL AND expires_at > $2
abbrev pub is_live : (now hash : ℕ) → Session → Bool
is_live now hash s = s.token_hash == hash && (is_open s && ltb now s.expires_at)

abbrev pub session_of : (now hash : ℕ) → Tables → Option Session
session_of now hash t = find (is_live now hash) t.sessions

-- The index on the hashes of the sessions that are not revoked.
abbrev pub has_open_session : ℕ → Tables → Bool
has_open_session hash t = any (λ s. s.token_hash == hash && is_open s) t.sessions

abbrev pub insert_session : Session → Tables → Tables
insert_session s t = record t { sessions = s ∷ t.sessions }

abbrev pub revoke_where : (Session → Bool) → ℕ → Tables → Tables
revoke_where test now t = record t {
  sessions =
      map (λ s. if test s && is_open s then record s { revoked_at = some now } else s) t.sessions;
}

abbrev pub insert_audit_log : AuditLog → Tables → Tables
insert_audit_log l t = record t { audit_logs = l ∷ t.audit_logs }

abbrev pub user_by_id : ℕ → Tables → Option UserRow
user_by_id id t = find (λ u. u.id == id) t.users

abbrev pub update_user_row : UserRow → Tables → Tables
update_user_row u t = record t {
  users =
      map
        (λ w.
          if w.id == u.id
          then record w {
            username = u.username;
            email = u.email;
            display_name = u.display_name;
            bio = u.bio;
            is_active = u.is_active;
          }
          else w)
        t.users;
}

abbrev pub soft_delete_user : ℕ → Tables → Tables
soft_delete_user id t = record t {
  users = map (λ w. if w.id == id then record w { is_active = false } else w) t.users;
}

-- The rows that refer to the user go with it: his ban and his contents.
abbrev pub hard_delete_user : ℕ → Tables → Tables
hard_delete_user id t = record t {
  users = remove (λ w. w.id == id) t.users;
  bans = set_at id none t.bans;
  contents = remove (λ c. c.author_id == id) t.contents;
}

abbrev pub deactivate_ban : ℕ → Tables → Tables
deactivate_ban id t = record t { bans = set_at id none t.bans }

abbrev pub insert_ban : ℕ → Ban → Tables → Tables
insert_ban id b t = record t { bans = set_at id (some b) t.bans }

-- The status 4 is that of a deleted content.
abbrev pub soft_delete_content : ℕ → Tables → Tables
soft_delete_content id t = record t {
  contents = map (λ c. if c.id == id then record c { status = 4 } else c) t.contents;
}

abbrev pub hard_delete_content : ℕ → Tables → Tables
hard_delete_content id t = record t { contents = remove (λ c. c.id == id) t.contents }
