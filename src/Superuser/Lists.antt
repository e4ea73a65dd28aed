-- ===== src/Superuser/Lists.antt =====
-- The lists of the administrators' service and its statistics. A search in a text, and the order in
-- which the database puts the rows, are arguments.
use lesser.Common.{
  ℕ, ◌-◌, ◌*◌, Bool, true, false, ◌&&◌, ◌||◌, not, Option, none, some, List, [], ◌∷◌, ◌==◌, leb,
  filter, take, drop, length, count_by, if◌then◌else◌,
}
use lesser.Common.Int.{ℤ, pos, ltb_ℤ, pos_part}
use lesser.Common.Text.{Text, same_text, codes, is_empty}
use lesser.Db.{Exec, pure, ◌>>=◌, query}
use lesser.Superuser.{AuditLog, UserRow, ContentRow, Tables, Error, Action}
use lesser.Superuser.Statements.{is_some}

pub record UserFilter : Type 0 where
  pub search : Option Text
  pub status : Option Text
  pub sort_by : Text
  pub sort_order : Text
  pub page : ℤ
  pub page_size : ℤ

pub record ContentFilter : Type 0 where
  pub author_id : Option ℕ
  pub type : Option ℕ
  pub status : Option ℕ
  pub search : Option Text
  pub sort_by : Text
  pub sort_order : Text
  pub page : ℤ
  pub page_size : ℤ

pub record AuditLogFilter : Type 0 where
  pub superuser_id : Option ℕ
  pub is_action : Option (Action → Bool)
  pub start_time : Option ℕ
  pub end_time : Option ℕ
  pub page : ℤ
  pub page_size : ℤ

abbrev pub page_of : ℤ → ℕ
page_of page = if ltb_ℤ page (pos 1) then 1 else pos_part page

-- There is no greatest size.
abbrev pub size_of : ℤ → ℕ
size_of size = if ltb_ℤ size (pos 1) then 20 else pos_part size

abbrev pub page_rows {ℓ} : {A : Type ℓ} → ℤ → ℤ → List A → List A
page_rows page size rows = take (size_of size) (drop ((page_of page - 1) * size_of size) rows)

abbrev pub one_of : Text → List Text → Bool
one_of s [] = false
one_of s (t ∷ ts) = if same_text s t then true else one_of s ts

-- The columns that may be sorted by, and otherwise the time of creation.
abbrev pub sort_column : List Text → Text → Text
sort_column allowed s = if one_of s allowed then s else codes "created_at"

abbrev pub user_columns : List Text
user_columns =
    codes "username"
    ∷ codes "email"
    ∷ codes "followers_count"
    ∷ codes "following_count"
    ∷ codes "posts_count"
    ∷ codes "created_at"
    ∷ []

abbrev pub content_columns : List Text
content_columns =
    codes "like_count"
    ∷ codes "comment_count"
    ∷ codes "repost_count"
    ∷ codes "view_count"
    ∷ codes "created_at"
    ∷ codes "published_at"
    ∷ []

abbrev pub is_ascending : Text → Bool
is_ascending order = same_text order (codes "asc")

-- A condition of a filter that is left out holds.
abbrev pub equals_option : Option ℕ → ℕ → Bool
equals_option none x = true
equals_option (some y) x = x == y

abbrev pub search_holds {ℓ} : {A : Type ℓ} → (Text → A → Bool) → Option Text → A → Bool
search_holds like none x = true
search_holds like (some s) x = is_empty s || like s x

-- Any other status is no condition.
abbrev pub status_holds : Option Text → Bool → Bool → Bool
status_holds none active banned = true
status_holds (some s) active banned =
    if same_text s (codes "active")
    then active && not banned
    else if same_text s (codes "banned")
    then banned
    else true

abbrev pub content_holds : (Text → ContentRow → Bool) → ContentFilter → ContentRow → Bool
content_holds like f c =
    equals_option f.author_id c.author_id
    && (equals_option f.type c.type
        && (equals_option f.status c.status && search_holds like f.search c))

abbrev pub since : Option ℕ → ℕ → Bool
since none t = true
since (some s) t = leb s t

abbrev pub before : Option ℕ → ℕ → Bool
before none t = true
before (some s) t = leb t s

abbrev pub action_holds : Option (Action → Bool) → Action → Bool
action_holds none a = true
action_holds (some test) a = test a

abbrev pub log_holds : AuditLogFilter → AuditLog → Bool
log_holds f l =
    equals_option f.superuser_id l.superuser_id
    && (action_holds f.is_action l.action
        && (since f.start_time l.created_at && before f.end_time l.created_at))

module _ (fails : ℕ → Bool) where
  unfoldable pub list_users :
      (like : Text → UserRow → Bool) (sorted : Text → Bool → List UserRow → List UserRow)
      → UserFilter
      → Exec Error Tables (List UserRow × ℕ)
  list_users like sorted f = do
    total ← query fails (λ t.
        count_by
          (λ u.
            search_holds like f.search u
            && status_holds f.status u.is_active (is_some (t.bans u.id)))
          t.users)
    users ← query fails (λ t. page_rows f.page f.page_size (
        sorted (sort_column user_columns f.sort_by) (is_ascending f.sort_order) (
          filter
            (λ u.
              search_holds like f.search u
              && status_holds f.status u.is_active (is_some (t.bans u.id)))
            t.users)))
    pure (users, total)

  unfoldable pub list_contents :
      (like : Text → ContentRow → Bool) (sorted : Text → Bool → List ContentRow → List ContentRow)
      → ContentFilter
      → Exec Error Tables (List ContentRow × ℕ)
  list_contents like sorted f = do
    total ← query fails (λ t. count_by (content_holds like f) t.contents)
    contents ← query fails (λ t. page_rows f.page f.page_size (
        sorted (sort_column content_columns f.sort_by) (is_ascending f.sort_order)
          (filter (content_holds like f) t.contents)))
    pure (contents, total)

  -- The newest first.
  unfoldable pub get_audit_logs : AuditLogFilter → Exec Error Tables (List AuditLog × ℕ)
  get_audit_logs f = do
    total ← query fails (λ t. count_by (log_holds f) t.audit_logs)
    logs ← query fails (λ t. page_rows f.page f.page_size (filter (log_holds f) t.audit_logs))
    pure (logs, total)

pub record SystemStats : Type 0 where
  pub total_users : ℕ
  pub active_users : ℕ
  pub banned_users : ℕ
  pub total_contents : ℕ
  pub total_comments : ℕ
  pub total_likes : ℕ
  pub total_messages : ℕ

module _ (fails : ℕ → Bool) where
  -- The comments and the likes are in tables of other services: what the database answers for them is
  -- an argument. The messages are not counted.
  unfoldable pub get_system_stats : (comments likes : ℕ) → Exec Error Tables SystemStats
  get_system_stats comments likes = do
    users ← query fails (λ t. length t.users)
    active ← query fails (λ t. count_by (λ u. u.is_active) t.users)
    banned ← query fails (λ t. count_by (λ u. is_some (t.bans u.id)) t.users)
    contents ← query fails (λ t. length t.contents)
    total_comments ← query fails (λ t. comments)
    total_likes ← query fails (λ t. likes)
    pure record {
      total_users = users;
      active_users = active;
      banned_users = banned;
      total_contents = contents;
      total_comments = total_comments;
      total_likes = total_likes;
      total_messages = 0;
    }
