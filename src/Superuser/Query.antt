-- ===== src/Superuser/Query.antt =====
-- Reading queries of an administrator: ExecuteQuery of internal/data_access/system_data_access.go. The
-- database is an argument, which answers a text with the rows, or `none` for an error.
use lesser.Common.{
  ℕ, zero, suc, ◌+◌, ◌-◌, ◌/◌, ◌%◌, Bool, true, false, ◌&&◌, ◌||◌, not, Option, none, some, List,
  [], ◌∷◌, ◌++◌, map, ◌==◌, ltb, leb, any, if◌then◌else◌,
}
use lesser.Common.Int.{ℤ, pos, leb_ℤ, pos_part}
use lesser.Common.Text.{Text, codes, trim_space, has_prefix}
use lesser.Db.{Exec, pure, fail, ◌>>=◌, ◌>>◌, branch, query}
use lesser.Superuser
use lesser.Superuser.{Tables, Error, query_refused}
use lesser.Superuser.Service.{log_audit, found}

-- unicode.ToUpper, as far as it gives an ASCII letter: the letters, ı and ſ.
unfoldable pub to_upper : ℕ → ℕ
to_upper c =
    if leb 97 c && leb c 122
    then c - 32
    else if c == 0x131
    then 73
    else if c == 0x17f
    then 83
    else c

-- `strings.Contains`
abbrev pub contains : Text → Text → Bool
contains [] pattern = has_prefix [] pattern
contains (c ∷ s) pattern = if has_prefix (c ∷ s) pattern then true else contains s pattern

-- `strings.TrimSuffix(s, ";")`
abbrev pub trim_semicolon : Text → Text
trim_semicolon [] = []
trim_semicolon (c ∷ []) = if c == 59 then [] else c ∷ []
trim_semicolon (c ∷ d ∷ s) = c ∷ trim_semicolon (d ∷ s)

abbrev pub has_semicolon : Text → Bool
has_semicolon s = any (λ c. c == 59) s

unfoldable pub normalized_query : Text → Text
normalized_query query = map to_upper (trim_space query)

abbrev pub dangerous_patterns : List Text
dangerous_patterns =
    codes "INSERT"
    ∷ codes "UPDATE"
    ∷ codes "DELETE"
    ∷ codes "DROP"
    ∷ codes "TRUNCATE"
    ∷ codes "ALTER"
    ∷ codes "CREATE"
    ∷ codes "GRANT"
    ∷ codes "REVOKE"
    ∷ codes "EXECUTE"
    ∷ codes "EXEC"
    ∷ codes "INTO"
    ∷ codes "COPY"
    ∷ codes "LOAD"
    ∷ codes "VACUUM"
    ∷ codes "REINDEX"
    ∷ codes "CLUSTER"
    ∷ codes "COMMENT"
    ∷ codes "SECURITY"
    ∷ codes "SET "
    ∷ codes "RESET"
    ∷ codes "DISCARD"
    ∷ codes "LOCK"
    ∷ codes "UNLISTEN"
    ∷ codes "NOTIFY"
    ∷ codes "LISTEN"
    ∷ codes "PREPARE"
    ∷ codes "DEALLOCATE"
    ∷ []

abbrev pub contains_any : Text → List Text → Bool
contains_any s [] = false
contains_any s (p ∷ ps) = if contains s p then true else contains_any s ps

-- A semicolon that is not the last sign.
abbrev pub has_inner_semicolon : Text → Bool
has_inner_semicolon query =
    has_semicolon query && has_semicolon (trim_space (trim_semicolon (trim_space query)))

unfoldable pub is_refused : Text → Bool
is_refused query =
    not (has_prefix (normalized_query query) (codes "SELECT"))
    || (contains_any (normalized_query query) dangerous_patterns
        || (has_inner_semicolon query
            || (contains query (codes "--") || contains query (codes "/*"))))

abbrev pub limit_of : ℤ → ℕ
limit_of limit =
    if leb_ℤ limit (pos 0) then 100 else if ltb 1000 (pos_part limit) then 1000 else pos_part limit

-- `%d`, of a number of at most as many digits as the fuel.
abbrev pub digits : ℕ → ℕ → Text
digits zero n = []
digits (suc fuel) n =
    let rest = digits fuel (n / 10) in
    if ltb n 10 then (48 + n) ∷ [] else rest ++ (48 + n % 10) ∷ []

-- The text that goes to the database: a limit is added to a query without the word. Four digits are
-- enough for a limit.
unfoldable pub limited_query : Text → ℤ → Text
limited_query query limit =
    if not (contains (normalized_query query) (codes "LIMIT"))
    then trim_semicolon (trim_space query) ++ codes " LIMIT " ++ digits 4 (limit_of limit)
    else query

pub record QueryResult : Type 0 where
  pub columns : List Text
  pub rows : List (List Text)
  pub row_count : ℕ

module _ (fails : ℕ → Bool) (run : Text → Tables → Option QueryResult) where
  -- A query that is refused, or fails, is not in the audit log.
  unfoldable pub execute_query : (now by : ℕ) → Text → ℤ → Exec Error Tables QueryResult
  unfolding log_audit
  execute_query now by text limit = branch (is_refused text) (fail query_refused) do
    answer ← query fails (run (limited_query text limit))
    result ← found query_refused answer
    log_audit fails now by Superuser.execute_query (some Superuser.system) none
        (Superuser.queried text result.row_count) none
    pure result
