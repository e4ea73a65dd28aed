-- ===== src/Users/Visibility.antt =====
-- `GetRelationship` from both sides, and what each side may see of the other.
use lesser.Common.{ℕ, ◌≡◌, Bool, not, arith}
use lesser.Db.{Store, ok}
use lesser.Users.{RelationshipStatus, Tables}
use lesser.Users.Service.{
  get_relationship, can_view_profile, can_be_viewed, can_view_content, can_see_content,
}

-- The same relationship seen from the other side.
pub record IsMirror (r q : RelationshipStatus) : Type 0 where
  pub following : r.is_following ≡ q.is_followed_by
  pub followed_by : r.is_followed_by ≡ q.is_following
  pub both_ways : r.is_mutual ≡ q.is_mutual
  pub blocking : r.is_blocking ≡ q.is_blocked_by
  pub blocked_by : r.is_blocked_by ≡ q.is_blocking
  pub may_view : can_view_profile r ≡ can_be_viewed q
  pub may_be_viewed : can_be_viewed r ≡ can_view_profile q

module _ (fails later : ℕ → Bool) (a b : ℕ) (s u : Store Tables) (r : RelationshipStatus)
    (read : (get_relationship fails a b s).0 ≡ ok r) where
  -- Two users who ask on the same tables are told mirror images of one relationship.
  pub get_relationship-IsMirror :
      (q : RelationshipStatus)
      → u.tables ≡ s.tables
      → (get_relationship later b a u).0 ≡ ok q
      → IsMirror r q
  unfolding get_relationship can_view_profile can_be_viewed
  get_relationship-IsMirror q same back = ground arith

  -- The content filter and the profile agree on who may see whom, and a muted user's content is
  -- exactly what the viewer does not want to see.
  pub get_relationship-content :
      (x y : Bool)
      → u.tables ≡ s.tables
      → (can_view_content later a b u).0 ≡ ok x
      → (can_see_content later a b u).0 ≡ ok y
      → (x ≡ can_view_profile r) × (y ≡ not r.is_muting)
  unfolding get_relationship can_view_profile can_view_content can_see_content
  get_relationship-content x y same view see = ground arith
