-- ===== src/Notification/Delivery.antt =====
-- Events that are delivered more than once, with statements failing.
use lesser.Common.{
  ℕ, suc, ◌≤◌, ◌≡◌, ◌≢◌, ap, ◌∙◌, Bool, true, false, ◌&&◌, ◌||◌, not, Option, none, some, List, [],
  ◌∷◌, ◌==◌, any, count_by, refl, arith,
}
use lesser.Common.Text.{Text}
use lesser.Db.{Store, ok, Exec, pure, ◌>>=◌, branch}
use lesser.Db.Laws.{bind-after}
use lesser.Notification.{TargetType, Notification, Tables, Error}
use lesser.Notification.Service.{
  is_duplicate, create, truncate_text, notification_type_like, notification_type_comment,
  notification_type_reply, notification_type_bookmark, notification_type_mention,
  notification_type_follow, notification_type_repost,
}
use lesser.Notification.Events.{
  Event, content_liked, content_bookmarked, content_reposted, comment_created, comment_liked,
  user_followed, user_mentioned, handle,
}

abbrev pub is_own : Notification → Bool
is_own n = n.user_id == n.actor_id

-- A notification of a user, by its columns.
abbrev pub is_act : (user actor target type : ℕ) → Notification → Bool
is_act u actor target type n =
    n.user_id == u && (n.actor_id == actor && (n.target_id == target && n.type == type))

-- No user is told twice of one act that has an actor and a target, and none of his own.
pub record IsDistinct (t : Tables) : Type 0 where
  pub once :
      (u actor target type : ℕ)
      → actor ≢ 0
      → target ≢ 0
      → count_by (is_act u actor target type) t.notifications ≤ 1
  pub others : count_by is_own t.notifications ≡ 0

-- Where the identifiers are not empty, a search that finds no duplicate has missed no row.
is_act-absent :
    (u actor target type : ℕ) (ns : List Notification)
    → actor ≢ 0
    → target ≢ 0
    → any (is_duplicate u actor target type) ns ≡ false
    → count_by (is_act u actor target type) ns ≡ 0
is_act-absent u actor target type [] ne nz h = refl
is_act-absent u actor target type (n ∷ ns) ne nz h =
    ground (arith, ne, nz, h, is_act-absent u actor target type ns ne nz)

-- A handler that calls `create` and drops what it gives.
abbrev pub notify :
    (ℕ → Bool) → (fresh u type actor : ℕ) → TargetType → ℕ → Text → Exec Error Tables (Unit {0})
notify fails fresh u type actor target_type target message =
    create fails fresh u type actor target_type target message >>= λ _. pure tt

module _ (fails : ℕ → Bool) (fresh u type actor : ℕ) (target_type : TargetType) (target : ℕ)
    (message : Text) (s : Store Tables) where
  notify-IsDistinct :
      IsDistinct s.tables
      → IsDistinct (notify fails fresh u type actor target_type target message s).1.tables
  unfolding create
  notify-IsDistinct v = record {
    once = λ a b c d ne nz. ground (
      arith,
      ne,
      nz,
      v.once a b c d ne nz,
      is_act-absent u actor target type s.tables.notifications,
    );
    others = ground (arith, v.others);
  }

  -- What a call that returns leaves: there is nothing to tell, or it has been told.
  notify-settles :
      actor ≢ 0
      → target ≢ 0
      → (notify fails fresh u type actor target_type target message s).0 ≡ ok tt
      → (u == actor
          || any
              (is_duplicate u actor target type)
              (notify fails fresh u type actor target_type target message s).1.tables.notifications)
        ≡ true
  unfolding create
  notify-settles ne nz e = ground arith

  notify-settled :
      (u == actor || any (is_duplicate u actor target type) s.tables.notifications) ≡ true
      → (notify fails fresh u type actor target_type target message s).1.tables ≡ s.tables
  unfolding create
  notify-settled h = ground arith

  notify-keeps :
      (test : Notification → Bool)
      → any test s.tables.notifications ≡ true
      → any test
          (notify fails fresh u type actor target_type target message s).1.tables.notifications
        ≡ true
  unfolding create
  notify-keeps test h = ground arith

abbrev pub told : Tables → (u type actor target : ℕ) → Bool
told t u type actor target = u == actor || any (is_duplicate u actor target type) t.notifications

-- The identifiers of an event that its notifications store are not empty.
abbrev pub IsNamed : Event → Type 0
IsNamed (content_liked author liker content) = (liker ≢ 0) × (content ≢ 0)
IsNamed (content_bookmarked author bookmarker content) = (bookmarker ≢ 0) × (content ≢ 0)
IsNamed (content_reposted author reposter content) = (reposter ≢ 0) × (content ≢ 0)
IsNamed (comment_created comment author content content_author parent parent_author text) =
    (author ≢ 0) × (comment ≢ 0) × (content ≢ 0)
IsNamed (comment_liked author liker comment) = (liker ≢ 0) × (comment ≢ 0)
IsNamed (user_followed follower following) = follower ≢ 0
IsNamed (user_mentioned mentioned mentioner target_type target) = (mentioner ≢ 0) × (target ≢ 0)

-- Whether the tables hold every notification that the event asks for.
abbrev pub is_told : Tables → Event → Bool
is_told t (content_liked author liker content) = told t author notification_type_like liker content
is_told t (content_bookmarked author bookmarker content) =
    told t author notification_type_bookmark bookmarker content
is_told t (content_reposted author reposter content) =
    told t author notification_type_repost reposter content
is_told t (comment_created comment author content content_author parent parent_author text) =
    (not (not (parent == 0) && not (parent_author == 0))
      || told t parent_author notification_type_reply author comment)
    && (not (not (content_author == 0) && not (content_author == parent_author))
        || told t content_author notification_type_comment author content)
is_told t (comment_liked author liker comment) = told t author notification_type_like liker comment
is_told t (user_followed follower following) =
    told t following notification_type_follow follower follower
is_told t (user_mentioned mentioned mentioner target_type target) =
    told t mentioned notification_type_mention mentioner target

module _ (fails : ℕ → Bool) (fresh : ℕ) where
  comment_created-settles :
      (comment author content content_author parent parent_author : ℕ) (text : Text)
      (s : Store Tables)
      → author ≢ 0
      → comment ≢ 0
      → content ≢ 0
      → (handle fails fresh
          (some (comment_created comment author content content_author parent parent_author text))
          s).0
        ≡ ok tt
      → is_told
          (handle fails fresh
            (some (comment_created comment author content content_author parent parent_author text))
            s).1.tables
          (comment_created comment author content content_author parent parent_author text)
        ≡ true
  unfolding handle create
  comment_created-settles comment author content content_author parent parent_author text s ne nz nc
        h =
      ground arith

  comment_created-settled :
      (comment author content content_author parent parent_author : ℕ) (text : Text)
      (s : Store Tables)
      → is_told s.tables
          (comment_created comment author content content_author parent parent_author text)
        ≡ true
      → (handle fails fresh
          (some (comment_created comment author content content_author parent parent_author text))
          s).1.tables
        ≡ s.tables
  unfolding handle create
  comment_created-settled comment author content content_author parent parent_author text s h =
      ground arith

  handle-settles :
      (e : Event) (s : Store Tables)
      → IsNamed e
      → (handle fails fresh (some e) s).0 ≡ ok tt
      → is_told (handle fails fresh (some e) s).1.tables e ≡ true
  unfolding handle
  handle-settles (content_liked author liker content) s (ne, nz) h =
      notify-settles fails fresh author notification_type_like liker TargetType.content content [] s
        ne nz h
  handle-settles (content_bookmarked author bookmarker content) s (ne, nz) h =
      notify-settles fails fresh author notification_type_bookmark bookmarker TargetType.content
        content [] s ne nz h
  handle-settles (content_reposted author reposter content) s (ne, nz) h =
      notify-settles fails fresh author notification_type_repost reposter TargetType.content content
        [] s ne nz h
  handle-settles (comment_created comment author content content_author parent parent_author text) s
        (ne, nz, nc) h =
      comment_created-settles comment author content content_author parent parent_author text s ne
        nz nc h
  handle-settles (comment_liked author liker comment) s (ne, nz) h =
      notify-settles fails fresh author notification_type_like liker TargetType.comment comment [] s
        ne nz h
  handle-settles (user_followed follower following) s ne h =
      notify-settles fails fresh following notification_type_follow follower TargetType.user
        follower [] s ne ne h
  handle-settles (user_mentioned mentioned mentioner target_type target) s (ne, nz) h =
      notify-settles fails fresh mentioned notification_type_mention mentioner target_type target []
        s ne nz h

  handle-settled :
      (e : Event) (s : Store Tables)
      → is_told s.tables e ≡ true
      → (handle fails fresh (some e) s).1.tables ≡ s.tables
  unfolding handle
  handle-settled (content_liked author liker content) s h =
      notify-settled fails fresh author notification_type_like liker TargetType.content content [] s
        h
  handle-settled (content_bookmarked author bookmarker content) s h =
      notify-settled fails fresh author notification_type_bookmark bookmarker TargetType.content
        content [] s h
  handle-settled (content_reposted author reposter content) s h =
      notify-settled fails fresh author notification_type_repost reposter TargetType.content content
        [] s h
  handle-settled (comment_created comment author content content_author parent parent_author text) s
        h =
      comment_created-settled comment author content content_author parent parent_author text s h
  handle-settled (comment_liked author liker comment) s h =
      notify-settled fails fresh author notification_type_like liker TargetType.comment comment [] s
        h
  handle-settled (user_followed follower following) s h =
      notify-settled fails fresh following notification_type_follow follower TargetType.user
        follower [] s h
  handle-settled (user_mentioned mentioned mentioner target_type target) s h =
      notify-settled fails fresh mentioned notification_type_mention mentioner target_type target []
        s h

-- An event whose handler has returned without an error, and whose identifiers are not empty, may be
-- delivered again: the handler then changes no table, whatever statements fail.
pub handle-again :
    (fails later : ℕ → Bool) (fresh newer : ℕ) (e : Event) (s t : Store Tables)
    → IsNamed e
    → (handle fails fresh (some e) s).0 ≡ ok tt
    → t.tables ≡ (handle fails fresh (some e) s).1.tables
    → (handle later newer (some e) t).1.tables ≡ t.tables
handle-again fails later fresh newer e s t named done same =
    handle-settled later newer e t
      (ap (λ x. is_told x e) same ∙ handle-settles fails fresh e s named done)

-- One delivery: which statements fail, the identifier for a new row, and the event if there is one.
pub record Delivery : Type 0 where
  pub fails : ℕ → Bool
  pub fresh : ℕ
  pub event : Option Event

abbrev pub deliver : Delivery → Store Tables → Store Tables
deliver d s = (handle d.fails d.fresh d.event s).1

abbrev pub deliver_all : List Delivery → Store Tables → Store Tables
deliver_all [] s = s
deliver_all (d ∷ ds) s = deliver_all ds (deliver d s)

branch-IsDistinct :
    (b : Bool) (m n : Exec Error Tables (Unit {0})) (s : Store Tables)
    → IsDistinct (m s).1.tables
    → IsDistinct (n s).1.tables
    → IsDistinct (branch b m n s).1.tables
branch-IsDistinct true m n s v w = v
branch-IsDistinct false m n s v w = w

handle-IsDistinct :
    (fails : ℕ → Bool) (fresh : ℕ) (e : Option Event) (s : Store Tables)
    → IsDistinct s.tables
    → IsDistinct (handle fails fresh e s).1.tables
unfolding handle
handle-IsDistinct fails fresh none s v = v
handle-IsDistinct fails fresh (some (content_liked author liker content)) s v =
    notify-IsDistinct fails fresh author notification_type_like liker TargetType.content content []
      s v
handle-IsDistinct fails fresh (some (content_bookmarked author bookmarker content)) s v =
    notify-IsDistinct fails fresh author notification_type_bookmark bookmarker TargetType.content
      content [] s v
handle-IsDistinct fails fresh (some (content_reposted author reposter content)) s v =
    notify-IsDistinct fails fresh author notification_type_repost reposter TargetType.content
      content [] s v
handle-IsDistinct fails fresh
      (some (comment_created comment author content content_author parent parent_author text)) s v =
    let reply : Exec Error Tables (Unit {0}) =
      branch (not (parent == 0) && not (parent_author == 0))
        (notify fails fresh parent_author notification_type_reply author TargetType.comment comment
          (truncate_text text 100))
        (pure tt) in
    let now =
      branch-IsDistinct (not (parent == 0) && not (parent_author == 0)) _ _ s
        (notify-IsDistinct fails fresh parent_author notification_type_reply author
          TargetType.comment comment (truncate_text text 100) s v)
        v in
    bind-after (λ t. IsDistinct t.tables)
      (λ _.
        branch (not (content_author == 0) && not (content_author == parent_author))
          (notify fails (suc fresh) content_author notification_type_comment author
            TargetType.content content (truncate_text text 100))
          (pure tt))
      reply s now
      (λ _.
        branch-IsDistinct (not (content_author == 0) && not (content_author == parent_author)) _ _
          (reply s).1
          (notify-IsDistinct fails (suc fresh) content_author notification_type_comment author
            TargetType.content content (truncate_text text 100) (reply s).1 now)
          now)
handle-IsDistinct fails fresh (some (comment_liked author liker comment)) s v =
    notify-IsDistinct fails fresh author notification_type_like liker TargetType.comment comment []
      s v
handle-IsDistinct fails fresh (some (user_followed follower following)) s v =
    notify-IsDistinct fails fresh following notification_type_follow follower TargetType.user
      follower [] s v
handle-IsDistinct fails fresh (some (user_mentioned mentioned mentioner target_type target)) s v =
    notify-IsDistinct fails fresh mentioned notification_type_mention mentioner target_type target
      [] s v

-- Over any sequence of deliveries handled one after the other, of whatever events, repeated or not,
-- with statements failing anywhere: if at the start no user has two notifications of one type with the
-- same actor and target, neither of them empty, and none of his own act, then so it is at the end.
pub deliver_all-IsDistinct :
    (ds : List Delivery) (s : Store Tables)
    → IsDistinct s.tables
    → IsDistinct (deliver_all ds s).tables
deliver_all-IsDistinct [] s v = v
deliver_all-IsDistinct (d ∷ ds) s v =
    deliver_all-IsDistinct ds (deliver d s) (handle-IsDistinct d.fails d.fresh d.event s v)
