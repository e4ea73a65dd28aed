-- ===== src/Channel/Tests.antt =====
-- Runs of the channel service at fixed tables, and the theorems at such tables.
use lesser.Common.{
  ℕ, ◌≡◌, ◌≢◌, refl, Bool, true, false, ◌||◌, Option, none, some, [], ◌∷◌, ◌==◌, if◌then◌else◌,
  arith,
}
use lesser.Common.Text.{trim_space}
use lesser.Db.{Store, ok, err, reject}
use lesser.Channel.{Channel, Tables, cannot_remove_owner}
use lesser.Channel.Statements.{
  has, update_channel_row, insert_subscription, increment_subscriber_count,
}
use lesser.Channel.Service.{
  CreateChannelRequest, UpdateChannelRequest, subscribe, unsubscribe, remove_admin,
}
use lesser.Channel.Access.{demote, perform, is_allowed, perform-refused}
use lesser.Channel.Steps.{here, next, subscribe_step, unsubscribe_step, Reach-IsCounted}
use lesser.Channel.Subscribers.{IsCounted}
use lesser.Channel.Names.{IsNamed}

abbrev news : Channel
news = record {
  name = 110 ∷ [];
  description = [];
  avatar_url = [];
  owner_id = 1;
  subscriber_count = 1;
  post_count = 0;
  is_deleted = false;
}

-- Channel 7 of user 1, with user 2 as another administrator and user 3 as the subscriber.
abbrev tables : Tables
tables = record {
  channels = λ k. if k == 7 then some news else none;
  admins = (7, 2) ∷ (7, 1) ∷ [];
  subscriptions = (7, 3) ∷ [];
  posts = [];
}

abbrev start : Store Tables
start = record { tables = tables; statements = 0 }

abbrev never : ℕ → Bool
never n = false

abbrev count_at : ℕ → Tables → Option ℕ
count_at c t = elim (t.channels c) [ none ↦ none | some x ↦ some x.subscriber_count ]

subscribe-counts : count_at 7 (subscribe never 7 4 start).1.tables ≡ some 2
unfolding subscribe has insert_subscription increment_subscriber_count update_channel_row
subscribe-counts = refl

remove_admin-owner : (remove_admin never 7 1 1 start).0 ≡ err (reject cannot_remove_owner)
unfolding remove_admin
remove_admin-owner = refl

tables-IsCounted : IsCounted tables
tables-IsCounted = record { counted = λ c x e l. ground arith; distinct = λ c u. ground arith }

tables-IsNamed : IsNamed tables
tables-IsNamed c x e = ground arith

abbrev tips : CreateChannelRequest
tips = record { name = 32 ∷ 116 ∷ []; description = []; avatar_url = [] }

abbrev blank : UpdateChannelRequest
blank = record { channel_id = 7; name = 32 ∷ []; description = []; avatar_url = [] }

demote-not_allowed : is_allowed 2 (demote 7 2) tables ≡ false
unfolding is_allowed
demote-not_allowed = refl

has-none : has 7 4 tables.subscriptions ≡ false
unfolding has
has-none = refl

has-admin : (has 7 2 tables.admins || news.owner_id == 2) ≡ true
unfolding has
has-admin = refl

trim_space-blank : trim_space blank.name ≡ []
unfolding trim_space
trim_space-blank = refl

perform-refused_example :
    ((perform never 2 (demote 7 2) start).0 ≢ ok tt)
    × ((perform never 2 (demote 7 2) start).1.tables ≡ tables)
perform-refused_example = perform-refused never 2 start (demote 7 2) demote-not_allowed

Reach-IsCounted_example : IsCounted (unsubscribe never 7 3 (subscribe never 7 4 start).1).1.tables
Reach-IsCounted_example =
    Reach-IsCounted
      (next (next here (subscribe_step never 7 4 start refl))
        (unsubscribe_step never 7 3 (subscribe never 7 4 start).1 refl))
      tables-IsCounted
