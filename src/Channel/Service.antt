-- ===== src/Channel/Service.antt =====
-- Channels, subscriptions and administrators: service/channel/internal/logic/channel_service.go, on
-- a database whose statements may fail. The identifier of a new row, `uuid.New()`, is an argument.
use lesser.Common.{
  ℕ, Bool, true, false, ◌&&◌, ◌||◌, not, Option, none, some, List, [], ◌∷◌, ◌==◌, if◌then◌else◌,
  take, drop, length, map,
}
use mathlib.Core.List.{reverse}
use lesser.Common.Text.{Text, is_empty, is_blank, trim_space}
use lesser.Db.{Result, ok, err, Exec, pure, fail, ◌>>=◌, ◌>>◌, ignore, branch, query, exec}
use lesser.Channel.{
  Channel, ChannelInfo, Tables, Error, not_found, already_subscribed, not_subscribed,
  not_channel_owner, not_channel_admin, cannot_remove_owner, invalid_channel_name,
}
use lesser.Channel.Statements.{
  has, users_of, channels_of, live_channel, update_channel_row, insert_channel, insert_admin,
  delete_admin, insert_subscription, delete_subscription, increment_subscriber_count,
  decrement_subscriber_count,
}

pub record CreateChannelRequest : Type 0 where
  pub name : Text
  pub description : Text
  pub avatar_url : Text

pub record UpdateChannelRequest : Type 0 where
  pub channel_id : ℕ
  pub name : Text
  pub description : Text
  pub avatar_url : Text

-- A field that the request leaves empty stays as it is.
abbrev pub or_old : Text → Text → Text
or_old given old = if is_empty given then old else given

unfoldable pub with_update : UpdateChannelRequest → Channel → Channel
with_update req c = record c {
  name = if is_empty req.name then c.name else trim_space req.name;
  description = or_old req.description c.description;
  avatar_url = or_old req.avatar_url c.avatar_url;
}

-- What a call reads whose error is logged and dropped.
abbrev pub or_false : Exec Error Tables Bool → Exec Error Tables Bool
or_false m s = let (r, t) = m s in (ok (elim r [ ok b ↦ b | err _ ↦ false ]), t)

abbrev pub is_some {ℓ} : {A : Type ℓ} → Option A → Bool
is_some none = false
is_some (some _) = true

-- `append` of an information that was found; a channel whose reading failed is left out.
abbrev pub appended : Result Error ChannelInfo → List ChannelInfo → List ChannelInfo
appended (ok info) infos = info ∷ infos
appended (err _) infos = infos

module _ (fails : ℕ → Bool) where
  abbrev pub found : {A : Type 0} → Option A → Exec Error Tables A
  found none = fail not_found
  found (some x) = pure x

  abbrev pub get_by_id : ℕ → Exec Error Tables Channel
  get_by_id c = query fails (live_channel c) >>= found

  -- An update that fails with `none_hit` if it meets no row, as `RowsAffected` tells.
  abbrev pub exec_rows : (Tables → Bool) → Error → (Tables → Tables) → Exec Error Tables (Unit {0})
  exec_rows hit none_hit f s =
      (exec fails f >>= λ _. branch (hit s.tables) (pure tt) (fail none_hit)) s

  -- `UPDATE channels … WHERE id = $1 AND deleted_at IS NULL`, which must meet a row.
  abbrev pub update_live : ℕ → (Channel → Channel) → Exec Error Tables (Unit {0})
  update_live c f = exec_rows (λ t. is_some (live_channel c t)) not_found (update_channel_row c f)

  abbrev pub is_admin_row : ℕ → ℕ → Exec Error Tables Bool
  is_admin_row c u = query fails (λ t. has c u t.admins)

  abbrev pub is_subscribed : ℕ → ℕ → Exec Error Tables Bool
  is_subscribed c u = query fails (λ t. has c u t.subscriptions)

  unfoldable pub create_channel : ℕ → ℕ → CreateChannelRequest → Exec Error Tables Channel
  create_channel fresh user req = branch (is_blank req.name) (fail invalid_channel_name) do
    let channel : Channel = record {
      name = trim_space req.name;
      description = req.description;
      avatar_url = req.avatar_url;
      owner_id = user;
      subscriber_count = 0;
      post_count = 0;
      is_deleted = false;
    }
    exec fails (insert_channel fresh channel)
    exec fails (insert_admin fresh user)
    pure channel

  abbrev pub info_of : Channel → ℕ → ℕ → Exec Error Tables ChannelInfo
  info_of channel c user = do
    admin ← or_false (is_admin_row c user)
    subscribed ← or_false (is_subscribed c user)
    pure (record {
      channel = channel;
      is_subscribed = subscribed;
      is_admin = admin || channel.owner_id == user;
      is_owner = channel.owner_id == user;
    })

  -- With no user, only the owner's flag is filled in.
  unfoldable pub get_channel : ℕ → ℕ → Exec Error Tables ChannelInfo
  get_channel c user = do
    channel ← get_by_id c
    branch (user == 0)
        (pure (record {
          channel = channel;
          is_subscribed = false;
          is_admin = false;
          is_owner = channel.owner_id == user;
        }))
        (info_of channel c user)

  unfoldable pub update_channel : ℕ → UpdateChannelRequest → Exec Error Tables Channel
  unfolding with_update
  update_channel user req = do
    channel ← get_by_id req.channel_id
    admin ← is_admin_row req.channel_id user
    branch (not admin && not (channel.owner_id == user)) (fail not_channel_admin) do
      let updated = with_update req channel
      update_live req.channel_id (λ x. record x {
        name = updated.name;
        description = updated.description;
        avatar_url = updated.avatar_url;
      })
      pure updated

  unfoldable pub delete_channel : ℕ → ℕ → Exec Error Tables (Unit {0})
  delete_channel c user = do
    channel ← get_by_id c
    branch (not (channel.owner_id == user)) (fail not_channel_owner)
        (update_live c (λ x. record x { is_deleted = true }))

  -- The primary key refuses a second row.
  abbrev pub subscribe_row : ℕ → ℕ → Exec Error Tables (Unit {0})
  subscribe_row c user = do
    already ← is_subscribed c user
    branch already (fail already_subscribed) (exec fails (insert_subscription c user))

  unfoldable pub subscribe : ℕ → ℕ → Exec Error Tables (Unit {0})
  subscribe c user = do
    get_by_id c
    subscribe_row c user
    ignore (exec fails (increment_subscriber_count c))

  abbrev pub unsubscribe_row : ℕ → ℕ → Exec Error Tables (Unit {0})
  unsubscribe_row c user =
      exec_rows (λ t. has c user t.subscriptions) not_subscribed (delete_subscription c user)

  unfoldable pub unsubscribe : ℕ → ℕ → Exec Error Tables (Unit {0})
  unsubscribe c user = do unsubscribe_row c user; ignore (exec fails (decrement_subscriber_count c))

  unfoldable pub get_subscribers : ℕ → ℕ → ℕ → Exec Error Tables (List ℕ × ℕ)
  get_subscribers c limit offset = do
    users ← query fails (λ t. take limit (drop offset (users_of c t.subscriptions)))
    pure (users, length users)

  -- The loop over the identifiers, which skips the channels that cannot be read.
  unfoldable pub read_channels : ℕ → List ℕ → Exec Error Tables (List ChannelInfo)
  read_channels user [] s = (ok [], s)
  read_channels user (c ∷ cs) s =
      let (info, t) = get_channel c user s in
      let (infos, u) = read_channels user cs t in
      (elim infos [ ok xs ↦ ok (appended info xs) | err e ↦ err e ], u)

  unfoldable pub get_subscribed_channels : ℕ → ℕ → ℕ → Exec Error Tables (List ChannelInfo × ℕ)
  unfolding read_channels
  get_subscribed_channels user limit offset = do
    ids ← query fails (λ t. take limit (drop offset (channels_of user t.subscriptions)))
    infos ← read_channels user ids
    pure (infos, length infos)

  unfoldable pub check_subscription : ℕ → ℕ → Exec Error Tables Bool
  check_subscription c user = is_subscribed c user

  unfoldable pub add_admin : ℕ → ℕ → ℕ → Exec Error Tables (Unit {0})
  add_admin c target operator = do
    channel ← get_by_id c
    branch (not (channel.owner_id == operator)) (fail not_channel_owner)
        (exec fails (insert_admin c target))

  abbrev pub remove_admin_row : ℕ → ℕ → Exec Error Tables (Unit {0})
  remove_admin_row c u = exec_rows (λ t. has c u t.admins) not_found (delete_admin c u)

  unfoldable pub remove_admin : ℕ → ℕ → ℕ → Exec Error Tables (Unit {0})
  remove_admin c target operator = do
    channel ← get_by_id c
    branch (not (channel.owner_id == operator)) (fail not_channel_owner)
        (branch (target == channel.owner_id) (fail cannot_remove_owner) (remove_admin_row c target))

  unfoldable pub is_admin : ℕ → ℕ → Exec Error Tables Bool
  is_admin c user = do
    channel ← get_by_id c
    branch (channel.owner_id == user) (pure true) (is_admin_row c user)

  -- Oldest first; each with the owner's flag.
  unfoldable pub get_admins : ℕ → Exec Error Tables (List (ℕ × Bool))
  get_admins c = do
    channel ← get_by_id c
    ids ← query fails (λ t. reverse (users_of c t.admins))
    pure (map (λ u. (u, u == channel.owner_id)) ids)
