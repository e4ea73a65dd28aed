-- ===== src/Channel/Access.antt =====
-- Who may change what: every request against the permission that it needs.
use lesser.Common.{ℕ, ◌≡◌, ◌≢◌, Bool, false, ◌||◌, ◌==◌, none, some, arith}
use lesser.Db.{Store, ok, Exec, ◌>>=◌, pure}
use lesser.Channel.{ChannelPost, Tables, Error}
use lesser.Channel.Statements.{has, find_post, live_channel}
use lesser.Channel.Service.{
  UpdateChannelRequest, update_channel, delete_channel, add_admin, remove_admin, is_admin,
}
use lesser.Channel.Posts.{
  PublishPostRequest, publish_post, edit_post, delete_post, pin_post, unpin_post,
}

-- The requests that need a permission.
pub data Request : Type 0 where
  update : UpdateChannelRequest → Request
  delete : (channel : ℕ) → Request
  promote demote : (channel target : ℕ) → Request
  publish : (fresh : ℕ) → PublishPostRequest → Request
  edit remove pin unpin : (post : ℕ) → Request

abbrev done : {A : Type 0} → Exec Error Tables A → Exec Error Tables (Unit {0})
done m = m >>= λ _. pure tt

unfoldable pub perform : (ℕ → Bool) → ℕ → Request → Exec Error Tables (Unit {0})
perform fails user (update req) = done (update_channel fails user req)
perform fails user (delete c) = delete_channel fails c user
perform fails user (promote c target) = add_admin fails c target user
perform fails user (demote c target) = remove_admin fails c target user
perform fails user (publish fresh req) = done (publish_post fails fresh user req)
perform fails user (edit p) = done (edit_post fails user p)
perform fails user (remove p) = delete_post fails p user
perform fails user (pin p) = pin_post fails p user
perform fails user (unpin p) = unpin_post fails p user

-- The owner of a channel, and an administrator, by the tables.
abbrev pub owns : ℕ → ℕ → Tables → Bool
owns user c t = elim (live_channel c t) [ none ↦ false | some x ↦ x.owner_id == user ]

abbrev pub manages : ℕ → ℕ → Tables → Bool
manages user c t = owns user c t || has c user t.admins

abbrev on_post : ℕ → Tables → (ChannelPost → Bool) → Bool
on_post p t may = elim (find_post p t.posts) [ none ↦ false | some x ↦ may x ]

-- The permission that a request needs.
unfoldable pub is_allowed : ℕ → Request → Tables → Bool
is_allowed user (update req) t = manages user req.channel_id t
is_allowed user (delete c) t = owns user c t
is_allowed user (promote c target) t = owns user c t
is_allowed user (demote c target) t = owns user c t
is_allowed user (publish fresh req) t = manages user req.channel_id t
is_allowed user (edit p) t = on_post p t (λ x. x.author_id == user || manages user x.channel_id t)
is_allowed user (remove p) t = on_post p t (λ x. x.author_id == user || manages user x.channel_id t)
is_allowed user (pin p) t = on_post p t (λ x. manages user x.channel_id t)
is_allowed user (unpin p) t = on_post p t (λ x. manages user x.channel_id t)

module _ (fails : ℕ → Bool) (user : ℕ) (s : Store Tables) where
  -- A request without the permission is refused and changes no table.
  pub perform-refused :
      (r : Request)
      → is_allowed user r s.tables ≡ false
      → ((perform fails user r s).0 ≢ ok tt) × ((perform fails user r s).1.tables ≡ s.tables)
  unfolding perform is_allowed update_channel delete_channel add_admin remove_admin publish_post
      edit_post delete_post pin_post unpin_post is_admin
  perform-refused (update req) h = ground arith
  perform-refused (delete c) h = ground arith
  perform-refused (promote c target) h = ground arith
  perform-refused (demote c target) h = ground arith
  perform-refused (publish fresh req) h = ground arith
  perform-refused (edit p) h = ground arith
  perform-refused (remove p) h = ground arith
  perform-refused (pin p) h = ground arith
  perform-refused (unpin p) h = ground arith
