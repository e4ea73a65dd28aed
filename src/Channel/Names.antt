-- ===== src/Channel/Names.antt =====
-- The names of channels: what `CreateChannel` refuses, and what `UpdateChannel` stores.
use lesser.Common.{ℕ, ◌≡◌, Bool, true, false, ◌||◌, some, [], ◌==◌, arith, Option-cases, inl, inr}
use lesser.Common.Text.{is_empty, trim_space}
use lesser.Db.{Store}
use lesser.Channel.{Channel, Tables}
use lesser.Channel.Statements.{has, live_channel, update_channel_row, insert_channel, insert_admin}
use lesser.Channel.Service.{
  CreateChannelRequest, UpdateChannelRequest, with_update, create_channel, update_channel,
}

-- Every channel has a name that is not empty.
abbrev pub IsNamed : Tables → Type 0
IsNamed t = (c : ℕ) (x : Channel) → t.channels c ≡ some x → is_empty x.name ≡ false

-- `CreateChannel` keeps every channel named, whatever the request and the failing statements.
pub create_channel-IsNamed :
    (fails : ℕ → Bool) (fresh user : ℕ) (req : CreateChannelRequest) (s : Store Tables)
    → IsNamed s.tables
    → IsNamed (create_channel fails fresh user req s).1.tables
unfolding create_channel insert_channel insert_admin
create_channel-IsNamed fails fresh user req s v c x e = ground (arith, v c x)

-- An `UpdateChannel` by the owner or an administrator of a live channel, with a name that is not empty
-- but all blanks, stores the empty name when no statement fails.
pub update_channel-blank_name :
    (user : ℕ) (req : UpdateChannelRequest) (s : Store Tables) (x : Channel)
    → live_channel req.channel_id s.tables ≡ some x
    → (has req.channel_id user s.tables.admins || x.owner_id == user) ≡ true
    → is_empty req.name ≡ false
    → trim_space req.name ≡ []
    → (y : Channel) × ((update_channel (λ _. false) user req s).1.tables.channels req.channel_id
        ≡ some y)
      × (y.name ≡ [])
unfolding update_channel with_update update_channel_row
update_channel-blank_name user req s x live may given blank =
    elim (Option-cases (s.tables.channels req.channel_id)) [
      | inl missing ↦ ground arith
      | inr (w, found) ↦
          (record (with_update req x) { is_deleted = false }, ground arith, ground arith)
    ]
