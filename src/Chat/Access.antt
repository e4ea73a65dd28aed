-- ===== src/Chat/Access.antt =====
-- Who may do what in a conversation.
use lesser.Common.{
  ◌⊎◌, inl, inr, Option-cases, Bool-cases, ◌==◌, List, [], ◌∷◌, any, remove, refl, ℕ, ◌≡◌, Bool,
  true, false, some, arith,
}
use lesser.Db.{Store, Result, ok, err}
use lesser.Chat.{Member, Conversation, Tables, Error}
use lesser.Chat.Statements.{is_member_row, conversation_of, is_member_of}
use lesser.Chat.Service.{
  SendMessageRequest, send_message, add_member, remove_member, mark_conversation_as_read,
}
use lesser.Chat.Runs.{find-absent}

abbrev pub is_err : {A : Type 0} → Result Error A → Bool
is_err (ok a) = false
is_err (err e) = true

remove-absent :
    (test : Member → Bool) (ms : List Member) → any test ms ≡ false → remove test ms ≡ ms
remove-absent test [] h = refl
remove-absent test (m ∷ ms) h = ground (arith, h, remove-absent test ms)

module _ (fails : ℕ → Bool) (now : ℕ) (s : Store Tables) where
  -- The call returned an error and changed no table.
  abbrev pub IsRefused : {A : Type 0} → Result Error A × Store Tables → Type 0
  IsRefused (r, t) = (is_err r ≡ true) × (t.tables ≡ s.tables)

  remove_member-IsRefused :
      (c u w : ℕ)
      → is_member_of c u s.tables ≡ false
      → IsRefused (remove_member fails c w u s)
        ⊎ ((v : Conversation) × ((conversation_of c s.tables ≡ some v) × (v.creator_id ≡ u)))
  unfolding remove_member
  remove_member-IsRefused c u w out = elim (Option-cases (conversation_of c s.tables)) [
    | inl missing ↦ inl (ground (arith, missing), ground (arith, missing))
    | inr (v, here) ↦ elim (Bool-cases (v.creator_id == u)) [
      | inl creator ↦ inr (v, (here, ground (arith, creator)))
      | inr other ↦
          let none_met : remove (is_member_row c u) s.tables.members ≡ s.tables.members =
            remove-absent (is_member_row c u) s.tables.members out in
          elim (Bool-cases (w == u)) [
            | inl own ↦
                let same : w ≡ u = ground (arith, own) in
                rw (same) (
                  inl
                    (ground (arith, here, other, out), ground (arith, here, other, out, none_met)))
            | inr ne ↦ inl (ground (arith, here, other, ne), ground (arith, here, other, ne))
          ]
    ]
  ]

  -- A user who is not a member of a conversation cannot send a message to it, add anyone to it, himself
  -- too, or mark it as read, and can remove someone from it, himself too, only if he has created it:
  -- each other call returns an error and changes no table, whatever statements fail and whether or not the
  -- conversation is there.
  pub outsider-IsRefused :
      (cached : Bool) (fresh : ℕ) (r : SendMessageRequest) (w : ℕ)
      → is_member_of r.conversation_id r.sender_id s.tables ≡ false
      → IsRefused (send_message fails cached now fresh r s)
        × IsRefused (add_member fails now r.conversation_id w r.sender_id s)
        × IsRefused (mark_conversation_as_read fails cached now r.conversation_id r.sender_id s)
        × (IsRefused (remove_member fails r.conversation_id w r.sender_id s)
            ⊎ ((v : Conversation) × ((conversation_of r.conversation_id s.tables ≡ some v)
                  × (v.creator_id ≡ r.sender_id))))
  unfolding send_message add_member mark_conversation_as_read
  outsider-IsRefused cached fresh r w out =
      let row = find-absent r.conversation_id r.sender_id s.tables.members out in
      (
        (ground arith, ground arith),
        (ground arith, ground arith),
        (ground arith, ground arith),
        remove_member-IsRefused r.conversation_id r.sender_id w out,
      )
