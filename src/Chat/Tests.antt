-- ===== src/Chat/Tests.antt =====
-- Small runs of the chat service.
use lesser.Common.{ℕ, ◌≡◌, ◌≢◌, refl, Bool, true, false, none, List, [], ◌∷◌, arith}
use lesser.Common.Text.{codes}
use lesser.Db.{Store, ok, with_transaction}
use lesser.Chat.{group, text, Tables}
use lesser.Chat.Unread.{cached_count, increment_unread_count}
use lesser.Chat.Service.{
  CreateConversationRequest, SendMessageRequest, create_conversation, send_message, add_member,
  remove_member, get_unread_count, mark_conversation_as_read, mark_message_as_read,
}
use lesser.Chat.Cache.{never, IsCoherent}
use lesser.Chat.Steps.{
  Act, create_act, send_act, add_act, count_act, mark_message_act, perform, perform_all,
  perform_all-unread,
}
use lesser.Chat.{Conversation}
use lesser.Chat.Statements.{conversation_of}
use lesser.Common.{◌⊎◌, some}
use lesser.Chat.Access.{IsRefused, outsider-IsRefused}

abbrev down : ℕ → Bool
down n = true

abbrev empty_store : Store Tables
empty_store = record {
  tables = record {
    conversations = [];
    members = [];
    messages = [];
    unread = λ u c. none;
    published = [];
  };
  statements = 0;
}

-- User 1 makes conversation 10 with user 2.
abbrev talk : CreateConversationRequest
talk = record { type = group; name = codes "go"; member_ids = 1 ∷ 2 ∷ []; creator_id = 1 }

abbrev hello : ℕ → SendMessageRequest
hello u = record { conversation_id = 10; sender_id = u; content = codes "hi"; message_type = text }

abbrev acts : List (ℕ × Act)
acts =
    (0, create_act 10 talk)
    ∷ (0, send_act 20 (hello 1))
    ∷ (1, count_act 10 2)
    ∷ (0, send_act 21 (hello 1))
    ∷ (0, add_act 10 3 2)
    ∷ (2, send_act 22 (hello 1))
    ∷ (0, mark_message_act 21 2)
    ∷ []

empty-IsCoherent : IsCoherent 0 empty_store.tables
empty-IsCoherent = record {
  once = λ c u. ground arith;
  reads = tt;
  sent = tt;
  exact = λ u c n h. ground (arith, h);
}

unread_by_two : (get_unread_count never true 10 2 (perform_all 0 acts empty_store)).0 ≡ ok 1
unfolding create_conversation send_message add_member get_unread_count mark_message_as_read
    with_transaction cached_count increment_unread_count
unread_by_two = refl

-- A user who joined after two messages, and marks the first of them as read, has the second unread.
abbrev late : List (ℕ × Act)
late =
    (0, create_act 10 talk)
    ∷ (0, send_act 20 (hello 1))
    ∷ (0, send_act 21 (hello 1))
    ∷ (0, add_act 10 3 2)
    ∷ []

unread_by_late : (get_unread_count never true 10 3 (perform_all 0 late empty_store)).0 ≡ ok 0
unfolding create_conversation send_message add_member get_unread_count with_transaction cached_count
    increment_unread_count
unread_by_late = refl

unread_after_mark :
    (get_unread_count never true 10 3
      (perform 9 (mark_message_act 20 3) (perform_all 0 late empty_store))).0
    ≡ ok 1
unfolding create_conversation send_message add_member get_unread_count mark_message_as_read
    with_transaction cached_count increment_unread_count
unread_after_mark = refl

perform_all-unread_example :
    (get_unread_count never true 10 2 (perform_all 0 acts empty_store)).0
    ≡ (get_unread_count never false 10 2 (perform_all 0 acts empty_store)).0
perform_all-unread_example = perform_all-unread 0 acts empty_store empty-IsCoherent 10 2

abbrev made : Store Tables
made = record {
  tables = record {
    conversations =
        record {
          id = 10;
          type = group;
          name = codes "go";
          creator_id = 1;
          created_at = 1;
          updated_at = 1;
        }
        ∷ [];
    members = [];
    messages = [];
    unread = λ u c. none;
    published = [];
  };
  statements = 0;
}

one_three : ◌≢◌ {A = ℕ} 1 3
one_three = ground arith

two_three : ◌≢◌ {A = ℕ} 2 3
two_three = ground arith

outsider-IsRefused_example :
    IsRefused down 5 made (send_message down true 5 20 (hello 3) made)
    × IsRefused down 5 made (add_member down 5 10 3 3 made)
    × IsRefused down 5 made (mark_conversation_as_read down true 5 10 3 made)
    × (IsRefused down 5 made (remove_member down 10 3 3 made)
        ⊎ ((v : Conversation) × ((conversation_of 10 made.tables ≡ some v) × (v.creator_id ≡ 3))))
outsider-IsRefused_example = outsider-IsRefused down 5 made true 20 (hello 3) 3 refl
