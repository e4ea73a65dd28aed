-- ===== src/Interaction/Tests.antt =====
-- Small runs of the interactions.
use lesser.Common.{
  ℕ, ◌≡◌, refl, Bool, true, false, none, some, List, [], ◌∷◌, ◌==◌, if◌then◌else◌, map, take, arith,
}
use lesser.Db.{Store, ok}
use lesser.Content.{Content, ContentType, ContentStatus}
use lesser.Content.Statements.{update_where}
use lesser.Content.Service.{check_content_exists, update_counter, get}
use lesser.Interaction.{Mark, Tables}
use lesser.Content.Client.{Delivery}
use lesser.Interaction.Remote.{remote_check, remote_counter, content_author}
use lesser.Interaction.Service.{
  add_mark, drop_mark, mark_existing, publish_mark, InteractionStatus, status_of,
  batch_get_interaction_status,
}
use lesser.Interaction.Calls.{contents_of}
use lesser.Interaction.Counts.{
  IsCounted, Call, add, drop, perform, perform_all, perform_all-IsCounted,
}
use lesser.Interaction.Marks.{
  marks_in, specified_all, status_in, perform_all-refines, batch_get_interaction_status-ok,
}

abbrev up : ℕ → Bool
up _ = false

abbrev net : ℕ → Delivery
net _ = Delivery.answered

abbrev short : Content
short = record {
  author_id = 3;
  type = ContentType.short;
  status = ContentStatus.published;
  title = [];
  text = 97 ∷ [];
  summary = [];
  media_urls = [];
  tags = [];
  reply_to_id = 0;
  quote_id = 0;
  counters = λ _. 0;
  view_count = 0;
  is_published = true;
  expires_at = none;
  is_pinned = false;
  comments_disabled = false;
}

abbrev fresh_store : Store Tables
fresh_store = record {
  tables = record {
    rows = λ _. [];
    events = [];
    content = record {
      tables = record {
        contents = λ k. if k == 7 then some short else none;
        ids = 7 ∷ [];
        events = [];
      };
      statements = 0;
    };
  };
  statements = 0;
}

fresh_store-IsCounted : IsCounted fresh_store.tables.rows (contents_of fresh_store)
fresh_store-IsCounted = record {
  counted = λ k id c e. ground arith;
  distinct = λ k user id. ground arith;
}

abbrev calls : List Call
calls = add true Mark.like 100 5 7 ∷ add true Mark.like 101 6 7 ∷ drop Mark.like 5 7 ∷ []

abbrev after : Store Tables
after = (perform_all up net up calls fresh_store).1

perform_all_count : (perform up net up (add true Mark.like 102 9 7) after).0 ≡ ok 2
unfolding add_mark drop_mark mark_existing remote_check remote_counter publish_mark content_author
    check_content_exists update_counter update_where get
perform_all_count = refl

perform_all_returns : (perform_all up net up calls fresh_store).0 ≡ ok tt
unfolding add_mark drop_mark mark_existing remote_check remote_counter publish_mark content_author
    check_content_exists update_counter update_where get
perform_all_returns = refl

perform_all-IsCounted_example : IsCounted after.tables.rows (contents_of after)
perform_all-IsCounted_example =
    perform_all-IsCounted up net up calls fresh_store fresh_store-IsCounted perform_all_returns

perform_all-refines_example :
    marks_in after.tables.rows Mark.like 6 7
    ≡ specified_all calls (marks_in fresh_store.tables.rows) Mark.like 6 7
perform_all-refines_example =
    perform_all-refines up net up calls fresh_store perform_all_returns Mark.like 6 7

abbrev statuses : List InteractionStatus
statuses =
    record { content_id = 7; is_liked = true; is_bookmarked = false; is_reposted = false }
    ∷ record { content_id = 8; is_liked = false; is_bookmarked = false; is_reposted = false }
    ∷ []

statuses_found : (batch_get_interaction_status up net up 6 (7 ∷ 8 ∷ []) after).0 ≡ ok statuses
unfolding batch_get_interaction_status status_of add_mark drop_mark mark_existing remote_check
    remote_counter publish_mark content_author check_content_exists update_counter update_where get
statuses_found = refl

batch_get_interaction_status-ok_example :
    statuses ≡ map (status_in after.tables.rows 6) (take 100 (7 ∷ 8 ∷ []))
batch_get_interaction_status-ok_example =
    batch_get_interaction_status-ok up net up 6 (7 ∷ 8 ∷ []) after statuses statuses_found

abbrev broken : ℕ → Delivery
broken n = if n == 1 then Delivery.unreached else Delivery.answered
