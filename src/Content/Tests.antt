-- ===== src/Content/Tests.antt =====
-- Small runs of the content operations.
use lesser.Common.{ℕ, ◌≡◌, refl, Bool, true, false, none, some, [], ◌∷◌, arith, ◌==◌, if◌then◌else◌}
use lesser.Common.Int.{pos}
use lesser.Db.{Store, err, reject}
use lesser.Content.{
  Content, ContentType, ContentStatus, CounterType, Tables, not_draft, unauthorized, title_required,
  invalid_counter_type,
}
use lesser.Content.Statements.{insert_content, update_where}
use lesser.Content.Service.{
  CreateRequest, create, publish_draft, delete, update_counter, validate_content, mentions,
}
use lesser.Content.Publication.{
  IsSound, Reach, here, next, create_step, publish_step, delete_step, Reach-IsSound,
}
use lesser.Content.Cycle.{IsLater, Reach-IsOnward}

abbrev up : ℕ → Bool
up _ = false

abbrev empty_store : Store Tables
empty_store = record {
  tables = record { contents = λ _. none; ids = []; events = [] };
  statements = 0;
}

abbrev article_request : CreateRequest
article_request = record {
  type = ContentType.article;
  title = 72 ∷ 105 ∷ [];
  text = 97 ∷ [];
  summary = [];
  media_urls = [];
  tags = [];
  reply_to_id = 0;
  quote_id = 0;
  is_draft = true;
  comments_disabled = false;
  mentioned_user_ids = [];
}

abbrev drafted : Store Tables
drafted = (create up true 5 7 3 article_request empty_store).1

abbrev published : Store Tables
published = (publish_draft up true 7 3 drafted).1

publish_draft_twice : (publish_draft up true 7 3 published).0 ≡ err (reject not_draft)
unfolding create publish_draft validate_content mentions insert_content update_where
publish_draft_twice = ground arith

publish_draft_by_another : (publish_draft up true 7 4 drafted).0 ≡ err (reject unauthorized)
unfolding create publish_draft validate_content mentions insert_content update_where
publish_draft_by_another = ground arith

validate_content_no_title :
    validate_content ContentType.article [] (97 ∷ []) false ≡ some title_required
unfolding validate_content
validate_content_no_title = refl

update_counter_unspecified :
    (update_counter up true 7 CounterType.unspecified (pos 1) published).0
    ≡ err (reject invalid_counter_type)
unfolding update_counter
update_counter_unspecified = refl

abbrev run : Reach empty_store (delete up true 7 3 published).1
run =
    next
      (next (next here (create_step up true 5 7 3 article_request empty_store refl))
        (publish_step up true 7 3 drafted))
      (delete_step up true 7 3 published)

empty-IsSound : IsSound empty_store.tables.contents
empty-IsSound id c e = ground arith

Reach-IsSound_example : IsSound (delete up true 7 3 published).1.tables.contents
Reach-IsSound_example = Reach-IsSound run empty-IsSound

abbrev article : Content
article = record {
  author_id = 3;
  type = ContentType.article;
  status = ContentStatus.draft;
  title = 72 ∷ [];
  text = 97 ∷ [];
  summary = [];
  media_urls = [];
  tags = [];
  reply_to_id = 0;
  quote_id = 0;
  counters = λ _. 0;
  view_count = 0;
  is_published = false;
  expires_at = none;
  is_pinned = false;
  comments_disabled = false;
}

abbrev one_draft : Store Tables
one_draft = record {
  tables = record {
    contents = λ k. if k == 7 then some article else none;
    ids = 7 ∷ [];
    events = [];
  };
  statements = 0;
}

Reach-IsOnward_example :
    (d : Content) × ((publish_draft up true 7 3 one_draft).1.tables.contents 7 ≡ some d)
    × IsLater article d
Reach-IsOnward_example =
    Reach-IsOnward (next here (publish_step up true 7 3 one_draft)) 7 article refl
