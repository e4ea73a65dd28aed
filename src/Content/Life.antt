-- ===== src/Content/Life.antt =====
-- What each operation can do to the table of contents.
use lesser.Common.{
  ℕ, ◌+◌, ◌≡◌, Bool, true, false, ◌&&◌, not, Option, none, some, if◌then◌else◌, arith,
}
use lesser.Common.Int.{ℤ}
use lesser.Db.{Store}
use lesser.Content.{Content, ContentType, ContentStatus, CounterType, same_type, Tables}
use lesser.Content.Statements.{
  live_content, update_where, is_live, is_draft, insert_content, with_counter,
}
use lesser.Content.Service.{
  CreateRequest, UpdateRequest, validate_content, with_update, new_content, create, get, update,
  delete, publish_draft, pin_content, update_counter,
}

abbrev pub Contents : Type 0
Contents = ℕ → Option Content

abbrev pub edited : Content → Content → Content
edited new x = record x {
  title = new.title;
  text = new.text;
  summary = new.summary;
  media_urls = new.media_urls;
  tags = new.tags;
  comments_disabled = new.comments_disabled;
}

abbrev pub status_of : Bool → ContentStatus
status_of is_draft = if is_draft then ContentStatus.draft else ContentStatus.published

module _ (P : Contents → Type 0) (fails : ℕ → Bool) (p : Bool) (s : Store Tables)
    (same : P s.tables.contents) where
  pub create_cases :
      (now fresh author : ℕ) (req : CreateRequest)
      → (validate_content req.type req.title req.text req.is_draft ≡ none
          → (req.is_draft && not (same_type req.type ContentType.article)) ≡ false
          → P
              (insert_content fresh
                (new_content now author (status_of req.is_draft) req)
                s.tables).contents)
      → P (create fails p now fresh author req s).1.tables.contents
  unfolding create
  create_cases now fresh author req new = grind arith

  pub update_cases :
      (user : ℕ) (req : UpdateRequest)
      → ((c : Content)
          → live_content req.content_id s.tables ≡ some c
          → validate_content c.type (with_update req c).title (with_update req c).text (is_draft c)
            ≡ none
          → P (update_where req.content_id is_live (edited (with_update req c)) s.tables).contents)
      → P (update fails p user req s).1.tables.contents
  unfolding update
  update_cases user req new = grind arith

  pub delete_cases :
      (id user : ℕ)
      → P
          (update_where id
            (λ _. true)
            (λ x. record x { status = ContentStatus.deleted })
            s.tables).contents
      → P (delete fails p id user s).1.tables.contents
  unfolding delete
  delete_cases id user new = grind arith

  pub publish_draft_cases :
      (id user : ℕ)
      → ((c : Content)
          → live_content id s.tables ≡ some c
          → validate_content c.type c.title c.text false ≡ none
          → P
              (update_where id is_draft
                (λ x. record x { status = ContentStatus.published; is_published = true })
                s.tables).contents)
      → P (publish_draft fails p id user s).1.tables.contents
  unfolding publish_draft
  publish_draft_cases id user new = grind arith

  pub pin_content_cases :
      (id user : ℕ) (pin : Bool)
      → P (update_where id (λ _. true) (λ x. record x { is_pinned = pin }) s.tables).contents
      → P (pin_content fails p id user pin s).1.tables.contents
  unfolding pin_content
  pin_content_cases id user pin new = grind arith

  pub get_cases :
      (id viewer : ℕ)
      → P
          (update_where id
            (λ _. true)
            (λ x. record x { view_count = x.view_count + 1 })
            s.tables).contents
      → P (get fails p id viewer s).1.tables.contents
  unfolding get
  get_cases id viewer new = grind arith

  pub update_counter_cases :
      (id : ℕ) (k : CounterType) (delta : ℤ)
      → P (update_where id is_live (with_counter k delta) s.tables).contents
      → P (update_counter fails p id k delta s).1.tables.contents
  unfolding update_counter
  update_counter_cases id k delta new = grind arith
