-- ===== src/Content/Publication.antt =====
-- What is published is fit to be: over every run of the operations, with statements failing anywhere.
use lesser.Common.{
  ℕ, ◌≡◌, refl, ◌∙◌, Bool, true, false, ◌&&◌, not, none, some, ◌==◌, arith, Option-cases,
  Bool-cases, inl, inr,
}
use lesser.Common.Int.{ℤ}
use lesser.Db.{Store}
use lesser.Content.{Content, ContentType, ContentStatus, CounterType, same_type, Tables}
use lesser.Content.Statements.{update_where, is_live, is_draft, insert_content, is_some}
use lesser.Content.Service.{
  CreateRequest, UpdateRequest, validate_content, with_update, new_content, create, get, update,
  delete, publish_draft, pin_content, update_counter,
}
use lesser.Content.Life.{
  Contents, edited, status_of, create_cases, update_cases, delete_cases, publish_draft_cases,
  pin_content_cases, get_cases, update_counter_cases,
}

-- A published content passes the validation for publication; a draft is an article and passes the
-- one for drafts; the only other status is that of a deleted content.
pub sound : Content → Bool
sound c = elim c.status [
  | ContentStatus.published ↦ not (is_some (validate_content c.type c.title c.text false))
  | ContentStatus.draft ↦
      same_type c.type ContentType.article
      && not (is_some (validate_content c.type c.title c.text true))
  | ContentStatus.deleted ↦ true
  | _ ↦ false
]

abbrev pub IsSound : Contents → Type 0
IsSound f = (id : ℕ) (c : Content) → f id ≡ some c → sound c ≡ true

-- A call of an operation, by whomever, with statements failing anywhere. The identifier of a created
-- content is a new one.
pub data Step : Store Tables → Store Tables → Type 0 where
  create_step :
      (fails : ℕ → Bool) (p : Bool) (now fresh author : ℕ) (req : CreateRequest) (s : Store Tables)
      → s.tables.contents fresh ≡ none
      → Step s (create fails p now fresh author req s).1
  get_step :
      (fails : ℕ → Bool) (p : Bool) (id viewer : ℕ) (s : Store Tables)
      → Step s (get fails p id viewer s).1
  update_step :
      (fails : ℕ → Bool) (p : Bool) (user : ℕ) (req : UpdateRequest) (s : Store Tables)
      → Step s (update fails p user req s).1
  delete_step :
      (fails : ℕ → Bool) (p : Bool) (id user : ℕ) (s : Store Tables)
      → Step s (delete fails p id user s).1
  publish_step :
      (fails : ℕ → Bool) (p : Bool) (id user : ℕ) (s : Store Tables)
      → Step s (publish_draft fails p id user s).1
  pin_step :
      (fails : ℕ → Bool) (p : Bool) (id user : ℕ) (pin : Bool) (s : Store Tables)
      → Step s (pin_content fails p id user pin s).1
  counter_step :
      (fails : ℕ → Bool) (p : Bool) (id : ℕ) (k : CounterType) (delta : ℤ) (s : Store Tables)
      → Step s (update_counter fails p id k delta s).1

pub data Reach (s : Store Tables) : Store Tables → Type 0 where
  here : Reach s s
  next : {t u : Store Tables} → Reach s t → Step t u → Reach s u

module _ (t : Tables) (v : IsSound t.contents) where
  update_where-IsSound :
      (id : ℕ) (test : Content → Bool) (f : Content → Content)
      → ((c : Content)
          → t.contents id ≡ some c
          → test c ≡ true
          → sound c ≡ true
          → sound (f c) ≡ true)
      → IsSound (update_where id test f t).contents
  unfolding update_where
  update_where-IsSound id test f keeps i c e = elim (Option-cases (t.contents i)) [
    | inl missing ↦ ground arith
    | inr (x, found) ↦ elim (Bool-cases (i == id)) [
      | inl same ↦ ground (arith, v i x found, keeps x)
      | inr other ↦ ground (arith, v i x found)
    ]
  ]

  insert_content-IsSound :
      (now fresh author : ℕ) (req : CreateRequest)
      → validate_content req.type req.title req.text req.is_draft ≡ none
      → (req.is_draft && not (same_type req.type ContentType.article)) ≡ false
      → IsSound
          (insert_content fresh (new_content now author (status_of req.is_draft) req) t).contents
  unfolding insert_content sound
  insert_content-IsSound now fresh author req valid allowed i c e = ground (arith, v i c)

  -- A statement that reads none of the columns that are validated.
  keep_columns :
      (id : ℕ) (test : Content → Bool) (f : Content → Content)
      → ((c : Content) → sound (f c) ≡ sound c)
      → IsSound (update_where id test f t).contents
  keep_columns id test f same = update_where-IsSound id test f (λ c e h k. same c ∙ k)

Step-IsSound :
    {s t : Store Tables} → Step s t → IsSound s.tables.contents → IsSound t.tables.contents
unfolding sound
Step-IsSound (create_step fails p now fresh author req s fresh_id) v =
    create_cases IsSound fails p s v now fresh author req
      (insert_content-IsSound s.tables v now fresh author req)
Step-IsSound (get_step fails p id viewer s) v =
    get_cases IsSound fails p s v id viewer (keep_columns s.tables v id (λ _. true) _ (λ c. refl))
Step-IsSound (update_step fails p user req s) v =
    update_cases IsSound fails p s v user req (λ c live valid.
      update_where-IsSound s.tables v req.content_id is_live (edited (with_update req c))
        (λ x e h k. ground arith))
Step-IsSound (delete_step fails p id user s) v = delete_cases IsSound fails p s v id user (
    update_where-IsSound s.tables v id (λ _. true)
      (λ x. record x { status = ContentStatus.deleted }) (λ x e h k. refl))
Step-IsSound (publish_step fails p id user s) v =
    publish_draft_cases IsSound fails p s v id user (λ c live valid.
      update_where-IsSound s.tables v id is_draft
        (λ x. record x { status = ContentStatus.published; is_published = true })
        (λ x e h k. ground arith))
Step-IsSound (pin_step fails p id user pin s) v =
    pin_content_cases IsSound fails p s v id user pin
      (keep_columns s.tables v id (λ _. true) _ (λ c. refl))
Step-IsSound (counter_step fails p id k delta s) v =
    update_counter_cases IsSound fails p s v id k delta
      (keep_columns s.tables v id is_live _ (λ c. refl))

-- Over any run of create, get, update, delete, publish_draft, pin_content and update_counter, with
-- statements failing anywhere, from tables where it holds: every content that is published passes the
-- validation for publication, every draft is an article that passes the one for drafts, and the only
-- other status is that of a deleted content.
pub Reach-IsSound :
    {s t : Store Tables} → Reach s t → IsSound s.tables.contents → IsSound t.tables.contents
Reach-IsSound here v = v
Reach-IsSound (next run step) v = Step-IsSound step (Reach-IsSound run v)
