-- ===== src/Content/Cycle.antt =====
-- The life of one content: the status goes from draft to published to deleted and never back, and the
-- author and the type stay.
use lesser.Common.{
  ℕ, ◌≤◌, ◌≡◌, refl, ◌∙◌, Bool, true, none, some, ◌==◌, arith, Bool-cases, inl, inr,
}
use lesser.Db.{Store}
use lesser.Content.{Content, ContentStatus, Tables}
use lesser.Content.Statements.{update_where, is_live, is_draft, insert_content}
use lesser.Content.Service.{new_content}
use lesser.Content.Life.{
  Contents, status_of, create_cases, update_cases, delete_cases, publish_draft_cases,
  pin_content_cases, get_cases, update_counter_cases,
}
use lesser.Content.Publication.{
  Step, create_step, get_step, update_step, delete_step, publish_step, pin_step, counter_step,
  Reach, here, next,
}

abbrev pub rank : ContentStatus → ℕ
rank ContentStatus.draft = 1
rank ContentStatus.published = 2
rank ContentStatus.deleted = 3
rank _ = 0

-- What the later row `d` of the earlier row `c` may be.
abbrev pub IsLater : Content → Content → Type 0
IsLater c d = (d.author_id ≡ c.author_id) × (d.type ≡ c.type) × (rank c.status ≤ rank d.status)

abbrev pub IsOnward : Contents → Contents → Type 0
IsOnward f g =
    (id : ℕ) (c : Content) → f id ≡ some c → (d : Content) × (g id ≡ some d) × IsLater c d

IsOnward-refl : (f : Contents) → IsOnward f f
IsOnward-refl f id c e = (c, e, (refl, refl, omega arith))

IsOnward-trans : {f g h : Contents} → IsOnward f g → IsOnward g h → IsOnward f h
IsOnward-trans v w id c e =
    let (d, ed, (a, t, r)) = v id c e in
    let (b, eb, (a', t', r')) = w id d ed in (b, eb, (a' ∙ a, t' ∙ t, omega arith))

update_where-IsOnward :
    (t : Tables) (id : ℕ) (test : Content → Bool) (f : Content → Content)
    → ((c : Content) → test c ≡ true → IsLater c (f c))
    → IsOnward t.contents (update_where id test f t).contents
unfolding update_where
update_where-IsOnward t id test f later i c e = elim (Bool-cases (i == id)) [
  | inl same ↦ elim (Bool-cases (test c)) [
    | inl passes ↦ (f c, ground arith, later c passes)
    | inr fails ↦ (c, ground arith, (refl, refl, omega arith))
  ]
  | inr other ↦ (c, ground arith, (refl, refl, omega arith))
]

insert_content-IsOnward :
    (t : Tables) (id : ℕ) (new : Content)
    → t.contents id ≡ none
    → IsOnward t.contents (insert_content id new t).contents
unfolding insert_content
insert_content-IsOnward t id new missing i c e = elim (Bool-cases (i == id)) [
  | inl same ↦ ground arith
  | inr other ↦ (c, ground arith, (refl, refl, omega arith))
]

Step-IsOnward : {s t : Store Tables} → Step s t → IsOnward s.tables.contents t.tables.contents
Step-IsOnward (create_step fails p now fresh author req s missing) =
    create_cases (IsOnward s.tables.contents) fails p s (IsOnward-refl _) now fresh author req
      (λ v a.
        insert_content-IsOnward s.tables fresh (new_content now author (status_of req.is_draft) req)
          missing)
Step-IsOnward (get_step fails p id viewer s) =
    get_cases (IsOnward s.tables.contents) fails p s (IsOnward-refl _) id viewer
      (update_where-IsOnward s.tables id (λ _. true) _ (λ c h. (refl, refl, omega arith)))
Step-IsOnward (update_step fails p user req s) =
    update_cases (IsOnward s.tables.contents) fails p s (IsOnward-refl _) user req (λ c live valid.
      update_where-IsOnward s.tables req.content_id is_live _ (λ c h. (refl, refl, omega arith)))
Step-IsOnward (delete_step fails p id user s) =
    delete_cases (IsOnward s.tables.contents) fails p s (IsOnward-refl _) id user
      (update_where-IsOnward s.tables id (λ _. true) _ (λ c h. (refl, refl, ground arith)))
Step-IsOnward (publish_step fails p id user s) =
    publish_draft_cases (IsOnward s.tables.contents) fails p s (IsOnward-refl _) id user
      (λ c live valid.
        update_where-IsOnward s.tables id is_draft _ (λ c h. (refl, refl, ground arith)))
Step-IsOnward (pin_step fails p id user pin s) =
    pin_content_cases (IsOnward s.tables.contents) fails p s (IsOnward-refl _) id user pin
      (update_where-IsOnward s.tables id (λ _. true) _ (λ c h. (refl, refl, omega arith)))
Step-IsOnward (counter_step fails p id k delta s) =
    update_counter_cases (IsOnward s.tables.contents) fails p s (IsOnward-refl _) id k delta
      (update_where-IsOnward s.tables id is_live _ (λ c h. (refl, refl, omega arith)))

-- Over any run of create, get, update, delete, publish_draft, pin_content and update_counter, where
-- created contents get new identifiers and statements fail anywhere: a content that is there stays
-- there with its author and its type, and its status only goes from draft to published to deleted.
pub Reach-IsOnward : {s t : Store Tables} → Reach s t → IsOnward s.tables.contents t.tables.contents
Reach-IsOnward {s = s} here = IsOnward-refl s.tables.contents
Reach-IsOnward (next run step) = IsOnward-trans (Reach-IsOnward run) (Step-IsOnward step)
