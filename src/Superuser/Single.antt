-- ===== src/Superuser/Single.antt =====
-- A query that the service lets through is one statement.
use mathlib.Core.List.{reverse, reverse_aux, ◌++◌}
use lesser.Common.{
  ℕ, zero, suc, ◌+◌, ◌/◌, ◌%◌, ◌≡◌, refl, ◌∙◌, sym, Bool, false, ◌||◌, [], ◌∷◌, arith, ltb,
  Bool-cases, inl, inr,
}
use lesser.Common.Int.{ℤ}
use lesser.Common.Text.{Text, trim_left, trim_space, is_space, codes}
use lesser.Superuser.Query.{
  has_semicolon, trim_semicolon, contains, digits, limit_of, limited_query, normalized_query,
  is_refused, has_inner_semicolon,
}

has_semicolon-trim_left : (s : Text) → has_semicolon (trim_left s) ≡ has_semicolon s
unfolding trim_left is_space
has_semicolon-trim_left [] = refl
has_semicolon-trim_left (c ∷ s) = ground (arith, has_semicolon-trim_left s)

has_semicolon-reverse_aux :
    (s t : Text) → has_semicolon (reverse_aux s t) ≡ (has_semicolon s || has_semicolon t)
has_semicolon-reverse_aux [] t = refl
has_semicolon-reverse_aux (c ∷ s) t = ground (arith, has_semicolon-reverse_aux s (c ∷ t))

has_semicolon-reverse : (s : Text) → has_semicolon (reverse s) ≡ has_semicolon s
has_semicolon-reverse s = ground (arith, has_semicolon-reverse_aux s [])

has_semicolon-append : (s t : Text) → has_semicolon (s ++ t) ≡ (has_semicolon s || has_semicolon t)
has_semicolon-append [] t = refl
has_semicolon-append (c ∷ s) t = ground (arith, has_semicolon-append s t)

has_semicolon-trim_space : (s : Text) → has_semicolon (trim_space s) ≡ has_semicolon s
unfolding trim_space
has_semicolon-trim_space s =
    has_semicolon-reverse (trim_left (reverse (trim_left s)))
    ∙ has_semicolon-trim_left (reverse (trim_left s))
    ∙ has_semicolon-reverse (trim_left s)
    ∙ has_semicolon-trim_left s

has_semicolon-trim_semicolon :
    (s : Text) → has_semicolon s ≡ false → has_semicolon (trim_semicolon s) ≡ false
has_semicolon-trim_semicolon [] h = refl
has_semicolon-trim_semicolon (c ∷ []) h = ground (arith, h)
has_semicolon-trim_semicolon (c ∷ d ∷ s) h = ground (arith, h, has_semicolon-trim_semicolon (d ∷ s))

has_semicolon-digits : (fuel n : ℕ) → has_semicolon (digits fuel n) ≡ false
has_semicolon-digits zero n = refl
has_semicolon-digits (suc fuel) n = elim (Bool-cases (ltb n 10)) [
  | inl few ↦ ground (arith, few)
  | inr many ↦ rw (many) (
      has_semicolon-append (digits fuel (n / 10)) ((48 + n % 10) ∷ [])
      ∙ ground (arith, has_semicolon-digits fuel (n / 10)))
]

trimmed :
    (query : Text)
    → has_inner_semicolon query ≡ false
    → has_semicolon (trim_semicolon (trim_space query)) ≡ false
trimmed query h = elim (Bool-cases (has_semicolon query)) [
  | inl some ↦
      sym (has_semicolon-trim_space (trim_semicolon (trim_space query))) ∙ ground (arith, some, h)
  | inr none ↦
      has_semicolon-trim_semicolon (trim_space query) (has_semicolon-trim_space query ∙ none)
]

without : (a b : Bool) → a ≡ false → b ≡ false → (a || b) ≡ false
without a b h k = ground (arith, h, k)

third : (a b c d : Bool) → (a || (b || (c || d))) ≡ false → c ≡ false
third a b c d h = ground (arith, h)

accepted : (query : Text) → is_refused query ≡ false → has_inner_semicolon query ≡ false
unfolding is_refused
accepted query h = third _ _ _ _ h

limited :
    (query : Text) (limit : ℤ)
    → has_inner_semicolon query ≡ false
    → has_semicolon
        (trim_semicolon (trim_space query) ++ codes " LIMIT " ++ digits 4 (limit_of limit))
      ≡ false
limited query limit h =
    has_semicolon-append (trim_semicolon (trim_space query) ++ codes " LIMIT ")
      (digits 4 (limit_of limit))
    ∙ without _ _
        (has_semicolon-append (trim_semicolon (trim_space query)) (codes " LIMIT ")
          ∙ without _ _ (trimmed query h) refl)
        (has_semicolon-digits 4 (limit_of limit))

-- A query that is not refused is sent to the database, with the limit that is added to it, without a
-- semicolon before its last sign that is not white space.
pub limited_query-single :
    (query : Text) (limit : ℤ)
    → is_refused query ≡ false
    → has_inner_semicolon (limited_query query limit) ≡ false
unfolding limited_query
limited_query-single query limit h =
    elim (Bool-cases (contains (normalized_query query) (codes "LIMIT"))) [
      | inl has ↦ rw (has) (accepted query h)
      | inr lacks ↦
          let single = limited query limit (accepted query h) in rw (lacks) (ground (arith, single))
    ]
