-- ===== src/Streams/Safety.antt =====
-- What holds of the connections in every run of either manager.
use lesser.Common.{
  ℕ, suc, zero, ◌+◌, ◌&&◌, ltb, map, filter, count_by, ◌++◌, if◌then◌else◌, ◌≤◌, ◌<◌, ◌≡◌, sym, ap,
  ◌∙◌, ◌==◌, Bool, false, some, List, [], ◌∷◌, arith, Bool-cases, inl, inr,
}
use lesser.Streams.{Connection, Hub, register, leave, is_registered, targets, arrivals, broadcast}

-- Every client of the map has arrived, is its user's, and neither done nor closed; nothing has closed
-- a closed channel.
pub record IsOrderly {E : Type 0} (h : Hub E) : Type 0 where
  pub calm : h.panicked ≡ false
  pub arrived : (u c : ℕ) → h.clients u ≡ some c → c < h.next
  pub owned : (u c : ℕ) → h.clients u ≡ some c → (h.connections c).user ≡ u
  pub not_done : (u c : ℕ) → h.clients u ≡ some c → (h.connections c).is_done ≡ false
  pub not_closed : (u c : ℕ) → h.clients u ≡ some c → (h.connections c).is_closed ≡ false

module _ {E : Type 0} (h : Hub E) (v : IsOrderly h) where
  -- A client that stays when the connection `c` leaves is another one.
  pub leave-stays :
      (c u d : ℕ) → (leave c h).clients u ≡ some d → (h.clients u ≡ some d) × ((d == c) ≡ false)
  leave-stays c u d e = elim (Bool-cases (d == c)) [
    | inl own ↦ let same : d ≡ c = ground arith in ground (arith, v.owned u c, e, same)
    | inr other ↦ (ground (arith, e, other), other)
  ]

-- Changing one connection, of which no client is left, and dropping clients.
module _ {E : Type 0} (h g : Hub E) (v : IsOrderly h) (c : ℕ) where
  pub changed-IsOrderly :
      g.panicked ≡ false
      → h.next ≤ g.next
      → ((d : ℕ) → (d == c) ≡ false → g.connections d ≡ h.connections d)
      → ((u d : ℕ) → g.clients u ≡ some d → (h.clients u ≡ some d) × ((d == c) ≡ false))
      → IsOrderly g
  changed-IsOrderly calm later same stays = record {
    calm = calm;
    arrived = λ u d e. ground (arith, v.arrived u d (stays u d e).0, later);
    owned = λ u d e. rw (same d (stays u d e).1) (v.owned u d (stays u d e).0);
    not_done = λ u d e. rw (same d (stays u d e).1) (v.not_done u d (stays u d e).0);
    not_closed = λ u d e. rw (same d (stays u d e).1) (v.not_closed u d (stays u d e).0);
  }

-- A connection that keeps its user and its marks may change in all else.
module _ {E : Type 0} (h g : Hub E) (v : IsOrderly h) where
  pub like-IsOrderly :
      g.panicked ≡ h.panicked
      → g.next ≡ h.next
      → ((u : ℕ) → g.clients u ≡ h.clients u)
      → ((d : ℕ) → (g.connections d).user ≡ (h.connections d).user)
      → ((d : ℕ) → (g.connections d).is_done ≡ (h.connections d).is_done)
      → ((d : ℕ) → (g.connections d).is_closed ≡ (h.connections d).is_closed)
      → IsOrderly g
  like-IsOrderly calm next clients user done closed = record {
    calm = calm ∙ v.calm;
    arrived = λ u d e. rw (next) (v.arrived u d (sym (clients u) ∙ e));
    owned = λ u d e. user d ∙ v.owned u d (sym (clients u) ∙ e);
    not_done = λ u d e. done d ∙ v.not_done u d (sym (clients u) ∙ e);
    not_closed = λ u d e. closed d ∙ v.not_closed u d (sym (clients u) ∙ e);
  }

-- A user arrives: his client takes the place of the one that he had.
module _ {E : Type 0} (h g : Hub E) (v : IsOrderly h) (u : ℕ) where
  pub register-IsOrderly :
      g.panicked ≡ false
      → g.next ≡ h.next
      → ((w : ℕ) → g.clients w ≡ h.clients w)
      → ((w d : ℕ) → h.clients w ≡ some d → (w == u) ≡ false → g.connections d ≡ h.connections d)
      → IsOrderly (register u g)
  register-IsOrderly calm next clients same = record {
    calm = calm;
    arrived = λ w d e. elim (Bool-cases (w == u)) [
      | inl own ↦ ground (arith, e, own)
      | inr other ↦ ground (arith, other, next, v.arrived w d (entry w d e other))
    ];
    owned = λ w d e. elim (Bool-cases (w == u)) [
      | inl own ↦ ground (arith, e, own)
      | inr other ↦
          ground
            (arith, other, apart w d e other, kept w d e other, v.owned w d (entry w d e other))
    ];
    not_done = λ w d e. elim (Bool-cases (w == u)) [
      | inl own ↦ ground (arith, e, own)
      | inr other ↦
          ground
            (arith, other, apart w d e other, kept w d e other, v.not_done w d (entry w d e other))
    ];
    not_closed = λ w d e. elim (Bool-cases (w == u)) [
      | inl own ↦ ground (arith, e, own)
      | inr other ↦
          ground (
            arith,
            other,
            apart w d e other,
            kept w d e other,
            v.not_closed w d (entry w d e other),
          )
    ];
  }
    where
      entry :
          (w d : ℕ) → (register u g).clients w ≡ some d → (w == u) ≡ false → h.clients w ≡ some d
      entry w d e other = sym (clients w) ∙ ground (arith, e, other)

      apart :
          (w d : ℕ) → (register u g).clients w ≡ some d → (w == u) ≡ false → (d == g.next) ≡ false
      apart w d e other = ground (arith, next, v.arrived w d (entry w d e other))

      kept :
          (w d : ℕ)
          → (register u g).clients w ≡ some d
          → (w == u) ≡ false
          → g.connections d ≡ h.connections d
      kept w d e other = same w d (entry w d e other) other

module _ {E : Type 0} (h : Hub E) (v : IsOrderly h) where
  -- Another user's client is another connection.
  pub other_client :
      (u w c d : ℕ)
      → h.clients u ≡ some c
      → h.clients w ≡ some d
      → (w == u) ≡ false
      → (d == c) ≡ false
  other_client u w c d e f other = elim (Bool-cases (d == c)) [
    | inl own ↦
        let same : d ≡ c = ground arith in
        ground (arith, other, sym (v.owned w c (f ∙ ap some same)) ∙ v.owned u c e)
    | inr ne ↦ ne
  ]

-- A broadcast starts one send to each client that passes its test.
module _ (c : ℕ) where
  filter-arrivals :
      (test : ℕ → Bool) (n : ℕ)
      → count_by (λ d. d == c) (filter test (arrivals n)) ≡ (if ltb c n && test c then 1 else 0)
  filter-arrivals test zero = ground arith
  filter-arrivals test (suc n) = elim (Bool-cases (n == c)) [
    | inl e ↦ let same : n ≡ c = ground arith in ground (arith, filter-arrivals test n, same)
    | inr e ↦ ground (arith, filter-arrivals test n, e)
  ]

  sends-count :
      {F : Type 0} (x : F) (cs : List ℕ) (ps : List (ℕ × F))
      → count_by (λ p. p.0 == c) (map (λ d. (d, x)) cs ++ ps)
        ≡ count_by (λ d. d == c) cs + count_by (λ p. p.0 == c) ps
  sends-count x [] ps = omega arith
  sends-count x (d ∷ cs) ps = ground (arith, sends-count x cs ps)

  pub broadcast-count :
      {E : Type 0} (test : Connection → Bool) (e : E) (h : Hub E)
      → count_by (λ p. p.0 == c) (broadcast test e h).pending
        ≡ (if ltb c h.next && (is_registered c h && test (h.connections c)) then 1 else 0)
          + count_by (λ p. p.0 == c) h.pending
  broadcast-count test e h =
      sends-count e (targets test h) h.pending
      ∙ ap (λ n. n + count_by (λ p. p.0 == c) h.pending)
          (filter-arrivals (λ d. is_registered d h && test (h.connections d)) h.next)
