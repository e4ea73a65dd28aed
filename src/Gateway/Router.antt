-- ===== src/Gateway/Router.antt =====
-- The connections to the services, service/gateway/internal/router/router.go.
use lesser.Common.{
  ℕ, ◌≡◌, refl, ap, true, Option, none, some, List, [], ◌∷◌, if◌then◌else◌, any, arith, Bool-cases,
  Option-cases, inl, inr,
}
use lesser.Common.Text.{Text, codes, same_text, is_empty}

-- The names of the services, as the constants spell them.
abbrev pub service_names : List Text
service_names =
    codes "auth"
    ∷ codes "user"
    ∷ codes "superuser"
    ∷ codes "content"
    ∷ codes "comment"
    ∷ codes "interaction"
    ∷ codes "timeline"
    ∷ codes "search"
    ∷ codes "notification"
    ∷ codes "chat"
    ∷ codes "channel"
    ∷ []

-- The map from the names to the connections, which are numbers.
abbrev pub Conns : Type 0
Conns = Text → Option ℕ

-- `dial` makes a connection to an address, and `addr` are the configured addresses.
module _ (dial : Text → Option ℕ) (addr : Text → Text) where
  -- The loop over the services, in whatever order the map gives them; an error closes the router.
  unfoldable pub connect : List Text → Conns → Option Conns
  connect [] conns = some conns
  connect (name ∷ names) conns =
      if is_empty (addr name) then connect names conns else elim (dial (addr name)) [
        | none ↦ none
        | some c ↦ connect names (λ n. if same_text n name then some c else conns n)
      ]

  unfoldable pub new_router : List Text → Option Conns
  unfolding connect
  new_router order = connect order (λ _. none)

-- `route_by_service`: no connection is the error that names the service as unavailable.
abbrev pub route_by_service : Conns → Text → Option ℕ
route_by_service conns name = conns name

module _ (dial : Text → Option ℕ) (addr : Text → Text) where
  same_text-eq : (s t : Text) → same_text s t ≡ true → s ≡ t
  same_text-eq [] [] h = refl
  same_text-eq [] (d ∷ t) h = ground arith
  same_text-eq (c ∷ s) [] h = ground arith
  same_text-eq (c ∷ s) (d ∷ t) h = ground (arith, same_text-eq s t)

  -- What the loop leaves under a name.
  connect-routes :
      (names : List Text) (conns done : Conns) (name : Text)
      → connect dial addr names conns ≡ some done
      → done name ≡ (
          if any (same_text name) names
          then (if is_empty (addr name) then conns name else dial (addr name))
          else conns name)
  unfolding connect
  connect-routes [] conns done name e = ground arith
  connect-routes (n ∷ names) conns done name e = elim (Bool-cases (same_text name n)) [
    | inl same ↦
        let addresses = ap addr (same_text-eq name n same) in
        let blank = ap is_empty addresses in
        let dialled = ap dial addresses in
        elim (Option-cases (dial (addr n))) [
          | inl refused ↦ ground (arith, blank, dialled, connect-routes names conns done name)
          | inr (c, made) ↦ ground (
            arith,
            blank,
            dialled,
            connect-routes names conns done name,
            connect-routes names (λ m. if same_text m n then some c else conns m) done name,
          )
        ]
    | inr other ↦ elim (Option-cases (dial (addr n))) [
      | inl refused ↦ ground (arith, connect-routes names conns done name)
      | inr (c, made) ↦ ground (
        arith,
        connect-routes names conns done name,
        connect-routes names (λ m. if same_text m n then some c else conns m) done name,
      )
    ]
  ]

  -- A router that was made, in whatever order the services were connected, gives for every name among
  -- them the connection that dialling its address made, and none for a service whose address is empty
  -- or for a name that is no service.
  pub new_router-routes :
      (order : List Text) (done : Conns) (name : Text)
      → new_router dial addr order ≡ some done
      → route_by_service done name ≡ (
          if any (same_text name) order
          then (if is_empty (addr name) then none else dial (addr name))
          else none)
  unfolding new_router
  new_router-routes order done name e = connect-routes order (λ _. none) done name e
