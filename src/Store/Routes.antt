-- ===== src/Store/Routes.antt =====
-- internal/store/routes.go: the routes that devices offer. A route is the text of its prefix.
use over_mesh.Common.{
  ℕ, ◌≡◌, inl, inr, refl, sym, ap, ◌∙◌, Bool, true, false, not, ◌&&◌, ◌||◌, List, [], ◌∷◌, ◌++◌,
  Option, none, some, nat_beq, nat_beq_iff, bytes_beq, bytes_eq, bytes_beq_iff, if◌then◌else◌, find,
  any, count, contains, select, update, arith, Bool-cases,
}

pub record RouteRow : Type 0 where
  pub node_id : ℕ
  pub route : List ℕ
  pub approved : Bool

abbrev pub is_row : ℕ → List ℕ → RouteRow → Bool
is_row node route r = nat_beq r.node_id node && bytes_beq r.route route

abbrev pub new_row : ℕ → List ℕ → RouteRow
new_row node route = record { node_id = node; route = route; approved = false }

-- `INSERT OR IGNORE`, for each of the routes.
abbrev pub insert_routes : ℕ → List (List ℕ) → List RouteRow → List RouteRow
insert_routes node [] rows = rows
insert_routes node (r ∷ routes) rows =
    insert_routes node routes
      (if any (is_row node r) rows then rows else rows ++ new_row node r ∷ [])

-- The transaction: the inserts, and the deletes of the device's routes that are not offered.
unfoldable pub set_advertised_routes : ℕ → List (List ℕ) → List RouteRow → List RouteRow
set_advertised_routes node routes rows =
    select (λ r. not (nat_beq r.node_id node) || contains routes r.route)
      (insert_routes node routes rows)

-- Whether a row was changed, and the table.
unfoldable pub set_route_approved : ℕ → List ℕ → Bool → List RouteRow → Bool × List RouteRow
set_route_approved node route approved rows = (
  not (nat_beq (count (is_row node route) rows) 0),
  update (is_row node route) (λ r. record r { approved = approved }) rows,
)

abbrev approval : Option RouteRow → Option Bool
approval none = none
approval (some r) = some r.approved

-- Whether the device offers the route, and whether it is approved.
unfoldable pub route_state : ℕ → List ℕ → List RouteRow → Option Bool
route_state node route rows = approval (find (is_row node route) rows)

-- The approval that was there, or none given yet.
abbrev pub or_new : Option Bool → Option Bool
or_new none = some false
or_new (some b) = some b

abbrev or_else : Option Bool → Option Bool → Option Bool
or_else (some b) later = some b
or_else none later = later

or_else-none : (s : Option Bool) → or_else s none ≡ s
or_else-none (some b) = refl
or_else-none none = refl

offered : Bool → Option Bool
offered b = if b then some false else none

or_else-offered :
    (s : Option Bool) (x y z : Bool)
    → or_else (or_else s (offered (x && y))) (offered (x && z))
      ≡ or_else s (offered (x && (y || z)))
unfolding offered
or_else-offered (some b) x y z = refl
or_else-offered none true true z = refl
or_else-offered none true false z = refl
or_else-offered none false y z = refl

route_state-append :
    (node : ℕ) (route : List ℕ) (rows : List RouteRow) (row : RouteRow)
    → route_state node route (rows ++ row ∷ [])
      ≡ or_else (route_state node route rows) (route_state node route (row ∷ []))
unfolding route_state
route_state-append node route [] row = refl
route_state-append node route (r ∷ rows) row = elim (Bool-cases (is_row node route r)) [
  | inl e ↦ rw e refl
  | inr e ↦ rw e (route_state-append node route rows row)
]

any-route_state :
    (node : ℕ) (route : List ℕ) (rows : List RouteRow)
    → any (is_row node route) rows ≡ true
    → (b : Bool) × (route_state node route rows ≡ some b)
unfolding route_state
any-route_state node route [] h = cc
any-route_state node route (r ∷ rows) h = elim (Bool-cases (is_row node route r)) [
  | inl e ↦ (r.approved, rw e refl)
  | inr e ↦ let (b, f) = any-route_state node route rows (rw e at h) in (b, rw e f)
]

alone :
    (node n : ℕ) (route q : List ℕ)
    → route_state node route (new_row n q ∷ []) ≡ offered (nat_beq n node && bytes_beq q route)
unfolding offered route_state
alone node n route q = ground arith

none_offered : (s : Option Bool) (x : Bool) → s ≡ or_else s (offered (x && false))
unfolding offered
none_offered (some b) x = refl
none_offered none true = refl
none_offered none false = refl

route_state-insert :
    (node n : ℕ) (route q : List ℕ) (rows : List RouteRow)
    → route_state node route (if any (is_row n q) rows then rows else rows ++ new_row n q ∷ [])
      ≡ or_else (route_state node route rows) (offered (nat_beq n node && bytes_beq q route))
unfolding offered route_state
route_state-insert node n route q rows = elim (Bool-cases (any (is_row n q) rows)) [
  | inl e ↦ elim (Bool-cases (nat_beq n node && bytes_beq q route)) [
    | inl same ↦
        let m : n ≡ node = (nat_beq_iff n node).0 (ground (arith, same)) in
        let k : q ≡ route = (bytes_beq_iff q route).0 (ground (arith, same)) in
        let (b, f) = any-route_state n q rows e in
        let f' : route_state node route rows ≡ some b = rw (← m, ← k) f in rw (e, f') refl
    | inr other ↦ rw (e, other) (sym (or_else-none (route_state node route rows)))
  ]
  | inr e ↦
      rw (e, route_state-append node route rows (new_row n q))
        (ap (or_else (route_state node route rows)) (alone node n route q))
]

route_state-insert_routes :
    (node n : ℕ) (route : List ℕ) (routes : List (List ℕ)) (rows : List RouteRow)
    → route_state node route (insert_routes n routes rows)
      ≡ or_else (route_state node route rows) (offered (nat_beq n node && contains routes route))
route_state-insert_routes node n route [] rows =
    none_offered (route_state node route rows) (nat_beq n node)
route_state-insert_routes node n route (q ∷ routes) rows =
    let rest =
      route_state-insert_routes node n route routes
        (if any (is_row n q) rows then rows else rows ++ new_row n q ∷ []) in
    let one = route_state-insert node n route q rows in
    rest
    ∙ ap (λ (s : Option Bool). or_else s (offered (nat_beq n node && contains routes route))) one
    ∙ or_else-offered (route_state node route rows) (nat_beq n node) (bytes_beq q route)
        (contains routes route)

route_state-select :
    (node n : ℕ) (route : List ℕ) (routes : List (List ℕ)) (rows : List RouteRow)
    → route_state node route
        (select (λ r. not (nat_beq r.node_id n) || contains routes r.route) rows)
      ≡ (if not (nat_beq node n) || contains routes route
          then route_state node route rows
          else none)
unfolding route_state
route_state-select node n route routes [] = ground arith
route_state-select node n route routes (r ∷ rows) =
    let rest = route_state-select node n route routes rows in
    elim (Bool-cases (is_row node route r)) [
      | inl e ↦
          let m : r.node_id ≡ node = (nat_beq_iff r.node_id node).0 (ground (arith, e)) in
          let k : r.route ≡ route = (bytes_beq_iff r.route route).0 (ground (arith, e)) in
          elim (Bool-cases (not (nat_beq node n) || contains routes route)) [
            | inl c ↦
                let c' : (not (nat_beq r.node_id n) || contains routes r.route) ≡ true =
                  rw (m, k) c in
                rw (c', c, e) refl
            | inr c ↦
                let c' : (not (nat_beq r.node_id n) || contains routes r.route) ≡ false =
                  rw (m, k) c in
                rw (c', c) (rw c at rest)
          ]
      | inr e ↦ elim (Bool-cases (not (nat_beq r.node_id n) || contains routes r.route)) [
        | inl d ↦ rw (d, e) rest
        | inr d ↦ rw (d, e) rest
      ]
    ]

settled :
    (s : Option Bool) (x c : Bool)
    → (if not x || c then or_else s (offered (x && c)) else none)
      ≡ (if x then (if c then or_new s else none) else s)
unfolding offered
settled none true true = refl
settled none true false = refl
settled none false c = refl
settled (some b) true true = refl
settled (some b) true false = refl
settled (some b) false c = refl

-- Once a device's offers are replaced by new ones, a route of its own that it offers keeps its
-- approval, or has none yet if it is new, a route that it does not offer is gone, and the routes of
-- other devices are as they were.
pub route_state-set_advertised_routes :
    (node n : ℕ) (route : List ℕ) (routes : List (List ℕ)) (rows : List RouteRow)
    → route_state node route (set_advertised_routes n routes rows) ≡ (
        if nat_beq n node
        then (if contains routes route then or_new (route_state node route rows) else none)
        else route_state node route rows)
unfolding set_advertised_routes
route_state-set_advertised_routes node n route routes rows =
    let turn : nat_beq node n ≡ nat_beq n node = ground arith in
    rw
      (
        route_state-select node n route routes (insert_routes n routes rows),
        route_state-insert_routes node n route routes rows,
        turn,
      )
      (settled (route_state node route rows) (nat_beq n node) (contains routes route))
