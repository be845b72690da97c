-- ===== src/Api/Gateway/Table.antt =====
-- What the routing table of the gateway holds.
use vignemale.Api.Gateway.{RouteKey, add_endpoint, record_route, route_key, route_table}
use vignemale.Api.Registry.{Endpoint, Services}
use vignemale.Prelude.{
  Bool, Elem, Eq, List, Nodup, Option, [], any, any-Elem, ap, arith, false, if◌then◌else◌, nat_eq,
  none, opt_eq, option_beq, or_else, pair_eq, refl, some, true, ◌&&◌, ◌==◌, ◌||◌, ◌∷◌, ◌≡◌,
}
use vignemale.Prelude.Dict.{Dict, has_key, insert-Nodup, keys, lookup, lookup-insert}
use vignemale.Prelude.Text.{text_eq}
use vignemale.Python.Env.{Env}

abbrev key_eq : Eq RouteKey
key_eq = pair_eq

lookup-record_route :
    (o : Option RouteKey) (auth : Bool) (routes : Dict RouteKey Bool) (key : RouteKey)
    → lookup key (record_route o auth routes) ≡ (
        if o == some key
        then some (or_else (lookup key routes) false || auth)
        else lookup key routes)
unfolding record_route option_beq
lookup-record_route none auth routes key = refl
lookup-record_route (some k) auth routes key = ground (
  arith,
  lookup-insert key k (or_else (lookup k routes) false || auth) routes,
  key_eq.beq_iff k key,
  same,
)
  where
    same : k ≡ key → lookup k routes ≡ lookup key routes
    same e = ap (λ x. lookup x routes) e

record_route-Nodup :
    (o : Option RouteKey) (auth : Bool) (routes : Dict RouteKey Bool)
    → Nodup (keys routes)
    → Nodup (keys (record_route o auth routes))
unfolding record_route
record_route-Nodup none auth routes h = h
record_route-Nodup (some k) auth routes h =
    insert-Nodup k (or_else (lookup k routes) false || auth) routes h

module _ {W : Type 0} (env : Env) (services : Services) where
  -- The endpoint makes the route of this key.
  abbrev pub makes : RouteKey → Endpoint W → Bool
  makes key e = route_key env services e == some key

  abbrev pub guards : RouteKey → Endpoint W → Bool
  guards key e = makes key e && e.auth

  lookup-route_table :
      (key : RouteKey) (routes : Dict RouteKey Bool) (endpoints : List (Endpoint W))
      → lookup key (route_table env services routes endpoints) ≡ (
          if any (makes key) endpoints || has_key key routes
          then some (or_else (lookup key routes) false || any (guards key) endpoints)
          else none)
  unfolding route_table add_endpoint
  lookup-route_table key routes [] = ground arith
  lookup-route_table key routes (e ∷ endpoints) = ground (
    arith,
    lookup-route_table key (record_route (route_key env services e) e.auth routes) endpoints,
    lookup-record_route (route_key env services e) e.auth routes key,
  )

  -- The table has a route of a key exactly when an endpoint makes it, and the route requires
  -- authentication exactly when one of these endpoints does, whatever their order.
  pub route_table_exact :
      (key : RouteKey) (endpoints : List (Endpoint W))
      → lookup key (route_table env services [] endpoints)
        ≡ (if any (makes key) endpoints then some (any (guards key) endpoints) else none)
  route_table_exact key endpoints = ground (arith, lookup-route_table key [] endpoints)

  route_table-Nodup :
      (routes : Dict RouteKey Bool) (endpoints : List (Endpoint W))
      → Nodup (keys routes)
      → Nodup (keys (route_table env services routes endpoints))
  unfolding route_table add_endpoint
  route_table-Nodup routes [] h = h
  route_table-Nodup routes (e ∷ endpoints) h =
      route_table-Nodup (record_route (route_key env services e) e.auth routes) endpoints
        (record_route-Nodup (route_key env services e) e.auth routes h)

  makes_exposed : (key : RouteKey) (e : Endpoint W) → makes key e ≡ true → e.expose ≡ true
  unfolding route_key option_beq
  makes_exposed key e h = ground arith

  -- No route of the table is there on account of private endpoints alone: some endpoint with
  -- `expose` set makes it.
  pub routed-IsExposed :
      (key : RouteKey) (endpoints : List (Endpoint W)) (auth : Bool)
      → lookup key (route_table env services [] endpoints) ≡ some auth
      → (e : Endpoint W) × Elem e endpoints × (makes key e ≡ true) × (e.expose ≡ true)
  routed-IsExposed key endpoints auth h =
      let made : any (makes key) endpoints ≡ true =
        ground (arith, route_table_exact key endpoints) in
      let (e, m, t) = (any-Elem (makes key) endpoints).0 made in (e, m, t, makes_exposed key e t)

  -- No two routes of the table have the same key.
  pub routes-Nodup :
      (endpoints : List (Endpoint W)) → Nodup (keys (route_table env services [] endpoints))
  routes-Nodup endpoints = route_table-Nodup [] endpoints tt
