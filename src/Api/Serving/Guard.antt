-- ===== src/Api/Serving/Guard.antt =====
-- What a container serves, and when it refuses to start.
use mathlib.Core.Bool.{false≢true}
use vignemale.Api.Handler.{Pydantic}
use vignemale.Api.Registry.{App, Endpoint, Services, in_service, modules_of, within}
use vignemale.Api.Serving.{Bind, ServeRequest, Served, endpoints_to_serve, protected, serve}
use vignemale.Prelude.{
  Bool, Bool-cases, Elem, Elem-keep, List, [], any-Elem, ap, false, inl, inr, is_empty, is_some,
  keep, map, nat_eq, opt_eq, pair_eq, refl, some, sym, true, ◌++◌, ◌==◌, ◌↔◌, ◌∙◌, ◌∷◌, ◌≡◌,
}
use vignemale.Prelude.Text.{Text, codes, join, text_eq}
use vignemale.Python.{Exception, ok, raise, raise-ne-ok, system_exit, ℤ}
use vignemale.Python.Env.{Env, get_env}

modules_of-Elem :
    (svc m : Text) (services : Services) → Elem m (modules_of svc services) ↔ Elem (svc, m) services
unfolding modules_of
modules_of-Elem svc m [] = (λ h. h, λ h. h)
modules_of-Elem svc m ((n, k) ∷ services) = elim (Bool-cases (n == svc)) [
  | inl same ↦ rw same (
    λ h. elim h [
      | inl p ↦ inl (λ i. (sym ((text_eq.beq_iff n svc).0 same) i, p i))
      | inr q ↦ inr ((modules_of-Elem svc m services).0 q)
    ],
    λ h. elim h [
      | inl p ↦ inl (ap (λ x. x.1) p)
      | inr q ↦ inr ((modules_of-Elem svc m services).1 q)
    ],
  )
  | inr differ ↦ rw differ (
    λ h. inr ((modules_of-Elem svc m services).0 h),
    λ h. elim h [
      | inl p ↦ absurd (false≢true (sym differ ∙ (text_eq.beq_iff n svc).1 (sym (ap (λ x. x.0) p))))
      | inr q ↦ (modules_of-Elem svc m services).1 q
    ],
  )
]

is_empty-Elem : {A : Type 0} (a : A) (xs : List A) → Elem a xs → is_empty xs ≡ false
is_empty-Elem a [] h = absurd h
is_empty-Elem a (x ∷ xs) h = refl

module _ {W : Type 0} where
  -- The endpoint belongs to the service: its module is one of the service's, or lies below one.
  abbrev pub BelongsTo : Text → App W → Endpoint W → Type 0
  BelongsTo svc app e = (m : Text) × Elem (svc, m) app.services × (within e.module_name m ≡ true)

  in_service-BelongsTo :
      (svc : Text) (app : App W) (e : Endpoint W)
      → (in_service (modules_of svc app.services) e.module_name ≡ true) ↔ BelongsTo svc app e
  unfolding in_service
  in_service-BelongsTo svc app e = (
    λ h.
        let (m, at, inside) = (any-Elem (within e.module_name) (modules_of svc app.services)).0 h in
        (m, (modules_of-Elem svc m app.services).0 at, inside),
    λ b.
        (any-Elem (within e.module_name) (modules_of svc app.services)).1
          (b.0, (modules_of-Elem svc b.0 app.services).1 b.1, b.2),
  )

  endpoints_to_serve-eq :
      (env : Env) (app : App W) (svc : Text)
      → get_env (codes "VIGNEMALE_SERVICE_NAME") env ≡ some svc
      → is_empty (modules_of svc app.services) ≡ false
      → endpoints_to_serve env app
        ≡ (keep (λ e. in_service (modules_of svc app.services) e.module_name) app.endpoints, false)
  unfolding endpoints_to_serve
  endpoints_to_serve-eq env app svc named known = rw (named, known, endpoints_to_serve)

  -- A container of a service that some module declares serves exactly that service's endpoints,
  -- and prints no warning.
  pub endpoints_to_serve-BelongsTo :
      (env : Env) (app : App W) (svc m : Text)
      → get_env (codes "VIGNEMALE_SERVICE_NAME") env ≡ some svc
      → Elem (svc, m) app.services
      → ((endpoints_to_serve env app).1 ≡ false)
        × ((e : Endpoint W)
            → Elem e (endpoints_to_serve env app).0 ↔ (Elem e app.endpoints × BelongsTo svc app e))
  endpoints_to_serve-BelongsTo env app svc m named declared =
      let known =
        is_empty-Elem m (modules_of svc app.services)
          ((modules_of-Elem svc m app.services).1 declared) in
      rw (endpoints_to_serve-eq env app svc named known) (
        refl,
        λ e. (
          λ h.
              let (at, inside) =
                (Elem-keep (λ x. in_service (modules_of svc app.services) x.module_name) e
                    app.endpoints).0
                  h in
              (at, (in_service-BelongsTo svc app e).0 inside),
          λ h.
              (Elem-keep (λ x. in_service (modules_of svc app.services) x.module_name) e
                  app.endpoints).1
                (h.0, (in_service-BelongsTo svc app e).1 h.1),
        ),
      )

  -- The exit of a program whose served endpoints want a handler that is not there.
  abbrev pub guard_exit : Env → App W → Exception
  guard_exit env app = system_exit (
      codes "vignemale: protected endpoint(s) without a declared @auth_handler: "
      ++ join (codes ", ") (protected (endpoints_to_serve env app).0))

  protected-Elem :
      (e : Endpoint W) (endpoints : List (Endpoint W))
      → Elem e endpoints
      → e.auth ≡ true
      → is_empty (protected endpoints) ≡ false
  unfolding protected
  protected-Elem e endpoints at auth = is_empty-map (keep (λ x. x.auth) endpoints) (
      is_empty-Elem e (keep (λ x. x.auth) endpoints)
        ((Elem-keep (λ x. x.auth) e endpoints).1 (at, auth)))
    where
      is_empty-map :
          (xs : List (Endpoint W)) → is_empty xs ≡ false → is_empty (map (λ x. x.name) xs) ≡ false
      is_empty-map [] h = h
      is_empty-map (x ∷ xs) h = refl

module _ {W : Type 0} (P : Pydantic) (bind : Text → ℤ → Bool → Bind)
    (core : ServeRequest W → Served) where
  -- An app with a protected endpoint among those that the container serves, and without an
  -- authentication handler, does not start: the program ends before the port is tried and the core
  -- is called, with a message that names the protected endpoints.
  pub serve_refuses :
      (env : Env) (app : App W) (addr : Text) (reuse_port : Bool) (e : Endpoint W)
      → Elem e (endpoints_to_serve env app).0
      → e.auth ≡ true
      → is_some app.auth_handler ≡ false
      → serve P bind core env app addr reuse_port ≡ raise (guard_exit env app)
  unfolding serve
  serve_refuses env app addr reuse_port e served auth absent =
      let some_protected = protected-Elem e (endpoints_to_serve env app).0 served auth in
      rw (some_protected, absent, serve)

  -- A server that ends in order has an authentication handler if any of the endpoints that it
  -- serves requires authentication.
  pub serve_guarded :
      (env : Env) (app : App W) (addr : Text) (reuse_port : Bool) (e : Endpoint W)
      → serve P bind core env app addr reuse_port ≡ ok tt
      → Elem e (endpoints_to_serve env app).0
      → e.auth ≡ true
      → is_some app.auth_handler ≡ true
  serve_guarded env app addr reuse_port e h served auth =
      elim (Bool-cases (is_some app.auth_handler)) [
        | inl there ↦ there
        | inr absent ↦
            absurd
              (raise-ne-ok (sym (serve_refuses env app addr reuse_port e served auth absent) ∙ h))
      ]
