-- ===== src/Controller/Routes.antt =====
-- internal/controller/router.go: which handler a request reaches, and through which filters. How the
-- web framework joins the paths of its groups is the argument `join_paths`; its own filters, which
-- recover and log, are left out.
use dify_sandbox.Base.{
  ℕ, ◌≡◌, ◌⊎◌, Bool, ◌&&◌, List, [], ◌∷◌, ◌++◌, Option, none, some, Bytes, codes, eqb,
  if◌then◌else◌,
}
use dify_sandbox.Middleware.{auth}

pub data Filter : Type 0 where
  authorise max_request max_worker trace : Filter

pub data Endpoint : Type 0 where
  health run list update refresh : Endpoint

pub record Group : Type 0 where
  pub base : Bytes
  pub filters : List Filter

pub record Route : Type 0 where
  pub method : Bytes
  pub path : Bytes
  pub passes : List Filter
  pub endpoint : Endpoint

module _ (join_paths : Bytes → Bytes → Bytes) where
  -- `Group`: a new group has the filters that the old one has by then.
  abbrev pub sub_group : Group → Bytes → Group
  sub_group g relative = record { base = join_paths g.base relative; filters = g.filters }

  abbrev pub add_route : Group → Bytes → Bytes → List Filter → Endpoint → Route
  add_route g method relative more endpoint = record {
    method = method;
    path = join_paths g.base relative;
    passes = g.filters ++ more;
    endpoint = endpoint;
  }

  -- `InitDependencyRouter`
  abbrev pub init_dependency_router : Group → List Route
  init_dependency_router router =
      let g = sub_group router (codes "dependencies") in
      add_route g (codes "GET") [] [] list
      ∷ add_route g (codes "POST") (codes "update") [] update
      ∷ add_route g (codes "GET") (codes "refresh") [] refresh
      ∷ []

  -- `InitRunRouter`
  abbrev pub init_run_router : Group → List Route
  init_run_router router =
      add_route (sub_group router []) (codes "POST") (codes "run")
        (max_request ∷ max_worker ∷ trace ∷ []) run
      ∷ []

  abbrev pub public_group : Group
  public_group = sub_group (record { base = codes "/"; filters = [] }) []

  -- The private group behind `Use(Auth())`.
  abbrev pub private_group : Group
  private_group =
      record (sub_group (record { base = codes "/"; filters = [] }) (codes "/v1/sandbox/")) {
        filters = authorise ∷ [];
      }

  -- `Setup`
  unfoldable pub setup : List Route
  setup =
      add_route public_group (codes "GET") (codes "/health") [] health
      ∷ (init_run_router private_group ++ init_dependency_router private_group)

-- The filters in order; `full` says that the limit on requests is reached.
unfoldable pub pass : Bytes → Bytes → Bool → List Filter → Option ℕ
pass key header full [] = none
pass key header full (authorise ∷ fs) = elim (auth key header) [
  | some status ↦ some status
  | none ↦ pass key header full fs
]
pass key header full (max_request ∷ fs) =
    let rest = pass key header full fs in if full then some 503 else rest
pass key header full (_ ∷ fs) = pass key header full fs

-- What becomes of a request.
pub data Reply : Type 0 where
  not_found : Reply
  refused : ℕ → Reply
  reaches : Endpoint → Reply

-- The first route with the method and the path.
unfoldable pub serve : Bytes → Bytes → Bool → List Route → Bytes → Bytes → Reply
unfolding pass eqb
serve key header full [] method path = not_found
serve key header full (r ∷ rs) method path =
    let rest = serve key header full rs method path in
    if eqb r.method method && eqb r.path path
    then elim (pass key header full r.passes) [
      | some status ↦ refused status
      | none ↦ reaches r.endpoint
    ]
    else rest

-- A route that needs the key, or that of the health check.
abbrev Guarded : Route → Type 0
Guarded r =
    ((fs : List Filter) × (r.passes ≡ authorise ∷ fs)) ⊎ (r.endpoint ≡ health) × (r.passes ≡ [])

-- What becomes of a request without the key.
abbrev pub Unkeyed : Reply → Type 0
Unkeyed not_found = Unit
Unkeyed (refused status) = status ≡ 401
Unkeyed (reaches e) = e ≡ health
