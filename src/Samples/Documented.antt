-- ===== src/Samples/Documented.antt =====
-- A snapshot library that does what it documents.
use example_envoy_xds.Base.{
  ℕ, List, [], ◌∷◌, map, Text, codes, text_eq, text_eq_iff, Bool, true, false, Option, none, some,
  if◌then◌else◌, ok, ◌≡◌, refl, ap, sym, ◌∙◌, ◌↔◌, All, inl, inr, ◌⊎◌, ok_inj,
}
use example_envoy_xds.Samples.{sample_order, decode, sample_cds, sample_eds, sample_rds, sample_lds}
use example_envoy_xds.Xds.{Proto}
use example_envoy_xds.Rds.{RouteConfiguration}
use example_envoy_xds.Lds.{
  Listener, TypedFilter, Message, router, access_log_config, connection_manager, listener_filters,
}
use example_envoy_xds.Resource.{ResourceMap, SnapshotApi}
use example_envoy_xds.Refs.Targets.{Among}
use example_envoy_xds.Refs.Same.{Same-refl, Same}
use example_envoy_xds.Refs.Library.{asked_endpoints, listed_endpoints, Documented}
use example_envoy_xds.Watch.World.{Env}

false-ne-true : ◌≡◌ {A = Bool} false true → ⊥
false-ne-true h = cc

or_iff :
    {P Q : Type 0} (b c : Bool)
    → ((b ≡ true) ↔ P)
    → ((c ≡ true) ↔ Q)
    → ((if b then true else c) ≡ true) ↔ (P ⊎ Q)
or_iff true c (p, p') (q, q') = ((λ h. inl (p refl)), (λ h. refl))
or_iff false c (p, p') (q, q') =
    ((λ h. inr (q h)), (λ h. elim h [ inl x ↦ absurd (false-ne-true (p' x)) | inr y ↦ q' y ]))

and_iff :
    {P Q : Type 0} (b c : Bool)
    → ((b ≡ true) ↔ P)
    → ((c ≡ true) ↔ Q)
    → ((if b then c else false) ≡ true) ↔ (P × Q)
and_iff true c (p, p') (q, q') = ((λ h. (p refl, q h)), (λ h. q' h.1))
and_iff false c (p, p') (q, q') =
    ((λ h. absurd (false-ne-true h)), (λ h. absurd (false-ne-true (p' h.0))))

abbrev among : List Text → Text → Bool
among [] t = false
among (s ∷ ss) t = if text_eq s t then true else among ss t

among_iff : (ss : List Text) (t : Text) → (among ss t ≡ true) ↔ Among ss t
among_iff [] t = ((λ h. false-ne-true h), (λ h. absurd h))
among_iff (s ∷ ss) t = or_iff (text_eq s t) (among ss t) (text_eq_iff s t) (among_iff ss t)

abbrev all : List Text → List Text → Bool
all ts [] = true
all ts (s ∷ ss) = if among ts s then all ts ss else false

all_iff : (ts ss : List Text) → (all ts ss ≡ true) ↔ All (Among ts) ss
all_iff ts [] = ((λ h. tt), (λ h. refl))
all_iff ts (s ∷ ss) = and_iff (among ts s) (all ts ss) (among_iff ts s) (all_iff ts ss)

abbrev same : List Text → List Text → Bool
same ss ts = if all ts ss then all ss ts else false

same_iff : (ss ts : List Text) → (same ss ts ≡ true) ↔ Same ss ts
same_iff ss ts = and_iff (all ts ss) (all ss ts) (all_iff ts ss) (all_iff ss ts)

-- a packed message is the route names that it asks for
abbrev pub named_proto : Proto
named_proto = record {
  Error = Text;
  DurationMsg = ℕ;
  duration_proto = λ d. 0;
  AnyMsg = List Text;
  ApiVersion = ℕ;
  default_api_version = 3;
  router_name = codes "router";
  http_grpc_access_log_name = codes "log";
  http_connection_manager_name = codes "manager";
}

abbrev pack : Message named_proto → List Text
pack router = []
pack (access_log_config c) = []
pack (connection_manager m) = m.route_specifier.route_config_name ∷ []

abbrev first_packed : List (TypedFilter named_proto) → List Text
first_packed [] = []
first_packed (f ∷ fs) = f.typed_config

abbrev pub routes_of : Listener named_proto → List Text
routes_of l = first_packed l.filters

abbrev refuse_unless : Bool → Option Text
refuse_unless true = none
refuse_unless false = some (codes "inconsistent")

refuse_iff : (b : Bool) → (refuse_unless b ≡ none) ↔ (b ≡ true)
refuse_iff true = ((λ h. refl), (λ h. refl))
refuse_iff false = ((λ h. absurd (cc)), (λ h. absurd (cc)))

abbrev listed :
    List Text
    → List Text
    → List (Option (RouteConfiguration named_proto))
    → List (Option (Listener named_proto))
    → Option Text
listed asked given (some r ∷ []) (some l ∷ []) =
    refuse_unless (if same asked given then same (routes_of l) (r.name ∷ []) else false)
listed asked given rs ls = some (codes "nothing to serve")

abbrev named_api : SnapshotApi named_proto
named_api = record {
  Snapshot = ResourceMap named_proto;
  new_snapshot = λ v m. ok m;
  consistent = λ m.
      listed (map (λ c. c.eds_cluster_config.service_name) m.cluster_type)
        (map (λ e. e.cluster_name) m.endpoint_type) m.route_type m.listener_type;
}

abbrev pub named_env : Env named_proto
named_env = record {
  unmarshal_cds = decode (codes "cds") (sample_cds ∷ []);
  unmarshal_eds = decode (codes "eds") (sample_eds ∷ []);
  unmarshal_rds = decode (codes "rds") (sample_rds ∷ []);
  unmarshal_lds = decode (codes "lds") sample_lds;
  validate_cds = λ c. none;
  validate_eds = λ c. none;
  validate_rds = λ c. none;
  validate_lds = λ c. none;
  abs = λ path. ok path;
  marshal_any = λ m. ok (pack m);
  api = named_api;
  order = sample_order;
  chmod = 16;
}

listed_iff :
    (asked given : List Text) (rs : List (Option (RouteConfiguration named_proto)))
    (ls : List (Option (Listener named_proto))) (r : RouteConfiguration named_proto)
    (l : Listener named_proto)
    → rs ≡ some r ∷ []
    → ls ≡ some l ∷ []
    → (listed asked given rs ls ≡ none) ↔ (Same asked given × Same (routes_of l) (r.name ∷ []))
listed_iff asked given rs ls r l hr hl = rw hr (
    rw hl (
      let both =
        and_iff (same asked given) (same (routes_of l) (r.name ∷ [])) (same_iff asked given)
          (same_iff (routes_of l) (r.name ∷ [])) in
      let refused =
        refuse_iff (if same asked given then same (routes_of l) (r.name ∷ []) else false) in
      ((λ h. both.0 (refused.0 h)), (λ h. refused.1 (both.1 h)))))

pub named-Documented : Documented named_env (λ m. m) routes_of
unfolding listener_filters
named-Documented = record {
  built = λ v m r l _ _ _. (
    m,
    refl,
    (
      Same-refl (asked_endpoints named_env m.cluster_type),
      Same-refl (listed_endpoints named_env m.endpoint_type),
      refl,
      refl,
    ),
  );
  packed = λ l m any h filters. ap first_packed filters ∙ sym (ok_inj h);
  consistent = λ s r l hr hl.
      listed_iff (asked_endpoints named_env s.cluster_type)
        (listed_endpoints named_env s.endpoint_type) s.route_type s.listener_type r l hr hl;
}
