-- ===== src/Lds/Laws.antt =====
-- `create` of lds.go: it fails exactly when the packing of one of the three messages fails, and
-- then the version stays.
use example_envoy_xds.Base.{List, ok, err, ◌≡◌}
use example_envoy_xds.Config.{LdsConfig}
use example_envoy_xds.Decimal.{format_uint}
use example_envoy_xds.Xds.{Proto}
use example_envoy_xds.Lds.{
  MarshalAny, ListenerDiscoveryService, TypedFilter, packed_filters, incre_version, listener,
  create,
}

module _ {p : Proto} (marshal_any : MarshalAny p) (s : ListenerDiscoveryService p)
    (config : LdsConfig) where
  pub create_ok :
      {fs : List (TypedFilter p)}
      → packed_filters marshal_any s config ≡ ok fs
      → create marshal_any s config
        ≡ (incre_version s, ok (format_uint (incre_version s).version, listener fs config.listen))
  unfolding create
  create_ok packed = rw (packed, create)

  pub create_err :
      {e : p.Error}
      → packed_filters marshal_any s config ≡ err e
      → create marshal_any s config ≡ (s, err e)
  unfolding create
  create_err bad = rw (bad, create)
