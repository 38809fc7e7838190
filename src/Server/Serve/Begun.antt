-- ===== src/Server/Serve/Begun.antt =====
-- `Start` up to its goroutines, on each of its branches.
use example_envoy_xds.Base.{
  List, [], ◌∷◌, ◌++◌, Text, Result, ok, err, ◌≡◌, refl, ◌⊎◌, inl, inr, ap, sym, append_assoc,
}
use example_envoy_xds.Server.Serve.{
  Server, Process, begin, listen_xds, listen_als, listened, with_als, with_xds, register,
  register_xds_service, register_als_service, cluster_discovery, endpoint_discovery,
  listener_discovery, route_discovery, aggregated_discovery, runtime_discovery, secret_discovery,
  access_log,
}

module _ {E L : Type 0} (error_text : E → Text) (net_listen : List L → Text → Result E L) where
  abbrev pub Begin : Type 0
  Begin = Server × Process L × Result E (L × L)

  -- the first listen has failed: nothing is open that was not before
  abbrev pub IsUnopened : Server → Process L → Begin → Type 0
  IsUnopened s q (s', q', r) =
      (e : E) × (net_listen q.listeners s.opt.xds_listen_addr ≡ err e)
      × (r ≡ err e)
      × (q'.listeners ≡ q.listeners)
      × (s' ≡ s)

  -- the second listen has failed: the first listener is left open
  abbrev pub IsHalfOpen : Server → Process L → Begin → Type 0
  IsHalfOpen s q (s', q', r) =
      (x : L) × (e : E) × (net_listen q.listeners s.opt.xds_listen_addr ≡ ok x)
      × (net_listen (x ∷ q.listeners) s.opt.als_listen_addr ≡ err e)
      × (r ≡ err e)
      × (q'.listeners ≡ x ∷ q.listeners)
      × (s' ≡ s)

  -- both addresses are listened on, and the eight services are registered before anything is served
  abbrev pub IsOpen : Server → Process L → Begin → Type 0
  IsOpen s q (s', q', r) =
      (x a : L) × (net_listen q.listeners s.opt.xds_listen_addr ≡ ok x)
      × (net_listen (x ∷ q.listeners) s.opt.als_listen_addr ≡ ok a)
      × (r ≡ ok (x, a))
      × (q'.listeners ≡ a ∷ x ∷ q.listeners)
      × (s'.xds_svr.services
          ≡ s.xds_svr.services
            ++ (cluster_discovery ∷ endpoint_discovery ∷ listener_discovery ∷ route_discovery
                ∷ aggregated_discovery ∷ runtime_discovery ∷ secret_discovery ∷ []))
      × (s'.als_svr.services ≡ s.als_svr.services ++ (access_log ∷ []))

  abbrev pub Begun : Server → Process L → Begin → Type 0
  Begun s q r = IsUnopened s q r ⊎ IsHalfOpen s q r ⊎ IsOpen s q r

  with_als-Begun :
      (s : Server) (q q' : Process L) (addr : Text) (x : L) (r : Result E L)
      → q'.listeners ≡ x ∷ q.listeners
      → net_listen q.listeners s.opt.xds_listen_addr ≡ ok x
      → net_listen (x ∷ q.listeners) s.opt.als_listen_addr ≡ r
      → Begun s q (with_als error_text net_listen s x (listened error_text net_listen addr r q'))
  unfolding with_als listened register_xds_service register_als_service register
  with_als-Begun s q q' addr x (err e) opened h k = inr (inl (x, e, h, k, refl, opened, refl))
  with_als-Begun s q q' addr x (ok a) opened h k =
      inr (inr (x, a, h, k, refl, ap (◌∷◌ a) opened, simp (append_assoc), refl))

  with_xds-Begun :
      (s : Server) (q q' : Process L) (r : Result E L)
      → q'.listeners ≡ q.listeners
      → net_listen q.listeners s.opt.xds_listen_addr ≡ r
      → Begun s q (
          with_xds error_text net_listen s
            (listened error_text net_listen s.opt.xds_listen_addr r q'))
  unfolding with_xds listened listen_als
  with_xds-Begun s q q' (err e) opened h = inl (e, h, refl, opened, refl)
  with_xds-Begun s q q' (ok x) opened h =
      with_als-Begun s q _ s.opt.als_listen_addr x _ (ap (◌∷◌ x) opened) h
        (ap (λ l. net_listen (x ∷ l) s.opt.als_listen_addr) (sym opened))

  -- `Start` returns the error of the first listen that fails, without a service registered; when
  -- the second one fails, the listener of the first stays open. Otherwise both addresses are
  -- listened on and the eight services are registered.
  pub begin-Begun :
      (s : Server) (q : Process L)
      → IsUnopened s q (begin error_text net_listen s q)
        ⊎ IsHalfOpen s q (begin error_text net_listen s q)
        ⊎ IsOpen s q (begin error_text net_listen s q)
  unfolding begin listen_xds
  begin-Begun s q = with_xds-Begun s q _ _ refl refl
