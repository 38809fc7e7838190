-- ===== src/Server/Serve/Received.antt =====
-- When `Start` returns, and with what.
use example_envoy_xds.Base.{
  ◌≤◌, List, ◌∷◌, Text, Option, none, some, ◌≡◌, refl, sym, subst, ◌⊎◌, inl, inr, Result, ok, err,
}
use example_envoy_xds.Server.Serve.{
  Which, Serve, returns, turns, launched, started, start, begin, Server, Process,
}
use example_envoy_xds.Server.Serve.Begun.{Begun, begin-Begun}
use example_envoy_xds.Server.Serve.Sound.{IsReturned, turns-IsSound}
use example_envoy_xds.Server.Serve.Turns.{count, need, at-launched, turns-need}

module _ {E L : Type 0} (error_text : E → Text) (net_listen : List L → Text → Result E L)
    (serve : Which → Serve E) where
  begun-received :
      (r : Result E (L × L)) (log : List Text) (ws : List Which) (w : Which) (e : E)
      → serve w ≡ returns (some e)
      → 2 ≤ count w ws
      → (f : E) × (started error_text serve ws log r ≡ some f)
  unfolding started
  begun-received (err f) log ws w e fails enough = (f, refl)
  begun-received (ok both) log ws w e fails enough =
      turns-need error_text serve w e fails ws (launched log) (tt, tt, tt)
        (subst (λ g. need g ≤ count w ws) (sym (at-launched w log)) enough)

  -- When a `Serve` fails, `Start` has returned an error as soon as the goroutine of that `Serve` has
  -- had two turns, whatever the other goroutine does and in whatever order they take turns.
  pub start-received :
      (s : Server) (q : Process L) (ws : List Which) (w : Which) (e : E)
      → serve w ≡ returns (some e)
      → 2 ≤ count w ws
      → (f : E) × (start error_text serve net_listen s q ws ≡ some f)
  unfolding start
  start-received s q ws w e fails enough =
      let (s', q', r) = begin error_text net_listen s q in
      begun-received r q'.log ws w e fails enough

  -- the error of a `Serve`, or that of the one or the other listen
  abbrev pub IsCause : Server → Process L → E → Type 0
  IsCause s q f =
      ((w : Which) × (serve w ≡ returns (some f)))
      ⊎ (net_listen q.listeners s.opt.xds_listen_addr ≡ err f)
      ⊎ ((x : L) × (net_listen q.listeners s.opt.xds_listen_addr ≡ ok x)
          × (net_listen (x ∷ q.listeners) s.opt.als_listen_addr ≡ err f))

  returned :
      (o : Option E) (f : E)
      → IsReturned error_text serve o
      → o ≡ some f
      → (w : Which) × (serve w ≡ returns (some f))
  returned none f h same = absurd (cc)
  returned (some g) f (w, h) same = (w, cc)

  started-IsCause :
      (s : Server) (q : Process L) (r : Server × Process L × Result E (L × L)) (ws : List Which)
      (f : E)
      → Begun error_text net_listen s q r
      → started error_text serve ws r.1.log r.2 ≡ some f
      → IsCause s q f
  unfolding started
  started-IsCause s q (s', q', err e) ws f (inl (d, h, same, _, _)) got = inr (inl (cc))
  started-IsCause s q (s', q', err e) ws f (inr (inl (x, d, h, k, same, _, _))) got =
      inr (inr (x, h, cc))
  started-IsCause s q (s', q', err e) ws f (inr (inr (x, a, h, k, same, _, _, _))) got = absurd (cc)
  started-IsCause s q (s', q', ok both) ws f begun got = inl (
      returned (turns error_text serve ws (launched q'.log)).received f
        (turns-IsSound error_text serve ws (launched q'.log) (tt, tt, tt)).2 got)

  -- What `Start` returns is the error of a listen or of a `Serve`: while neither fails it waits.
  pub start-IsCause :
      (s : Server) (q : Process L) (ws : List Which) (f : E)
      → start error_text serve net_listen s q ws ≡ some f
      → IsCause s q f
  unfolding start
  start-IsCause s q ws f got =
      started-IsCause s q (begin error_text net_listen s q) ws f
        (begin-Begun error_text net_listen s q) got
