-- ===== src/Server/Serve/Sound.antt =====
-- The goroutines of `Start`: where one can be, by what its `Serve` comes to and what was received.
use example_envoy_xds.Base.{List, [], ◌∷◌, Text, Option, none, some, ◌≡◌, refl, ◌∙◌, ◌⊎◌, inl, inr}
use example_envoy_xds.Server.Serve.{
  Which, Serve, never, returns, Goroutine, serving, sending, finished, Serving, at, put, send,
  advance, turns,
}

module _ {E : Type 0} where
  abbrev pub IsAt : Serve E → Option E → Goroutine E → Type 0
  IsAt r received serving = Unit {0}
  IsAt r received (sending e) = r ≡ returns (some e)
  IsAt r received finished = (r ≡ returns none) ⊎ ((f : E) × (received ≡ some f))

  IsAt-received :
      (r : Serve E) (o : Option E) (e : E) (g : Goroutine E) → IsAt r o g → IsAt r (some e) g
  IsAt-received r o e serving h = tt
  IsAt-received r o e (sending f) h = h
  IsAt-received r o e finished (inl h) = inl h
  IsAt-received r o e finished (inr h) = inr (e, refl)

  module _ (error_text : E → Text) (serve : Which → Serve E) where
    -- an error that was received comes from a `Serve`
    abbrev pub IsReturned : Option E → Type 0
    IsReturned none = Unit {0}
    IsReturned (some f) = (w : Which) × (serve w ≡ returns (some f))

    abbrev pub IsSound : Serving E → Type 0
    IsSound s =
        IsAt (serve Which.xds) s.received s.xds
        × IsAt (serve Which.als) s.received s.als
        × IsReturned s.received

    pub at-IsSound : (w : Which) (s : Serving E) → IsSound s → IsAt (serve w) s.received (at w s)
    at-IsSound Which.xds s (x, a, r) = x
    at-IsSound Which.als s (x, a, r) = a

    put-IsSound :
        (w : Which) (g : Goroutine E) (s : Serving E)
        → IsAt (serve w) s.received g
        → IsSound s
        → IsSound (put w g s)
    put-IsSound Which.xds g s h (x, a, r) = (h, a, r)
    put-IsSound Which.als g s h (x, a, r) = (x, h, r)

    receive-IsSound :
        (w : Which) (e : E) (s : Serving E)
        → serve w ≡ returns (some e)
        → IsSound s
        → IsSound (record (put w finished s) { received = some e })
    receive-IsSound Which.xds e s h (x, a, r) =
        (inr (e, refl), IsAt-received (serve Which.als) s.received e s.als a, (Which.xds, h))
    receive-IsSound Which.als e s h (x, a, r) =
        (IsAt-received (serve Which.xds) s.received e s.xds x, inr (e, refl), (Which.als, h))

    send-IsSound :
        (w : Which) (e : E) (o : Option E) (s : Serving E)
        → serve w ≡ returns (some e)
        → IsSound s
        → IsSound (send w e o s)
    unfolding send
    send-IsSound w e none s h sound = receive-IsSound w e s h sound
    send-IsSound w e (some f) s h sound = sound

    advance-IsSound :
        (w : Which) (g : Goroutine E) (r : Serve E) (s : Serving E)
        → serve w ≡ r
        → IsAt r s.received g
        → IsSound s
        → IsSound (advance error_text serve w g r s)
    unfolding advance
    advance-IsSound w serving never s same h sound = sound
    advance-IsSound w serving (returns none) s same h sound =
        put-IsSound w finished s (inl same) sound
    advance-IsSound w serving (returns (some e)) s same h sound =
        put-IsSound w (sending e) _ same sound
    advance-IsSound w (sending e) r s same h sound = send-IsSound w e s.received s (same ∙ h) sound
    advance-IsSound w finished r s same h sound = sound

    pub turn-IsSound :
        (w : Which) (s : Serving E)
        → IsSound s
        → IsSound (advance error_text serve w (at w s) (serve w) s)
    turn-IsSound w s sound =
        advance-IsSound w (at w s) (serve w) s refl (at-IsSound w s sound) sound

    pub turns-IsSound :
        (ws : List Which) (s : Serving E) → IsSound s → IsSound (turns error_text serve ws s)
    unfolding turns
    turns-IsSound [] s sound = sound
    turns-IsSound (w ∷ ws) s sound = turns-IsSound ws _ (turn-IsSound w s sound)
