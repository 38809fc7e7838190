-- ===== src/Server/Serve/Turns.antt =====
-- How many turns a goroutine of `Start` needs until an error is received.
use example_envoy_xds.Base.{
  ℕ, suc, ◌≤◌, List, [], ◌∷◌, Text, Option, none, some, ◌≡◌, ◌≢◌, refl, sym, ◌∙◌, ap, subst, ◌⊎◌,
  inl, inr, arith, Option-cases,
}
use example_envoy_xds.Server.Serve.{
  Which, Serve, never, returns, Goroutine, serving, sending, finished, Serving, at, put, send,
  advance, turns, launched,
}
use example_envoy_xds.Server.Serve.Sound.{IsAt, IsSound, at-IsSound, turn-IsSound}

-- how many turns a goroutine has
abbrev pub count : Which → List Which → ℕ
count w [] = 0
count Which.xds (Which.xds ∷ ws) = suc (count Which.xds ws)
count Which.xds (Which.als ∷ ws) = count Which.xds ws
count Which.als (Which.xds ∷ ws) = count Which.als ws
count Which.als (Which.als ∷ ws) = suc (count Which.als ws)

pub Which-cases : (t w : Which) → (t ≡ w) ⊎ (t ≢ w)
Which-cases Which.xds Which.xds = inl refl
Which-cases Which.xds Which.als = inr (λ h. cc)
Which-cases Which.als Which.xds = inr (λ h. cc)
Which-cases Which.als Which.als = inl refl

count-same : (w : Which) (ws : List Which) → count w (w ∷ ws) ≡ suc (count w ws)
count-same Which.xds ws = refl
count-same Which.als ws = refl

pub count-other : (t w : Which) (ws : List Which) → t ≢ w → count w (t ∷ ws) ≡ count w ws
count-other Which.xds Which.xds ws ne = absurd (ne refl)
count-other Which.xds Which.als ws ne = refl
count-other Which.als Which.xds ws ne = refl
count-other Which.als Which.als ws ne = absurd (ne refl)

module _ {E : Type 0} where
  put-other : (t w : Which) (g : Goroutine E) (s : Serving E) → t ≢ w → at w (put t g s) ≡ at w s
  put-other Which.xds Which.xds g s ne = absurd (ne refl)
  put-other Which.xds Which.als g s ne = refl
  put-other Which.als Which.xds g s ne = refl
  put-other Which.als Which.als g s ne = absurd (ne refl)

  pub put-received :
      (w : Which) (g : Goroutine E) (s : Serving E) → (put w g s).received ≡ s.received
  put-received Which.xds g s = refl
  put-received Which.als g s = refl

  pub at-put : (w : Which) (g : Goroutine E) (s : Serving E) → at w (put w g s) ≡ g
  at-put Which.xds g s = refl
  at-put Which.als g s = refl

  pub at-log : (w : Which) (s : Serving E) (l : List Text) → at w (record s { log = l }) ≡ at w s
  at-log Which.xds s l = refl
  at-log Which.als s l = refl

  pub at-receive :
      (w : Which) (s : Serving E) (o : Option E) → at w (record s { received = o }) ≡ at w s
  at-receive Which.xds s o = refl
  at-receive Which.als s o = refl

  pub at-launched : (w : Which) (log : List Text) → at {E = E} w (launched log) ≡ serving
  at-launched Which.xds log = refl
  at-launched Which.als log = refl

  send-other :
      (t w : Which) (e : E) (o : Option E) (s : Serving E) → t ≢ w → at w (send t e o s) ≡ at w s
  unfolding send
  send-other t w e none s ne =
      at-receive w (put t finished s) (some e) ∙ put-other t w finished s ne
  send-other t w e (some f) s ne = refl

  -- how many turns it needs until its error is received
  abbrev pub need : Goroutine E → ℕ
  need serving = 2
  need (sending e) = 1
  need finished = 0

  module _ (error_text : E → Text) (serve : Which → Serve E) where
    abbrev IsIn : Option E → Type 0
    IsIn o = (f : E) × (o ≡ some f)

    send-received :
        (w : Which) (e : E) (o : Option E) (s : Serving E)
        → IsIn s.received
        → IsIn (send w e o s).received
    unfolding send
    send-received w e none s h = (e, refl)
    send-received w e (some f) s h = h

    advance-received :
        (w : Which) (g : Goroutine E) (r : Serve E) (s : Serving E)
        → IsIn s.received
        → IsIn (advance error_text serve w g r s).received
    unfolding advance
    advance-received w serving never s h = h
    advance-received w serving (returns none) s (f, h) = (f, put-received w finished s ∙ h)
    advance-received w serving (returns (some e)) s (f, h) = (f, put-received w (sending e) _ ∙ h)
    advance-received w (sending e) r s h = send-received w e s.received s h
    advance-received w finished r s h = h

    turns-received :
        (ws : List Which) (s : Serving E)
        → IsIn s.received
        → IsIn (turns error_text serve ws s).received
    unfolding turns
    turns-received [] s h = h
    turns-received (w ∷ ws) s h = turns-received ws _ (advance-received w (at w s) (serve w) s h)

    send-none :
        (w : Which) (e : E) (o : Option E) (s : Serving E) → o ≡ none → IsIn (send w e o s).received
    unfolding send
    send-none w e none s h = (e, refl)
    send-none w e (some f) s h = absurd (cc)

    -- a turn of a goroutine whose `Serve` fails brings it nearer, or its error is received
    advance-need :
        (w : Which) (g : Goroutine E) (r : Serve E) (s : Serving E) (e : E) (n : ℕ)
        → r ≡ returns (some e)
        → s.received ≡ none
        → need g ≤ suc n
        → IsAt r s.received g
        → IsIn (advance error_text serve w g r s).received
          ⊎ (need (at w (advance error_text serve w g r s)) ≤ n)
    unfolding advance
    advance-need w serving never s e n h empty fits sound = absurd (cc)
    advance-need w serving (returns none) s e n h empty fits sound = absurd (cc)
    advance-need w serving (returns (some f)) s e n h empty fits sound =
        inr (subst (λ g. need g ≤ n) (sym (at-put w (sending f) _)) (omega arith))
    advance-need w (sending f) r s e n h empty fits sound = inl (send-none w f s.received s empty)
    advance-need w finished r s e n h empty fits (inl returned) = absurd (cc)
    advance-need w finished r s e n h empty fits (inr (f, got)) = absurd (cc)

    pub advance-other :
        (t w : Which) (g : Goroutine E) (r : Serve E) (s : Serving E)
        → t ≢ w
        → at w (advance error_text serve t g r s) ≡ at w s
    unfolding advance
    advance-other t w serving never s ne = refl
    advance-other t w serving (returns none) s ne = put-other t w finished s ne
    advance-other t w serving (returns (some e)) s ne =
        put-other t w (sending e) _ ne ∙ at-log w s _
    advance-other t w (sending e) r s ne = send-other t w e s.received s ne
    advance-other t w finished r s ne = refl

    need-zero : (g : Goroutine E) → need g ≤ 0 → g ≡ finished
    need-zero serving h = absurd (omega arith)
    need-zero (sending e) h = absurd (omega arith)
    need-zero finished h = refl

    module _ (w : Which) (e : E) (fails : serve w ≡ returns (some e)) where
      finished-received :
          (s : Serving E) (g : Goroutine E)
          → g ≡ finished
          → IsAt (serve w) s.received g
          → IsIn s.received
      finished-received s serving h sound = absurd (cc)
      finished-received s (sending f) h sound = absurd (cc)
      finished-received s finished h (inl returned) = absurd (cc)
      finished-received s finished h (inr got) = got

      abbrev after : Which → Serving E → Serving E
      after t s = advance error_text serve t (at t s) (serve t) s

      turn-need :
          (t : Which) (ws : List Which) (s : Serving E)
          → IsSound error_text serve s
          → s.received ≡ none
          → need (at w s) ≤ count w (t ∷ ws)
          → IsIn (after t s).received ⊎ (need (at w (after t s)) ≤ count w ws)
      turn-need t ws s sound empty fits = elim (Which-cases t w) [
        | inr ne ↦ inr (
            subst (λ g. need g ≤ count w ws) (sym (advance-other t w (at t s) (serve t) s ne))
              (subst (λ n. need (at w s) ≤ n) (count-other t w ws ne) fits))
        | inl same ↦
            subst (λ u. IsIn (after u s).received ⊎ (need (at w (after u s)) ≤ count w ws))
              (sym same)
              (advance-need w (at w s) (serve w) s e (count w ws) fails empty
                (subst (λ n. need (at w s) ≤ n) (ap (λ u. count w (u ∷ ws)) same ∙ count-same w ws)
                  fits)
                (at-IsSound error_text serve w s sound))
      ]

      pub turns-need :
          (ws : List Which) (s : Serving E)
          → IsSound error_text serve s
          → need (at w s) ≤ count w ws
          → IsIn (turns error_text serve ws s).received
      unfolding turns
      turns-need [] s sound fits =
          finished-received s (at w s) (need-zero (at w s) fits)
            (at-IsSound error_text serve w s sound)
      turns-need (t ∷ ws) s sound fits =
          let next = turn-IsSound error_text serve t s sound in
          elim (Option-cases s.received) [
            | inr got ↦ turns-received (t ∷ ws) s got
            | inl empty ↦ elim (turn-need t ws s sound empty fits) [
              | inl got ↦ turns-received ws (after t s) got
              | inr near ↦ turns-need ws (after t s) next near
            ]
          ]
