-- ===== src/Server/Serve/Blocked.antt =====
-- Both servers fail: `Start` receives once, so the error that comes second is never received.
use example_envoy_xds.Base.{
  ℕ, ◌≤◌, List, [], ◌∷◌, Text, Option, none, some, ◌≡◌, refl, ◌⊎◌, inl, inr, arith, ap, sym, subst,
  ◌∙◌, ◌+◌,
}
use example_envoy_xds.Server.Serve.{
  Which, Serve, never, returns, Goroutine, serving, sending, finished, Serving, at, put, send,
  advance, serve_error, turns, launched,
}
use example_envoy_xds.Server.Serve.Sound.{IsAt, turns-IsSound}
use example_envoy_xds.Server.Serve.Turns.{
  count, need, turns-need, at-log, at-receive, at-put, put-received, advance-other, count-other,
  Which-cases,
}

module _ {E : Type 0} where
  abbrev ends : Goroutine E → ℕ
  ends serving = 0
  ends (sending e) = 0
  ends finished = 1

  abbrev got : Option E → ℕ
  got none = 0
  got (some e) = 1

  abbrev total : Serving E → ℕ
  total s = ends s.xds + ends s.als

  put-total :
      (w : Which) (g : Goroutine E) (s : Serving E)
      → total (put w g s) + ends (at w s) ≡ total s + ends g
  put-total Which.xds g s = omega arith
  put-total Which.als g s = omega arith

  -- one goroutine is at its end for one error that was received
  abbrev IsEven : Serving E → Type 0
  IsEven s = total s ≡ got s.received

  send-IsEven :
      (w : Which) (e : E) (o : Option E) (s : Serving E)
      → s.received ≡ o
      → ends (at w s) ≡ 0
      → IsEven s
      → IsEven (send w e o s)
  unfolding send
  send-IsEven w e none s same busy even =
      omega (arith, put-total w finished s, busy, even, ap got same)
  send-IsEven w e (some f) s same busy even = even

  module _ (error_text : E → Text) (serve : Which → Serve E) where
    advance-IsEven :
        (w : Which) (g : Goroutine E) (r : Serve E) (s : Serving E) {e : E}
        → at w s ≡ g
        → r ≡ returns (some e)
        → IsEven s
        → IsEven (advance error_text serve w g r s)
    unfolding advance
    advance-IsEven w serving never s here fails even = absurd (cc)
    advance-IsEven w serving (returns none) s here fails even = absurd (cc)
    advance-IsEven w serving (returns (some f)) s here fails even =
        let line = record s { log = serve_error error_text serve w f ∷ s.log } in
        omega (
          arith,
          put-total w (sending f) line,
          ap ends (at-log w s line.log ∙ here),
          even,
          ap got (put-received w (sending f) line),
        )
    advance-IsEven w (sending f) r s here fails even =
        send-IsEven w f s.received s refl (ap ends here) even
    advance-IsEven w finished r s here fails even = even

    turns-IsEven :
        (ws : List Which) (s : Serving E)
        → ((w : Which) → (e : E) × (serve w ≡ returns (some e)))
        → IsEven s
        → IsEven (turns error_text serve ws s)
    unfolding turns
    turns-IsEven [] s fail even = even
    turns-IsEven (w ∷ ws) s fail even =
        turns-IsEven ws _ fail (advance-IsEven w (at w s) (serve w) s refl (fail w).1 even)

    send-left :
        (w : Which) (e : E) (o : Option E) (s : Serving E)
        → need (at w s) ≤ 1
        → need (at w (send w e o s)) ≤ 1
    unfolding send
    send-left w e none s h =
        subst (λ g. need g ≤ 1)
          (sym (at-receive w (put w finished s) (some e) ∙ at-put w finished s)) (omega arith)
    send-left w e (some f) s h = h

    advance-left :
        (w : Which) (g : Goroutine E) (r : Serve E) (s : Serving E) {e : E}
        → at w s ≡ g
        → r ≡ returns (some e)
        → need (at w (advance error_text serve w g r s)) ≤ 1
    unfolding advance
    advance-left w serving never s here fails = absurd (cc)
    advance-left w serving (returns none) s here fails = absurd (cc)
    advance-left w serving (returns (some f)) s here fails =
        subst (λ g. need g ≤ 1) (sym (at-put w (sending f) _)) (omega arith)
    advance-left w (sending f) r s here fails =
        send-left w f s.received s (subst (λ g. need g ≤ 1) (sym here) (omega arith))
    advance-left w finished r s here fails = subst (λ g. need g ≤ 1) (sym here) (omega arith)

    turns-left :
        (w : Which) {e : E} (ws : List Which) (s : Serving E)
        → serve w ≡ returns (some e)
        → (need (at w s) ≤ 1) ⊎ (1 ≤ count w ws)
        → need (at w (turns error_text serve ws s)) ≤ 1
    unfolding turns
    turns-left w [] s fails (inl h) = h
    turns-left w [] s fails (inr h) = absurd (omega arith)
    turns-left w (t ∷ ws) s fails h = elim (Which-cases t w) [
      | inr ne ↦
          let same = advance-other error_text serve t w (at t s) (serve t) s ne in
          turns-left w ws _ fails (elim h [
            | inl few ↦ inl (subst (λ g. need g ≤ 1) (sym same) few)
            | inr more ↦ inr (subst (λ n. 1 ≤ n) (count-other t w ws ne) more)
          ])
      | inl same ↦ turns-left w ws _ fails (
          inl (
            subst (λ u. need (at w (advance error_text serve u (at u s) (serve u) s)) ≤ 1)
              (sym same) (advance-left w (at w s) (serve w) s refl fails)))
    ]

  one_waits :
      (o : Option E) (r q : Serve E) (e f : E) (x a : Goroutine E)
      → r ≡ returns (some e)
      → q ≡ returns (some f)
      → IsAt r o x
      → IsAt q o a
      → ends x + ends a ≡ 1
      → need x ≤ 1
      → need a ≤ 1
      → ((x ≡ finished) × (a ≡ sending f)) ⊎ ((x ≡ sending e) × (a ≡ finished))
  one_waits o r q e f serving a rx qa hx ha sum nx na = absurd (omega arith)
  one_waits o r q e f (sending d) serving rx qa hx ha sum nx na = absurd (omega arith)
  one_waits o r q e f (sending d) (sending c) rx qa hx ha sum nx na = absurd (omega arith)
  one_waits o r q e f (sending d) finished rx qa hx ha sum nx na = inr (cc, refl)
  one_waits o r q e f finished serving rx qa hx ha sum nx na = absurd (omega arith)
  one_waits o r q e f finished (sending c) rx qa hx ha sum nx na = inl (refl, cc)
  one_waits o r q e f finished finished rx qa hx ha sum nx na = absurd (omega arith)

  module _ (error_text : E → Text) (serve : Which → Serve E) where
    both_fail :
        {e f : E}
        → serve Which.xds ≡ returns (some e)
        → serve Which.als ≡ returns (some f)
        → (w : Which) → (d : E) × (serve w ≡ returns (some d))
    both_fail {e} {f} h k Which.xds = (e, h)
    both_fail {e} {f} h k Which.als = (f, k)

    -- If both servers fail, then once each goroutine has had two turns, in any order, one of them
    -- has handed its error to `Start` and is at its end, and the other still waits to send its own.
    pub turns-one_waits :
        (e f : E) (ws : List Which) (log : List Text)
        → serve Which.xds ≡ returns (some e)
        → serve Which.als ≡ returns (some f)
        → 2 ≤ count Which.xds ws
        → 2 ≤ count Which.als ws
        → (((turns error_text serve ws (launched log)).xds ≡ finished)
            × ((turns error_text serve ws (launched log)).als ≡ sending f))
          ⊎ (((turns error_text serve ws (launched log)).xds ≡ sending e)
              × ((turns error_text serve ws (launched log)).als ≡ finished))
    turns-one_waits e f ws log h k two_x two_a =
        let s = turns error_text serve ws (launched log) in
        let (x, a, _) = turns-IsSound error_text serve ws (launched log) (tt, tt, tt) in
        let (d, received) =
          turns-need error_text serve Which.xds e h ws (launched log) (tt, tt, tt) two_x in
        let even = turns-IsEven error_text serve ws (launched log) (both_fail h k) refl in
        one_waits s.received (serve Which.xds) (serve Which.als) e f s.xds s.als h k x a
          (even ∙ ap got received)
          (turns-left error_text serve Which.xds ws (launched log) h (inr (omega arith)))
          (turns-left error_text serve Which.als ws (launched log) k (inr (omega arith)))
