-- ===== src/Names/Laws.antt =====
-- What `xdsName` keeps of a name and what it forgets.
use mathlib.Core.List.{append_cancel_left, map-append, tail-eq_of_cons-eq}
use example_envoy_xds.Base.{List, [], ◌∷◌, ◌++◌, Text, codes, ◌≡◌, ◌≢◌, ◌↔◌, sym, ◌∙◌, All, arith}
use example_envoy_xds.Names.{xds_name, join, replace_all, underscore}

-- a prefix and a name become one text, each respelled
pub xds_name-pair : (p s : Text) → xds_name (p ∷ s ∷ []) ≡ replace_all p ++ (b'_' ∷ replace_all s)
unfolding xds_name
xds_name-pair p s = map-append underscore p (codes "_" ++ s)

-- Under one prefix two names collide exactly when they agree up to the spelling of `-` as `_`.
pub xds_name-eq_iff :
    (p s t : Text)
    → (xds_name (p ∷ s ∷ []) ≡ xds_name (p ∷ t ∷ [])) ↔ (replace_all s ≡ replace_all t)
xds_name-eq_iff p s t = (
  λ e.
      tail-eq_of_cons-eq
        (append_cancel_left (replace_all p) _ _ (sym (xds_name-pair p s) ∙ e ∙ xds_name-pair p t)),
  λ e. rw (xds_name-pair p s, xds_name-pair p t, e),
)

replace_all-Lacks : (s : Text) → All (λ c. c ≢ b'-') (replace_all s)
unfolding replace_all underscore
replace_all-Lacks [] = tt
replace_all-Lacks (c ∷ s) = (ground arith, replace_all-Lacks s)

-- No name holds a dash.
pub xds_name-Lacks : (values : List Text) → All (λ c. c ≢ b'-') (xds_name values)
unfolding xds_name
xds_name-Lacks values = replace_all-Lacks (join values (codes "_"))
