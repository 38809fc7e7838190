-- ===== src/Refs/Same.antt =====
-- Lists of names as sets, and the names that clusters and endpoint assignments get.
use example_envoy_xds.Base.{
  List, [], ◌∷◌, map, Text, codes, ◌≡◌, subst, ◌↔◌, All, All-imp, refl, inl, inr,
}
use example_envoy_xds.Names.{xds_name, replace_all}
use example_envoy_xds.Names.Laws.{xds_name-eq_iff}
use example_envoy_xds.Refs.Targets.{Among}

-- the same texts, in any order and any number of times
abbrev pub Same : List Text → List Text → Type 0
Same ss ts = All (Among ts) ss × All (Among ss) ts

pub Same-cast : {a b c d : List Text} → a ≡ b → c ≡ d → Same a c → Same b d
Same-cast {b = b} {c = c} p q h = subst (λ y. Same b y) q (subst (λ x. Same x c) p h)

Among-trans : (ts us : List Text) (s : Text) → All (Among us) ts → Among ts s → Among us s
Among-trans [] us s h k = absurd k
Among-trans (t ∷ ts) us s (ht, h) (inl e) = subst (Among us) e ht
Among-trans (t ∷ ts) us s (ht, h) (inr k) = Among-trans ts us s h k

pub Same-trans : (a b c : List Text) → Same a b → Same b c → Same a c
Same-trans a b c (to, from) (to', from') = (
  All-imp (Among b) (Among c) a (λ s k. Among-trans b c s to' k) to,
  All-imp (Among b) (Among a) c (λ s k. Among-trans b a s from k) from',
)

pub Same-sym : (a b : List Text) → Same a b → Same b a
Same-sym a b (to, from) = (from, to)

All-Among : (a : List Text) → All (Among a) a
All-Among [] = tt
All-Among (s ∷ a) = (inl refl, All-imp (Among a) (Among (s ∷ a)) a (λ t k. inr k) (All-Among a))

pub Same-refl : (a : List Text) → Same a a
Same-refl a = (All-Among a, All-Among a)

module _ (f g : Text → Text) (finer : (a b : Text) → f a ≡ f b → g a ≡ g b) where
  Among-finer : (ss : List Text) (t : Text) → Among (map f ss) (f t) → Among (map g ss) (g t)
  Among-finer [] t h = h
  Among-finer (s ∷ ss) t (inl e) = inl (finer s t e)
  Among-finer (s ∷ ss) t (inr h) = inr (Among-finer ss t h)

  All-finer :
      (ss ts : List Text) → All (Among (map f ts)) (map f ss) → All (Among (map g ts)) (map g ss)
  All-finer [] ts h = tt
  All-finer (s ∷ ss) ts (h, hs) = (Among-finer ts s h, All-finer ss ts hs)

  Same-finer : (ss ts : List Text) → Same (map f ss) (map f ts) → Same (map g ss) (map g ts)
  Same-finer ss ts (to, from) = (All-finer ss ts to, All-finer ts ss from)

-- the name of the endpoint service of a configured cluster
abbrev pub service_of : Text → Text
service_of n = xds_name (codes "example-xds-eds" ∷ n ∷ [])

-- the names of clusters in a file, each with `-` spelled as `_`
abbrev pub spelled : List Text → List Text
spelled ns = map replace_all ns

pub service_of_iff :
    (ss ts : List Text)
    → Same (map service_of ss) (map service_of ts) ↔ Same (spelled ss) (spelled ts)
service_of_iff ss ts =
    let same = xds_name-eq_iff (codes "example-xds-eds") in
    (
      Same-finer service_of replace_all (λ a b. (same a b).0) ss ts,
      Same-finer replace_all service_of (λ a b. (same a b).1) ss ts,
    )
