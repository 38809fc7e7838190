-- ===== src/Watch/Threads/Ledger.antt =====
-- What each `create` of a service has made, in the order of its counter: the record that the proofs
-- keep beside an interleaving.
use example_envoy_xds.Base.{
  ℕ, suc, ◌+◌, ◌≤◌, List, [], ◌∷◌, length, Text, Option, none, ◌≡◌, refl, sym, ◌∙◌, ◌==◌,
  if◌then◌else◌, arith,
}
use example_envoy_xds.Decimal.{format_uint}
use example_envoy_xds.Xds.{Proto}
use example_envoy_xds.Eds.{ClusterLoadAssignment}
use example_envoy_xds.Cds.{Cluster}
use example_envoy_xds.Rds.{RouteConfiguration}
use example_envoy_xds.Lds.{Listener}
use example_envoy_xds.Resource.{Resource, version, resource_map}
use example_envoy_xds.Resource.Version.{version_of_inj}

module _ {ℓ} {A : Type ℓ} (d : A) where
  -- what the `create` with number `n` made; number 0 is what the store begins with
  unfoldable pub entry : List A → ℕ → A
  entry [] n = d
  entry (x ∷ xs) n = if n == suc (length xs) then x else entry xs n

  entry-old : (x : A) (xs : List A) (n : ℕ) → n ≤ length xs → entry (x ∷ xs) n ≡ entry xs n
  unfolding entry
  entry-old x xs n h = ground arith

  entry-new : (x : A) (xs : List A) → entry (x ∷ xs) (suc (length xs)) ≡ x
  unfolding entry
  entry-new x xs = ground arith

  -- a version that was given out, with what it was given to
  abbrev pub IsEntry : List A → Text → A → Type ℓ
  IsEntry xs v x = (n : ℕ) × (n ≤ length xs) × (v ≡ format_uint n) × (x ≡ entry xs n)

  pub IsEntry-grow :
      (y : A) (xs : List A) (v : Text) (x : A) → IsEntry xs v x → IsEntry (y ∷ xs) v x
  IsEntry-grow y xs v x (n, fits, named, same) =
      (n, omega arith, named, same ∙ sym (entry-old y xs n fits))

  pub IsEntry-new : (y : A) (xs : List A) → IsEntry (y ∷ xs) (format_uint (suc (length xs))) y
  IsEntry-new y xs = (suc (length xs), omega arith, refl, sym (entry-new y xs))

pub record Ledger (p : Proto) : Type 0 where
  pub eds : List (List ClusterLoadAssignment)
  pub cds : List (List (Cluster p))
  pub rds : List (Option (RouteConfiguration p))
  pub lds : List (Option (Listener p))

abbrev pub size : {p : Proto} → Ledger p → ℕ
size g = length g.eds + length g.cds + length g.rds + length g.lds

abbrev pub empty : {p : Proto} → Ledger p
empty = record { eds = []; cds = []; rds = []; lds = [] }

module _ {p : Proto} where
  -- each of the four resources is what some `create` made, under the version that it gave
  pub record IsResource (g : Ledger p) (r : Resource p) : Type 0 where
    pub eds : IsEntry [] g.eds r.endpoints_version r.endpoints
    pub cds : IsEntry [] g.cds r.clusters_version r.clusters
    pub rds : IsEntry none g.rds r.route_version r.route
    pub lds : IsEntry none g.lds r.listener_version r.listener

  -- Under one version stand the same resources.
  pub IsResource-same :
      (g : Ledger p) (r s : Resource p)
      → IsResource g r
      → IsResource g s
      → version r ≡ version s
      → resource_map r ≡ resource_map s
  unfolding version resource_map
  IsResource-same g r s hr hs same =
      let (e, _, re, rex) = hr.eds in
      let (c, _, rc, rcx) = hr.cds in
      let (o, _, ro, rox) = hr.rds in
      let (l, _, rl, rlx) = hr.lds in
      let (e', _, se, sex) = hs.eds in
      let (c', _, sc, scx) = hs.cds in
      let (o', _, so, sox) = hs.rds in
      let (l', _, sl, slx) = hs.lds in
      let (pe, pc, po, pl) = version_of_inj e c o l e' c' o' l' (cc) in cc

  -- What was made stays made.
  pub record Grows (g h : Ledger p) : Type 0 where
    pub eds :
        (v : Text) (x : List ClusterLoadAssignment) → IsEntry [] g.eds v x → IsEntry [] h.eds v x
    pub cds : (v : Text) (x : List (Cluster p)) → IsEntry [] g.cds v x → IsEntry [] h.cds v x
    pub rds :
        (v : Text) (x : Option (RouteConfiguration p))
        → IsEntry none g.rds v x
        → IsEntry none h.rds v x
    pub lds : (v : Text) (x : Option (Listener p)) → IsEntry none g.lds v x → IsEntry none h.lds v x

  pub Grows-refl : (g : Ledger p) → Grows g g
  Grows-refl g = record { eds = λ v x h. h; cds = λ v x h. h; rds = λ v x h. h; lds = λ v x h. h }

  pub Grows-eds :
      (g : Ledger p) (y : List ClusterLoadAssignment) → Grows g (record g { eds = y ∷ g.eds })
  Grows-eds g y = record {
    eds = IsEntry-grow [] y g.eds;
    cds = λ v x h. h;
    rds = λ v x h. h;
    lds = λ v x h. h;
  }

  pub Grows-cds : (g : Ledger p) (y : List (Cluster p)) → Grows g (record g { cds = y ∷ g.cds })
  Grows-cds g y = record {
    eds = λ v x h. h;
    cds = IsEntry-grow [] y g.cds;
    rds = λ v x h. h;
    lds = λ v x h. h;
  }

  pub Grows-rds :
      (g : Ledger p) (y : Option (RouteConfiguration p)) → Grows g (record g { rds = y ∷ g.rds })
  Grows-rds g y = record {
    eds = λ v x h. h;
    cds = λ v x h. h;
    rds = IsEntry-grow none y g.rds;
    lds = λ v x h. h;
  }

  pub Grows-lds : (g : Ledger p) (y : Option (Listener p)) → Grows g (record g { lds = y ∷ g.lds })
  Grows-lds g y = record {
    eds = λ v x h. h;
    cds = λ v x h. h;
    rds = λ v x h. h;
    lds = IsEntry-grow none y g.lds;
  }

  pub IsResource-grow :
      {g h : Ledger p} → Grows g h → (r : Resource p) → IsResource g r → IsResource h r
  IsResource-grow grows r k = record {
    eds = grows.eds _ _ k.eds;
    cds = grows.cds _ _ k.cds;
    rds = grows.rds _ _ k.rds;
    lds = grows.lds _ _ k.lds;
  }
