-- ===== src/Watch/Threads/Kept.antt =====
-- What a hand of a goroutine, the counters, the store and the publications have to do with the
-- ledger of what was made.

use example_envoy_xds.Base.{ℕ, suc, List, [], ◌∷◌, length, none, some, ok, ◌≡◌, All, All-imp}
use example_envoy_xds.Decimal.{format_uint}
use example_envoy_xds.Xds.{Proto}
use example_envoy_xds.Resource.{Resource, version, resource_map}
use example_envoy_xds.Watch.World.{Env}
use example_envoy_xds.Watch.{State, Publication}
use example_envoy_xds.Watch.Threads.{
  Hand, Run, nothing, made_cds, made_eds, made_rds, made_lds, built,
}
use example_envoy_xds.Watch.Threads.Ledger.{
  Ledger, IsEntry, IsEntry-new, IsResource, Grows, IsResource-grow,
}

-- a version that is the next number of a ledger
pub IsEntry-next {ℓ} :
    {A : Type ℓ} (d y : A) (xs : List A) (n : ℕ)
    → n ≡ suc (length xs)
    → IsEntry d (y ∷ xs) (format_uint n) y
IsEntry-next d y xs n e = rw e (IsEntry-new d y xs)

module _ {p : Proto} (env : Env p) where
  -- the number of accesses
  abbrev pub steps : {w v : State env} {a b : Hand env} → Run env w a b v → ℕ
  steps Run.start = 0
  steps (Run.left c u run access) = suc (steps run)
  steps (Run.right c u run access) = suc (steps run)

  -- a snapshot of resources that were made
  abbrev pub IsLogged : Ledger p → Publication env.api.Snapshot → Type 0
  IsLogged g q =
      (r : Resource p) × IsResource g r
      × (q.version ≡ version r)
      × (env.api.new_snapshot (version r) (resource_map r) ≡ ok q.snapshot)

  abbrev pub IsHeld : Ledger p → Hand env → Type 0
  IsHeld g nothing = Unit {0}
  IsHeld g (made_cds v x) = IsEntry [] g.cds v x
  IsHeld g (made_eds v x) = IsEntry [] g.eds v x
  IsHeld g (made_rds v x) = IsEntry none g.rds v (some x)
  IsHeld g (made_lds v x) = IsEntry none g.lds v (some x)
  IsHeld g (built q) = IsLogged g q

  -- each counter is the number of results that its service has made
  pub record Counts (g : Ledger p) (w : State env) : Type 0 where
    pub eds : w.eds.version ≡ length g.eds
    pub cds : w.cds.version ≡ length g.cds
    pub rds : w.rds.version ≡ length g.rds
    pub lds : w.lds.version ≡ length g.lds

  pub record Kept (g : Ledger p) (w : State env) : Type 0 where
    pub counts : Counts g w
    pub resource : IsResource g w.resource
    pub published : All (IsLogged g) w.published

  pub IsLogged-grow :
      {g h : Ledger p}
      → Grows g h
      → (q : Publication env.api.Snapshot) → IsLogged g q
      → IsLogged h q
  IsLogged-grow grows q (r, made, named, done) = (r, IsResource-grow grows r made, named, done)

  pub IsHeld-grow : {g h : Ledger p} → Grows g h → (a : Hand env) → IsHeld g a → IsHeld h a
  IsHeld-grow grows nothing k = tt
  IsHeld-grow grows (made_cds v x) k = grows.cds v x k
  IsHeld-grow grows (made_eds v x) k = grows.eds v x k
  IsHeld-grow grows (made_rds v x) k = grows.rds v (some x) k
  IsHeld-grow grows (made_lds v x) k = grows.lds v (some x) k
  IsHeld-grow grows (built q) k = IsLogged-grow grows q k

  -- a state whose counters have changed
  pub Kept-grow :
      {g h : Ledger p}
      → Grows g h
      → (w v : State env) → v.resource ≡ w.resource
      → v.published ≡ w.published
      → Counts h v
      → Kept g w
      → Kept h v
  Kept-grow {g} {h} grows w v same_resource same_published counts kept = record {
    counts = counts;
    resource = rw same_resource (IsResource-grow grows w.resource kept.resource);
    published =
        rw same_published
          (All-imp (IsLogged g) (IsLogged h) w.published (IsLogged-grow grows) kept.published);
  }

  pub Kept-put :
      (g : Ledger p) (w : State env) (r : Resource p)
      → IsResource g r
      → Kept g w
      → Kept g (record w { resource = r })
  Kept-put g w r stored kept = record {
    counts = record {
      eds = kept.counts.eds;
      cds = kept.counts.cds;
      rds = kept.counts.rds;
      lds = kept.counts.lds;
    };
    resource = stored;
    published = kept.published;
  }
