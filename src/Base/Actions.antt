-- ===== src/Base/Actions.antt =====
-- Methods that change an object and may fail. What was written before an error stays written, so
-- the object comes back beside the error too.
use example_envoy_xds.Base.Results.{Result, ok, err}

abbrev pub Exec : Type 0 → Type 0 → Type 0 → Type 0
Exec S E A = S → S × Result E A

module _ {S E A : Type 0} where
  abbrev pub lift : Result E A → Exec S E A
  lift r s = (s, r)

module _ {S E A B : Type 0} where
  abbrev pub continue : Result E A → (A → Exec S E B) → Exec S E B
  continue (ok a) f s = f a s
  continue (err e) f s = (s, err e)

  abbrev pub bind : Exec S E A → (A → Exec S E B) → Exec S E B
  bind m f s = continue (m s).1 f (m s).0
