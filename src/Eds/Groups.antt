-- ===== src/Eds/Groups.antt =====
-- What the maps of `instancesByRegion` and `instancesByZone` hold.
use mathlib.Core.List.{Permᴰ, cons-ne-nil, concat-ne-nil}
use mathlib.Core.List.Permᴰ
use example_envoy_xds.Base.{
  List, [], ◌∷◌, ◌++◌, map, append_assoc, append-nil, Text, text_eq, text_eq_iff, text_eq_refl,
  none, some, if◌then◌else◌, ◌≡◌, ◌≢◌, refl, sym, ◌∙◌, All, All-imp, All-zip, Distinct, select, inl,
  inr, Bool-cases, arith,
}
use example_envoy_xds.Config.{EdsInstanceConfig}
use example_envoy_xds.Eds.{InstanceMap, get, put, add_instance, group}

-- the group of a key, empty if the key is not there
abbrev pub at : Text → InstanceMap → List EdsInstanceConfig
at k m = elim (get k m) [ none ↦ [] | some v ↦ v ]

abbrev pub keys : InstanceMap → List Text
keys = map (λ e. e.0)

abbrev pub contents : InstanceMap → List EdsInstanceConfig
contents [] = []
contents (e ∷ m) = e.1 ++ contents m

add_instance-nil : (k : Text) (i : EdsInstanceConfig) → add_instance k i [] ≡ (k, i ∷ []) ∷ []
unfolding add_instance get put
add_instance-nil k i = refl

add_instance-cons :
    (k j : Text) (i : EdsInstanceConfig) (v : List EdsInstanceConfig) (m : InstanceMap)
    → add_instance k i ((j, v) ∷ m)
      ≡ (if text_eq j k then (j, v ++ (i ∷ [])) ∷ m else (j, v) ∷ add_instance k i m)
unfolding add_instance get put
add_instance-cons k j i v m = ground arith

at-add_instance :
    (k j : Text) (i : EdsInstanceConfig) (m : InstanceMap)
    → at k (add_instance j i m) ≡ (if text_eq j k then at k m ++ (i ∷ []) else at k m)
unfolding get
at-add_instance k j i [] = rw add_instance-nil (ground arith)
at-add_instance k j i ((l, v) ∷ m) =
    rw (add_instance-cons j l i v m)
      (ground (arith, at-add_instance k j i m, text_eq_iff l j, text_eq_iff l k, text_eq_iff j k))

-- the group of a key after the loop: what was there, and then the instances of that key in order
pub at-group :
    (key : EdsInstanceConfig → Text) (k : Text) (is : List EdsInstanceConfig) (m : InstanceMap)
    → at k (group key is m) ≡ at k m ++ select (λ i. text_eq (key i) k) is
unfolding group select
at-group key k [] m = sym (append-nil (at k m))
at-group key k (i ∷ is) m =
    rw (at-group key k is (add_instance (key i) i m), at-add_instance k (key i) i m)
      (ground (arith, append_assoc (at k m) (i ∷ []) (select (λ i. text_eq (key i) k) is)))

keys-add_instance :
    (a k : Text) (i : EdsInstanceConfig) (m : InstanceMap)
    → a ≢ k
    → All (λ j. a ≢ j) (keys m)
    → All (λ j. a ≢ j) (keys (add_instance k i m))
keys-add_instance a k i [] ne h = rw add_instance-nil (ne, tt)
keys-add_instance a k i ((j, v) ∷ m) ne (hj, h) =
    rw (add_instance-cons k j i v m) (elim (Bool-cases (text_eq j k)) [
      | inl e ↦ rw e (hj, h)
      | inr e ↦ rw e (hj, keys-add_instance a k i m ne h)
    ])

Distinct-add_instance :
    (k : Text) (i : EdsInstanceConfig) (m : InstanceMap)
    → Distinct (keys m)
    → Distinct (keys (add_instance k i m))
Distinct-add_instance k i [] h = rw add_instance-nil (tt, tt)
Distinct-add_instance k i ((j, v) ∷ m) (hj, h) =
    rw (add_instance-cons k j i v m) (elim (Bool-cases (text_eq j k)) [
      | inl e ↦ rw e (hj, h)
      | inr e ↦ rw e (
        keys-add_instance j k i m (ground (arith, text_eq_iff j k)) hj,
        Distinct-add_instance k i m h,
      )
    ])

-- every key of the map stands there once
pub Distinct-group :
    (key : EdsInstanceConfig → Text) (is : List EdsInstanceConfig) (m : InstanceMap)
    → Distinct (keys m)
    → Distinct (keys (group key is m))
unfolding group
Distinct-group key [] m h = h
Distinct-group key (i ∷ is) m h =
    Distinct-group key is (add_instance (key i) i m) (Distinct-add_instance (key i) i m h)

abbrev IsFull : InstanceMap → Type 0
IsFull = All (λ e. e.1 ≢ [])

IsFull-add_instance :
    (k : Text) (i : EdsInstanceConfig) (m : InstanceMap) → IsFull m → IsFull (add_instance k i m)
IsFull-add_instance k i [] h = rw add_instance-nil (cons-ne-nil i [], tt)
IsFull-add_instance k i ((j, v) ∷ m) (hv, h) =
    rw (add_instance-cons k j i v m) (elim (Bool-cases (text_eq j k)) [
      | inl e ↦ rw e (concat-ne-nil i v, h)
      | inr e ↦ rw e (hv, IsFull-add_instance k i m h)
    ])

IsFull-group :
    (key : EdsInstanceConfig → Text) (is : List EdsInstanceConfig) (m : InstanceMap)
    → IsFull m
    → IsFull (group key is m)
unfolding group
IsFull-group key [] m h = h
IsFull-group key (i ∷ is) m h =
    IsFull-group key is (add_instance (key i) i m) (IsFull-add_instance (key i) i m h)

contents-add_instance :
    (k : Text) (i : EdsInstanceConfig) (m : InstanceMap)
    → Permᴰ (contents (add_instance k i m)) (i ∷ contents m)
contents-add_instance k i [] = rw add_instance-nil (Permᴰ.refl (i ∷ []))
contents-add_instance k i ((j, v) ∷ m) =
    rw (add_instance-cons k j i v m) (elim (Bool-cases (text_eq j k)) [
      | inl e ↦ rw (e, append_assoc v (i ∷ []) (contents m)) (Permᴰ.middle i v (contents m))
      | inr e ↦ rw e (
          Permᴰ.trans (Permᴰ.append_left v (contents-add_instance k i m))
            (Permᴰ.middle i v (contents m)))
    ])

-- the groups hold every instance, each as often as the list does
pub contents-group :
    (key : EdsInstanceConfig → Text) (is : List EdsInstanceConfig) (m : InstanceMap)
    → Permᴰ (contents (group key is m)) (contents m ++ is)
unfolding group
contents-group key [] m = Permᴰ.symm (Permᴰ.append-nil (contents m))
contents-group key (i ∷ is) m = Permᴰ.trans (contents-group key is (add_instance (key i) i m)) (
    Permᴰ.trans (Permᴰ.append_right is (contents-add_instance (key i) i m))
      (Permᴰ.symm (Permᴰ.middle i (contents m) is)))

-- in a map with distinct keys an entry is what its key looks up
entry-at : (m : InstanceMap) → Distinct (keys m) → All (λ e. at e.0 m ≡ e.1) m
unfolding get
entry-at [] h = tt
entry-at ((k, v) ∷ m) (hk, h) = (ground (arith, text_eq_refl k), rest m hk (entry-at m h))
  where
    rest :
        (n : InstanceMap)
        → All (λ j. k ≢ j) (keys n)
        → All (λ e. at e.0 m ≡ e.1) n
        → All (λ e. at e.0 ((k, v) ∷ m) ≡ e.1) n
    rest [] _ _ = tt
    rest ((j, w) ∷ n) (ne, hn) (e, hr) = (ground (arith, text_eq_iff k j), rest n hn hr)

-- an entry of the map is a key with all its instances, in order, and there is one at least
abbrev pub IsGroup :
    (EdsInstanceConfig → Text) → List EdsInstanceConfig → Text × List EdsInstanceConfig → Type 0
IsGroup key is (k, v) = (select (λ i. text_eq (key i) k) is ≡ v) × (v ≢ [])

pub group-IsGroup :
    (key : EdsInstanceConfig → Text) (is : List EdsInstanceConfig)
    → All (IsGroup key is) (group key is [])
unfolding get
group-IsGroup key is =
    All-zip (λ e. select (λ i. text_eq (key i) e.0) is ≡ e.1) (λ e. e.1 ≢ []) (group key is [])
      (All-imp (λ e. at e.0 (group key is []) ≡ e.1)
        (λ e. select (λ i. text_eq (key i) e.0) is ≡ e.1) (group key is [])
        (λ e h. sym (at-group key e.0 is []) ∙ h)
        (entry-at (group key is []) (Distinct-group key is [] tt)))
      (IsFull-group key is [] tt)
