-- ===== src/Prelude/Keyed.antt =====
-- `BTreeMap` and `BTreeSet` keyed by an enumeration, as functions: the code never enumerates these.
use mathlib.Core.Path.{◌≡◌, refl}
use mathlib.Core.Logic.{◌≢◌, ite, if_pos, if_neg}
use mathlib.Core.Bool.{Bool, true}
use mathlib.Core.Option.{Option, some}

abbrev pub Table {ℓ κ} : Type ℓ → Type κ → Type (ℓ ⊔ κ)
Table K V = K → Option V

abbrev pub KeySet {ℓ} : Type ℓ → Type ℓ
KeySet K = K → Bool

module _ {ℓ} {K : Type ℓ} (eq : Discrete K) where
  abbrev pub insert {κ} : {V : Type κ} → K → V → Table K V → Table K V
  insert k v m j = ite (eq k j) (some v) (m j)

  abbrev pub add : K → KeySet K → KeySet K
  add k s j = ite (eq k j) true (s j)

  pub insert_self {κ} : {V : Type κ} (k : K) (v : V) (m : Table K V) → insert k v m k ≡ some v
  insert_self k v m = rw (if_pos (eq k k) refl)

  pub insert_other {κ} :
      {V : Type κ} (k j : K) (v : V) (m : Table K V) → k ≢ j → insert k v m j ≡ m j
  insert_other k j v m h = rw (if_neg (eq k j) h)

  pub add_self : (k : K) (s : KeySet K) → add k s k ≡ true
  add_self k s = rw (if_pos (eq k k) refl)

  pub add_other : (k j : K) (s : KeySet K) → k ≢ j → add k s j ≡ s j
  add_other k j s h = rw (if_neg (eq k j) h)

  pub add_keeps : (k j : K) (s : KeySet K) → s j ≡ true → add k s j ≡ true
  add_keeps k j s h = elim (eq k j) [ yes p ↦ rw (if_pos _ p) | no p ↦ rw (if_neg _ p, h) ]
