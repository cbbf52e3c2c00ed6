-- ===== src/Prelude/Ordered.antt =====
-- `BTreeSet` over unsigned integers: the ascending list of its elements.
use Prim.Native.Nat.{ℕ, ◌+◌, ◌≤◌, ◌<◌}
use mathlib.Core.Path.{◌≡◌, refl}
use mathlib.Core.Bool.{Bool, true, false, not, ◌&&◌, ◌||◌}
use mathlib.Core.List.{List, [], ◌∷◌}
use native.Mathlib.Omega.{arith}
use pre_commit_review.Prelude.Tests.{ltb, ◌==◌, if◌then◌else◌}
use pre_commit_review.Prelude.Lists.{length}

abbrev pub NatSet : Type 0
NatSet = List ℕ

unfoldable pub contains : ℕ → NatSet → Bool
contains x [] = false
contains x (y ∷ s) = (x == y) || contains x s

unfoldable pub insert : ℕ → NatSet → NatSet
insert x [] = x ∷ []
insert x (y ∷ s) =
    let rest = insert x s in if ltb x y then x ∷ y ∷ s else if x == y then y ∷ s else y ∷ rest

unfoldable pub remove : ℕ → NatSet → NatSet
remove x [] = []
remove x (y ∷ s) = if x == y then remove x s else y ∷ remove x s

-- Every element lies above `lo` and below the next one: no element occurs twice.
abbrev pub Ascends : ℕ → NatSet → Type 0
Ascends lo [] = Unit {0}
Ascends lo (x ∷ s) = (lo < x) × Ascends x s

pub contains-insert : (i x : ℕ) (s : NatSet) → contains i (insert x s) ≡ ((i == x) || contains i s)
unfolding contains insert
contains-insert i x [] = refl
contains-insert i x (y ∷ s) = ground (arith, contains-insert i x s)

pub contains-remove :
    (i x : ℕ) (s : NatSet) → contains i (remove x s) ≡ (not (i == x) && contains i s)
unfolding contains remove
contains-remove i x [] = ground arith
contains-remove i x (y ∷ s) = ground (arith, contains-remove i x s)

pub length-insert-le : (x : ℕ) (s : NatSet) → length (insert x s) ≤ length s + 1
unfolding insert
length-insert-le x [] = omega arith
length-insert-le x (y ∷ s) = ground (arith, length-insert-le x s)

pub length-remove-le : (x : ℕ) (s : NatSet) → length (remove x s) ≤ length s
unfolding remove
length-remove-le x [] = omega arith
length-remove-le x (y ∷ s) = ground (arith, length-remove-le x s)

pub length-remove-lt : (x : ℕ) (s : NatSet) → contains x s ≡ true → length (remove x s) < length s
unfolding remove contains
length-remove-lt x [] h = absurd (ground arith)
length-remove-lt x (y ∷ s) h = ground (arith, length-remove-lt x s, length-remove-le x s)

Ascends-weaken : (lo hi : ℕ) (s : NatSet) → lo ≤ hi → Ascends hi s → Ascends lo s
Ascends-weaken lo hi [] h a = tt
Ascends-weaken lo hi (x ∷ s) h a = (omega arith, a.1)

pub insert-Ascends : (lo x : ℕ) (s : NatSet) → lo < x → Ascends lo s → Ascends lo (insert x s)
unfolding insert
insert-Ascends lo x [] h a = (h, tt)
insert-Ascends lo x (y ∷ s) h a = ground (arith, insert-Ascends y x s)

pub remove-Ascends : (lo x : ℕ) (s : NatSet) → Ascends lo s → Ascends lo (remove x s)
unfolding remove
remove-Ascends lo x [] a = tt
remove-Ascends lo x (y ∷ s) a =
    ground (arith, remove-Ascends y x s a.1, Ascends-weaken lo y (remove x s))

pub Ascends-contains : (lo i : ℕ) (s : NatSet) → Ascends lo s → contains i s ≡ true → lo < i
unfolding contains
Ascends-contains lo i [] a h = absurd (ground arith)
Ascends-contains lo i (x ∷ s) a h = ground (arith, Ascends-contains x i s a.1)
