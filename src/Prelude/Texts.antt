-- ===== src/Prelude/Texts.antt =====
-- The order of Rust's strings, and `BTreeSet` and `BTreeMap` with such keys: ascending lists. A string
-- is the list of its code points or of the bytes of its UTF-8, which are ordered alike.
use Prim.Native.Nat.{ℕ, ◌+◌, ◌≤◌}
use mathlib.Core.Path.{◌≡◌, refl, ap, sym, subst}
use mathlib.Core.Bool.{Bool, true, false, ◌&&◌, ◌||◌}
use mathlib.Core.Option.{Option, none, some}
use mathlib.Core.List.{List, [], ◌∷◌}
use mathlib.Core.Logic.{inl, inr}
use native.Mathlib.Omega.{arith}
use pre_commit_review.Prelude.Tests.{ltb, ◌==◌, if◌then◌else◌, is_some, Bool-cases, Option-cases}
use pre_commit_review.Prelude.Lists.{Bytes, length, All}

unfoldable pub text_eq : Bytes → Bytes → Bool
text_eq [] [] = true
text_eq [] (d ∷ t) = false
text_eq (c ∷ s) [] = false
text_eq (c ∷ s) (d ∷ t) = c == d && text_eq s t

-- `left.cmp(right) != Greater` on strings.
unfoldable pub text_le : Bytes → Bytes → Bool
text_le [] t = true
text_le (c ∷ s) [] = false
text_le (c ∷ s) (d ∷ t) = ltb c d || (c == d && text_le s t)

pub text_eq→eq : (s t : Bytes) → text_eq s t ≡ true → s ≡ t
unfolding text_eq
text_eq→eq [] [] h = refl
text_eq→eq [] (d ∷ t) h = absurd (ground arith)
text_eq→eq (c ∷ s) [] h = absurd (ground arith)
text_eq→eq (c ∷ s) (d ∷ t) h = ground (arith, text_eq→eq s t (ground arith))

pub text_eq_self : (s : Bytes) → text_eq s s ≡ true
unfolding text_eq
text_eq_self [] = refl
text_eq_self (c ∷ s) = ground (arith, text_eq_self s)

pub text_eq_sym : (s t : Bytes) → text_eq s t ≡ text_eq t s
unfolding text_eq
text_eq_sym [] [] = refl
text_eq_sym [] (d ∷ t) = refl
text_eq_sym (c ∷ s) [] = refl
text_eq_sym (c ∷ s) (d ∷ t) = ground (arith, text_eq_sym s t)

abbrev pub TextSet : Type 0
TextSet = List Bytes

unfoldable pub contains : Bytes → TextSet → Bool
contains x [] = false
contains x (y ∷ s) = text_eq x y || contains x s

unfoldable pub insert : Bytes → TextSet → TextSet
insert x [] = x ∷ []
insert x (y ∷ s) =
    let rest = insert x s in
    if text_eq x y then y ∷ s else if text_le x y then x ∷ y ∷ s else y ∷ rest

abbrev pub TextMap {ℓ} : Type ℓ → Type ℓ
TextMap V = List (Bytes × V)

module _ {ℓ} {V : Type ℓ} where
  unfoldable pub get : Bytes → TextMap V → Option V
  get k [] = none
  get k ((j, v) ∷ m) = let rest = get k m in if text_eq k j then some v else rest

  unfoldable pub replace : Bytes → V → TextMap V → TextMap V
  replace k v [] = []
  replace k v ((j, w) ∷ m) =
      let rest = replace k v m in if text_eq k j then (j, v) ∷ m else (j, w) ∷ rest

  unfoldable pub place : Bytes → V → TextMap V → TextMap V
  place k v [] = (k, v) ∷ []
  place k v ((j, w) ∷ m) =
      let rest = place k v m in if text_le k j then (k, v) ∷ (j, w) ∷ m else (j, w) ∷ rest

  -- `BTreeMap::insert`: the value of a key that is there is replaced.
  unfoldable pub put : Bytes → V → TextMap V → TextMap V
  unfolding get replace place
  put k v m = if is_some (get k m) then replace k v m else place k v m

  unfoldable pub values : TextMap V → List V
  values [] = []
  values ((k, v) ∷ m) = v ∷ values m

  pub length-values : (m : TextMap V) → length (values m) ≡ length m
  unfolding values
  length-values [] = refl
  length-values ((k, v) ∷ m) = omega (arith, length-values m)

pub contains-insert :
    (i x : Bytes) (s : TextSet) → contains i (insert x s) ≡ (text_eq i x || contains i s)
unfolding contains insert
contains-insert i x [] = refl
contains-insert i x (y ∷ s) = elim (Bool-cases (text_eq x y)) [
  | inl q ↦ rw q (ground (arith, ap (text_eq i) (text_eq→eq x y q)))
  | inr q ↦ rw q (ground (arith, contains-insert i x s))
]

pub All-contains :
    (P : Bytes → Type 0) (ss : TextSet) (s : Bytes) → contains s ss ≡ true → All P ss → P s
unfolding contains
All-contains P [] s h a = absurd (ground arith)
All-contains P (t ∷ ss) s h a = elim (Bool-cases (text_eq s t)) [
  | inl q ↦ subst P (sym (text_eq→eq s t q)) a.0
  | inr q ↦ All-contains P ss s (ground arith) a.1
]

pub contains-All :
    (P : Bytes → Type 0) (ss : TextSet) → ((s : Bytes) → contains s ss ≡ true → P s) → All P ss
unfolding contains
contains-All P [] f = tt
contains-All P (t ∷ ss) f =
    (f t (ground (arith, text_eq_self t)), contains-All P ss (λ s h. f s (ground arith)))

pub length-insert-le : (x : Bytes) (s : TextSet) → length (insert x s) ≤ length s + 1
unfolding insert
length-insert-le x [] = omega arith
length-insert-le x (y ∷ s) = ground (arith, length-insert-le x s)

-- The sum of a measure over the values.
unfoldable pub sum_values {ℓ} : {V : Type ℓ} → (V → ℕ) → TextMap V → ℕ
sum_values f [] = 0
sum_values f ((k, v) ∷ m) = f v + sum_values f m

module _ {ℓ} {V : Type ℓ} where
  get-replace :
      (i k : Bytes) (v w : V) (m : TextMap V)
      → get k m ≡ some w
      → get i (replace k v m) ≡ (if text_eq i k then some v else get i m)
  unfolding get replace
  get-replace i k v w [] h = absurd (ground arith)
  get-replace i k v w ((j, u) ∷ m) h = elim (Bool-cases (text_eq k j)) [
    | inl q ↦ rw q (ground (arith, ap (text_eq i) (text_eq→eq k j q)))
    | inr q ↦ rw q (elim (Bool-cases (text_eq i j)) [
      | inl p ↦ ground (arith, text_eq_sym i k, text_eq→eq i j p, q)
      | inr p ↦ ground (arith, p, get-replace i k v w m (ground arith))
    ])
  ]

  get-place :
      (i k : Bytes) (v : V) (m : TextMap V)
      → get k m ≡ none
      → get i (place k v m) ≡ (if text_eq i k then some v else get i m)
  unfolding get place
  get-place i k v [] h = refl
  get-place i k v ((j, u) ∷ m) h = elim (Bool-cases (text_eq k j)) [
    | inl q ↦ absurd (ground arith)
    | inr q ↦ elim (Bool-cases (text_eq i j)) [
      | inl p ↦ ground (arith, text_eq_sym i k, text_eq→eq i j p, q)
      | inr p ↦ ground (arith, p, get-place i k v m (ground arith))
    ]
  ]

  pub get-put :
      (i k : Bytes) (v : V) (m : TextMap V)
      → get i (put k v m) ≡ (if text_eq i k then some v else get i m)
  unfolding put
  get-put i k v m = elim (Option-cases (get k m)) [
    | inl e ↦ rw e (get-place i k v m e)
    | inr (w, e) ↦ rw e (get-replace i k v w m e)
  ]

  replace-length : (k : Bytes) (v : V) (m : TextMap V) → length (replace k v m) ≡ length m
  unfolding replace
  replace-length k v [] = refl
  replace-length k v ((j, w) ∷ m) = ground (arith, replace-length k v m)

  place-length : (k : Bytes) (v : V) (m : TextMap V) → length (place k v m) ≡ length m + 1
  unfolding place
  place-length k v [] = refl
  place-length k v ((j, w) ∷ m) = ground (arith, place-length k v m)

  pub length-put :
      (k : Bytes) (v : V) (m : TextMap V)
      → length (put k v m) ≡ (if is_some (get k m) then length m else length m + 1)
  unfolding put
  length-put k v m = ground (arith, replace-length k v m, place-length k v m)

  replace-sum :
      (f : V → ℕ) (k : Bytes) (v w : V) (m : TextMap V)
      → get k m ≡ some w
      → sum_values f (replace k v m) + f w ≡ sum_values f m + f v
  unfolding sum_values replace get
  replace-sum f k v w [] h = absurd (ground arith)
  replace-sum f k v w ((j, u) ∷ m) h = elim (Bool-cases (text_eq k j)) [
    | inl q ↦ rw q (ground arith)
    | inr q ↦ rw q (omega (arith, replace-sum f k v w m (ground arith)))
  ]

  place-sum :
      (f : V → ℕ) (k : Bytes) (v : V) (m : TextMap V)
      → sum_values f (place k v m) ≡ sum_values f m + f v
  unfolding sum_values place
  place-sum f k v [] = omega arith
  place-sum f k v ((j, u) ∷ m) = ground (arith, place-sum f k v m)

  pub put-sum_new :
      (f : V → ℕ) (k : Bytes) (v : V) (m : TextMap V)
      → get k m ≡ none
      → sum_values f (put k v m) ≡ sum_values f m + f v
  unfolding put
  put-sum_new f k v m h = rw h (place-sum f k v m)

  pub put-sum_old :
      (f : V → ℕ) (k : Bytes) (v w : V) (m : TextMap V)
      → get k m ≡ some w
      → sum_values f (put k v m) + f w ≡ sum_values f m + f v
  unfolding put
  put-sum_old f k v w m h = rw h (replace-sum f k v w m h)

  pub get-sum_le :
      (f : V → ℕ) (k : Bytes) (w : V) (m : TextMap V) → get k m ≡ some w → f w ≤ sum_values f m
  unfolding get sum_values
  get-sum_le f k w [] h = absurd (ground arith)
  get-sum_le f k w ((j, u) ∷ m) h = elim (Bool-cases (text_eq k j)) [
    | inl q ↦ ground arith
    | inr q ↦ omega (arith, get-sum_le f k w m (ground arith))
  ]
