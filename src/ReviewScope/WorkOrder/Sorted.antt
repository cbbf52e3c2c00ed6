-- ===== src/ReviewScope/WorkOrder/Sorted.antt =====
-- The work order of `AuthoritativeScope::from_parts` in review_scope.rs.
use mathlib.Core.List.{Perm}
use mathlib.Core.List.Perm
use pre_commit_review.Prelude.{
  ℕ, ◌<◌, ◌≡◌, ◌≢◌, ◌⊎◌, refl, ap, subst, true, false, List, [], ◌∷◌, map, arith, Bool-cases, inl,
  inr, All, All-map, codes, ltb, ltb→lt, ==→eq,
}
use pre_commit_review.Prelude.Utf8.{Text}
use pre_commit_review.Prelude.Texts.{text_le, text_eq, text_eq→eq, text_eq_self}
use pre_commit_review.ReviewScope.WorkOrder.{
  ScopeGroup, WorkOrderEntry, ScopeParts, entry_of, entry_le, insert, sort_entries, from_parts,
}

text_le_trans : (s t u : Text) → text_le s t ≡ true → text_le t u ≡ true → text_le s u ≡ true
unfolding text_le
text_le_trans [] t u h k = refl
text_le_trans (c ∷ s) [] u h k = absurd (ground arith)
text_le_trans (c ∷ s) (d ∷ t) [] h k = absurd (ground arith)
text_le_trans (c ∷ s) (d ∷ t) (e ∷ u) h k = ground (arith, text_le_trans s t u)

text_le_total : (s t : Text) → text_le s t ≡ false → text_le t s ≡ true
unfolding text_le
text_le_total [] t h = absurd (ground arith)
text_le_total (c ∷ s) [] h = refl
text_le_total (c ∷ s) (d ∷ t) h = ground (arith, text_le_total s t)

entry_le_trans :
    (a b c : WorkOrderEntry) → entry_le a b ≡ true → entry_le b c ≡ true → entry_le a c ≡ true
unfolding entry_le
entry_le_trans a b c h k = ground (arith, text_le_trans a.group_id b.group_id c.group_id)

entry_le_total : (a b : WorkOrderEntry) → entry_le a b ≡ false → entry_le b a ≡ true
unfolding entry_le
entry_le_total a b h = ground (arith, text_le_total a.group_id b.group_id)

-- Each entry compares with those behind it as `sort_by` wants.
abbrev IsArranged : List WorkOrderEntry → Type 0
IsArranged [] = Unit {0}
IsArranged (x ∷ xs) = All (λ y. entry_le x y ≡ true) xs × IsArranged xs

All-below :
    (e x : WorkOrderEntry) (xs : List WorkOrderEntry)
    → entry_le e x ≡ true
    → All (λ y. entry_le x y ≡ true) xs
    → All (λ y. entry_le e y ≡ true) xs
All-below e x [] h a = tt
All-below e x (y ∷ ys) h a = (entry_le_trans e x y h a.0, All-below e x ys h a.1)

All-insert :
    (P : WorkOrderEntry → Type 0) (e : WorkOrderEntry) (xs : List WorkOrderEntry)
    → P e
    → All P xs
    → All P (insert e xs)
unfolding insert
All-insert P e [] p a = (p, tt)
All-insert P e (x ∷ xs) p a = elim (Bool-cases (entry_le e x)) [
  | inl h ↦ rw h (p, a)
  | inr h ↦ rw h (a.0, All-insert P e xs p a.1)
]

insert-IsArranged :
    (e : WorkOrderEntry) (xs : List WorkOrderEntry) → IsArranged xs → IsArranged (insert e xs)
unfolding insert
insert-IsArranged e [] s = (tt, tt)
insert-IsArranged e (x ∷ xs) s = elim (Bool-cases (entry_le e x)) [
  | inl h ↦ rw h ((h, All-below e x xs h s.0), s)
  | inr h ↦ rw h (
    All-insert (λ y. entry_le x y ≡ true) e xs (entry_le_total e x h) s.0,
    insert-IsArranged e xs s.1,
  )
]

insert-perm : (e : WorkOrderEntry) (xs : List WorkOrderEntry) → Perm (insert e xs) (e ∷ xs)
unfolding insert
insert-perm e [] = Perm.refl (e ∷ [])
insert-perm e (x ∷ xs) = elim (Bool-cases (entry_le e x)) [
  | inl h ↦ rw h (Perm.refl (e ∷ x ∷ xs))
  | inr h ↦ rw h (Perm.trans (Perm.cons x (insert-perm e xs)) (Perm.swap e x xs))
]

sort_entries-IsArranged :
    (es : List WorkOrderEntry) → IsArranged (sort_entries es) × Perm (sort_entries es) es
unfolding sort_entries
sort_entries-IsArranged [] = (tt, Perm.nil)
sort_entries-IsArranged (e ∷ es) =
    let (sorted, perm) = sort_entries-IsArranged es in
    (
      insert-IsArranged e (sort_entries es) sorted,
      Perm.trans (insert-perm e (sort_entries es)) (Perm.cons e perm),
    )

-- The lexicographic order of texts.
pub data Precedes : Text → Text → Type 0 where
  prefix : {t : Text} → Precedes [] t
  less : {c d : ℕ} {s t : Text} → c < d → Precedes (c ∷ s) (d ∷ t)
  same : {c : ℕ} {s t : Text} → Precedes s t → Precedes (c ∷ s) (c ∷ t)

-- The smaller priority number is first, and of two entries with the same the smaller group id.
abbrev pub InOrder : WorkOrderEntry → WorkOrderEntry → Type 0
InOrder x y =
    (x.priority < y.priority) ⊎ ((x.priority ≡ y.priority) × Precedes x.group_id y.group_id)

-- Every entry goes before those behind it.
abbrev pub IsSorted : List WorkOrderEntry → Type 0
IsSorted [] = Unit {0}
IsSorted (x ∷ xs) = All (InOrder x) xs × IsSorted xs

-- What is to be done with a group: a group over its budget is split first, then come the reviews, of
-- a high risk before a risk of consistency before all others.
pub data IsEntry : ScopeGroup → WorkOrderEntry → Type 0 where
  splits :
      {g : ScopeGroup}
      → g.budget_status ≡ codes "split-required"
      → IsEntry g (record { priority = 1; group_id = g.group_id; action = codes "split" })
  high_risk :
      {g : ScopeGroup}
      → g.budget_status ≢ codes "split-required"
      → g.risk ≡ codes "high"
      → IsEntry g (record { priority = 2; group_id = g.group_id; action = codes "review" })
  consistency_risk :
      {g : ScopeGroup}
      → g.budget_status ≢ codes "split-required"
      → g.risk ≡ codes "consistency"
      → IsEntry g (record { priority = 3; group_id = g.group_id; action = codes "review" })
  other_risk :
      {g : ScopeGroup}
      → g.budget_status ≢ codes "split-required"
      → g.risk ≢ codes "high"
      → g.risk ≢ codes "consistency"
      → IsEntry g (record { priority = 4; group_id = g.group_id; action = codes "review" })

-- One entry for each group, in the order of the groups.
pub data AreEntries : List ScopeGroup → List WorkOrderEntry → Type 0 where
  none_left : AreEntries [] []
  one_more :
      {g : ScopeGroup} {gs : List ScopeGroup} {e : WorkOrderEntry} {es : List WorkOrderEntry}
      → IsEntry g e
      → AreEntries gs es
      → AreEntries (g ∷ gs) (e ∷ es)

text_le-Precedes : (s t : Text) → text_le s t ≡ true → Precedes s t
unfolding text_le
text_le-Precedes [] t h = Precedes.prefix
text_le-Precedes (c ∷ s) [] h = absurd (ground arith)
text_le-Precedes (c ∷ s) (d ∷ t) h = elim (Bool-cases (ltb c d)) [
  | inl q ↦ Precedes.less (ltb→lt c d q)
  | inr q ↦
      let e : c ≡ d = ==→eq c d (ground arith) in
      subst (λ x. Precedes (c ∷ s) (x ∷ t)) e (Precedes.same (text_le-Precedes s t (ground arith)))
]

entry_le-InOrder : (a b : WorkOrderEntry) → entry_le a b ≡ true → InOrder a b
unfolding entry_le
entry_le-InOrder a b h = elim (Bool-cases (ltb a.priority b.priority)) [
  | inl q ↦ inl (ltb→lt a.priority b.priority q)
  | inr q ↦ inr (
    ==→eq a.priority b.priority (ground arith),
    text_le-Precedes a.group_id b.group_id (ground arith),
  )
]

IsArranged-IsSorted : (es : List WorkOrderEntry) → IsArranged es → IsSorted es
IsArranged-IsSorted [] a = tt
IsArranged-IsSorted (e ∷ es) a = (All-map es (entry_le-InOrder e) a.0, IsArranged-IsSorted es a.1)

text_eq-other : (s t : Text) → text_eq s t ≡ false → s ≢ t
text_eq-other s t h e = ground (arith, ap (text_eq s) e, text_eq_self s)

entry_of-IsEntry : (g : ScopeGroup) → IsEntry g (entry_of g)
unfolding entry_of
entry_of-IsEntry g = elim (Bool-cases (text_eq g.budget_status (codes "split-required"))) [
  | inl p ↦ rw p (IsEntry.splits (text_eq→eq g.budget_status (codes "split-required") p))
  | inr p ↦
      let ns = text_eq-other g.budget_status (codes "split-required") p in
      elim (Bool-cases (text_eq g.risk (codes "high"))) [
        | inl q ↦ rw (p, q) (IsEntry.high_risk ns (text_eq→eq g.risk (codes "high") q))
        | inr q ↦ elim (Bool-cases (text_eq g.risk (codes "consistency"))) [
          | inl r ↦
              rw (p, q, r) (IsEntry.consistency_risk ns (text_eq→eq g.risk (codes "consistency") r))
          | inr r ↦
              rw (p, q, r)
                (IsEntry.other_risk ns (text_eq-other g.risk (codes "high") q)
                  (text_eq-other g.risk (codes "consistency") r))
        ]
      ]
]

map-AreEntries : (gs : List ScopeGroup) → AreEntries gs (map entry_of gs)
map-AreEntries [] = AreEntries.none_left
map-AreEntries (g ∷ gs) = AreEntries.one_more (entry_of-IsEntry g) (map-AreEntries gs)

-- The work order holds exactly one entry for each group. A group whose budget status is
-- `split-required` is to be split with priority 1; any other is to be reviewed, with priority 2 for
-- the risk `high`, 3 for `consistency` and 4 else. Every entry comes before those of a higher
-- priority number, and of the same priority number and a group id that is greater in the
-- lexicographic order.
pub work_order-IsSorted :
    (p : ScopeParts)
    → IsSorted (from_parts p).work_order
      × ((entries : List WorkOrderEntry) × Perm (from_parts p).work_order entries
          × AreEntries p.groups entries)
unfolding from_parts
work_order-IsSorted p =
    let (arranged, perm) = sort_entries-IsArranged (map entry_of p.groups) in
    (
      IsArranged-IsSorted (sort_entries (map entry_of p.groups)) arranged,
      (map entry_of p.groups, perm, map-AreEntries p.groups),
    )
