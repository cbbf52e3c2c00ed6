-- ===== src/Graph/Traversal/Reachable.antt =====
-- A complete query of impact_context/index/traversal.rs has seen all that is reachable.
use mathlib.Core.List.{Memᴰ}
use pre_commit_review.Prelude.{
  stop_or, ℕ, zero, suc, ◌-◌, ◌≡◌, ◌⊎◌, inl, inr, refl, sym, subst, true, List, [], ◌∷◌, Option,
  none, ok, >>=-eq-ok, ok-injective, Bytes, arith, Bool-cases, All, All-map,
}
use pre_commit_review.Prelude.Texts.{TextSet, contains, contains-All, All-contains}
use pre_commit_review.Graph.Model.{GraphEdge, RepositoryOverlay}
use pre_commit_review.Graph.Traversal.Edges.{Complete, Sees, Waits}
use pre_commit_review.Graph.Traversal.Levels.{Queries}
use pre_commit_review.Graph.Traversal.Closed.{IsSound, Step, Step-trans, Honest}
use pre_commit_review.Graph.Traversal.Sweeps.{
  check_deadline-Step, check_deadline-Complete, AllClosed, AllClosed-mono, each_symbol-Step,
  check_deadline-Honest,
}
use pre_commit_review.Graph.Traversal.{
  World, TraversalRequest, TraversalDirection, TraversalBuilder,
}
use pre_commit_review.Graph.Traversal.Search.{each_level, Levels, each_symbol}
use pre_commit_review.Graph.Traversal.Output.{Frontier, check_deadline}

not_contained : (s : Bytes) → contains s [] ≡ true → ⊥
unfolding contains
not_contained s h = ground arith

pub All-Memᴰ : {A : Type 0} (P : A → Type 0) {x : A} {xs : List A} → All P xs → Memᴰ x xs → P x
All-Memᴰ P a (Memᴰ.head e) = subst P (sym e) a.0
All-Memᴰ P a (Memᴰ.tail m) = All-Memᴰ P a.1 m

module _ (w : World) (o : Option RepositoryOverlay) (request : TraversalRequest)
    (full : TraversalDirection → Bytes → List GraphEdge) where
  -- A node that is seen waits in the frontier or is closed.
  abbrev pub Nodes : TraversalBuilder → TextSet → Type 0
  Nodes b frontier =
      (s : Bytes)
      → Sees b s
      → (contains s frontier ≡ true) ⊎ AllClosed w o request full b request.directions s

  pub record Ends (b : TraversalBuilder) (frontier : TextSet) (l : Levels) : Type 0 where
    pub before : Complete b
    pub grows : (s : Bytes) → Sees b s → Sees l.0 s
    pub nodes : IsSound w o request full b → Nodes b frontier → Nodes l.0 l.1
    pub ended : (l.1 ≡ []) ⊎ (l.2 ≡ zero)
    pub honest :
        IsSound w o request full b
        → Waits (b, frontier)
        → Honest w o request full b
        → Honest w o request full l.0

  level-Nodes :
      (b : TraversalBuilder) (ss : TextSet) (g : Frontier)
      → Step w o request full (b, []) g
      → All (AllClosed w o request full g.0 request.directions) ss
      → Nodes b ss
      → Nodes g.0 g.1
  unfolding contains
  level-Nodes b ss g st a nodes s h = elim (st.fresh s h) [
    | inr x ↦ inl x
    | inl x ↦ elim (nodes s x) [
      | inl y ↦ inr (All-contains (AllClosed w o request full g.0 request.directions) ss s y a)
      | inr y ↦ inr (AllClosed-mono w o request full b g.0 request.directions s st.grows y)
    ]
  ]

  module _ (law : Queries w full) where
    pub each_level-Ends :
        (left : ℕ) (b : TraversalBuilder) (frontier : TextSet) (l : Levels)
        → each_level w o request left (b, frontier) ≡ ok l
        → Complete l.0
        → Ends b frontier l
    unfolding each_level
    each_level-Ends zero b frontier l = λ h.
        subst (λ x. Complete x.0 → Ends b frontier x) (ok-injective h)
          (λ c. record {
            before = c;
            grows = λ s x. x;
            nodes = λ v n. n;
            ended = inr refl;
            honest = λ v ws hh. hh;
          })
    each_level-Ends (suc left) b [] l = λ h.
        subst (λ x. Complete x.0 → Ends b [] x) (ok-injective h)
          (λ c. record {
            before = c;
            grows = λ s x. x;
            nodes = λ v n. n;
            ended = inl refl;
            honest = λ v ws hh. hh;
          })
    each_level-Ends (suc left) b (s ∷ ss) l =
        let k = check_deadline w request none b in
        elim (Bool-cases k.1) [
          | inr q ↦ rw q (λ h.
              subst (λ x. Complete x.0 → Ends b (s ∷ ss) x) (ok-injective h)
                (λ c. absurd (check_deadline-Complete w o request full none b q c)))
          | inl q ↦ rw q (λ h.
              let depth = request.maximum_depth - suc left in
              let (g, hg, h') = >>=-eq-ok (each_symbol w o request depth (s ∷ ss) (k.0, [])) _ h in
              stop_or (λ x. Complete x.0 → Ends b (s ∷ ss) x) g.0.query_halted (g.0, [], suc left) _
                l
                (λ stop c.
                  let (st, a) =
                    each_symbol-Step w o request full law depth (s ∷ ss) k.0 [] g hg c in
                  let start =
                    Step-trans w o request full
                      (check_deadline-Step w o request full none b [] q st.before) st in
                  record {
                    before = start.before;
                    grows = start.grows;
                    nodes = λ v n. absurd (ground (arith, (start.sound v).running));
                    ended = inl refl;
                    honest = λ v ws hh. absurd (ground (arith, (start.sound v).running));
                  })
                (λ hr c.
                  let rest = each_level-Ends left g.0 g.1 l hr c in
                  let (st, a) =
                    each_symbol-Step w o request full law depth (s ∷ ss) k.0 [] g hg rest.before in
                  let first = check_deadline-Step w o request full none b [] q st.before in
                  let start = Step-trans w o request full first st in
                  record {
                    before = start.before;
                    grows = λ n x. rest.grows n (start.grows n x);
                    nodes = λ v n.
                        rest.nodes (start.sound v)
                          (level-Nodes b (s ∷ ss) g start (a (first.sound v)).0 n);
                    ended = rest.ended;
                    honest = λ v ws hh.
                        rest.honest (start.sound v)
                          (start.waits (λ n x. absurd (not_contained n x)))
                          ((a (first.sound v)).1
                            (All-map (s ∷ ss) first.grows (contains-All (Sees b) (s ∷ ss) ws))
                            (check_deadline-Honest w o request full none b hh));
                  })
                h')
        ]
