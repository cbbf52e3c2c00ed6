-- ===== src/Graph/Traversal/Sweeps.antt =====
-- The loops of impact_context/index/traversal.rs over the directions of a symbol and the symbols of a
-- level close all that they visit, as long as the query is complete.
use mathlib.Core.List.{Memᴰ}
use pre_commit_review.Prelude.{
  stop_or, ℕ, ◌≡◌, inl, inr, subst, true, false, List, [], ◌∷◌, Option, some, ok, >>=-eq-ok,
  ok-injective, Bytes, arith, Bool-cases, All, All-map, leb, ap, sym, ◌∙◌,
}
use pre_commit_review.Graph.Model.{GraphEdge, RepositoryOverlay}
use pre_commit_review.Graph.Traversal.Edges.{Complete, Sees}
use pre_commit_review.Graph.Traversal.Levels.{Queries}
use pre_commit_review.Graph.Traversal.Closed.{
  Closed, IsSound, Step, Step-self, Step-trans, Closed-mono, Honest,
}
use pre_commit_review.Graph.Traversal.Steps.{visit_direction-Step, Memᴰ-All}
use pre_commit_review.Graph.Traversal.{
  World, TraversalRequest, TraversalDirection, TraversalBuilder, mark_query_partial,
}
use pre_commit_review.Graph.Traversal.Search.{each_direction, each_symbol, visit_direction}
use pre_commit_review.Graph.Traversal.Output.{check_deadline, Frontier}
use pre_commit_review.Prelude.Texts.{TextSet, contains}

every_member : {A : Type 0} (xs : List A) → All (λ x. Memᴰ x xs) xs
every_member xs = Memᴰ-All xs (λ x m. m)

module _ (w : World) (o : Option RepositoryOverlay) (request : TraversalRequest)
    (full : TraversalDirection → Bytes → List GraphEdge) where
  -- A check that passes reads the clock alone.
  pub check_deadline-Step :
      (s : Option Bytes) (b : TraversalBuilder) (next : TextSet)
      → (check_deadline w request s b).1 ≡ true
      → Complete (check_deadline w request s b).0
      → Step w o request full (b, next) ((check_deadline w request s b).0, next)
  unfolding check_deadline
  check_deadline-Step s b next h c = elim (Bool-cases (leb request.deadline (w.elapsed b.clock))) [
    | inl q ↦ absurd (ground arith)
    | inr q ↦ record {
      before = ground arith;
      sound = λ v. record { running = ground arith; looked = λ d s'. rw q (v.looked d s') };
      grows = λ n x. ground arith;
      fresh = λ n x. inl (ground arith);
      keeps = λ n x. x;
      waits = λ v n x. rw q (v n x);
    }
  ]

  check_deadline-seen :
      (s : Option Bytes) (b : TraversalBuilder)
      → (check_deadline w request s b).0.seen_nodes ≡ b.seen_nodes
  unfolding check_deadline mark_query_partial
  check_deadline-seen s b = ground arith

  pub check_deadline-Honest :
      (s : Option Bytes) (b : TraversalBuilder)
      → Honest w o request full b
      → Honest w o request full (check_deadline w request s b).0
  check_deadline-Honest s b h n x = h n (ap (contains n) (sym (check_deadline-seen s b)) ∙ x)

  -- A check that fails cuts the query short.
  pub check_deadline-Complete :
      (s : Option Bytes) (b : TraversalBuilder)
      → (check_deadline w request s b).1 ≡ false
      → Complete (check_deadline w request s b).0
      → ⊥
  unfolding check_deadline mark_query_partial
  check_deadline-Complete s b h c = ground arith

  -- All directions of a symbol are closed.
  abbrev pub AllClosed : TraversalBuilder → List TraversalDirection → Bytes → Type 0
  AllClosed b ds s = All (λ d. Closed w o request full b d s) ds

  pub AllClosed-mono :
      (b b' : TraversalBuilder) (ds : List TraversalDirection) (s : Bytes)
      → ((n : Bytes) → Sees b n → Sees b' n)
      → AllClosed b ds s
      → AllClosed b' ds s
  AllClosed-mono b b' ds s grows = All-map ds (λ d. Closed-mono w o request full b b' d s grows)

  -- The directions of a symbol are closed, and only neighbors of it have been added.
  abbrev Directed : List TraversalDirection → Bytes → TraversalBuilder → TraversalBuilder → Type 0
  Directed ds s b x =
      AllClosed x ds s
      × (All (λ d. Memᴰ d request.directions) ds
          → Sees b s
          → Honest w o request full b
          → Honest w o request full x)

  -- The same of all symbols of a level.
  abbrev Swept : TextSet → TraversalBuilder → TraversalBuilder → Type 0
  Swept ss b x =
      All (AllClosed x request.directions) ss
      × (All (Sees b) ss → Honest w o request full b → Honest w o request full x)

  -- What a stretch of a loop gives, if the query is still complete behind it.
  abbrev pub Gives : Frontier → (TraversalBuilder → Type 0) → Frontier → Type 0
  Gives f Q g = Complete g.0 → Step w o request full f g × (IsSound w o request full f.0 → Q g.0)

  halted-absurd :
      (f g : Frontier)
      → Step w o request full f g
      → g.0.query_halted ≡ true
      → IsSound w o request full f.0
      → ⊥
  halted-absurd f g st h v = ground (arith, (st.sound v).running)

  module _ (law : Queries w full) where
    each_direction-Step :
        (depth : ℕ) (s : Bytes) (ds : List TraversalDirection) (b : TraversalBuilder)
        (next : TextSet) (g : Frontier)
        → each_direction w o request depth s ds (b, next) ≡ ok g
        → Gives (b, next) (Directed ds s b) g
    unfolding each_direction
    each_direction-Step depth s [] b next g = λ h.
        subst (Gives (b, next) (Directed [] s b)) (ok-injective h)
          (λ c. (Step-self w o request full (b, next) c, λ v. (tt, λ m hs hh. hh)))
    each_direction-Step depth s (d ∷ ds) b next g =
        let k = check_deadline w request (some s) b in
        elim (Bool-cases k.1) [
          | inr q ↦ rw q (λ h.
              subst (Gives (b, next) (Directed (d ∷ ds) s b)) (ok-injective h)
                (λ c. absurd (check_deadline-Complete (some s) b q c)))
          | inl q ↦ rw q (λ h.
              let (f, hf, h') = >>=-eq-ok (visit_direction w o request depth s d (k.0, next)) _ h in
              stop_or (Gives (b, next) (Directed (d ∷ ds) s b)) f.0.query_halted f _ g
                (λ stop c.
                  let (st, shut) =
                    visit_direction-Step w o request full law depth s d k.0 next f hf c in
                  let first = check_deadline-Step (some s) b next q st.before in
                  (
                    Step-trans w o request full first st,
                    λ v.
                        absurd
                          (halted-absurd (b, next) f (Step-trans w o request full first st) stop v),
                  ))
                (λ hr c.
                  let (more, rest) = each_direction-Step depth s ds f.0 f.1 g hr c in
                  let (st, shut) =
                    visit_direction-Step w o request full law depth s d k.0 next f hf more.before in
                  let first = check_deadline-Step (some s) b next q st.before in
                  let start = Step-trans w o request full first st in
                  (
                    Step-trans w o request full start more,
                    λ v.
                        let (closed, honest) = shut (first.sound v) in
                        let (others, honest') = rest (start.sound v) in
                        (
                          (Closed-mono w o request full f.0 g.0 d s more.grows closed, others),
                          λ m hs hh.
                              honest' m.1 (start.grows s hs) (
                                honest m.0 (first.grows s hs)
                                  (check_deadline-Honest (some s) b hh)),
                        ),
                  ))
                h')
        ]

    pub each_symbol-Step :
        (depth : ℕ) (ss : TextSet) (b : TraversalBuilder) (next : TextSet) (g : Frontier)
        → each_symbol w o request depth ss (b, next) ≡ ok g
        → Gives (b, next) (Swept ss b) g
    unfolding each_symbol
    each_symbol-Step depth [] b next g = λ h.
        subst (Gives (b, next) (Swept [] b)) (ok-injective h)
          (λ c. (Step-self w o request full (b, next) c, λ v. (tt, λ hs hh. hh)))
    each_symbol-Step depth (s ∷ ss) b next g =
        let k = check_deadline w request (some s) b in
        elim (Bool-cases k.1) [
          | inr q ↦ rw q (λ h.
              subst (Gives (b, next) (Swept (s ∷ ss) b)) (ok-injective h)
                (λ c. absurd (check_deadline-Complete (some s) b q c)))
          | inl q ↦ rw q (λ h.
              let (f, hf, h') =
                >>=-eq-ok (each_direction w o request depth s request.directions (k.0, next)) _ h in
              stop_or (Gives (b, next) (Swept (s ∷ ss) b)) f.0.query_halted f _ g
                (λ stop c.
                  let (st, shut) = each_direction-Step depth s request.directions k.0 next f hf c in
                  let first = check_deadline-Step (some s) b next q st.before in
                  (
                    Step-trans w o request full first st,
                    λ v.
                        absurd
                          (halted-absurd (b, next) f (Step-trans w o request full first st) stop v),
                  ))
                (λ hr c.
                  let (more, rest) = each_symbol-Step depth ss f.0 f.1 g hr c in
                  let (st, shut) =
                    each_direction-Step depth s request.directions k.0 next f hf more.before in
                  let first = check_deadline-Step (some s) b next q st.before in
                  let start = Step-trans w o request full first st in
                  (
                    Step-trans w o request full start more,
                    λ v.
                        let (closed, honest) = shut (first.sound v) in
                        let (others, honest') = rest (start.sound v) in
                        (
                          (AllClosed-mono f.0 g.0 request.directions s more.grows closed, others),
                          λ hs hh. honest' (All-map ss (λ n x. start.grows n x) hs.1) (
                              honest (every_member request.directions) (first.grows s hs.0)
                                (check_deadline-Honest (some s) b hh)),
                        ),
                  ))
                h')
        ]
