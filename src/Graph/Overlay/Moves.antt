-- ===== src/Graph/Overlay/Moves.antt =====
-- What the operations of impact_context/index/overlay.rs leave alone while a path is processed.
use pre_commit_review.Prelude.{
  ℕ, ◌≡◌, ◌≢◌, ◌⊎◌, inl, inr, refl, sym, ap, ◌∙◌, subst, Bool, true, List, Option, none, some,
  Result, ok, err, >>=-eq-ok, ok-injective, Bytes, String, arith, Bool-cases, length, ◌==◌,
}
use pre_commit_review.Prelude.Texts.{contains}
use pre_commit_review.Budget.Tracker.{Kind, Tracker, Exhaustion, recorded, consume}
use pre_commit_review.Budget.Index.{IndexResource, kind}
use pre_commit_review.Graph.Model.{Completeness, GraphEdge}
use pre_commit_review.Graph.Overlay.{
  OverlayError, OverlayWorld, OverlayBuilder, or_fail, mark_partial, record_exhaustion, answered,
  consume_candidate, sized, consume_overlay_value, query_limit, observe_query_result, query_within,
  query, insert_outgoing, insert_incoming_for, insert_target, insert_edge,
}

abbrev pub Complete : OverlayBuilder → Type 0
Complete b = b.overlay.completeness ≡ Completeness.complete

abbrev pub charged : OverlayBuilder → ℕ
charged b = recorded kind b.budget IndexResource.overlay_paths

-- The tombstones and the charge for paths stay, a mark is kept, and what is newly known waits in
-- the queue.
pub record Moves (b b' : OverlayBuilder) : Type 0 where
  pub limits : b'.budget.budget ≡ b.budget.budget
  pub charges : charged b' ≡ charged b
  pub before : Complete b' → Complete b
  pub tombs : b'.overlay.path_tombstones ≡ b.overlay.path_tombstones
  pub key : b'.overlay.base_generation_key ≡ b.overlay.base_generation_key
  pub waits :
      (p : Bytes)
      → contains p b'.queued_paths ≡ true
      → (contains p b.queued_paths ≡ true) ⊎ (contains p b'.queue ≡ true)
  pub keeps : (p : Bytes) → contains p b.queue ≡ true → contains p b'.queue ≡ true
  pub known : (p : Bytes) → contains p b.queued_paths ≡ true → contains p b'.queued_paths ≡ true

-- The overlay gets values, and nothing else happens.
pub Moves-filled :
    (b b' : OverlayBuilder)
    → b'.budget ≡ b.budget
    → b'.overlay.completeness ≡ b.overlay.completeness
    → b'.overlay.path_tombstones ≡ b.overlay.path_tombstones
    → b'.overlay.base_generation_key ≡ b.overlay.base_generation_key
    → b'.queue ≡ b.queue
    → b'.queued_paths ≡ b.queued_paths
    → Moves b b'
Moves-filled b b' t c o g q k = record {
  limits = ap (λ x. x.budget) t;
  charges = ap (λ x. recorded kind x IndexResource.overlay_paths) t;
  before = λ h. sym c ∙ h;
  tombs = o;
  key = g;
  waits = λ p h. inl (ap (contains p) (sym k) ∙ h);
  keeps = λ p h. ap (contains p) q ∙ h;
  known = λ p h. ap (contains p) k ∙ h;
}

pub Moves-self : (b : OverlayBuilder) → Moves b b
Moves-self b = Moves-filled b b refl refl refl refl refl refl

pub Moves-trans : {b c d : OverlayBuilder} → Moves b c → Moves c d → Moves b d
Moves-trans m n = record {
  limits = n.limits ∙ m.limits;
  charges = n.charges ∙ m.charges;
  before = λ h. m.before (n.before h);
  tombs = n.tombs ∙ m.tombs;
  key = n.key ∙ m.key;
  waits = λ p h. elim (n.waits p h) [
    | inr x ↦ inr x
    | inl x ↦ elim (m.waits p x) [ inl y ↦ inl y | inr y ↦ inr (n.keeps p y) ]
  ];
  keeps = λ p h. n.keeps p (m.keeps p h);
  known = λ p h. n.known p (m.known p h);
}

pub mark_partial-Moves :
    (code : String) (path : Option Bytes) (reason interpretation : String) (b : OverlayBuilder)
    → Moves b (mark_partial code path reason interpretation b)
unfolding mark_partial
mark_partial-Moves code path reason interpretation b = record {
  limits = refl;
  charges = refl;
  before = λ h. absurd (ground arith);
  tombs = refl;
  key = refl;
  waits = λ p h. inl h;
  keeps = λ p h. h;
  known = λ p h. h;
}

pub consume-budget :
    {R B : Type 0} (k : Kind R B) (t : Tracker R B) (r : R) (n : ℕ)
    → (consume k t r n).0.budget ≡ t.budget
unfolding consume
consume-budget k t r n = ground arith

pub consume-other :
    {R B : Type 0} (k : Kind R B) (t : Tracker R B) (r j : R) (n : ℕ)
    → r ≢ j
    → recorded k (consume k t r n).0 j ≡ recorded k t j
unfolding consume
consume-other k t r j n h = ground arith

answered-Moves :
    (path : Bytes) (b : OverlayBuilder) (a : Result (Unit {0}) (Exhaustion IndexResource))
    → Moves b (answered path b a).0
unfolding record_exhaustion
answered-Moves path b (ok u) = Moves-self b
answered-Moves path b (err e) =
    mark_partial-Moves e.code (some path) "repository overlay resource budget was exhausted"
      "the candidate overlay and reverse-dependent closure are partial" b

-- A charge for anything but paths.
pub consume_candidate-Moves :
    (r : IndexResource) (n : ℕ) (path : Bytes) (b : OverlayBuilder)
    → r ≢ IndexResource.overlay_paths
    → Moves b (consume_candidate r n path b).0
unfolding consume_candidate
consume_candidate-Moves r n path b h =
    let c = consume kind b.budget r n in
    let first : Moves b (record b { budget = c.0 }) = record {
      limits = consume-budget kind b.budget r n;
      charges = consume-other kind b.budget r IndexResource.overlay_paths n h;
      before = λ x. x;
      tombs = refl;
      key = refl;
      waits = λ p x. inl x;
      keeps = λ p x. x;
      known = λ p x. x;
    } in
    Moves-trans first (answered-Moves path (record b { budget = c.0 }) c.1)

or_fail-ok :
    {A : Type 0} (b : OverlayBuilder) (r : Result A OverlayError) (a : A)
    → or_fail b r ≡ ok a
    → r ≡ ok a
or_fail-ok b (ok x) a h = ground arith
or_fail-ok b (err e) a h = absurd (ground arith)

pub consume_overlay_value-Moves :
    (r : IndexResource) (json : Result Bytes Bytes) (path : Bytes) (b : OverlayBuilder)
    (c : OverlayBuilder × Bool)
    → r ≢ IndexResource.overlay_paths
    → consume_overlay_value r json path b ≡ ok c
    → Moves b c.0
unfolding consume_overlay_value
consume_overlay_value-Moves r json path b c ne =
    let first = consume_candidate r 1 path b in
    elim (Bool-cases first.1) [
      | inr q ↦
          rw q
            (λ h. subst (λ x. Moves b x.0) (ok-injective h) (consume_candidate-Moves r 1 path b ne))
      | inl q ↦ rw q (λ h.
          let (bytes, hb, h') = >>=-eq-ok (or_fail first.0 (sized json)) _ h in
          subst (λ x. Moves b x.0) (ok-injective h')
            (Moves-trans (consume_candidate-Moves r 1 path b ne) (
              consume_candidate-Moves IndexResource.generation_bytes (length bytes) path first.0
                (λ e. absurd (ground arith)))))
    ]

query_limit-Moves :
    (w : OverlayWorld) (path : Bytes) (b : OverlayBuilder) → Moves b (query_limit w path b).0
unfolding query_limit
query_limit-Moves w path b = ground (
  arith,
  Moves-self b,
  consume_candidate-Moves IndexResource.query_rows 1 path b (λ e. absurd (ground arith)),
)

observe_query_result-Moves :
    (rows limit : ℕ) (path : Bytes) (b : OverlayBuilder)
    → Moves b (observe_query_result rows limit path b)
unfolding observe_query_result
observe_query_result-Moves rows limit path b =
    let first =
      consume_candidate-Moves IndexResource.query_rows rows path b (λ e. absurd (ground arith)) in
    elim (Bool-cases (rows == limit)) [
      | inr q ↦ rw q first
      | inl q ↦ rw q (
          Moves-trans first (
            mark_partial-Moves "index-query-row-limit-reached" (some path)
              "an indexed graph query reached its exact row limit"
              "additional base symbols or relationships may exist"
              (consume_candidate IndexResource.query_rows rows path b).0))
    ]

query_within-Moves :
    {A : Type 0} (ask : ℕ → Result (List A) OverlayError) (path : Bytes) (b : OverlayBuilder)
    (limit : Option ℕ) (r : OverlayBuilder × List A)
    → query_within ask path (b, limit) ≡ ok r
    → Moves b r.0
query_within-Moves ask path b none r h = subst (λ x. Moves b x.0) (ok-injective h) (Moves-self b)
query_within-Moves ask path b (some limit) r h =
    let (rows, hr, h') = >>=-eq-ok (or_fail b (ask limit)) _ h in
    subst (λ x. Moves b x.0) (ok-injective h')
      (observe_query_result-Moves (length rows) limit path b)

pub query-Moves :
    {A : Type 0} (w : OverlayWorld) (ask : ℕ → Result (List A) OverlayError) (path : Bytes)
    (b : OverlayBuilder) (r : OverlayBuilder × List A)
    → query w ask path b ≡ ok r
    → Moves b r.0
unfolding query
query-Moves w ask path b r h =
    let q = query_limit w path b in
    Moves-trans (query_limit-Moves w path b) (query_within-Moves ask path q.0 q.1 r h)

insert_outgoing-Moves : (e : GraphEdge) (b : OverlayBuilder) → Moves b (insert_outgoing e b)
unfolding insert_outgoing
insert_outgoing-Moves e b = Moves-filled b (insert_outgoing e b) refl refl refl refl refl refl

insert_incoming_for-Moves :
    (s : Bytes) (e : GraphEdge) (b : OverlayBuilder) → Moves b (insert_incoming_for s e b)
unfolding insert_incoming_for
insert_incoming_for-Moves s e b =
    Moves-filled b (insert_incoming_for s e b) refl refl refl refl refl refl

insert_target-Moves :
    (t : Option Bytes) (e : GraphEdge) (b : OverlayBuilder) → Moves b (insert_target t e b)
insert_target-Moves none e b = Moves-self b
insert_target-Moves (some t) e b = insert_incoming_for-Moves t e b

pub insert_edge-Moves : (e : GraphEdge) (b : OverlayBuilder) → Moves b (insert_edge e b)
unfolding insert_edge
insert_edge-Moves e b =
    Moves-trans (insert_target-Moves e.to_symbol e b)
      (insert_outgoing-Moves e (insert_target e.to_symbol e b))

pub insert_both-Moves :
    (s : Bytes) (e : GraphEdge) (b : OverlayBuilder)
    → Moves b (insert_outgoing e (insert_incoming_for s e b))
insert_both-Moves s e b =
    Moves-trans (insert_incoming_for-Moves s e b)
      (insert_outgoing-Moves e (insert_incoming_for s e b))
