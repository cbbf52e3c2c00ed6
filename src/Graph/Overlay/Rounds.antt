-- ===== src/Graph/Overlay/Rounds.antt =====
-- One round of the loop of impact_context/index/overlay.rs.
use pre_commit_review.Prelude.{
  unwrap_or, ℕ, ◌+◌, ◌≤◌, ◌≡◌, ◌⊎◌, inl, inr, refl, ap, ◌∙◌, Bool, true, false, List, some, Result,
  ok, err, Bytes, arith,
}
use pre_commit_review.Prelude.Keyed.{insert_self}
use pre_commit_review.Budget.Tracker.{
  Kind, Tracker, Exhaustion, recorded, limit_of, consume, check_deadline,
}
use pre_commit_review.Budget.Index.{IndexResource, kind}
use pre_commit_review.Graph.Overlay.{
  OverlayWorld, OverlayBuilder, answered, consume_candidate, record_exhaustion, mark_partial,
}
use pre_commit_review.Graph.Overlay.Build.{charge_path, start_path}
use pre_commit_review.Graph.Overlay.Moves.{Complete, charged, consume-budget}

module _ {R B : Type 0} (k : Kind R B) where
  consume-granted :
      (t : Tracker R B) (r : R) (n : ℕ)
      → (consume k t r n).1 ≡ ok tt
      → (recorded k (consume k t r n).0 r ≡ recorded k t r + n)
        × (recorded k t r + n ≤ limit_of k t r)
  unfolding consume
  consume-granted t r n h = ground (arith, insert_self k.discrete r (recorded k t r + n) t.consumed)

  consume-refused :
      (t : Tracker R B) (r j : R) (n : ℕ) (e : Exhaustion R)
      → (consume k t r n).1 ≡ err e
      → recorded k (consume k t r n).0 j ≡ recorded k t j
  unfolding consume
  consume-refused t r j n e h = ground arith

  check_deadline-budget :
      (t : Tracker R B) (elapsed : ℕ)
      → ((check_deadline k t elapsed).0.budget ≡ t.budget)
        × ((check_deadline k t elapsed).0.consumed ≡ t.consumed)
  unfolding check_deadline
  check_deadline-budget t elapsed = ground arith

abbrev pub limit : OverlayBuilder → ℕ
limit b = limit_of kind b.budget IndexResource.overlay_paths

-- A path has been charged, and the rest of the queue stays.
pub record Started (rest : List Bytes) (b c : OverlayBuilder) : Type 0 where
  pub limits : limit c ≡ limit b
  pub charges : charged c ≡ charged b + 1
  pub within : charged c ≤ limit c
  pub overlay : c.overlay ≡ b.overlay
  pub queue : c.queue ≡ rest
  pub queued : c.queued_paths ≡ b.queued_paths

-- The charge was refused, and the overlay is partial.
pub record Stopped (b c : OverlayBuilder) : Type 0 where
  pub limits : limit c ≡ limit b
  pub charges : charged c ≡ charged b
  pub tombs : c.overlay.path_tombstones ≡ b.overlay.path_tombstones
  pub key : c.overlay.base_generation_key ≡ b.overlay.base_generation_key
  pub cut : Complete c → ⊥

-- A charge either starts the path or stops the loop.
abbrev pub Charged : List Bytes → OverlayBuilder → OverlayBuilder × Bool → Type 0
Charged rest b c = ((c.1 ≡ true) × Started rest b c.0) ⊎ ((c.1 ≡ false) × Stopped b c.0)

stopped :
    (b c : OverlayBuilder) (e : Exhaustion IndexResource) (path : Bytes)
    → limit c ≡ limit b
    → charged c ≡ charged b
    → c.overlay ≡ b.overlay
    → Stopped b (record_exhaustion e (some path) c)
unfolding record_exhaustion mark_partial
stopped b c e path l n o = record {
  limits = l;
  charges = n;
  tombs = ap (λ x. x.path_tombstones) o;
  key = ap (λ x. x.base_generation_key) o;
  cut = λ h. ground arith;
}

answered-Charged :
    (path : Bytes) (b : OverlayBuilder) (t : Tracker _ _)
    (a : Result (Unit {0}) (Exhaustion IndexResource))
    → t.budget ≡ b.budget.budget
    → (a ≡ ok tt
        → (recorded kind t IndexResource.overlay_paths ≡ charged b + 1) × (charged b + 1 ≤ limit b))
    → ((e : Exhaustion IndexResource)
        → a ≡ err e
        → recorded kind t IndexResource.overlay_paths ≡ charged b)
    → Charged b.queue b (answered path (record b { budget = t }) a)
answered-Charged path b t (ok tt) l f g =
    let (n, m) = f refl in
    let lim = ap (λ x. kind.limit x IndexResource.overlay_paths) l in
    inl (
      refl,
      record {
        limits = lim;
        charges = n;
        within = omega (arith, n, m, lim);
        overlay = refl;
        queue = refl;
        queued = refl;
      },
    )
answered-Charged path b t (err e) l f g = inr (
  refl,
  stopped b (record b { budget = t }) e path (ap (λ x. kind.limit x IndexResource.overlay_paths) l)
      (g e refl) refl,
)

consume_path-Charged :
    (path : Bytes) (b : OverlayBuilder)
    → Charged b.queue b (consume_candidate IndexResource.overlay_paths 1 path b)
unfolding consume_candidate
consume_path-Charged path b =
    let c = consume kind b.budget IndexResource.overlay_paths 1 in
    answered-Charged path b c.0 c.1 (consume-budget kind b.budget IndexResource.overlay_paths 1)
      (consume-granted kind b.budget IndexResource.overlay_paths 1)
      (consume-refused kind b.budget IndexResource.overlay_paths IndexResource.overlay_paths 1)

charge_path-Charged :
    (path : Bytes) (b c : OverlayBuilder) (a : Result (Unit {0}) (Exhaustion IndexResource))
    → c.budget.budget ≡ b.budget.budget
    → c.budget.consumed ≡ b.budget.consumed
    → c.overlay ≡ b.overlay
    → c.queued_paths ≡ b.queued_paths
    → Charged c.queue b (charge_path path c a)
charge_path-Charged path b c (err e) l n o q = inr (
  refl,
  stopped b c e path (ap (λ x. kind.limit x IndexResource.overlay_paths) l)
      (ap (λ x. unwrap_or 0 (x IndexResource.overlay_paths)) n) o,
)
charge_path-Charged path b c (ok u) l n o q =
    let lim = ap (λ x. kind.limit x IndexResource.overlay_paths) l in
    let num = ap (λ x. unwrap_or 0 (x IndexResource.overlay_paths)) n in
    elim (consume_path-Charged path c) [
      | inl (e, s) ↦ inl (
        e,
        record {
          limits = s.limits ∙ lim;
          charges = s.charges ∙ ap (λ x. x + 1) num;
          within = s.within;
          overlay = s.overlay ∙ o;
          queue = s.queue;
          queued = s.queued ∙ q;
        },
      )
      | inr (e, s) ↦ inr (
        e,
        record {
          limits = s.limits ∙ lim;
          charges = s.charges ∙ num;
          tombs = s.tombs ∙ ap (λ x. x.path_tombstones) o;
          key = s.key ∙ ap (λ x. x.base_generation_key) o;
          cut = s.cut;
        },
      )
    ]

pub start_path-Charged :
    (w : OverlayWorld) (path : Bytes) (rest : List Bytes) (b : OverlayBuilder)
    → Charged rest b (start_path w path rest b)
unfolding start_path
start_path-Charged w path rest b =
    let d = check_deadline kind b.budget (w.elapsed b.clock) in
    let (l, n) = check_deadline-budget kind b.budget (w.elapsed b.clock) in
    charge_path-Charged path b (record b { budget = d.0; queue = rest; clock = b.clock + 1 }) d.1 l
      n refl refl
