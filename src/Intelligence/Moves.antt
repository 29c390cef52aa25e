-- ===== src/Intelligence/Moves.antt =====
-- The states a recommendation goes through.
use novabase.Common.{
  ◌≡◌, ◌≢◌, ◌⊎◌, refl, sym, ap, ◌∙◌, Bool, true, false, Bool-cases, some, Option-cases, inl, inr,
  List, [], ◌∷◌, String, arith, ltb, ◌==◌, ==_iff,
}
use mathlib.Core.Path.{subst}
use novabase.Common.Key.{same, pair_key, string_key}
use novabase.Common.Map
use novabase.Common.Map.{Map, lookup-insert}
use novabase.Common.Result.{ok}
use novabase.Intelligence.Report.{IndexRecommendation, WorkloadReport}
use novabase.Intelligence.Lifecycle
use novabase.Intelligence.Lifecycle.{
  RecommendationStatus, proposed, accepted, dismissed, applied, evaluated, same_status,
  EvaluationConfig, RecommendationRecord, RecommendationLifecycle, impact, candidate_for,
}
use novabase.Intelligence.Calls.{
  Call, accepts_one, dismisses_one, applies_one, evaluates_one, concerns, answer, call, run,
  Decides, accepts, dismisses, applies, evaluates, Refuses, has_evaluation, IsSettled, Handled,
  unnamed, refused, decided,
}

-- The two outcomes of a call
abbrev Outcome : Call → RecommendationLifecycle → Type 0
Outcome c s =
    ((call c s ≡ (false, s))
      × ((r : RecommendationRecord) → Map.lookup (concerns c) s ≡ some r → Refuses c r.status))
    ⊎ ((r r' : RecommendationRecord) × (Map.lookup (concerns c) s ≡ some r)
        × Decides c r.status r'.status
        × (r'.recommendation ≡ r.recommendation)
        × (IsSettled r → IsSettled r')
        × (call c s ≡ (true, Map.insert (concerns c) r' s)))

same_status-eq : (s t : RecommendationStatus) → same_status s t ≡ true → s ≡ t
same_status-eq s t e = ground (arith, e)

same_status-differ : (s t : RecommendationStatus) → same_status s t ≡ false → s ≢ t
same_status-differ s t e = λ same. ground (arith, e, same)

-- The three decisions that need no report
transition-cases :
    (collection path : String) (expected next : RecommendationStatus) (s : RecommendationLifecycle)
    → ((answer (Lifecycle.transition collection path expected next s) ≡ (false, s))
        × ((r : RecommendationRecord)
            → Map.lookup (collection, path) s ≡ some r
            → r.status ≢ expected))
      ⊎ ((r : RecommendationRecord) × (Map.lookup (collection, path) s ≡ some r)
          × (r.status ≡ expected)
          × (answer (Lifecycle.transition collection path expected next s)
              ≡ (true, Map.insert (collection, path) (record r { status = next }) s)))
unfolding Lifecycle.transition Lifecycle.find_record Lifecycle.put_record
transition-cases collection path expected next s =
    elim (Option-cases (Map.lookup (collection, path) s)) [
      | inl absent ↦ inl (rw absent refl, λ r there. cc (absent, there))
      | inr (r, there) ↦ elim (Bool-cases (same_status r.status expected)) [
        | inl alike ↦ inr (r, there, same_status-eq r.status expected alike, rw (there, alike) refl)
        | inr differ ↦ inl (
          rw (there, differ) refl,
          λ x found.
              let this : r ≡ x = ground (arith, there, found) in
              subst (λ (y : RecommendationRecord). y.status ≢ expected) this
                (same_status-differ r.status expected differ),
        )
      ]
    ]

module _ (collection path : String) (report : WorkloadReport) (config : EvaluationConfig) where
  evaluate-cases :
      (s : RecommendationLifecycle) → Outcome (evaluates_one collection path report config) s
  unfolding call Lifecycle.evaluate Lifecycle.find_record Lifecycle.put_record
  evaluate-cases s = elim (Bool-cases (config.min_index_scans == 0)) [
    | inl zero ↦
        inl (
          rw zero refl,
          λ r there. inr (inl (ground (arith, zero, ==_iff config.min_index_scans 0))),
        )
    | inr some_scans ↦ elim (Option-cases (Map.lookup (collection, path) s)) [
      | inl absent ↦ inl (rw (some_scans, absent) refl, λ r there. cc (absent, there))
      | inr (r, there) ↦ elim (Bool-cases (same_status r.status applied)) [
        | inr differ ↦ inl (
          rw (some_scans, there, differ) refl,
          λ x found. inl (
              let this : r ≡ x = ground (arith, there, found) in
              subst (λ (y : RecommendationRecord). y.status ≢ applied) this
                (same_status-differ r.status applied differ)),
        )
        | inl alike ↦ elim (Option-cases (candidate_for collection path report.index_candidates)) [
          | inl nothing ↦ inl (
            rw (some_scans, there, alike, nothing) refl,
            λ x found. inr (inr (λ y seen. cc (nothing, seen))),
          )
          | inr (y, seen) ↦ elim (Bool-cases (ltb y.index_scans config.min_index_scans)) [
            | inl few ↦ inl (
              rw (some_scans, there, alike, seen, few) refl,
              λ x found. inr (inr (λ z seen'. ground (arith, seen, seen', few))),
            )
            | inr enough ↦ inr (
              r,
              record r { status = evaluated; evaluation = some (impact r.recommendation y) },
              there,
              subst (λ z. Decides (evaluates_one collection path report config) z evaluated)
                  (sym (same_status-eq r.status applied alike))
                  (evaluates collection path report config),
              refl,
              (λ h. refl),
              rw (some_scans, there, alike, seen, enough) refl,
            )
          ]
        ]
      ]
    ]
  ]

-- A decision that needs no report
plain-Outcome :
    (c : Call) (expected next : RecommendationStatus) (s : RecommendationLifecycle)
    → call c s ≡ answer (Lifecycle.transition (concerns c).0 (concerns c).1 expected next s)
    → ((r : RecommendationStatus) → r ≢ expected → Refuses c r)
    → Decides c expected next
    → same_status next evaluated ≡ false
    → same_status expected evaluated ≡ false
    → Outcome c s
plain-Outcome c expected next s run refuses decides open_next open_before =
    elim (transition-cases (concerns c).0 (concerns c).1 expected next s) [
      | inl (fails, other) ↦ inl (run ∙ fails, λ r there. refuses r.status (other r there))
      | inr (r, there, at, done) ↦ inr (
        r,
        record r { status = next },
        there,
        subst (λ x. Decides c x next) (sym at) decides,
        refl,
        (λ h. ground (arith, h, at, open_next, open_before)),
        run ∙ done,
      )
    ]

call-Outcome : (c : Call) (s : RecommendationLifecycle) → Outcome c s
unfolding call Lifecycle.accept Lifecycle.dismiss Lifecycle.mark_applied
call-Outcome (accepts_one collection path) s =
    plain-Outcome (accepts_one collection path) proposed accepted s refl (λ r h. h)
      (accepts collection path) refl refl
call-Outcome (dismisses_one collection path) s =
    plain-Outcome (dismisses_one collection path) proposed dismissed s refl (λ r h. h)
      (dismisses collection path) refl refl
call-Outcome (applies_one collection path) s =
    plain-Outcome (applies_one collection path) accepted applied s refl (λ r h. h)
      (applies collection path) refl refl
call-Outcome (evaluates_one collection path report config) s =
    evaluate-cases collection path report config s

-- What a call makes of one record
call-Handled :
    (c : Call) (s : RecommendationLifecycle) (k : String × String) (r : RecommendationRecord)
    → Map.lookup k s ≡ some r
    → IsSettled r
    → (r' : RecommendationRecord) × (Map.lookup k (call c s).1 ≡ some r')
      × Handled c (call c s).0 k r r'
      × IsSettled r'
call-Handled c s k r here settled = elim (Bool-cases (same (concerns c) k)) [
  | inl named ↦
      let at : concerns c ≡ k = (pair_key.beq_iff (concerns c) k).0 named in
      elim (call-Outcome c s) [
        | inl (fails, refuses) ↦ (
          r,
          rw fails here,
          rw fails (refused at refl (refuses r (ap (λ x. Map.lookup x s) at ∙ here))),
          settled,
        )
        | inr (r0, r', there, decides, kept, settles, done) ↦
            let old : r0 ≡ r = ground (arith, here, there, ap (λ x. Map.lookup x s) at) in
            (
              r',
              rw done (ground (arith, lookup-insert (concerns c) k r' s, named)),
              rw done (
                  decided at refl
                    (subst (λ (x : RecommendationRecord). Decides c x.status r'.status) old decides)
                    (kept ∙ ap (λ (x : RecommendationRecord). x.recommendation) old)),
              settles (subst IsSettled (sym old) settled),
            )
      ]
  | inr not_named ↦
      let apart : concerns c ≢ k =
        λ at. ground (arith, not_named, (pair_key.beq_iff (concerns c) k).1 at) in
      elim (call-Outcome c s) [
        | inl (fails, refuses) ↦ (r, rw fails here, unnamed apart, settled)
        | inr (r0, r', there, decides, kept, settles, done) ↦ (
          r,
          rw done (ground (arith, lookup-insert (concerns c) k r' s, not_named, here)),
          unnamed apart,
          settled,
        )
      ]
]

Handled-recommendation :
    {c : Call} {b : Bool} {k : String × String} {r r' : RecommendationRecord}
    → Handled c b k r r'
    → r'.recommendation ≡ r.recommendation
Handled-recommendation (unnamed apart) = refl
Handled-recommendation (refused at fails reason) = refl
Handled-recommendation (decided at done decides kept) = kept

run-IsSettled :
    (calls : List Call) (s : RecommendationLifecycle) (k : String × String)
    (r : RecommendationRecord)
    → Map.lookup k s ≡ some r
    → IsSettled r
    → (r' : RecommendationRecord) × (Map.lookup k (run calls s) ≡ some r')
      × (r'.recommendation ≡ r.recommendation)
      × IsSettled r'
unfolding run
run-IsSettled [] s k r here settled = (r, here, refl, settled)
run-IsSettled (c ∷ calls) s k r here settled =
    let (r1, here1, handled, settled1) = call-Handled c s k r here settled in
    let (r2, here2, kept, settled2) = run-IsSettled calls (call c s).1 k r1 here1 settled1 in
    (r2, here2, kept ∙ Handled-recommendation handled, settled2)

-- Every record is proposed and has no evaluation.
AllFresh : RecommendationLifecycle → Type 0
AllFresh s =
    (k : String × String) (r : RecommendationRecord)
    → Map.lookup k s ≡ some r
    → (r.status ≡ proposed) × (has_evaluation r ≡ false)

add_all-AllFresh :
    (rs : List IndexRecommendation) (m s : RecommendationLifecycle)
    → AllFresh m
    → Lifecycle.add_all rs m ≡ ok s
    → AllFresh s
unfolding Lifecycle.add_all AllFresh
add_all-AllFresh [] m s h e = subst AllFresh (ground (arith, e)) h
add_all-AllFresh (x ∷ rs) m s h e = elim (Option-cases (Map.lookup (Lifecycle.key_of x) m)) [
  | inl absent ↦
      add_all-AllFresh rs (Map.insert (Lifecycle.key_of x) (Lifecycle.fresh x) m) s
        (λ k r l.
          ground (arith, l, h k r, lookup-insert (Lifecycle.key_of x) k (Lifecycle.fresh x) m))
        (rw (absent, Lifecycle.add_all) at e)
  | inr (old, there) ↦ cc (rw (there, Lifecycle.add_all) at e)
]

-- A recommendation that is taken up is proposed, and keeps its record and its recommendation through
-- whatever calls follow, succeeding or failing. The record has an evaluation exactly when it is
-- evaluated. The next call leaves a record that it does not name. It changes the one that it names when
-- it succeeds, which it does from the one state where it is allowed: accepting or dismissing a proposed
-- recommendation, marking an accepted one applied, evaluating an applied one. It leaves the record when
-- it fails, since the state is another one or, for an evaluation, since the least number of index scans
-- is 0 or the report does not show it for the path.
pub life_of_record :
    (rs : List IndexRecommendation) (s : RecommendationLifecycle) (calls : List Call) (c : Call)
    (k : String × String) (r : RecommendationRecord)
    → Lifecycle.from_recommendations rs ≡ ok s
    → Map.lookup k s ≡ some r
    → (r.status ≡ proposed)
      × (r1 r2 : RecommendationRecord) × (Map.lookup k (run calls s) ≡ some r1)
      × (Map.lookup k (call c (run calls s)).1 ≡ some r2)
      × (r1.recommendation ≡ r.recommendation)
      × IsSettled r1
      × Handled c (call c (run calls s)).0 k r1 r2
unfolding Lifecycle.from_recommendations AllFresh
life_of_record rs s calls c k r e found =
    let (status, plain) =
      add_all-AllFresh rs [] s (λ j x l. unfold Map.lookup in cc (l)) e k r found in
    let (r1, there, kept, settled) =
      run-IsSettled calls s k r found (ground (arith, plain, status)) in
    let (r2, there2, handled, settled2) = call-Handled c (run calls s) k r1 there settled in
    (status, r1, r2, there, there2, kept, settled, handled)
