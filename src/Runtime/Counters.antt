-- ===== src/Runtime/Counters.antt =====
-- Loop counters: node_step_runner.py counts inside a step, workflow.py counts the keys that a step
-- returns. Counting in either place notices the same excess.
use agent_orchestration_core.Common.{
  ℕ, ◌+◌, ◌≤◌, String, ◌≡◌, ap, ◌∙◌, Bool, true, false, none, some, List, [], ◌∷◌, ◌++◌, Dict, get,
  put, get-put, str_eq, Bool-cases, inl, inr, ltb, if◌then◌else◌, Result, ok, err, Exn, arith,
}
use agent_orchestration_core.Value.{Fields, obj}
use agent_orchestration_core.EdgeEvaluator.{is_true}
use agent_orchestration_core.Runtime.Types.{
  EdgeKind, normal, loop, CompiledEdge, Nodes, emit, edge_evaluated,
}
use agent_orchestration_core.Runtime.Edges.{
  EdgeScan, EdgeStep, go, stop, count_edge, enter_edge, edge_key, judge_entered, edge_step,
  evaluate_edges,
}
use agent_orchestration_core.Runtime.Workflow.{count_keys, next_count}

abbrev pub count_in : Dict ℕ → String → ℕ
count_in counters key = elim (get counters key) [ none ↦ 0 | some n ↦ n ]

-- More keys go on from the counters that the first ones leave.
count_keys-append :
    (limit : ℕ) (xs ys : List String) (k c : Dict ℕ)
    → count_keys limit xs k ≡ (c, false)
    → count_keys limit (xs ++ ys) k ≡ count_keys limit ys c
unfolding count_keys
count_keys-append limit [] ys k c e = ap (λ p. count_keys limit ys p.0) e
count_keys-append limit (x ∷ xs) ys k c e =
    ground (arith, count_keys-append limit xs ys (put k x (next_count (get k x))) c)

one_key :
    (limit : ℕ) (key : String) (c : Dict ℕ)
    → count_keys limit (key ∷ []) c
      ≡ (put c key (count_in c key + 1), ltb limit (count_in c key + 1))
unfolding count_keys
one_key limit key c = ground arith

pub over-append :
    (limit : ℕ) (xs ys : List String) (k : Dict ℕ)
    → (count_keys limit xs k).1 ≡ true
    → (count_keys limit (xs ++ ys) k).1 ≡ true
unfolding count_keys
over-append limit [] ys k e = cc
over-append limit (x ∷ xs) ys k e =
    ground (arith, over-append limit xs ys (put k x (next_count (get k x))))

-- A scan of the executor, whose counters go on from `k`, beside a scan of the activity, whose
-- counters are fresh.
pub record Beside (limit : ℕ) (k : Dict ℕ) (s s0 : EdgeScan) : Type 0 where
  pub candidates : s.candidates ≡ s0.candidates
  pub keys : s.loop_edge_keys ≡ s0.loop_edge_keys
  pub repository : s.repository ≡ s0.repository
  pub counted : count_keys limit s.loop_edge_keys k ≡ (s.counters, false)
  pub below : (key : String) → count_in s0.counters key ≤ count_in s.counters key

-- The activity raises, or returns keys that the workflow finds to be too many.
abbrev pub Doomed : ℕ → Dict ℕ → EdgeStep → Type 0
Doomed limit k (stop x s) = Unit {0}
Doomed limit k (go s) = (count_keys limit s.loop_edge_keys k).1 ≡ true

pub data Joint (limit : ℕ) (k : Dict ℕ) : EdgeStep → EdgeStep → Type 0 where
  together : {s s0 : EdgeScan} → Beside limit k s s0 → Joint limit k (go s) (go s0)
  apart : {s : EdgeScan} {r0 : EdgeStep} (x : Exn) → Doomed limit k r0 → Joint limit k (stop x s) r0

module _ (limit : ℕ) (k : Dict ℕ) where
  -- one more key, from the counters that the keys before it gave
  counted_next :
      (key : String) (keys : List String) (c : Dict ℕ)
      → count_keys limit keys k ≡ (c, false)
      → count_keys limit (keys ++ key ∷ []) k
        ≡ (put c key (count_in c key + 1), ltb limit (count_in c key + 1))
  counted_next key keys c e = count_keys-append limit keys (key ∷ []) k c e ∙ one_key limit key c

  below_next :
      (key : String) (c c0 : Dict ℕ)
      → ((j : String) → count_in c0 j ≤ count_in c j)
      → (j : String)
      → count_in (put c0 key (count_in c0 key + 1)) j ≤ count_in (put c key (count_in c key + 1)) j
  below_next key c c0 below j = ground (
    arith,
    get-put c0 key (count_in c0 key + 1) j,
    get-put c key (count_in c key + 1) j,
    below j,
    below key,
  )

  count_edge-Joint :
      (key : String) (s s0 : EdgeScan)
      → Beside limit k s s0
      → Joint limit k (count_edge limit key s) (count_edge limit key s0)
  unfolding count_edge
  count_edge-Joint key s s0 b =
      let n = count_in s.counters key + 1 in
      let n0 = count_in s0.counters key + 1 in
      let next = counted_next key s.loop_edge_keys s.counters b.counted in
      let lower : n0 ≤ n = omega (arith, b.below key) in
      elim (Bool-cases (ltb limit n)) [
        | inl over ↦ elim (Bool-cases (ltb limit n0)) [
          | inl over0 ↦ rw (over, over0) (apart _ tt)
          | inr fine0 ↦
              rw (over, fine0)
                (apart _ (rw (← b.keys) (ap (λ (p : Dict ℕ × Bool). p.1) next ∙ over)))
        ]
        | inr fine ↦
            let fine0 : ltb limit n0 ≡ false = ground arith in
            rw (fine, fine0)
              (together (record {
                candidates = b.candidates;
                keys = ap (λ ks. ks ++ key ∷ []) b.keys;
                repository = b.repository;
                counted = next ∙ ap (λ over. (put s.counters key n, over)) fine;
                below = below_next key s.counters s0.counters b.below;
              }))
      ]

  judge-Joint :
      (r : Result Bool) (e : CompiledEdge) (t t0 : EdgeStep)
      → Joint limit k t t0
      → Joint limit k (judge_entered r e t) (judge_entered r e t0)
  unfolding judge_entered
  judge-Joint (ok holds) e t t0 (together b) = together (record {
    candidates = ap (λ cs. if holds then cs ++ e.to_node ∷ [] else cs) b.candidates;
    keys = b.keys;
    repository = ap (emit (edge_evaluated e.from_node e.to_node holds)) b.repository;
    counted = b.counted;
    below = b.below;
  })
  judge-Joint (err x) e t t0 (together b) = apart x tt
  judge-Joint (ok holds) e t (stop x0 s0) (apart x d) = apart x tt
  judge-Joint (ok holds) e t (go s0) (apart x d) = apart x d
  judge-Joint (err y) e t (stop x0 s0) (apart x d) = apart x tt
  judge-Joint (err y) e t (go s0) (apart x d) = apart x tt

  enter-Joint :
      (kind : EdgeKind) (key : String) (s s0 : EdgeScan)
      → Beside limit k s s0
      → Joint limit k (enter_edge limit kind key s) (enter_edge limit kind key s0)
  unfolding enter_edge
  enter-Joint normal key s s0 b = together b
  enter-Joint loop key s s0 b = count_edge-Joint key s s0 b

module _ (nodes : Nodes) (limit : ℕ) (k : Dict ℕ) (current : String) (output : Fields) where
  edge_step-Joint :
      (e : CompiledEdge) (s s0 : EdgeScan)
      → Beside limit k s s0
      → Joint limit k
          (edge_step nodes limit current output e s)
          (edge_step nodes limit current output e s0)
  unfolding edge_step
  edge_step-Joint e s s0 b = elim (Bool-cases (str_eq e.from_node current)) [
    | inl here ↦
        rw (here, edge_step)
          (judge-Joint limit k (is_true nodes.objects e.compiled_condition (obj output)) e
            (enter_edge limit e.edge_kind (edge_key e) s)
            (enter_edge limit e.edge_kind (edge_key e) s0)
            (enter-Joint limit k e.edge_kind (edge_key e) s s0 b))
    | inr away ↦ rw (away, edge_step) (together b)
  ]

  -- what is too much stays too much
  edge_step-Doomed :
      (e : CompiledEdge) (s : EdgeScan)
      → Doomed limit k (go s)
      → Doomed limit k (edge_step nodes limit current output e s)
  unfolding edge_step
  edge_step-Doomed e s d = ground (arith, over-append limit s.loop_edge_keys (edge_key e ∷ []) k)

  evaluate-Doomed :
      (es : List CompiledEdge) (r : EdgeStep)
      → Doomed limit k r
      → Doomed limit k
          (elim r [ go s ↦ evaluate_edges nodes limit current output es s | stop x s ↦ stop x s ])
  unfolding evaluate_edges
  evaluate-Doomed es (stop x s) d = tt
  evaluate-Doomed [] (go s) d = d
  evaluate-Doomed (e ∷ es) (go s) d =
      evaluate-Doomed es (edge_step nodes limit current output e s) (edge_step-Doomed e s d)

  -- The edges of a node, scanned with counters that go on from `k` and with fresh ones.
  pub evaluate_edges-Joint :
      (es : List CompiledEdge) (s s0 : EdgeScan)
      → Beside limit k s s0
      → Joint limit k
          (evaluate_edges nodes limit current output es s)
          (evaluate_edges nodes limit current output es s0)
  unfolding evaluate_edges
  evaluate_edges-Joint [] s s0 b = together b
  evaluate_edges-Joint (e ∷ es) s s0 b = resume (edge_step-Joint e s s0 b) (evaluate_edges-Joint es)
    where
      resume :
          {r r0 : EdgeStep}
          → Joint limit k r r0
          → ((t t0 : EdgeScan)
              → Beside limit k t t0
              → Joint limit k
                  (evaluate_edges nodes limit current output es t)
                  (evaluate_edges nodes limit current output es t0))
          → Joint limit k
              (elim r [
                | go t ↦ evaluate_edges nodes limit current output es t
                | stop x t ↦ stop x t
              ])
              (elim r0 [
                | go t ↦ evaluate_edges nodes limit current output es t
                | stop x t ↦ stop x t
              ])
      resume (together {s = t} {s0 = t0} b) ih = ih t t0 b
      resume (apart {r0 = r0} x d) ih = apart x (evaluate-Doomed es r0 d)
