-- ===== src/Compiler/Plans.antt =====
-- graph_compiler.py: what holds of every plan that compiles, and what is wrong with a snapshot that
-- does not.
use agent_orchestration_core.Common.{
  ◌≤◌, String, ◌≡◌, ◌≢◌, ◌↔◌, refl, ap, ◌⊎◌, inl, inr, false, List, [], ◌∷◌, Dict, has, domain, Exn,
  Result, ok, err, arith, Result-cases,
}
use agent_orchestration_core.Runtime.Types.{CompiledEdge, ExecutionPlan}
use agent_orchestration_core.Graph.{Search}
use agent_orchestration_core.Graph.Reach.{Has, Reaches, here, there, Has-nil, Has-one, Has-head}
use agent_orchestration_core.Graph.Loops.{
  targets, strict_targets, after, Distinct, IsOrdered, Cycle, Explored, passes, refuses, leap,
}
use agent_orchestration_core.Graph.Rank.{rank, rank_less, ordered_closed}
use agent_orchestration_core.Compiler.{
  Snapshot, arcs_at, successors, compile, compile_edges, sorted_edges, start_in, validated,
  node_ids, terminal_ids, is_empty,
}
use agent_orchestration_core.Compiler.Checks.{
  IsConnected, validate_reachability_decides, validate_loops-Judged, targets-arcs_at,
}

-- The finished nodes of the search for cycles, in order, and all of the plan's.
pub record IsFinished (plan : ExecutionPlan) (finished : List String) : Type 0 where
  pub ordered : IsOrdered (arcs_at plan.adjacency_map) finished
  pub distinct : Distinct finished
  pub all : (x : String) → Has plan.ordered_nodes x ↔ Has finished x

pub record IsWellFormed (plan : ExecutionPlan) : Type 0 where
  pub connected : IsConnected plan.start_node_id plan.adjacency_map plan.ordered_nodes
  pub ends : plan.terminal_nodes ≢ []
  pub finished : List String
  pub order : IsFinished plan finished

-- What stops the compilation before the checks of the structure.
pub data Malformed (snapshot : Snapshot) : Exn → Type 0 where
  no_start : (e : Exn) → start_in snapshot.start_node snapshot.nodes ≡ err e → Malformed snapshot e
  no_edges : snapshot.edges ≡ [] → Malformed snapshot (domain "edges_required")
  no_terminals : terminal_ids snapshot.nodes ≡ [] → Malformed snapshot (domain "no_terminal_nodes")
  bad_edge :
      (e : Exn) → compile_edges 0 (sorted_edges snapshot.edges) [] ≡ err e → Malformed snapshot e

pub data Verdict (snapshot : Snapshot) (r : Result ExecutionPlan) : Type 0 where
  compiles : (plan : ExecutionPlan) → r ≡ ok plan → IsWellFormed plan → Verdict snapshot r
  malformed : (e : Exn) → r ≡ err e → Malformed snapshot e → Verdict snapshot r
  unconnected :
      (start : String) (adjacency : Dict (List CompiledEdge))
      → r ≡ err (domain "unreachable_nodes")
      → start_in snapshot.start_node snapshot.nodes ≡ ok start
      → compile_edges 0 (sorted_edges snapshot.edges) [] ≡ ok adjacency
      → ¬ (IsConnected start adjacency (node_ids snapshot.nodes))
      → Verdict snapshot r
  cyclic :
      (adjacency : Dict (List CompiledEdge))
      → r ≡ err (domain "cycle_not_marked_loop")
      → compile_edges 0 (sorted_edges snapshot.edges) [] ≡ ok adjacency
      → Cycle (arcs_at adjacency)
      → Verdict snapshot r

empty-cases {ℓ} : {A : Type ℓ} (xs : List A) → (xs ≡ []) ⊎ ((xs ≢ []) × (is_empty xs ≡ false))
unfolding is_empty
empty-cases [] = inl refl
empty-cases (x ∷ xs) = inr (λ e. cc, refl)

-- The search for cycles finishes what can be reached, and no more.
module _ (start : String) (adjacency : Dict (List CompiledEdge)) (t : Search)
    (p : Explored (arcs_at adjacency) (record { visiting = []; visited = [] }) (leap start) t) where
  finished_start : Has t.visited start
  unfolding targets has
  finished_start = elim (p.reached start (Has-head start [])) [
    | inl h ↦ h
    | inr h ↦ absurd (Has-nil start h)
  ]

  finished_next :
      (x y : String) → Has t.visited x → Has (successors adjacency x) y → Has t.visited y
  finished_next x y h e = settle (p.closed x y h (rw (ap (λ f. f x) (targets-arcs_at adjacency)) e))
    where
      settle : Has [] x ⊎ (Has t.visited y ⊎ Has [] y) → Has t.visited y
      settle (inl k) = absurd (Has-nil x k)
      settle (inr (inl k)) = k
      settle (inr (inr k)) = absurd (Has-nil y k)

  finished_reached :
      (x y : String) → Reaches (successors adjacency) x y → Has t.visited x → Has t.visited y
  finished_reached x y (here z) h = h
  finished_reached x y (there a m z e r) h = finished_reached m z r (finished_next a m h e)

  finished_origin : (x : String) → Has t.visited x → Reaches (successors adjacency) start x
  unfolding targets
  finished_origin x h = settle (p.origin x h)
    where
      from :
          (m : String)
          → Has (start ∷ []) m
          → Reaches (after (arcs_at adjacency)) m x
          → Reaches (successors adjacency) start x
      from m k r = rw (Has-one start m k, ← (targets-arcs_at adjacency)) r

      settle :
          Has [] x ⊎ ((m : String) × Has (start ∷ []) m × Reaches (after (arcs_at adjacency)) m x)
          → Reaches (successors adjacency) start x
      settle (inl k) = absurd (Has-nil x k)
      settle (inr (m, k, r)) = from m k r

abbrev planned : Snapshot → String → Dict (List CompiledEdge) → ExecutionPlan
planned snapshot start adjacency = record {
  start_node_id = start;
  ordered_nodes = node_ids snapshot.nodes;
  adjacency_map = adjacency;
  terminal_nodes = terminal_ids snapshot.nodes;
  nodes = snapshot.nodes;
}

validated-Verdict :
    (snapshot : Snapshot) (start : String) (adjacency : Dict (List CompiledEdge))
    → start_in snapshot.start_node snapshot.nodes ≡ ok start
    → terminal_ids snapshot.nodes ≢ []
    → compile_edges 0 (sorted_edges snapshot.edges) [] ≡ ok adjacency
    → Verdict snapshot (validated snapshot start adjacency)
unfolding validated
validated-Verdict snapshot start adjacency begins ends made =
    elim (validate_reachability_decides start adjacency (node_ids snapshot.nodes)) [
      | inr (e, broken) ↦ unconnected start adjacency (rw (e, validated)) begins made broken
      | inl (e, connected) ↦ elim (validate_loops-Judged start adjacency) [
        | refuses k c ↦ cyclic adjacency (rw (e, k, validated)) made c
        | passes t k p ↦
            compiles (planned snapshot start adjacency) (rw (e, k, validated)) (record {
              connected = connected;
              ends = ends;
              finished = t.visited;
              order = record {
                ordered = p.sound.ordered;
                distinct = p.sound.distinct;
                all = λ x. (
                  λ h.
                      finished_reached start adjacency t p start x ((connected x).0 h)
                        (finished_start start adjacency t p),
                  λ h. (connected x).1 (finished_origin start adjacency t p x h),
                );
              };
            })
      ]
    ]

-- Compiling always ends, in a plan that is well formed or in an error that tells what is wrong.
pub compile-Verdict : (snapshot : Snapshot) → Verdict snapshot (compile snapshot)
unfolding compile
compile-Verdict snapshot = elim (Result-cases (start_in snapshot.start_node snapshot.nodes)) [
  | inr (e, h) ↦ malformed e (rw (h, compile)) (no_start e h)
  | inl (start, h) ↦ elim (empty-cases snapshot.edges) [
    | inl none_given ↦
        malformed (domain "edges_required") (rw (h, none_given, compile)) (no_edges none_given)
    | inr (_, some_given) ↦ elim (empty-cases (terminal_ids snapshot.nodes)) [
      | inl no_ends ↦
          malformed (domain "no_terminal_nodes") (rw (h, some_given, no_ends, compile))
            (no_terminals no_ends)
      | inr (ends, k) ↦ elim (Result-cases (compile_edges 0 (sorted_edges snapshot.edges) [])) [
        | inr (e, bad) ↦ malformed e (rw (h, some_given, k, bad, compile)) (bad_edge e bad)
        | inl (adjacency, made) ↦
            rw (h, some_given, k, made, compile)
              (validated-Verdict snapshot start adjacency h ends made)
      ]
    ]
  ]
]

ok_inj : (p q : ExecutionPlan) (r : Result ExecutionPlan) → r ≡ ok p → r ≡ ok q → p ≡ q
ok_inj p q r e k = cc

not_both : (p : ExecutionPlan) (x : Exn) (r : Result ExecutionPlan) → r ≡ ok p → ¬ (r ≡ err x)
not_both p x r e k = cc

pub compile-IsWellFormed :
    (snapshot : Snapshot) (plan : ExecutionPlan) → compile snapshot ≡ ok plan → IsWellFormed plan
compile-IsWellFormed snapshot plan h = settle (compile-Verdict snapshot)
  where
    settle : Verdict snapshot (compile snapshot) → IsWellFormed plan
    settle (compiles p e w) = rw (ok_inj plan p (compile snapshot) h e) w
    settle (malformed x e m) = absurd (not_both plan x (compile snapshot) h e)
    settle (unconnected start adjacency e begins made broken) =
        absurd (not_both plan (domain "unreachable_nodes") (compile snapshot) h e)
    settle (cyclic adjacency e made c) =
        absurd (not_both plan (domain "cycle_not_marked_loop") (compile snapshot) h e)

-- The edges that are not marked as loops.
abbrev pub strict_successors : ExecutionPlan → String → List String
strict_successors plan id = strict_targets (arcs_at plan.adjacency_map id)

rank_falls :
    (plan : ExecutionPlan) (finished : List String)
    → IsFinished plan finished
    → (x y : String) → Has finished x
    → Reaches (strict_successors plan) x y
    → rank finished y ≤ rank finished x
rank_falls plan finished f x y h (here z) = omega arith
rank_falls plan finished f x y h (there a m z e r) = omega (
  arith,
  rank_less _ finished x m f.ordered h e,
  rank_falls plan finished f m y (ordered_closed _ finished x m f.ordered h e) r,
)

-- In a plan that compiles, every cycle goes through an edge that is marked as a loop: from a node,
-- no edge that is not leads to where such edges lead back to it.
pub compile-acyclic :
    (snapshot : Snapshot) (plan : ExecutionPlan) (x y : String)
    → compile snapshot ≡ ok plan
    → Has plan.ordered_nodes x
    → Has (strict_successors plan x) y
    → ¬ (Reaches (strict_successors plan) y x)
compile-acyclic snapshot plan x y h k e back =
    let w = compile-IsWellFormed snapshot plan h in
    let known = (w.order.all x).0 k in
    absurd (
      omega (
        arith,
        rank_less _ w.finished x y w.order.ordered known e,
        rank_falls plan w.finished w.order y x
            (ordered_closed _ w.finished x y w.order.ordered known e) back,
      ))
