-- ===== src/Compiler/Checks.antt =====
-- graph_compiler.py: what the two checks of the structure decide.
use agent_orchestration_core.Common.{
  suc, ◌<◌, String, ◌≡◌, refl, ◌⊎◌, inl, inr, List, [], ◌∷◌, ◌++◌, length, Dict, has, domain, ok,
  err, arith, tt, fun_ext,
}
use agent_orchestration_core.Runtime.Types.{CompiledEdge}
use agent_orchestration_core.Graph.Reach.{Has, missing, Has-later, Has-head, Has-nil}
use agent_orchestration_core.Graph.{visit}
use agent_orchestration_core.Graph.Cover.{Connects, Covered, covers, misses, visit-Covered}
use agent_orchestration_core.Graph.Loops.{targets, after, leap, IsSound, Judged}
use agent_orchestration_core.Graph.Loops.Outcome.{explore_judged}
use agent_orchestration_core.Graph.Rank.{missing_all}
use agent_orchestration_core.Compiler.{
  edges_at, arcs, to_nodes, arcs_at, successors, all_targets, universe, validate_reachability,
  validate_loops,
}

Has-append-left : (xs ys : List String) (x : String) → Has xs x → Has (xs ++ ys) x
unfolding has
Has-append-left [] ys x h = ground arith
Has-append-left (y ∷ xs) ys x h = ground (arith, Has-append-left xs ys x)

Has-append-right : (xs ys : List String) (x : String) → Has ys x → Has (xs ++ ys) x
unfolding has
Has-append-right [] ys x h = h
Has-append-right (y ∷ xs) ys x h = ground (arith, Has-append-right xs ys x h)

pub targets-arcs : (es : List CompiledEdge) → targets (arcs es) ≡ to_nodes es
unfolding targets to_nodes arcs
targets-arcs [] = refl
targets-arcs (e ∷ es) = rw (targets-arcs es)

pub targets-arcs_at :
    (adjacency : Dict (List CompiledEdge)) → after (arcs_at adjacency) ≡ successors adjacency
unfolding arcs_at successors
targets-arcs_at adjacency = fun_ext (λ id. targets-arcs (edges_at adjacency id))

successors_cons :
    (id : String) (edges : List CompiledEdge) (rest : Dict (List CompiledEdge)) (x y : String)
    → Has (successors ((id, edges) ∷ rest) x) y
    → Has (to_nodes edges) y ⊎ Has (successors rest x) y
unfolding successors
successors_cons id edges rest x y h = ground arith

successor-target :
    (adjacency : Dict (List CompiledEdge)) (x y : String)
    → Has (successors adjacency x) y
    → Has (all_targets adjacency) y
unfolding successors all_targets
successor-target [] x y h = h
successor-target ((id, edges) ∷ rest) x y h = elim (successors_cons id edges rest x y h) [
  | inl first ↦ Has-append-left (to_nodes edges) (all_targets rest) y first
  | inr later ↦
      Has-append-right (to_nodes edges) (all_targets rest) y (successor-target rest x y later)
]

pub universe_closed :
    (start : String) (adjacency : Dict (List CompiledEdge)) (x y : String)
    → Has (universe start adjacency) x
    → Has (successors adjacency x) y
    → Has (universe start adjacency) y
universe_closed start adjacency x y h e =
    Has-later start (all_targets adjacency) y (successor-target adjacency x y e)

abbrev pub IsConnected : String → Dict (List CompiledEdge) → List String → Type 0
IsConnected start adjacency ids = Connects (successors adjacency) start ids

module _ (start : String) (adjacency : Dict (List CompiledEdge)) where
  enough_fuel : missing (universe start adjacency) [] < suc (length (universe start adjacency))
  enough_fuel = omega (arith, missing_all (universe start adjacency))

  pub validate_reachability_decides :
      (ids : List String)
      → ((validate_reachability start adjacency ids ≡ ok tt) × IsConnected start adjacency ids)
        ⊎ ((validate_reachability start adjacency ids ≡ err (domain "unreachable_nodes"))
            × (¬ (IsConnected start adjacency ids)))
  unfolding validate_reachability
  validate_reachability_decides ids = decide (
      visit-Covered (successors adjacency) start (universe start adjacency) _ ids
        (universe_closed start adjacency) (Has-head start (all_targets adjacency)) enough_fuel)
    where
      decide :
          Covered
            (successors adjacency)
            start
            (visit (successors adjacency) (suc (length (universe start adjacency))) [] start)
            ids
          → ((validate_reachability start adjacency ids ≡ ok tt) × IsConnected start adjacency ids)
            ⊎ ((validate_reachability start adjacency ids ≡ err (domain "unreachable_nodes"))
                × (¬ (IsConnected start adjacency ids)))
      decide (covers visited e full c) = inl (rw (e, full), c)
      decide (misses visited e partial c) = inr (rw (e, partial), c)

  no_visits : IsSound (arcs_at adjacency) (record { visiting = []; visited = [] })
  no_visits = record { distinct = tt; apart = λ x h. absurd (Has-nil x h); ordered = tt }

  pub validate_loops-Judged :
      Judged
        (arcs_at adjacency)
        (validate_loops start adjacency)
        (record { visiting = []; visited = [] })
        (leap start)
  unfolding validate_loops has successors
  validate_loops-Judged =
      explore_judged (arcs_at adjacency) (universe start adjacency)
        (λ x y h e.
          universe_closed start adjacency x y h (rw (← (targets-arcs (edges_at adjacency x))) e))
        (suc (length (universe start adjacency))) _ start
        (record {
          sound = no_visits;
          known = Has-head start (all_targets adjacency);
          fuelled = enough_fuel;
          path = λ x h. absurd (Has-nil x h);
        })
        refl
