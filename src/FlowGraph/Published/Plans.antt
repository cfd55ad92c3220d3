-- ===== src/FlowGraph/Published/Plans.antt =====
-- flow_graph_validator.py and graph_compiler.py: what a validated graph can fail of when it is
-- compiled to a plan.
use agent_orchestration_core.Common.{
  String, ◌≡◌, ◌≢◌, refl, sym, ◌∙◌, ap, ◌⊎◌, inl, inr, Bool, true, false, some, List, [], ◌∷◌, Dict,
  has, str_eq, domain, Exn, ok, err, >>=-eq-ok, ok_inj, err-ne-ok, arith, eq_iff, Unit, tt,
  false≢true,
}
use agent_orchestration_core.Runtime.Types.{CompiledEdge, ExecutionPlan}
use agent_orchestration_core.Graph.Reach.{Has, Reaches, here, there}
use agent_orchestration_core.Graph.Cover.{Connects}
use agent_orchestration_core.Compiler.{
  Snapshot, SnapshotEdge, edges_at, to_nodes, compile, compile_edges, sorted_edges, start_in,
  node_ids, check, successors,
}
use agent_orchestration_core.Compiler.Checks.{IsConnected}
use agent_orchestration_core.Compiler.Plans.{
  IsWellFormed, Verdict, compiles, malformed, unconnected, cyclic, Malformed, no_start, no_edges,
  no_terminals, bad_edge, compile-Verdict,
}
use agent_orchestration_core.FlowGraph.{
  FlowGraphEdge, FlowGraphDefinition, targets_from, each_of, not_deprecated, edge_known,
  validate_searches, validate,
}
use agent_orchestration_core.FlowGraph.Draft.{Libraries}
use agent_orchestration_core.FlowGraph.Snapshots.{snapshot_of, compile_drawn, sorted_drawn}
use agent_orchestration_core.FlowGraph.Searches.{
  IsSearchable, SearchVerdict, accepted, unreachable, endless, validate_searches_verdict,
}
use agent_orchestration_core.FlowGraph.Published.{
  drawn, listed, AllReady, AllListed, AllReady-intro, compile_drawn-Dumped, sorted_drawn-keeps,
  sorted_edges-keeps, sorted_edges-AllReady, compile_edges-keeps, snapshot_targets,
}

Reaches-map :
    {f g : String → List String} (x y : String)
    → ((a b : String) → Has (f a) b → Has (g a) b)
    → Reaches f x y
    → Reaches g x y
Reaches-map x y h (here z) = here z
Reaches-map x y h (there a m z e r) = there a m z (h a m e) (Reaches-map m z h r)

check-eq-ok : (b : Bool) (message : String) (u : Unit {0}) → check b message ≡ ok u → b ≡ true
check-eq-ok b message u h = ground arith

searchable : (d : FlowGraphDefinition) → validate_searches d ≡ ok tt → IsSearchable d
searchable d h = settle (validate_searches_verdict d)
  where
    settle : SearchVerdict d (validate_searches d) → IsSearchable d
    settle (accepted e s) = s
    settle (unreachable e s) = absurd (err-ne-ok _ tt (sym e ∙ h))
    settle (endless e s) = absurd (err-ne-ok _ tt (sym e ∙ h))

-- What the static validation has checked.
record Validated (d : FlowGraphDefinition) : Type 0 where
  start_known : Has (node_ids d.nodes) d.start_node
  searches : IsSearchable d

validate-Validated : (d : FlowGraphDefinition) → validate d ≡ ok tt → Validated d
unfolding validate
validate-Validated d h =
    let (u1, e1, h1) = >>=-eq-ok (each_of not_deprecated d.nodes) _ h in
    let (u2, e2, h2) =
      >>=-eq-ok (check (has (node_ids d.nodes) d.start_node) "start_node_not_found") _ h1 in
    let (u3, e3, h3) = >>=-eq-ok (each_of (edge_known (node_ids d.nodes)) d.edges) _ h2 in
    let (u4, e4, h4) = >>=-eq-ok (validate_searches d) _ h3 in
    record { start_known = check-eq-ok _ "start_node_not_found" u2 e2; searches = searchable d e4 }

-- The graph that was drawn and the edges of the plan lead from a node to the same nodes.
module _ (l : Libraries) (d : FlowGraphDefinition) (xs : List SnapshotEdge)
    (made : compile_drawn l (sorted_drawn d.edges) ≡ ok xs) (lists : AllListed xs) where
  all_ready : AllReady (sorted_edges xs)
  all_ready =
      sorted_edges-AllReady xs
        (AllReady-intro xs lists (compile_drawn-Dumped l (sorted_drawn d.edges) xs made).kinded)

  listed-drawn : (x y : String) → listed (sorted_edges xs) x y ≡ drawn d.edges x y
  listed-drawn x y =
      sorted_edges-keeps xs x y
      ∙ ((compile_drawn-Dumped l (sorted_drawn d.edges) xs made).same x y
          ∙ sorted_drawn-keeps d.edges x y)

  edges_compile :
      (adjacency : Dict (List CompiledEdge)) × (compile_edges 0 (sorted_edges xs) [] ≡ ok adjacency)
      × ((x y : String) → has (successors adjacency x) y ≡ drawn d.edges x y)
  unfolding successors edges_at has to_nodes
  edges_compile =
      let (adjacency, e, same) = compile_edges-keeps 0 (sorted_edges xs) [] all_ready in
      (adjacency, e, λ x y. same x y ∙ listed-drawn x y)

  plan-IsConnected :
      (adjacency : Dict (List CompiledEdge))
      → compile_edges 0 (sorted_edges xs) [] ≡ ok adjacency
      → Connects (targets_from d.edges) d.start_node (node_ids d.nodes)
      → IsConnected d.start_node adjacency (node_ids d.nodes)
  plan-IsConnected adjacency e c x =
      let (other, k, same) = edges_compile in
      let equal : other ≡ adjacency = ok_inj other adjacency (sym k ∙ e) in
      (
        λ h. rw (← equal) (Reaches-map d.start_node x (λ a b m. same a b ∙ m) ((c x).0 h)),
        λ r. (c x).1 (Reaches-map d.start_node x (λ a b m. sym (same a b) ∙ m) (rw equal r)),
      )

first_drawn :
    (e : FlowGraphEdge) (es : List FlowGraphEdge) → drawn (e ∷ es) e.from_node e.to_node ≡ true
unfolding targets_from has
first_drawn e es = ground (arith, eq_iff e.from_node e.from_node, eq_iff e.to_node e.to_node)

some_edges :
    (l : Libraries) (d : FlowGraphDefinition) (es : List FlowGraphEdge)
    → d.edges ≡ es
    → es ≢ []
    → ¬ (compile_drawn l (sorted_drawn d.edges) ≡ ok [])
unfolding snapshot_targets has sorted_edges
some_edges l d [] k full h = full refl
some_edges l d (e ∷ es) k full h =
    absurd (false≢true (listed-drawn l d [] h tt e.from_node e.to_node ∙ rw k (first_drawn e es)))

abbrev drawn_snapshot : FlowGraphDefinition → List SnapshotEdge → Snapshot
drawn_snapshot d xs = record { start_node = some d.start_node; nodes = d.nodes; edges = xs }

module _ (l : Libraries) (d : FlowGraphDefinition) (xs : List SnapshotEdge)
    (made : compile_drawn l (sorted_drawn d.edges) ≡ ok xs) (lists : AllListed xs) (v : Validated d)
    (full : d.edges ≢ []) (named : str_eq d.start_node "" ≡ false) where
  start_found : start_in (some d.start_node) d.nodes ≡ ok d.start_node
  unfolding start_in
  start_found = rw (named, v.start_known)

  well_made : (x : Exn) → ¬ (Malformed (drawn_snapshot d xs) x)
  well_made x (no_start e h) = absurd (err-ne-ok e d.start_node (sym h ∙ start_found))
  well_made x (no_edges h) = absurd (some_edges l d d.edges refl full (made ∙ ap ok h))
  well_made x (no_terminals h) = absurd (v.searches.1 h)
  well_made x (bad_edge e h) =
      let (adjacency, k, same) = edges_compile l d xs made lists in
      absurd (err-ne-ok e adjacency (sym h ∙ k))

  well-IsConnected :
      (start : String) (adjacency : Dict (List CompiledEdge))
      → start_in (some d.start_node) d.nodes ≡ ok start
      → compile_edges 0 (sorted_edges xs) [] ≡ ok adjacency
      → IsConnected start adjacency (node_ids d.nodes)
  well-IsConnected start adjacency begins a =
      rw (← (ok_inj d.start_node start (sym start_found ∙ begins)))
        (plan-IsConnected l d xs made lists adjacency a v.searches.0)

  drawn_compiles :
      Verdict (drawn_snapshot d xs) (compile (drawn_snapshot d xs))
      → ((plan : ExecutionPlan) × (compile (drawn_snapshot d xs) ≡ ok plan) × IsWellFormed plan)
        ⊎ (compile (drawn_snapshot d xs) ≡ err (domain "cycle_not_marked_loop"))
  drawn_compiles (compiles plan e w) = inl (plan, e, w)
  drawn_compiles (cyclic adjacency e a c) = inr e
  drawn_compiles (unconnected start adjacency e begins a broken) =
      absurd (broken (well-IsConnected start adjacency begins a))
  drawn_compiles (malformed x e m) = absurd (well_made x m)

-- A graph that the static validation accepts, with edges and with a start node that is not the empty
-- text, compiles to a well-formed plan once FlowGraphCompiler has compiled each of its conditions to
-- a list, unless the search for cycles refuses it.
pub validated-compiles :
    (l : Libraries) (d : FlowGraphDefinition) (snapshot : Snapshot)
    → validate d ≡ ok tt
    → d.edges ≢ []
    → str_eq d.start_node "" ≡ false
    → snapshot_of l d ≡ ok snapshot
    → AllListed snapshot.edges
    → ((plan : ExecutionPlan) × (compile snapshot ≡ ok plan) × IsWellFormed plan)
      ⊎ (compile snapshot ≡ err (domain "cycle_not_marked_loop"))
unfolding snapshot_of
validated-compiles l d snapshot valid full named h all =
    let (xs, made, k) = >>=-eq-ok (compile_drawn l (sorted_drawn d.edges)) _ h in
    let same = ok_inj (drawn_snapshot d xs) snapshot k in
    let lists : AllListed xs = rw (ap (λ (x : Snapshot). x.edges) same) all in
    rw (← same) (
      drawn_compiles l d xs made lists (validate-Validated d valid) full named
        (compile-Verdict (drawn_snapshot d xs)))
