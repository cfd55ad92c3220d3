-- ===== src/FlowGraph/Published.antt =====
-- flow_graph_compiler.py and graph_compiler.py: the plan has the edges of the graph that was drawn.
pub mod Plans
use agent_orchestration_core.Common.{
  ℕ, zero, suc, String, ◌≡◌, refl, sym, ◌∙◌, ap, Bool, true, false, ◌||◌, ◌&&◌, Option, none, some,
  List, [], ◌∷◌, ◌++◌, Dict, get, put, get-put, has, str_eq, Result, ok, err, ◌>>=◌, arith, eq_iff,
  Bool-cases, inl, inr, Result-cases, ok_inj, err-ne-ok, if◌then◌else◌, Unit, tt,
}
use agent_orchestration_core.Value.{Value, Items, arr}
use agent_orchestration_core.Runtime.Types.{EdgeKind, normal, loop, CompiledEdge}
use agent_orchestration_core.Compiler.{
  as_list, SnapshotEdge, Snapshot, sorted_edges, insert_edge, compile_edge, compile_edges, attach,
  edges_at, to_nodes, successors, kind_of, condition_of, key_le,
}
use agent_orchestration_core.FlowGraph.{FlowGraphEdge, targets_from}
use agent_orchestration_core.FlowGraph.Draft.{Libraries}
use agent_orchestration_core.FlowGraph.Snapshots.{
  dumped, sorted_drawn, insert_drawn, compile_drawn, kind_value,
}

abbrev pub drawn : List FlowGraphEdge → String → String → Bool
drawn es x y = has (targets_from es x) y

insert_drawn-keeps :
    (e : FlowGraphEdge) (es : List FlowGraphEdge) (x y : String)
    → drawn (insert_drawn e es) x y ≡ drawn (e ∷ es) x y
unfolding insert_drawn targets_from has
insert_drawn-keeps e [] x y = refl
insert_drawn-keeps e (f ∷ es) x y = ground (arith, insert_drawn-keeps e es x y)

cons_drawn :
    (e : FlowGraphEdge) (es fs : List FlowGraphEdge) (x y : String)
    → drawn es x y ≡ drawn fs x y
    → drawn (e ∷ es) x y ≡ drawn (e ∷ fs) x y
unfolding targets_from has
cons_drawn e es fs x y h = ground arith

pub sorted_drawn-keeps :
    (es : List FlowGraphEdge) (x y : String) → drawn (sorted_drawn es) x y ≡ drawn es x y
unfolding sorted_drawn
sorted_drawn-keeps [] x y = refl
sorted_drawn-keeps (e ∷ es) x y =
    insert_drawn-keeps e (sorted_drawn es) x y
    ∙ cons_drawn e (sorted_drawn es) es x y (sorted_drawn-keeps es x y)

-- The same for the edges of a snapshot.
pub snapshot_targets : List SnapshotEdge → String → List String
snapshot_targets [] id = []
snapshot_targets (e ∷ es) id =
    let rest = snapshot_targets es id in if str_eq e.from_node id then e.to_node ∷ rest else rest

abbrev pub listed : List SnapshotEdge → String → String → Bool
listed es x y = has (snapshot_targets es x) y

insert_edge-keeps :
    (e : SnapshotEdge) (es : List SnapshotEdge) (x y : String)
    → listed (insert_edge e es) x y ≡ listed (e ∷ es) x y
unfolding insert_edge snapshot_targets has
insert_edge-keeps e [] x y = refl
insert_edge-keeps e (f ∷ es) x y = ground (arith, insert_edge-keeps e es x y)

cons_listed :
    (e : SnapshotEdge) (es fs : List SnapshotEdge) (x y : String)
    → listed es x y ≡ listed fs x y
    → listed (e ∷ es) x y ≡ listed (e ∷ fs) x y
unfolding snapshot_targets has
cons_listed e es fs x y h = ground arith

pub sorted_edges-keeps :
    (es : List SnapshotEdge) (x y : String) → listed (sorted_edges es) x y ≡ listed es x y
unfolding sorted_edges
sorted_edges-keeps [] x y = refl
sorted_edges-keeps (e ∷ es) x y =
    insert_edge-keeps e (sorted_edges es) x y
    ∙ cons_listed e (sorted_edges es) es x y (sorted_edges-keeps es x y)

-- An edge of which a plan can be made.
abbrev IsReady : SnapshotEdge → Type 0
IsReady e =
    (v : Items) × (k : EdgeKind) × (e.compiled_condition ≡ some (arr v))
    × (kind_of e.edge_kind ≡ ok k)

abbrev pub AllReady : List SnapshotEdge → Type 0
AllReady [] = Unit
AllReady (e ∷ es) = IsReady e × AllReady es

-- The compiled condition of every edge is a list.
abbrev pub AllListed : List SnapshotEdge → Type 0
AllListed [] = Unit
AllListed (e ∷ es) = ((v : Items) × (e.compiled_condition ≡ some (arr v))) × AllListed es

abbrev pub AllKinded : List SnapshotEdge → Type 0
AllKinded [] = Unit
AllKinded (e ∷ es) = ((k : EdgeKind) × (kind_of e.edge_kind ≡ ok k)) × AllKinded es

pub AllReady-intro : (es : List SnapshotEdge) → AllListed es → AllKinded es → AllReady es
AllReady-intro [] a b = tt
AllReady-intro (e ∷ es) ((v, c), a) ((k, d), b) = ((v, k, c, d), AllReady-intro es a b)

insert_edge-AllReady :
    (e : SnapshotEdge) (es : List SnapshotEdge)
    → IsReady e
    → AllReady es
    → AllReady (insert_edge e es)
unfolding insert_edge
insert_edge-AllReady e [] r a = (r, tt)
insert_edge-AllReady e (f ∷ es) r a = elim (Bool-cases (key_le e f)) [
  | inl before ↦ rw (before, insert_edge) (r, a)
  | inr behind ↦ rw (behind, insert_edge) (a.0, insert_edge-AllReady e es r a.1)
]

pub sorted_edges-AllReady : (es : List SnapshotEdge) → AllReady es → AllReady (sorted_edges es)
unfolding sorted_edges
sorted_edges-AllReady [] a = tt
sorted_edges-AllReady (e ∷ es) a =
    insert_edge-AllReady e (sorted_edges es) a.0 (sorted_edges-AllReady es a.1)

-- The conditions are compiled one by one, and nothing else changes.
pub record Dumped (es : List FlowGraphEdge) (xs : List SnapshotEdge) : Type 0 where
  pub kinded : AllKinded xs
  pub same : (x y : String) → listed xs x y ≡ drawn es x y

kind_of-kind_value : (k : EdgeKind) → kind_of (some (kind_value k)) ≡ ok k
unfolding kind_of kind_value
kind_of-kind_value normal = refl
kind_of-kind_value loop = refl

dumped_cons :
    (e : FlowGraphEdge) (v : Value) (es : List FlowGraphEdge) (xs : List SnapshotEdge)
    → Dumped es xs
    → Dumped (e ∷ es) (record (dumped e) { compiled_condition = some v } ∷ xs)
unfolding dumped snapshot_targets targets_from has
dumped_cons e v es xs d = record {
  kinded = ((e.edge_kind, kind_of-kind_value e.edge_kind), d.kinded);
  same = λ x y. ground (arith, d.same x y);
}

pub compile_drawn-Dumped :
    (l : Libraries) (es : List FlowGraphEdge) (xs : List SnapshotEdge)
    → compile_drawn l es ≡ ok xs
    → Dumped es xs
unfolding compile_drawn targets_from snapshot_targets
compile_drawn-Dumped l [] xs h =
    rw (← (ok_inj [] xs h)) (record { kinded = tt; same = λ x y. refl })
compile_drawn-Dumped l (e ∷ es) xs h = elim (Result-cases (l.compile_condition e.condition)) [
  | inr (x, bad) ↦ absurd (err-ne-ok x xs (sym (rw (bad, compile_drawn)) ∙ h))
  | inl (v, good) ↦ elim (Result-cases (compile_drawn l es)) [
    | inr (x, bad) ↦ absurd (err-ne-ok x xs (sym (rw (good, bad, compile_drawn)) ∙ h))
    | inl (rest, made) ↦
        rw
          (← (
            ok_inj (record (dumped e) { compiled_condition = some v } ∷ rest) xs
              (sym (rw (good, made, compile_drawn)) ∙ h)))
          (dumped_cons e v es rest (compile_drawn-Dumped l es rest made))
  ]
]

has-to_nodes-snoc :
    (es : List CompiledEdge) (c : CompiledEdge) (y : String)
    → has (to_nodes (es ++ c ∷ [])) y ≡ (has (to_nodes es) y || str_eq c.to_node y)
unfolding to_nodes has
has-to_nodes-snoc [] c y = ground arith
has-to_nodes-snoc (e ∷ es) c y = ground (arith, has-to_nodes-snoc es c y)

edges_or_none : Option (List CompiledEdge) → List CompiledEdge
edges_or_none none = []
edges_or_none (some es) = es

edges_at-put :
    (adjacency : Dict (List CompiledEdge)) (k : String) (es : List CompiledEdge) (x : String)
    → edges_at (put adjacency k es) x ≡ (if str_eq k x then es else edges_at adjacency x)
unfolding edges_at edges_or_none
edges_at-put adjacency k es x = ground (arith, ap edges_or_none (get-put adjacency k es x))

edges_at-attach :
    (adjacency : Dict (List CompiledEdge)) (c : CompiledEdge) (x : String)
    → edges_at (attach adjacency c) x
      ≡ (if str_eq c.from_node x then edges_at adjacency x ++ c ∷ [] else edges_at adjacency x)
unfolding attach
edges_at-attach adjacency c x =
    let put_lem = edges_at-put adjacency c.from_node (edges_at adjacency c.from_node ++ c ∷ []) x in
    ground (arith, put_lem, eq_iff c.from_node x)

attach-edge :
    (adjacency : Dict (List CompiledEdge)) (c : CompiledEdge) (x y : String)
    → has (successors (attach adjacency c) x) y
      ≡ (has (successors adjacency x) y || (str_eq c.from_node x && str_eq c.to_node y))
unfolding successors
attach-edge adjacency c x y =
    ground (arith, edges_at-attach adjacency c x, has-to_nodes-snoc (edges_at adjacency x) c y)

-- Edges that are ready are compiled, each to one edge of the plan.
pub compile_edges-keeps :
    (order : ℕ) (es : List SnapshotEdge) (adjacency : Dict (List CompiledEdge))
    → AllReady es
    → (made : Dict (List CompiledEdge)) × (compile_edges order es adjacency ≡ ok made)
      × ((x y : String)
          → has (successors made x) y ≡ (has (successors adjacency x) y || listed es x y))
unfolding compile_edges compile_edge condition_of as_list snapshot_targets has
compile_edges-keeps order [] adjacency a = (adjacency, refl, λ x y. ground arith)
compile_edges-keeps order (e ∷ es) adjacency ((v, k, c, d), a) =
    let ce : CompiledEdge = record {
      from_node = e.from_node;
      to_node = e.to_node;
      edge_kind = k;
      compiled_condition = arr v;
      order = order;
    } in
    let (made, h, same) = compile_edges-keeps (suc order) es (attach adjacency ce) a in
    (
      made,
      rw (c, d, compile_edges) h,
      λ x y. ground (arith, same x y, attach-edge adjacency ce x y),
    )
