-- ===== src/FlowGraph.antt =====
-- domain/flows/schemas/graph.py and domain/flows/services/flow_graph_validator.py: a flow graph as
-- it is drawn, and the static checks of it.
pub mod Draft
pub mod Snapshots
pub mod Walks
pub mod Searches
pub mod Published
mod Examples
use Prim.Native.Char.{code}
use agent_orchestration_core.Common.{
  ℕ, zero, suc, ◌+◌, String, Bool, true, false, not, ◌&&◌, ◌||◌, Option, none, some, List, [], ◌∷◌,
  length, Dict, get, has, has_ink, str_eq, ltb, leb, ◌==◌, domain, raised, Result, ok, err, ◌>>=◌,
  if◌then◌else◌, Unit, tt,
}
use agent_orchestration_core.Value.{
  Value, Fields, Items, null, bool, num, str, arr, obj, nil, cons, end, field, to_list,
}
use agent_orchestration_core.Value.Access.{lookup}
use agent_orchestration_core.Value.Compare.{codes}
use agent_orchestration_core.Runtime.Types.{EdgeKind, normal, loop, NodeSpec}
use agent_orchestration_core.Runtime.Step.{is_terminal_type}
use agent_orchestration_core.Graph.{visit, includes}
use agent_orchestration_core.Compiler.{node_ids, terminal_ids, check, is_empty}

pub record FlowGraphEdge : Type 0 where
  pub from_node : String
  pub to_node : String
  pub condition : String
  pub edge_kind : EdgeKind

pub record FlowGraphDefinition : Type 0 where
  pub start_node : String
  pub nodes : Dict NodeSpec
  pub edges : List FlowGraphEdge

-- The first exception of a loop over the nodes or the edges.
pub each_of {ℓ} : {A : Type ℓ} → (A → Result {0} Unit) → List A → Result {0} Unit
each_of f [] = ok tt
each_of f (x ∷ xs) = f x >>= λ u. each_of f xs

-- `not condition.strip()`
unfoldable pub is_blank : String → Bool
unfolding has_ink codes
is_blank s = not (has_ink (codes s))

node_of : String × NodeSpec → NodeSpec
node_of (id, spec) = spec

not_deprecated : String × NodeSpec → Result {0} Unit
unfolding node_of
not_deprecated entry =
    check (not (str_eq (node_of entry).node_type "UserContextEnrichmentNode"))
      "deprecated_node_type_user_context_enrichment"

edge_known : List String → FlowGraphEdge → Result {0} Unit
unfolding has is_blank
edge_known ids e = do
  _ ← check (has ids e.from_node && has ids e.to_node) "edge_references_unknown_node"
  check (not (is_blank e.condition)) "edge_condition_required"

-- `adjacency`, whose sets are lists here: the order in which they are read does not matter.
unfoldable pub targets_from : List FlowGraphEdge → String → List String
targets_from [] id = []
targets_from (e ∷ es) id =
    let rest = targets_from es id in if str_eq e.from_node id then e.to_node ∷ rest else rest

unfoldable pub to_ends : List FlowGraphEdge → List String
to_ends [] = []
to_ends (e ∷ es) = e.to_node ∷ to_ends es

-- `has_terminal_path`, with fuel for the length of the path.
unfoldable pub any_path : (String → Result Bool) → List String → Result Bool
any_path go [] = ok false
any_path go (n ∷ ns) = go n >>= λ found. elim found [ true ↦ ok true | false ↦ any_path go ns ]

unfoldable pub has_terminal_path :
    (String → List String) → List String → ℕ → String → List String → Result Bool
unfolding any_path has
has_terminal_path next terminals zero n seen = err (raised "RecursionError")
has_terminal_path next terminals (suc fuel) n seen =
    if has seen n
    then ok false
    else if has terminals n
    then ok true
    else any_path (λ m. has_terminal_path next terminals fuel m (n ∷ seen)) (next n)

is_rag_type : String → Bool
unfolding has
is_rag_type t =
    has
      ("IntentClassifier" ∷ "ToolResolver" ∷ "ToolInputFiller" ∷ "ResponseBuilder" ∷ "HumanFallback"
        ∷ [])
      t

-- None, or a dictionary
none_or_dict : Option Value → Bool
none_or_dict none = true
none_or_dict (some null) = true
none_or_dict (some (obj fs)) = true
none_or_dict _ = false

rag_pipeline_fits : String × NodeSpec → Result {0} Unit
unfolding node_of is_rag_type none_or_dict
rag_pipeline_fits entry =
    let spec = node_of entry in
    if is_rag_type spec.node_type
    then check (none_or_dict (lookup spec.config "rag_pipeline")) "rag_pipeline_config_invalid"
    else ok tt

is_memory_commit : NodeSpec → Bool
is_memory_commit spec = str_eq spec.node_type "MemoryCommitNode"

memory_commits : Dict NodeSpec → ℕ
unfolding is_memory_commit
memory_commits [] = 0
memory_commits ((id, spec) ∷ rest) =
    let others = memory_commits rest in if is_memory_commit spec then suc others else others

unknown_from_node : Result {0} Unit
unknown_from_node = err (domain "memory_commit_data_merge_unknown_from_node")

-- `not fid or fid not in nodes`; a list or a dictionary has no hash.
names_node : Option Value → List String → Result {0} Unit
unfolding has unknown_from_node
names_node (some (str s)) ids = if not (str_eq s "") && has ids s then ok tt else unknown_from_node
names_node (some (arr (cons v vs))) ids = err (raised "TypeError")
names_node (some (obj (field k v fs))) ids = err (raised "TypeError")
names_node _ ids = unknown_from_node

merge_rule : List String → Value → Result {0} Unit
unfolding names_node
merge_rule ids (obj rule) = names_node (lookup rule "from_node_id") ids
merge_rule ids _ = err (domain "memory_commit_data_merge_rule_invalid")

merge_rules : List String → Option Value → Result {0} Unit
unfolding merge_rule each_of
merge_rules ids (some (arr rules)) = each_of (merge_rule ids) (to_list rules)
merge_rules ids _ = ok tt

merges_fit : List String → String × NodeSpec → Result {0} Unit
unfolding node_of is_memory_commit merge_rules
merges_fit ids entry =
    let spec = node_of entry in
    if is_memory_commit spec then merge_rules ids (lookup spec.config "data_merge") else ok tt

-- The checks of the nodes' configurations, which close the validation.
unfoldable pub configs_fit : Dict NodeSpec → Result {0} Unit
unfolding each_of rag_pipeline_fits memory_commits merges_fit node_ids
configs_fit nodes = do
  _ ← each_of rag_pipeline_fits nodes
  _ ← check (leb (memory_commits nodes) 1) "multiple_memory_commit_nodes"
  each_of (merges_fit (node_ids nodes)) nodes

-- The part of the structure that is searched: reachability, and a way to a terminal node.
unfoldable pub validate_searches : FlowGraphDefinition → Result {0} Unit
unfolding targets_from to_ends
validate_searches d = do
  let fuel = suc (suc (length d.edges))
  let ids = node_ids d.nodes
  visited ← visit (targets_from d.edges) fuel [] d.start_node
  _ ← check (includes ids visited && includes visited ids) "unreachable_nodes"
  _ ← check (not (is_empty (terminal_ids d.nodes))) "no_terminal_nodes"
  found ← has_terminal_path (targets_from d.edges) (terminal_ids d.nodes) fuel d.start_node []
  check found "no_terminal_path"

-- `FlowGraphValidator.validate`
unfoldable pub validate : FlowGraphDefinition → Result {0} Unit
unfolding each_of not_deprecated edge_known node_ids has
validate d = do
  _ ← each_of not_deprecated d.nodes
  _ ← check (has (node_ids d.nodes) d.start_node) "start_node_not_found"
  _ ← each_of (edge_known (node_ids d.nodes)) d.edges
  _ ← validate_searches d
  configs_fit d.nodes
