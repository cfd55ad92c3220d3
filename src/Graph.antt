-- ===== src/Graph.antt =====
-- The depth-first searches of flow_graph_validator.py, flow_graph_draft_validator.py and
-- graph_compiler.py, over what follows a node.
pub mod Reach
pub mod Cover
pub mod Loops
pub mod Rank
use agent_orchestration_core.Common.{
  ℕ, zero, suc, String, Bool, true, false, not, ◌&&◌, List, [], ◌∷◌, has, str_eq, domain, raised,
  Result, ok, err, ◌>>=◌, if◌then◌else◌,
}

-- The calls that the body of a `for` loop makes, one for each node.
unfoldable pub each :
    (List String → String → Result (List String)) → List String → List String → Result (List String)
each go visited [] = ok visited
each go visited (n ∷ ns) = go visited n >>= λ more. each go more ns

-- `dfs` of the reachability checks. Fuel counts the depth of the recursion; without it, Python's
-- own error for a recursion that is too deep.
unfoldable pub visit : (String → List String) → ℕ → List String → String → Result (List String)
unfolding each
visit next zero visited n = err (raised "RecursionError")
visit next (suc fuel) visited n =
    if has visited n then ok visited else each (visit next fuel) (n ∷ visited) (next n)

-- An edge as the search for cycles reads it: where it leads, and whether it is marked as a loop.
pub record Arc : Type 0 where
  pub target : String
  pub is_loop : Bool

-- `visiting` and `visited_loops`
pub record Search : Type 0 where
  pub visiting : List String
  pub visited : List String

unfoldable pub remove : String → List String → List String
remove n [] = []
remove n (x ∷ xs) = if str_eq x n then xs else x ∷ remove n xs

unfoldable pub descend : (Search → String → Result Search) → Search → String → Result Search
descend go s m = if has s.visited m then ok s else go s m

unfoldable pub follow : (Search → String → Result Search) → Search → List Arc → Result Search
unfolding descend
follow go s [] = ok s
follow go s (a ∷ arcs) =
    if has s.visiting a.target && not a.is_loop
    then err (domain "cycle_not_marked_loop")
    else (descend go s a.target >>= λ t. follow go t arcs)

abbrev pub finish : String → Search → Search
finish n s = record { visiting = remove n s.visiting; visited = n ∷ s.visited }

-- `dfs` of the loop checks
unfoldable pub explore : (String → List Arc) → ℕ → Search → String → Result Search
unfolding follow remove
explore next zero s n = err (raised "RecursionError")
explore next (suc fuel) s n =
    if has s.visiting n
    then ok s
    else (follow (explore next fuel) (record s { visiting = n ∷ s.visiting }) (next n) >>= λ t.
        ok (finish n t))

-- Every node of the second list is in the first.
unfoldable pub includes : List String → List String → Bool
unfolding has
includes xs [] = true
includes xs (y ∷ ys) = has xs y && includes xs ys
