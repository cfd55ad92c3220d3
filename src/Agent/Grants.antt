-- ===== src/Agent/Grants.antt =====
-- tool_grant.py and agent_run_service.py: the grant that is frozen onto a run, and the request that is
-- rebuilt from it when the run is executed.
use agent_orchestration_core.Common.{
  String, ◌≡◌, refl, ◌∙◌, sym, ap, Bool, true, false, not, ◌&&◌, Option, none, some, List, [], ◌∷◌,
  has, str_eq, eq_iff, ok, >>=-eq-ok, ok_inj, err-ne-ok, arith, Bool-cases, Option-cases, inl, inr,
  if◌then◌else◌, and_right, Unit, tt,
}
use agent_orchestration_core.Agent.{
  ToolBinding, AgentDefinition, RequestedGrant, ResolvedToolGrant, available, from_keys, granted,
  delegates, resolve_grant, requested_tools, requested_delegates,
}

-- `ResolvedToolGrant.snapshot`, the part that is read again
pub record GrantSnapshot : Type 0 where
  pub function_names : List String
  pub allow_agent_delegation : Bool
  pub delegate_agent_ids : List String

abbrev pub names_of : List ToolBinding → List String
names_of [] = []
names_of (b ∷ bs) = b.function_name ∷ names_of bs

unfoldable pub snapshot : ResolvedToolGrant → GrantSnapshot
snapshot g = record {
  function_names = names_of g.tools;
  allow_agent_delegation = g.allow_agent_delegation;
  delegate_agent_ids = g.delegate_agent_ids;
}

-- `_grant_request_from_snapshot`
unfoldable pub grant_request_from_snapshot : GrantSnapshot → RequestedGrant
grant_request_from_snapshot s = record {
  allowed_tool_names = some s.function_names;
  allow_agent_delegation = s.allow_agent_delegation;
  delegate_agent_ids = s.delegate_agent_ids;
}

-- No text is among those seen, or comes twice.
unfoldable pub distinct : List String → List String → Bool
distinct seen [] = true
distinct seen (x ∷ xs) = not (has seen x) && distinct (x ∷ seen) xs

distinct-from_keys : (seen xs : List String) → distinct seen (from_keys seen xs) ≡ true
unfolding distinct from_keys
distinct-from_keys seen [] = refl
distinct-from_keys seen (x ∷ xs) = elim (Bool-cases (has seen x)) [
  | inl again ↦ rw (again) (distinct-from_keys seen xs)
  | inr new ↦ rw (new) (rw (new) (distinct-from_keys (x ∷ seen) xs))
]

from_keys-distinct : (seen xs : List String) → distinct seen xs ≡ true → from_keys seen xs ≡ xs
unfolding distinct from_keys
from_keys-distinct seen [] h = refl
from_keys-distinct seen (x ∷ xs) h =
    let new : has seen x ≡ false = ground arith in
    let rest = and_right (not (has seen x)) (distinct (x ∷ seen) xs) h in
    rw (new, from_keys-distinct (x ∷ seen) xs rest) refl

from_keys_twice : (xs : List String) → from_keys [] (from_keys [] xs) ≡ from_keys [] xs
from_keys_twice xs = from_keys-distinct [] (from_keys [] xs) (distinct-from_keys [] xs)

has-distinct :
    (seen xs : List String) (s : String)
    → distinct seen xs ≡ true
    → has seen s ≡ true
    → has xs s ≡ false
unfolding distinct has
has-distinct seen [] s h k = refl
has-distinct seen (x ∷ xs) s h k =
    let rest = and_right (not (has seen x)) (distinct (x ∷ seen) xs) h in
    ground (arith, eq_iff x s, has-distinct (x ∷ seen) xs s rest)

available-name :
    (tools : List ToolBinding) (name : String) (b : ToolBinding)
    → available tools name ≡ some b
    → b.function_name ≡ name
unfolding available
available-name [] name b h = cc
available-name (c ∷ tools) name b h =
    ground (arith, eq_iff c.function_name name, available-name tools name b)

granted-names :
    (tools : List ToolBinding) (names : List String) (bs : List ToolBinding)
    → granted tools names ≡ ok bs
    → names_of bs ≡ names
unfolding granted
granted-names tools [] bs h = rw (← ok_inj _ _ h) refl
granted-names tools (name ∷ names) bs h = elim (Option-cases (available tools name)) [
  | inl e ↦ absurd (err-ne-ok _ _ (rw (e, granted) at h))
  | inr (b, e) ↦
      let (rest, got, made) =
        >>=-eq-ok (granted tools names) (λ bs. ok (b ∷ bs)) (rw (e, granted) at h) in
      rw (← ok_inj _ _ made, available-name tools name b e, granted-names tools names rest got) refl
]

delegates_same :
    (tenant_of : String → Option String) (tenant agent : String) (ds es : List String)
    → delegates tenant_of tenant agent ds ≡ ok es
    → es ≡ ds
unfolding delegates
delegates_same tenant_of tenant agent [] es h = rw (← ok_inj _ _ h) refl
delegates_same tenant_of tenant agent (d ∷ ds) es h = elim (Bool-cases (str_eq d agent)) [
  | inl e ↦ absurd (err-ne-ok _ _ (rw (e) at h))
  | inr e ↦ elim (Option-cases (tenant_of d)) [
    | inl k ↦ absurd (err-ne-ok _ _ (rw (k) at (rw (e) at h)))
    | inr (t, k) ↦ elim (Bool-cases (str_eq t tenant)) [
      | inr g ↦ absurd (err-ne-ok _ _ (rw (g) at (rw (k) at (rw (e) at h))))
      | inl g ↦
          let (rest, got, made) =
            >>=-eq-ok (delegates tenant_of tenant agent ds) (λ more. ok (d ∷ more))
              (rw (g) at (rw (k) at (rw (e) at h))) in
          rw (← ok_inj _ _ made, delegates_same tenant_of tenant agent ds rest got) refl
    ]
  ]
]

-- Each of some tools is the one that its name finds.
abbrev AllFound : List ToolBinding → List ToolBinding → Type 0
AllFound tools [] = Unit
AllFound tools (b ∷ bs) = (available tools b.function_name ≡ some b) × AllFound tools bs

AllFound-cons :
    (c : ToolBinding) (tools bs : List ToolBinding) → AllFound tools bs → AllFound (c ∷ tools) bs
unfolding available
AllFound-cons c tools [] h = tt
AllFound-cons c tools (b ∷ bs) (found, h) = (rw (found) refl, AllFound-cons c tools bs h)

available-none :
    (tools : List ToolBinding) (name : String)
    → has (names_of tools) name ≡ false
    → available tools name ≡ none
unfolding available has
available-none [] name h = refl
available-none (b ∷ bs) name h = ground (arith, eq_iff b.function_name name, available-none bs name)

AllFound-distinct :
    (seen : List String) (tools : List ToolBinding)
    → distinct seen (names_of tools) ≡ true
    → AllFound tools tools
unfolding distinct available has
AllFound-distinct seen [] h = tt
AllFound-distinct seen (b ∷ bs) h =
    let later =
      and_right (not (has seen b.function_name)) (distinct (b.function_name ∷ seen) (names_of bs))
        h in
    let self = (eq_iff b.function_name b.function_name).1 refl in
    let once =
      has-distinct (b.function_name ∷ seen) (names_of bs) b.function_name later (rw (self) refl) in
    (
      rw (available-none bs b.function_name once, self) refl,
      AllFound-cons b bs bs (AllFound-distinct (b.function_name ∷ seen) bs later),
    )

granted-AllFound :
    (tools bs : List ToolBinding) → AllFound tools bs → granted tools (names_of bs) ≡ ok bs
unfolding granted
granted-AllFound tools [] h = refl
granted-AllFound tools (b ∷ bs) (found, h) = rw (found, granted, granted-AllFound tools bs h) refl

requested_tools_again :
    (tools : List ToolBinding) (allowed : Option (List String)) (bs : List ToolBinding)
    → distinct [] (names_of tools) ≡ true
    → requested_tools tools allowed ≡ ok bs
    → requested_tools tools (some (names_of bs)) ≡ ok bs
unfolding requested_tools
requested_tools_again tools none bs d h =
    rw (← ok_inj _ _ h, from_keys-distinct [] (names_of tools) d)
      (granted-AllFound tools tools (AllFound-distinct [] tools d))
requested_tools_again tools (some names) bs d h =
    rw (granted-names tools (from_keys [] names) bs h, from_keys_twice names) h

requested_delegates_same :
    (tenant_of : String → Option String) (tenant agent : String) (q : RequestedGrant)
    (es : List String)
    → requested_delegates tenant_of tenant agent q ≡ ok es
    → es ≡ (if q.allow_agent_delegation then from_keys [] q.delegate_agent_ids else [])
unfolding requested_delegates
requested_delegates_same tenant_of tenant agent q es h =
    elim (Bool-cases q.allow_agent_delegation) [
      | inl e ↦ rw (e) (delegates_same tenant_of tenant agent _ es (rw (e) at h))
      | inr e ↦ rw (e) (sym (ok_inj _ _ (rw (e) at h)))
    ]

requested_delegates_again :
    (tenant_of : String → Option String) (tenant agent : String) (q : RequestedGrant)
    (allowed : Option (List String)) (es : List String)
    → requested_delegates tenant_of tenant agent q ≡ ok es
    → requested_delegates tenant_of tenant agent (record {
      allowed_tool_names = allowed;
      allow_agent_delegation = q.allow_agent_delegation;
      delegate_agent_ids = es;
    })
      ≡ ok es
unfolding requested_delegates
requested_delegates_again tenant_of tenant agent q allowed es h =
    elim (Bool-cases q.allow_agent_delegation) [
      | inr e ↦ rw (e) (rw (e) at h)
      | inl e ↦
          let got = rw (e) at h in
          let same =
            delegates_same tenant_of tenant agent (from_keys [] q.delegate_agent_ids) es got in
          rw (e, same, from_keys_twice q.delegate_agent_ids) (got ∙ ap ok same)
    ]

-- A request that is rebuilt from the snapshot of a grant resolves to that grant, under the definition
-- that the grant was resolved for, if no two of its tools have one name.
pub resolve_grant-snapshot :
    (tenant_of : String → Option String) (tenant : String) (definition : AgentDefinition)
    (requested : RequestedGrant) (g : ResolvedToolGrant)
    → distinct [] (names_of definition.tools) ≡ true
    → resolve_grant tenant_of tenant definition requested ≡ ok g
    → resolve_grant tenant_of tenant definition (grant_request_from_snapshot (snapshot g)) ≡ ok g
unfolding resolve_grant snapshot grant_request_from_snapshot
resolve_grant-snapshot tenant_of tenant definition requested g d h =
    let (tools, t, rest) =
      >>=-eq-ok (requested_tools definition.tools requested.allowed_tool_names) _ h in
    let (agents, a, made) =
      >>=-eq-ok (requested_delegates tenant_of tenant definition.agent_id requested) _ rest in
    rw (← ok_inj _ _ made) (
      rw
        (
          requested_tools_again definition.tools requested.allowed_tool_names tools d t,
          requested_delegates_again tenant_of tenant definition.agent_id requested
              (some (names_of tools)) agents a,
        )
        refl)

-- Whatever the definition of the agent is when a run is executed, such as one that is published
-- after the run was created, the request that is rebuilt from a snapshot resolves to tools with the
-- snapshot's names, each once, and to the snapshot's delegation, if to any.
pub snapshot-names :
    (tenant_of : String → Option String) (tenant : String) (later : AgentDefinition)
    (w : GrantSnapshot) (g : ResolvedToolGrant)
    → resolve_grant tenant_of tenant later (grant_request_from_snapshot w) ≡ ok g
    → (names_of g.tools ≡ from_keys [] w.function_names)
      × (g.allow_agent_delegation ≡ w.allow_agent_delegation)
      × (g.delegate_agent_ids
          ≡ (if w.allow_agent_delegation then from_keys [] w.delegate_agent_ids else []))
unfolding resolve_grant grant_request_from_snapshot requested_tools
snapshot-names tenant_of tenant later w g h =
    let (tools, t, rest) = >>=-eq-ok (requested_tools later.tools (some w.function_names)) _ h in
    let (agents, a, made) =
      >>=-eq-ok
        (requested_delegates tenant_of tenant later.agent_id (grant_request_from_snapshot w)) _
        rest in
    rw (← ok_inj _ _ made) (
      granted-names later.tools _ tools t,
      refl,
      requested_delegates_same tenant_of tenant later.agent_id (grant_request_from_snapshot w)
          agents a,
    )
