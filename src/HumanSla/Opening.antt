-- ===== src/HumanSla/Opening.antt =====
-- HumanSLAService.get_or_create_open_case_for_fallback: a session has one open case.
use agent_orchestration_core.Common.{
  ℕ, ◌+◌, ◌≤◌, ◌≡◌, refl, Option, none, List, [], ◌∷◌, ◌++◌, arith, Bool-cases, Option-cases, inl,
  inr, if◌then◌else◌,
}
use agent_orchestration_core.HumanSla.{
  SlaCase, SlaPolicy, Fallback, last_open, is_open_in, has_run, create_case, new_case,
  get_or_create_open_case,
}

-- How many open cases a session has.
unfoldable pub open_count : ℕ → ℕ → List SlaCase → ℕ
open_count tenant session [] = 0
open_count tenant session (c ∷ cs) =
    (if is_open_in tenant session c then 1 else 0) + open_count tenant session cs

last_open-none :
    (tenant session : ℕ) (cases : List SlaCase)
    → last_open tenant session cases ≡ none
    → open_count tenant session cases ≡ 0
unfolding last_open open_count
last_open-none tenant session [] h = refl
last_open-none tenant session (c ∷ cs) h = elim (Bool-cases (is_open_in tenant session c)) [
  | inl here ↦ ground arith
  | inr there ↦ rw (there) (omega (arith, last_open-none tenant session cs (rw (there) at h)))
]

open_count-append :
    (tenant session : ℕ) (c : SlaCase) (cases : List SlaCase)
    → open_count tenant session (cases ++ c ∷ [])
      ≡ open_count tenant session cases + (if is_open_in tenant session c then 1 else 0)
unfolding open_count
open_count-append tenant session c [] = omega arith
open_count-append tenant session c (d ∷ cs) = omega (arith, open_count-append tenant session c cs)

-- A session that has at most one open case has at most one afterwards.
pub get_or_create_open_case-le :
    (case_id : ℕ) (policy : Option SlaPolicy) (f : Fallback) (cases : List SlaCase)
    → open_count f.tenant_id f.session_id cases ≤ 1
    → open_count f.tenant_id f.session_id (get_or_create_open_case case_id policy f cases).1 ≤ 1
unfolding get_or_create_open_case create_case
get_or_create_open_case-le case_id policy f cases h =
    elim (Option-cases (last_open f.tenant_id f.session_id cases)) [
      | inr (c, e) ↦ rw (e, get_or_create_open_case) h
      | inl absent ↦
          let nobody = last_open-none f.tenant_id f.session_id cases absent in
          rw (absent, get_or_create_open_case)
            (elim (Bool-cases (has_run f.flow_run_id f.node_run_id cases)) [
              | inl taken ↦ rw (taken, create_case) h
              | inr free ↦
                  let appended =
                    open_count-append f.tenant_id f.session_id (new_case case_id f policy) cases in
                  rw (free, create_case, appended, nobody) (ground arith)
            ])
    ]
