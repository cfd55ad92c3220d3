-- ===== src/FlowStart/Tenancy.antt =====
-- create_flow_run of execution_service.py: every flow run belongs to a session of its user in the tenant
-- of its flow.
use agent_orchestration_core.Common.{
  ℕ, String, Bool, true, false, Option, none, some, ◌≡◌, refl, Unit, Result, ok, err, ◌==◌, ◌>>=◌,
  arith, >>=-eq-ok, ok_inj, err-ne-ok, Bool-cases, inl, inr,
}
use agent_orchestration_core.Redis.{Redis}
use agent_orchestration_core.Redis.Adapter.{Call}
use agent_orchestration_core.Limits.Idempotency.{try_acquire}
use agent_orchestration_core.FlowStart.{FlowRunCreate, Db, Surroundings}
use agent_orchestration_core.FlowStart.Choices.{
  select_version, choose_flow, check_user, check_tenant, check_active,
}
use agent_orchestration_core.FlowStart.Triples.{After}
use agent_orchestration_core.FlowStart.Service.{
  StartRequest, attempt, with_reply, with_key, begin_with, begin,
}
use agent_orchestration_core.FlowStart.Owners.{Owned, Keeps, attempt-Keeps}

check_tenant-eq-ok :
    (t : Option ℕ) (tenant_id : ℕ) (u : Unit) → check_tenant t tenant_id ≡ ok u → t ≡ some tenant_id
unfolding check_tenant
check_tenant-eq-ok none tenant_id u h = cc
check_tenant-eq-ok (some t) tenant_id u h = elim (Bool-cases (t == tenant_id)) [
  | inl same ↦ let e : t ≡ tenant_id = ground arith in rw (e) refl
  | inr other ↦ absurd (err-ne-ok _ _ (rw (other, check_tenant) at h))
]

check_active-eq-ok :
    (active asked : Option ℕ) (version_id : ℕ)
    → check_active active asked ≡ ok version_id
    → active ≡ some version_id
unfolding check_active
check_active-eq-ok none asked version_id h = cc
check_active-eq-ok (some active) none version_id h = cc
check_active-eq-ok (some active) (some asked) version_id h = elim (Bool-cases (active == asked)) [
  | inl same ↦ let e : ok active ≡ ok version_id = rw (same, check_active) at h in cc
  | inr other ↦ absurd (err-ne-ok _ _ (rw (other, check_active) at h))
]

-- The flow of a request is its tenant's, and the version is the flow's active one.
select_version-eq-ok :
    (o : Surroundings) (tenant_id : ℕ) (c : FlowRunCreate) (flow_id version_id : ℕ)
    → select_version o tenant_id c ≡ ok (flow_id, version_id)
    → (o.tenant_of_flow flow_id ≡ some tenant_id)
      × (o.active_flow_version_id flow_id ≡ some version_id)
unfolding select_version
select_version-eq-ok o tenant_id c flow_id version_id h =
    let paired : ℕ → ℕ → Result (ℕ × ℕ) = λ f v. ok (f, v) in
    let active_of : ℕ → Result (ℕ × ℕ) =
      λ f. check_active (o.active_flow_version_id f) c.flow_version_id >>= paired f in
    let tenant_of : ℕ → Result (ℕ × ℕ) =
      λ f. check_tenant (o.tenant_of_flow f) tenant_id >>= λ _. active_of f in
    let (f, chosen, h1) =
      >>=-eq-ok (choose_flow o c.flow_id c.flow_version_id)
        (λ f. check_user c.user_id >>= λ _. tenant_of f) h in
    let (u, named, h2) = >>=-eq-ok (check_user c.user_id) (λ _. tenant_of f) h1 in
    let (v, owned, h3) =
      >>=-eq-ok (check_tenant (o.tenant_of_flow f) tenant_id) (λ _. active_of f) h2 in
    let (w, active, h4) =
      >>=-eq-ok (check_active (o.active_flow_version_id f) c.flow_version_id) (paired f) h3 in
    let e : (f, w) ≡ (flow_id, version_id) = ok_inj (f, w) (flow_id, version_id) h4 in
    let same : f ≡ flow_id = cc in
    let same_version : w ≡ version_id = cc in
    (
      rw⁻¹ (same) (check_tenant-eq-ok (o.tenant_of_flow f) tenant_id v owned),
      rw⁻¹ (same, same_version)
          (check_active-eq-ok (o.active_flow_version_id f) c.flow_version_id w active),
    )

Owned-After :
    {A : Type 0} (o : Surroundings) (t : Result A × Db)
    → After (λ a. Owned o) (Owned o) t
    → Owned o t.1
Owned-After o (ok a, db) h = h
Owned-After o (err x, db) h = h

module _ (r : Redis) (silent : Bool) (ttl : ℕ) (o : Surroundings) (key : String)
    (acquires reads : Call) (q : StartRequest) where
  with_reply-Owned :
      (flow_id version_id : ℕ) (db : Db) (s : r.Store) (reply : Result Bool)
      → (o.tenant_of_flow flow_id ≡ some q.tenant_id)
        × (o.active_flow_version_id flow_id ≡ some version_id)
      → Owned o db
      → Owned o (with_reply r silent ttl o key reads q flow_id version_id db s reply).1.0
  unfolding with_reply Keeps
  with_reply-Owned flow_id version_id db s (err x) chosen h = h
  with_reply-Owned flow_id version_id db s (ok false) chosen h = h
  with_reply-Owned flow_id version_id db s (ok true) (of_tenant, is_active) h =
      Owned-After o (attempt o q.wait q.tenant_id q.body q.trace_id flow_id version_id db) (
        attempt-Keeps o q.tenant_id q.body flow_id version_id of_tenant is_active q.wait q.trace_id
          db h)

  begin_with-Owned :
      (db : Db) (s : r.Store) (selected : Result (ℕ × ℕ))
      → select_version o q.tenant_id q.body ≡ selected
      → Owned o db
      → Owned o (begin_with r silent ttl o key acquires reads q (db, s) selected).1.0
  unfolding begin_with with_key
  begin_with-Owned db s (err x) e h = h
  begin_with-Owned db s (ok (flow_id, version_id)) e h =
      let t = try_acquire r silent ttl key acquires s in
      with_reply-Owned flow_id version_id db t.1 t.0
        (select_version-eq-ok o q.tenant_id q.body flow_id version_id e) h

  -- If the session of every flow run is its user's, in the tenant that has the flow whose active version
  -- the run is of, then so it is after a request, whichever way it ends, as long as the rows of flows
  -- and versions stay as they are.
  pub begin-Owned :
      (db : Db) (s : r.Store)
      → Owned o db
      → Owned o (begin r silent ttl o key acquires reads q (db, s)).1.0
  unfolding begin
  begin-Owned db s h = begin_with-Owned db s (select_version o q.tenant_id q.body) refl h
