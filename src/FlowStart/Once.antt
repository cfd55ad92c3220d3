-- ===== src/FlowStart/Once.antt =====
-- create_flow_run of execution_service.py with idempotency_service.py: one flow run for a key.
use agent_orchestration_core.Common.{
  ℕ, ◌+◌, ◌≤◌, String, Bool, true, false, List, [], ◌∷◌, ◌≡◌, refl, ap, arith, Result, ok, err,
  length, suc,
}
use agent_orchestration_core.Redis.{Redis}
use agent_orchestration_core.Redis.Adapter.{Call}
use agent_orchestration_core.Limits.Idempotency.{
  Request, acquire, finish, AllFrom, AllBefore, acquired, acquired-le, is_yes, try_acquire,
}
use agent_orchestration_core.FlowStart.{FlowRun, Db, Surroundings}
use agent_orchestration_core.FlowStart.Choices.{select_version}
use agent_orchestration_core.FlowStart.Service.{
  attempt, with_reply, StartRequest, begin, begin_with, with_key, finish_with, stored_fields,
}
use agent_orchestration_core.FlowStart.Growth.{Grows, attempt-Grows, count-After}

-- What the requests with one key do, in an order in which they may come: a request begins, up to its
-- response, or one that has begun stores the response.
pub data Event : Type 0 where
  starts : Call → Call → StartRequest → Event
  stores : Call → FlowRun → Event

module _ (r : Redis) (silent : Bool) (ttl : ℕ) (o : Surroundings) (key : String) where
  -- The tables and Redis after some events.
  unfoldable pub serve : List Event → Db × r.Store → Db × r.Store
  serve [] w = w
  serve (starts acquires reads q ∷ events) w =
      serve events (begin r silent ttl o key acquires reads q w).1
  serve (stores c run ∷ events) (db, s) =
      serve events (db, (finish_with r silent ttl o key c run s).1)

  -- What the events ask of Redis. A request that is refused before does not ask for the key.
  abbrev pub asks : Call → Result (ℕ × ℕ) → List Request → List Request
  asks acquires (err x) later = later
  asks acquires (ok v) later = acquire acquires ∷ later

  abbrev pub requests : List Event → List Request
  requests [] = []
  requests (starts acquires reads q ∷ events) =
      asks acquires (select_version o q.tenant_id q.body) (requests events)
  requests (stores c run ∷ events) = finish c (stored_fields o run) ∷ requests events

  with_reply-rows :
      (reads : Call) (q : StartRequest) (flow_id version_id : ℕ) (db : Db) (s : r.Store)
      (reply : Result Bool)
      → length (with_reply r silent ttl o key reads q flow_id version_id db s reply).1.0.flow_runs
        ≤ is_yes reply + length db.flow_runs
  unfolding with_reply Grows
  with_reply-rows reads q flow_id version_id db s (err x) = omega arith
  with_reply-rows reads q flow_id version_id db s (ok false) = omega arith
  with_reply-rows reads q flow_id version_id db s (ok true) =
      let n = length db.flow_runs in
      let few =
        count-After (suc n) (attempt o q.wait q.tenant_id q.body q.trace_id flow_id version_id db) (
          attempt-Grows o n q.wait q.tenant_id q.body q.trace_id flow_id version_id db
            (omega arith)) in
      omega (arith, few)

  with_reply-store :
      (reads : Call) (q : StartRequest) (flow_id version_id : ℕ) (db : Db) (s : r.Store)
      (reply : Result Bool)
      → (with_reply r silent ttl o key reads q flow_id version_id db s reply).1.1 ≡ s
  unfolding with_reply
  with_reply-store reads q flow_id version_id db s (err x) = refl
  with_reply-store reads q flow_id version_id db s (ok false) = refl
  with_reply-store reads q flow_id version_id db s (ok true) = refl

  Bounded : List Event → Type 0
  Bounded events =
      (db : Db) (s : r.Store)
      → length (serve events (db, s)).0.flow_runs
        ≤ acquired r silent ttl key (requests events) s + length db.flow_runs

  begin_with-acquired :
      (acquires reads : Call) (q : StartRequest) (events : List Event) (db : Db) (s : r.Store)
      (selected : Result (ℕ × ℕ))
      → Bounded events
      → length
          (serve events
            (begin_with r silent ttl o key acquires reads q (db, s) selected).1).0.flow_runs
        ≤ acquired r silent ttl key (asks acquires selected (requests events)) s
          + length db.flow_runs
  unfolding begin_with with_key acquired Bounded
  begin_with-acquired acquires reads q events db s (err x) rest = rest db s
  begin_with-acquired acquires reads q events db s (ok (flow_id, version_id)) rest =
      let t = try_acquire r silent ttl key acquires s in
      let rows = with_reply-rows reads q flow_id version_id db t.1 t.0 in
      let w = (with_reply r silent ttl o key reads q flow_id version_id db t.1 t.0).1 in
      let same : acquired r silent ttl key (requests events) w.1
          ≡ acquired r silent ttl key (requests events) t.1 =
        ap (acquired r silent ttl key (requests events))
          (with_reply-store reads q flow_id version_id db t.1 t.0) in
      omega (arith, rows, same, rest w.0 w.1)

  -- The flow runs that the events add are no more than the requests that are told that the key is theirs.
  serve-acquired : (events : List Event) → Bounded events
  unfolding serve acquired begin finish_with Bounded
  serve-acquired [] db s = omega arith
  serve-acquired (stores c run ∷ events) db s =
      serve-acquired events db (finish_with r silent ttl o key c run s).1
  serve-acquired (starts acquires reads q ∷ events) db s =
      begin_with-acquired acquires reads q events db s (select_version o q.tenant_id q.body)
        (serve-acquired events)

  -- Of the requests with one idempotency key that begin within its time to live, in whatever order
  -- they begin and store their responses, whichever of them fail, and whatever the key held before,
  -- at most one creates a flow run.
  pub serve-once :
      (from : ℕ) (events : List Event) (db : Db) (s : r.Store)
      → AllFrom from (requests events)
      → AllBefore (from + ttl) (requests events)
      → length (serve events (db, s)).0.flow_runs ≤ 1 + length db.flow_runs
  unfolding Bounded
  serve-once from events db s late early = omega (
    arith,
    serve-acquired events db s,
    acquired-le r silent ttl key from (requests events) s late early,
  )
