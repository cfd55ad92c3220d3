-- ===== src/Graph/Reach.antt =====
-- The reachability search: it ends, and what it visits is what can be reached.
use agent_orchestration_core.Common.{
  ℕ, zero, suc, ◌≤◌, ◌<◌, String, ◌≡◌, refl, ◌⊎◌, inl, inr, true, false, List, [], ◌∷◌, has, Result,
  ok, arith, eq_iff, Bool-cases, if◌then◌else◌, false≢true,
}
use agent_orchestration_core.Graph.{each, visit}

abbrev pub Has : List String → String → Type 0
Has xs x = has xs x ≡ true

-- `x` comes after `n`, by any number of edges.
pub data Reaches (next : String → List String) : String → String → Type 0 where
  here : (n : String) → Reaches next n n
  there : (n m x : String) → Has (next n) m → Reaches next m x → Reaches next n x

pub Reaches-edge :
    {next : String → List String} {n m : String} (x : String)
    → Reaches next n m
    → Has (next m) x
    → Reaches next n x
Reaches-edge x (here n) h = there n x x h (here x)
Reaches-edge x (there n m y e r) h = there n m x e (Reaches-edge x r h)

-- How many of the nodes are not in a list.
unfoldable pub missing : List String → List String → ℕ
missing [] v = 0
missing (u ∷ us) v = let rest = missing us v in if has v u then rest else suc rest

pub missing_mono :
    (us v w : List String) → ((x : String) → Has v x → Has w x) → missing us w ≤ missing us v
unfolding missing
missing_mono [] v w h = ground arith
missing_mono (u ∷ us) v w h = ground (arith, h u, missing_mono us v w h)

pub Has-cons : (y : String) (v : List String) (x : String) → Has (y ∷ v) x → (y ≡ x) ⊎ Has v x
unfolding has
Has-cons y v x h = ground (arith, eq_iff y x)

pub Has-later : (y : String) (v : List String) (x : String) → Has v x → Has (y ∷ v) x
unfolding has
Has-later y v x h = ground arith

pub Has-head : (y : String) (v : List String) → Has (y ∷ v) y
unfolding has
Has-head y v = ground (arith, eq_iff y y)

pub Has-nil : (m : String) → ¬ (Has [] m)
unfolding has
Has-nil m h = absurd (false≢true h)

pub Has-one : (n m : String) → Has (n ∷ []) m → n ≡ m
unfolding has
Has-one n m h = ground (arith, eq_iff n m)

pub missing_less :
    (us v : List String) (n : String)
    → Has us n
    → has v n ≡ false
    → missing us (n ∷ v) < missing us v
unfolding missing has
missing_less [] v n h f = ground arith
missing_less (u ∷ us) v n h f =
    ground (
      arith,
      eq_iff u n,
      eq_iff n u,
      missing_mono us v (n ∷ v) (Has-later n v),
      missing_less us v n,
    )

-- What a search from each of `ns` has done, between the nodes visited before and after it.
pub record Visits (next : String → List String) (v ns w : List String) : Type 0 where
  pub kept : (x : String) → Has v x → Has w x
  pub visited : (n : String) → Has ns n → Has w n
  pub closed : (x y : String) → Has w x → Has (next x) y → Has v x ⊎ Has w y
  pub sound : (x : String) → Has w x → Has v x ⊎ ((n : String) × Has ns n × Reaches next n x)

module _ (next : String → List String) where
  Visits-none : (v : List String) → Visits next v [] v
  unfolding has
  Visits-none v = record {
    kept = λ x h. h;
    visited = λ n h. absurd (false≢true h);
    closed = λ x y h e. inl h;
    sound = λ x h. inl h;
  }

  closed_later :
      (v w u : List String) (x y : String)
      → ((z : String) → Has w z → Has u z)
      → (Has v x ⊎ Has w y)
      → Has v x ⊎ Has u y
  closed_later v w u x y kept (inl h) = inl h
  closed_later v w u x y kept (inr h) = inr (kept y h)

  Visits-cons :
      (n : String) (ns v w u : List String)
      → Visits next v (n ∷ []) w
      → Visits next w ns u
      → Visits next v (n ∷ ns) u
  Visits-cons n ns v w u a b = record {
    kept = λ x h. b.kept x (a.kept x h);
    visited = λ m h. visited_at m (Has-cons n ns m h);
    closed = λ x y h e. closed_at x y e (b.closed x y h e);
    sound = λ x h. sound_at x (b.sound x h);
  }
    where
      visited_at : (m : String) → (n ≡ m) ⊎ Has ns m → Has u m
      visited_at m (inl e) = b.kept m (rw (← e) (a.visited n (Has-head n [])))
      visited_at m (inr h) = b.visited m h

      closed_at : (x y : String) → Has (next x) y → Has w x ⊎ Has u y → Has v x ⊎ Has u y
      closed_at x y e (inr h) = inr h
      closed_at x y e (inl h) = closed_later v w u x y b.kept (a.closed x y h e)

      first :
          (x : String)
          → Has v x ⊎ ((m : String) × Has (n ∷ []) m × Reaches next m x)
          → Has v x ⊎ ((m : String) × Has (n ∷ ns) m × Reaches next m x)
      first x (inl h) = inl h
      first x (inr (m, h, r)) = inr (m, rw (← (Has-one n m h)) (Has-head n ns), r)

      sound_at :
          (x : String)
          → Has w x ⊎ ((m : String) × Has ns m × Reaches next m x)
          → Has v x ⊎ ((m : String) × Has (n ∷ ns) m × Reaches next m x)
      sound_at x (inl h) = first x (a.sound x h)
      sound_at x (inr (m, h, r)) = inr (m, Has-later n ns m h, r)

  -- A node that is visited for the first time, and then all that follows it.
  Visits-enter :
      (n : String) (v w : List String) → Visits next (n ∷ v) (next n) w → Visits next v (n ∷ []) w
  Visits-enter n v w a = record {
    kept = λ x h. a.kept x (Has-later n v x h);
    visited = λ m h. rw (← (Has-one n m h)) (a.kept n (Has-head n v));
    closed = λ x y h e. closed_at x y e (a.closed x y h e);
    sound = λ x h. sound_at x (a.sound x h);
  }
    where
      new_or_old : (x y : String) → Has (next x) y → (n ≡ x) ⊎ Has v x → Has v x ⊎ Has w y
      new_or_old x y e (inl same) = inr (a.visited y (rw same e))
      new_or_old x y e (inr h) = inl h

      closed_at : (x y : String) → Has (next x) y → Has (n ∷ v) x ⊎ Has w y → Has v x ⊎ Has w y
      closed_at x y e (inl h) = new_or_old x y e (Has-cons n v x h)
      closed_at x y e (inr h) = inr h

      from :
          (x : String)
          → (n ≡ x) ⊎ Has v x
          → Has v x ⊎ ((m : String) × Has (n ∷ []) m × Reaches next m x)
      from x (inl same) = inr (n, Has-head n [], rw same (here x))
      from x (inr h) = inl h

      sound_at :
          (x : String)
          → Has (n ∷ v) x ⊎ ((m : String) × Has (next n) m × Reaches next m x)
          → Has v x ⊎ ((m : String) × Has (n ∷ []) m × Reaches next m x)
      sound_at x (inl h) = from x (Has-cons n v x h)
      sound_at x (inr (m, h, r)) = inr (n, Has-head n [], there n m x h r)

  Visits-again : (n : String) (v : List String) → Has v n → Visits next v (n ∷ []) v
  Visits-again n v h = record {
    kept = λ x k. k;
    visited = λ m k. rw (← (Has-one n m k)) h;
    closed = λ x y k e. inl k;
    sound = λ x k. inl k;
  }

  module _ (us : List String) (inside : (x y : String) → Has us x → Has (next x) y → Has us y) where
    -- A call with enough fuel returns, and has visited what it should.
    abbrev pub Returns : Result (List String) → List String → List String → Type 0
    Returns r v ns = (w : List String) × (r ≡ ok w) × Visits next v ns w

    each-Returns :
        (fuel : ℕ)
        → ((v : List String) (n : String)
            → Has us n
            → missing us v < fuel
            → Returns (visit next fuel v n) v (n ∷ []))
        → (v ns : List String) → ((n : String) → Has ns n → Has us n)
        → missing us v < fuel
        → Returns (each (visit next fuel) v ns) v ns
    unfolding each
    each-Returns fuel returns v [] h f = (v, refl, Visits-none v)
    each-Returns fuel returns v (n ∷ ns) h f =
        let (w, e, a) = returns v n (h n (Has-head n ns)) f in
        let (u, k, b) =
          each-Returns fuel returns w ns (λ m hm. h m (Has-later n ns m hm))
            (omega (arith, f, missing_mono us v w a.kept)) in
        (u, rw (e, each) k, Visits-cons n ns v w u a b)

    pub visit-Returns :
        (fuel : ℕ) (v : List String) (n : String)
        → Has us n
        → missing us v < fuel
        → Returns (visit next fuel v n) v (n ∷ [])
    unfolding visit
    visit-Returns zero v n h f = elim f [ ]
    visit-Returns (suc fuel) v n h f = elim (Bool-cases (has v n)) [
      | inl old ↦ (v, rw (old, visit), Visits-again n v old)
      | inr new ↦
          let (w, e, a) =
            each-Returns fuel (visit-Returns fuel) (n ∷ v) (next n) (λ m hm. inside n m h hm)
              (omega (arith, f, missing_less us v n h new)) in
          (w, rw (new, visit) e, Visits-enter n v w a)
    ]
