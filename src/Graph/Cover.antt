-- ===== src/Graph/Cover.antt =====
-- What a reachability search decides.
use agent_orchestration_core.Common.{
  ℕ, ◌<◌, String, ◌≡◌, ◌↔◌, refl, sym, ◌∙◌, ◌⊎◌, inl, inr, true, false, ◌&&◌, List, [], ◌∷◌, Result,
  ok, Bool-cases, and_left, and_right, false≢true,
}
use agent_orchestration_core.Graph.{visit, includes}
use agent_orchestration_core.Graph.Reach.{
  Has, Reaches, here, there, missing, Has-cons, Has-later, Has-head, Has-one, Has-nil, Visits,
  visit-Returns,
}

includes-all : (xs ys : List String) → includes xs ys ≡ true → (y : String) → Has ys y → Has xs y
unfolding includes
includes-all xs [] h y k = absurd (Has-nil y k)
includes-all xs (z ∷ ys) h y k = elim (Has-cons z ys y k) [
  | inl e ↦ rw (← e) (and_left _ _ h)
  | inr old ↦ includes-all xs ys (and_right _ _ h) y old
]

all-includes : (xs ys : List String) → ((y : String) → Has ys y → Has xs y) → includes xs ys ≡ true
unfolding includes
all-includes xs [] h = refl
all-includes xs (z ∷ ys) h =
    rw (h z (Has-head z ys), all-includes xs ys (λ y k. h y (Has-later z ys y k)))

-- The nodes are those that can be reached from the start, and no others.
abbrev pub Connects : (String → List String) → String → List String → Type 0
Connects next start ids = (x : String) → Has ids x ↔ Reaches next start x

module _ (next : String → List String) (start : String) where
  -- What the search visits is what can be reached.
  Visits-all :
      (visited : List String)
      → Visits next [] (start ∷ []) visited
      → (x : String) → Has visited x ↔ Reaches next start x
  Visits-all visited v x =
      (λ h. from (v.sound x h), λ r. walk start x r (v.visited start (Has-head start [])))
    where
      from :
          Has [] x ⊎ ((n : String) × Has (start ∷ []) n × Reaches next n x) → Reaches next start x
      from (inl h) = absurd (Has-nil x h)
      from (inr (n, h, r)) = rw (Has-one start n h) r

      walk_on : (n m : String) → Has [] n ⊎ Has visited m → Has visited m
      walk_on n m (inl h) = absurd (Has-nil n h)
      walk_on n m (inr h) = h

      walk : (n y : String) → Reaches next n y → Has visited n → Has visited y
      walk n y (here z) h = h
      walk n y (there a m z e r) h = walk m y r (walk_on a m (v.closed a m h e))

  pub data Covered (r : Result (List String)) (ids : List String) : Type 0 where
    covers :
        (visited : List String)
        → r ≡ ok visited
        → (includes ids visited && includes visited ids) ≡ true
        → Connects next start ids
        → Covered r ids
    misses :
        (visited : List String)
        → r ≡ ok visited
        → (includes ids visited && includes visited ids) ≡ false
        → ¬ (Connects next start ids)
        → Covered r ids

  -- With enough fuel the search returns, and comparing what it has visited with some nodes tells
  -- whether they are the nodes that can be reached.
  pub visit-Covered :
      (us : List String) (fuel : ℕ) (ids : List String)
      → ((x y : String) → Has us x → Has (next x) y → Has us y)
      → Has us start
      → missing us [] < fuel
      → Covered (visit next fuel [] start) ids
  visit-Covered us fuel ids inside known enough =
      let (visited, e, v) = visit-Returns next us inside fuel [] start known enough in
      let all = Visits-all visited v in
      elim (Bool-cases (includes ids visited && includes visited ids)) [
        | inl full ↦ covers visited e full (λ x. (
          λ h. (all x).0 (includes-all visited ids (and_right _ _ full) x h),
          λ r. includes-all ids visited (and_left _ _ full) x ((all x).1 r),
        ))
        | inr partial ↦ misses visited e partial (λ c. absurd (
            false≢true (
              sym partial
              ∙ rw (
                all-includes ids visited (λ y h. (c y).1 ((all y).0 h)),
                all-includes visited ids (λ y h. (all y).1 ((c y).0 h)),
              ))))
      ]
