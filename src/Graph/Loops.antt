-- ===== src/Graph/Loops.antt =====
-- The search for cycles: what it has done between two of its states.
pub mod Outcome
use agent_orchestration_core.Common.{
  ℕ, zero, suc, ◌≤◌, ◌<◌, String, ◌≡◌, refl, ◌∙◌, sym, ap, ◌⊎◌, inl, inr, Bool, true, false, not,
  ◌&&◌, List, [], ◌∷◌, has, Result, ok, err, domain, arith, eq_iff, Bool-cases, false≢true, Unit,
  tt, if◌then◌else◌,
}
use agent_orchestration_core.Graph.{Arc, Search, remove, descend, follow, finish, explore}
use agent_orchestration_core.Graph.Reach.{
  Has, Reaches, here, there, Reaches-edge, missing, missing_less, Has-cons, Has-one, Has-later,
  Has-head,
}

unfoldable pub targets : List Arc → List String
targets [] = []
targets (a ∷ arcs) = a.target ∷ targets arcs

-- The edges that are not marked as loops.
unfoldable pub strict_targets : List Arc → List String
strict_targets [] = []
strict_targets (a ∷ arcs) =
    let rest = strict_targets arcs in if a.is_loop then rest else a.target ∷ rest

strict-cons :
    (a : Arc) (arcs : List Arc) (m : String)
    → Has (strict_targets (a ∷ arcs)) m
    → ((a.is_loop ≡ false) × (a.target ≡ m)) ⊎ Has (strict_targets arcs) m
unfolding strict_targets has
strict-cons a arcs m h = ground (arith, eq_iff a.target m)

pub strict-head :
    (a : Arc) (arcs : List Arc) → a.is_loop ≡ false → Has (strict_targets (a ∷ arcs)) a.target
unfolding strict_targets has
strict-head a arcs h = ground (arith, eq_iff a.target a.target)

pub strict-later :
    (a : Arc) (arcs : List Arc) (m : String)
    → Has (strict_targets arcs) m
    → Has (strict_targets (a ∷ arcs)) m
unfolding strict_targets has
strict-later a arcs m h = ground arith

pub targets-head : (a : Arc) (arcs : List Arc) → Has (targets (a ∷ arcs)) a.target
unfolding targets
targets-head a arcs = Has-head a.target (targets arcs)

pub targets-later :
    (a : Arc) (arcs : List Arc) (m : String) → Has (targets arcs) m → Has (targets (a ∷ arcs)) m
unfolding targets
targets-later a arcs m h = Has-later a.target (targets arcs) m h

pub not_loop : (a b : Bool) → (a && not b) ≡ true → b ≡ false
not_loop a b h = ground arith

abbrev pub Distinct : List String → Type 0
Distinct [] = Unit
Distinct (x ∷ xs) = (has xs x ≡ false) × Distinct xs

remove-head : (n : String) (xs : List String) → remove n (n ∷ xs) ≡ xs
unfolding remove
remove-head n xs = ground (arith, eq_iff n n)

has_not-later :
    (y : String) (v : List String) (x : String) → has (y ∷ v) x ≡ false → has v x ≡ false
unfolding has
has_not-later y v x h = ground arith

-- One arc to `n`, which may lead back.
abbrev pub leap : String → List Arc
leap n = record { target = n; is_loop = true } ∷ []

module _ (next : String → List Arc) where
  abbrev pub after : String → List String
  after n = targets (next n)

  -- Every strict edge leads to a node that was finished before.
  abbrev pub IsOrdered : List String → Type 0
  IsOrdered [] = Unit
  IsOrdered (x ∷ xs) = ((y : String) → Has (strict_targets (next x)) y → Has xs y) × IsOrdered xs

  pub record IsSound (s : Search) : Type 0 where
    pub distinct : Distinct s.visited
    pub apart : (x : String) → Has s.visiting x → has s.visited x ≡ false
    pub ordered : IsOrdered s.visited

  -- A cycle, one of whose edges is not marked as a loop.
  pub record Cycle : Type 0 where
    pub from : String
    pub to : String
    pub strict : Has (strict_targets (next from)) to
    pub back : Reaches after to from

  pub record Explored (s : Search) (arcs : List Arc) (t : Search) : Type 0 where
    pub same : t.visiting ≡ s.visiting
    pub kept : (x : String) → Has s.visited x → Has t.visited x
    pub reached : (m : String) → Has (targets arcs) m → Has t.visited m ⊎ Has s.visiting m
    pub strict : (m : String) → Has (strict_targets arcs) m → Has t.visited m
    pub closed :
        (x y : String)
        → Has t.visited x
        → Has (after x) y
        → Has s.visited x ⊎ (Has t.visited y ⊎ Has s.visiting y)
    pub origin :
        (x : String)
        → Has t.visited x
        → Has s.visited x ⊎ ((m : String) × Has (targets arcs) m × Reaches after m x)
    pub sound : IsSound t

  pub data Judged (r : Result Search) (s : Search) (arcs : List Arc) : Type 0 where
    passes : (t : Search) → r ≡ ok t → Explored s arcs t → Judged r s arcs
    refuses : r ≡ err (domain "cycle_not_marked_loop") → Cycle → Judged r s arcs

  pub Explored-none : (s : Search) → IsSound s → Explored s [] s
  unfolding has targets strict_targets
  Explored-none s h = record {
    same = refl;
    kept = λ x k. k;
    reached = λ m k. absurd (false≢true k);
    strict = λ m k. absurd (false≢true k);
    closed = λ x y k e. inl k;
    origin = λ x k. inl k;
    sound = h;
  }

  -- The target is there already: it was visited, or it is being visited.
  pub Explored-again :
      (s : Search) (n : String)
      → IsSound s
      → Has s.visited n ⊎ Has s.visiting n
      → Explored s (leap n) s
  unfolding has targets strict_targets
  Explored-again s n h k = record {
    same = refl;
    kept = λ x kx. kx;
    reached = λ m km. rw (← (Has-one n m km)) k;
    strict = λ m km. absurd (false≢true km);
    closed = λ x y kx e. inl kx;
    origin = λ x kx. inl kx;
    sound = h;
  }

  pub Explored-cons :
      (a : Arc) (arcs : List Arc) (s t u : Search)
      → Explored s (leap a.target) t
      → Explored t arcs u
      → (a.is_loop ≡ false → has s.visiting a.target ≡ false)
      → Explored s (a ∷ arcs) u
  unfolding targets strict_targets
  Explored-cons a arcs s t u p q fresh = record {
    same = q.same ∙ p.same;
    kept = λ x k. q.kept x (p.kept x k);
    reached = λ m k. reached_at m (Has-cons a.target (targets arcs) m k);
    strict = λ m k. strict_at m (strict-cons a arcs m k);
    closed = λ x y k e. closed_at x y e (q.closed x y k e);
    origin = λ x k. origin_at x (q.origin x k);
    sound = q.sound;
  }
    where
      from_first :
          (x : String)
          → Has s.visited x ⊎ ((m : String) × Has (a.target ∷ []) m × Reaches after m x)
          → Has s.visited x ⊎ ((m : String) × Has (a.target ∷ targets arcs) m × Reaches after m x)
      from_first x (inl k) = inl k
      from_first x (inr (m, k, r)) =
          inr (m, rw (← (Has-one a.target m k)) (Has-head a.target (targets arcs)), r)

      origin_at :
          (x : String)
          → Has t.visited x ⊎ ((m : String) × Has (targets arcs) m × Reaches after m x)
          → Has s.visited x ⊎ ((m : String) × Has (a.target ∷ targets arcs) m × Reaches after m x)
      origin_at x (inl k) = from_first x (p.origin x k)
      origin_at x (inr (m, k, r)) = inr (m, Has-later a.target (targets arcs) m k, r)

      first : (m : String) → a.target ≡ m → Has t.visited m ⊎ Has s.visiting m
      first m e = rw (← e) (p.reached a.target (Has-head a.target []))

      keep : (m : String) → Has t.visited m ⊎ Has s.visiting m → Has u.visited m ⊎ Has s.visiting m
      keep m (inl k) = inl (q.kept m k)
      keep m (inr k) = inr k

      reached_at :
          (m : String) → (a.target ≡ m) ⊎ Has (targets arcs) m → Has u.visited m ⊎ Has s.visiting m
      reached_at m (inl e) = keep m (first m e)
      reached_at m (inr k) = rw (← p.same) (q.reached m k)

      visited_now :
          (m : String)
          → has s.visiting m ≡ false
          → Has t.visited m ⊎ Has s.visiting m
          → Has t.visited m
      visited_now m f (inl k) = k
      visited_now m f (inr k) = absurd (false≢true (sym f ∙ k))

      strict_at :
          (m : String)
          → ((a.is_loop ≡ false) × (a.target ≡ m)) ⊎ Has (strict_targets arcs) m
          → Has u.visited m
      strict_at m (inl (f, e)) = q.kept m (visited_now m (rw (← e) (fresh f)) (first m e))
      strict_at m (inr k) = q.strict m k

      closed_at :
          (x y : String)
          → Has (after x) y
          → Has t.visited x ⊎ (Has u.visited y ⊎ Has t.visiting y)
          → Has s.visited x ⊎ (Has u.visited y ⊎ Has s.visiting y)
      closed_at x y e (inr k) = inr (rw (← p.same) k)
      closed_at x y e (inl k) = later (p.closed x y k e)
        where
          later :
              Has s.visited x ⊎ (Has t.visited y ⊎ Has s.visiting y)
              → Has s.visited x ⊎ (Has u.visited y ⊎ Has s.visiting y)
          later (inl old) = inl old
          later (inr (inl new)) = inr (inl (q.kept y new))
          later (inr (inr now)) = inr (inr now)

  -- A node that is neither visited nor being visited is finished after all that follows it.
  module _ (s t : Search) (n : String) (h : IsSound s) (new : has s.visited n ≡ false)
      (idle : has s.visiting n ≡ false)
      (p : Explored (record s { visiting = n ∷ s.visiting }) (next n) t) where
    entered_same : (finish n t).visiting ≡ s.visiting
    entered_same = ap (remove n) p.same ∙ remove-head n s.visiting

    entered_new : has t.visited n ≡ false
    entered_new = p.sound.apart n (rw p.same (Has-head n s.visiting))

    entered_apart : (x : String) → Has s.visiting x → has (n ∷ t.visited) x ≡ false
    unfolding has
    entered_apart x k =
        let old : has t.visited x ≡ false =
          p.sound.apart x (rw p.same (Has-later n s.visiting x k)) in
        ground (arith, eq_iff n x)

    pub Explored-enter : Explored s (leap n) (finish n t)
    unfolding has targets strict_targets
    Explored-enter = record {
      same = entered_same;
      kept = λ x k. Has-later n t.visited x (p.kept x k);
      reached = λ m k. inl (rw (← (Has-one n m k)) (Has-head n t.visited));
      strict = λ m k. absurd (false≢true k);
      closed = λ x y k e. closed_at x y e (Has-cons n t.visited x k);
      origin = λ x k. origin_at x (Has-cons n t.visited x k);
      sound = record {
        distinct = (entered_new, p.sound.distinct);
        apart = λ x k. entered_apart x (rw (← entered_same) k);
        ordered = (p.strict, p.sound.ordered);
      };
    }
      where
        from_next :
            (x : String)
            → Has s.visited x ⊎ ((m : String) × Has (after n) m × Reaches after m x)
            → Has s.visited x ⊎ ((m : String) × Has (n ∷ []) m × Reaches after m x)
        from_next x (inl k) = inl k
        from_next x (inr (m, k, r)) = inr (n, Has-head n [], there n m x k r)

        origin_at :
            (x : String)
            → (n ≡ x) ⊎ Has t.visited x
            → Has s.visited x ⊎ ((m : String) × Has (n ∷ []) m × Reaches after m x)
        origin_at x (inl e) = inr (n, Has-head n [], rw e (here x))
        origin_at x (inr k) = from_next x (p.origin x k)

        now : (y : String) → (n ≡ y) ⊎ Has s.visiting y → Has (n ∷ t.visited) y ⊎ Has s.visiting y
        now y (inl e) = inl (rw (← e) (Has-head n t.visited))
        now y (inr k) = inr k

        there_or_now :
            (y : String)
            → Has t.visited y ⊎ Has (n ∷ s.visiting) y
            → Has (n ∷ t.visited) y ⊎ Has s.visiting y
        there_or_now y (inl k) = inl (Has-later n t.visited y k)
        there_or_now y (inr k) = now y (Has-cons n s.visiting y k)

        closed_at :
            (x y : String)
            → Has (after x) y
            → (n ≡ x) ⊎ Has t.visited x
            → Has s.visited x ⊎ (Has (n ∷ t.visited) y ⊎ Has s.visiting y)
        closed_at x y e (inl same) = inr (there_or_now y (p.reached y (rw same e)))
        closed_at x y e (inr k) = old_or (p.closed x y k e)
          where
            old_or :
                Has s.visited x ⊎ (Has t.visited y ⊎ Has (n ∷ s.visiting) y)
                → Has s.visited x ⊎ (Has (n ∷ t.visited) y ⊎ Has s.visiting y)
            old_or (inl old) = inl old
            old_or (inr new_one) = inr (there_or_now y new_one)
