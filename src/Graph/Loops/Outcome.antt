-- ===== src/Graph/Loops/Outcome.antt =====
-- The search for cycles: it ends, and either it orders what it has visited or it has found a cycle.
use agent_orchestration_core.Common.{
  ℕ, zero, suc, ◌<◌, String, ◌≡◌, refl, ◌⊎◌, inl, inr, false, not, ◌&&◌, List, [], ◌∷◌, has, arith,
  Bool-cases, and_left,
}
use agent_orchestration_core.Graph.{Arc, Search, descend, follow, finish, explore}
use agent_orchestration_core.Graph.Reach.{
  Has, Reaches, here, Reaches-edge, missing, missing_less, Has-cons,
}
use agent_orchestration_core.Graph.Loops.{
  targets, strict_targets, leap, after, IsSound, Explored, Judged, passes, refuses, Explored-none,
  Explored-again, Explored-cons, Explored-enter, strict-head, strict-later, targets-head,
  targets-later, not_loop,
}

module _ (next : String → List Arc) where
  module _ (us : List String)
      (inside : (x y : String) → Has us x → Has (after next x) y → Has us y) where
    -- What a call may rely on: the nodes that are being visited lead to `n`, and fuel is left.
    pub record IsReady (fuel : ℕ) (s : Search) (n : String) : Type 0 where
      pub sound : IsSound next s
      pub known : Has us n
      pub fuelled : missing us s.visiting < fuel
      pub path : (x : String) → Has s.visiting x → Reaches (after next) x n

    abbrev Judges : ℕ → Type 0
    Judges fuel =
        (s : Search) (n : String)
        → IsReady fuel s n
        → has s.visited n ≡ false
        → Judged next (explore next fuel s n) s (leap n)

    step-IsReady :
        (fuel : ℕ) (s : Search) (n m : String)
        → IsReady fuel s n
        → Has (after next n) m
        → IsReady fuel s m
    step-IsReady fuel s n m r e = record {
      sound = r.sound;
      known = inside n m r.known e;
      fuelled = r.fuelled;
      path = λ x k. Reaches-edge m (r.path x k) e;
    }

    descend-Judged :
        (fuel : ℕ)
        → Judges fuel
        → (s : Search) (m : String) → IsReady fuel s m
        → Judged next (descend (explore next fuel) s m) s (leap m)
    unfolding descend
    descend-Judged fuel judges s m r = elim (Bool-cases (has s.visited m)) [
      | inl old ↦ passes s (rw (old, descend)) (Explored-again next s m r.sound (inl old))
      | inr new ↦ rw (new, descend) (judges s m r new)
    ]

    -- One arc, and then the others.
    follow_cons :
        (fuel : ℕ) (s : Search) (a : Arc) (arcs : List Arc)
        → (has s.visiting a.target && not a.is_loop) ≡ false
        → Judged next (descend (explore next fuel) s a.target) s (leap a.target)
        → ((t : Search)
            → Explored next s (leap a.target) t
            → Judged next (follow (explore next fuel) t arcs) t arcs)
        → Judged next (follow (explore next fuel) s (a ∷ arcs)) s (a ∷ arcs)
    unfolding follow
    follow_cons fuel s a arcs fine (refuses e c) later = refuses (rw (fine, e, follow)) c
    follow_cons fuel s a arcs fine (passes t e p) later = go_on (later t p)
      where
        fresh : a.is_loop ≡ false → has s.visiting a.target ≡ false
        fresh f = ground arith

        go_on :
            Judged next (follow (explore next fuel) t arcs) t arcs
            → Judged next (follow (explore next fuel) s (a ∷ arcs)) s (a ∷ arcs)
        go_on (refuses k c) = refuses (rw (fine, e, follow) k) c
        go_on (passes u k q) =
            passes u (rw (fine, e, follow) k) (Explored-cons next a arcs s t u p q fresh)

    again-IsReady :
        (fuel : ℕ) (s t : Search) (n : String) (arcs : List Arc)
        → IsReady fuel s n
        → Explored next s arcs t
        → IsReady fuel t n
    again-IsReady fuel s t n arcs r p = record {
      sound = p.sound;
      known = r.known;
      fuelled = rw p.same r.fuelled;
      path = λ x k. r.path x (rw (← p.same) k);
    }

    follow-Judged :
        (fuel : ℕ)
        → Judges fuel
        → (s : Search) (n : String) (arcs : List Arc) → IsReady fuel s n
        → ((m : String) → Has (targets arcs) m → Has (after next n) m)
        → ((m : String) → Has (strict_targets arcs) m → Has (strict_targets (next n)) m)
        → Judged next (follow (explore next fuel) s arcs) s arcs
    unfolding follow
    follow-Judged fuel judges s n [] r i j = passes s refl (Explored-none next s r.sound)
    follow-Judged fuel judges s n (a ∷ arcs) r i j =
        elim (Bool-cases (has s.visiting a.target && not a.is_loop)) [
          | inl back ↦ refuses (rw (back, follow)) (record {
            from = n;
            to = a.target;
            strict = j a.target (strict-head a arcs (not_loop _ _ back));
            back = r.path a.target (and_left _ _ back);
          })
          | inr fine ↦
              follow_cons fuel s a arcs fine
                (descend-Judged fuel judges s a.target
                  (step-IsReady fuel s n a.target r (i a.target (targets-head a arcs))))
                (λ t p.
                  follow-Judged fuel judges t n arcs (again-IsReady fuel s t n (leap a.target) r p)
                    (λ m k. i m (targets-later a arcs m k)) (λ m k. j m (strict-later a arcs m k)))
        ]

    enter-IsReady :
        (fuel : ℕ) (s : Search) (n : String)
        → IsReady (suc fuel) s n
        → has s.visiting n ≡ false
        → has s.visited n ≡ false
        → IsReady fuel (record s { visiting = n ∷ s.visiting }) n
    enter-IsReady fuel s n r idle new = record {
      sound = record {
        distinct = r.sound.distinct;
        apart = λ x k. apart_at x (Has-cons n s.visiting x k);
        ordered = r.sound.ordered;
      };
      known = r.known;
      fuelled = omega (arith, r.fuelled, missing_less us s.visiting n r.known idle);
      path = λ x k. path_at x (Has-cons n s.visiting x k);
    }
      where
        apart_at : (x : String) → (n ≡ x) ⊎ Has s.visiting x → has s.visited x ≡ false
        apart_at x (inl e) = rw (← e) new
        apart_at x (inr k) = r.sound.apart x k

        path_at : (x : String) → (n ≡ x) ⊎ Has s.visiting x → Reaches (after next) x n
        path_at x (inl e) = rw (← e) (here n)
        path_at x (inr k) = r.path x k

    pub explore_judged : (fuel : ℕ) → Judges fuel
    unfolding explore
    explore_judged zero s n r new = absurd (omega (arith, r.fuelled))
    explore_judged (suc fuel) s n r new = elim (Bool-cases (has s.visiting n)) [
      | inl busy ↦ passes s (rw (busy, explore)) (Explored-again next s n r.sound (inr busy))
      | inr idle ↦
          conclude_with
            (follow-Judged fuel (explore_judged fuel) (record s { visiting = n ∷ s.visiting }) n
              (next n) (enter-IsReady fuel s n r idle new) (λ m k. k) (λ m k. k))
            idle
    ]
      where
        conclude_with :
            Judged next
              (follow (explore next fuel) (record s { visiting = n ∷ s.visiting }) (next n))
              (record s { visiting = n ∷ s.visiting })
              (next n)
            → has s.visiting n ≡ false
            → Judged next (explore next (suc fuel) s n) s (leap n)
        conclude_with (refuses e c) idle = refuses (rw (idle, e, explore)) c
        conclude_with (passes t e p) idle =
            passes (finish n t) (rw (idle, e, explore))
              (Explored-enter next s t n r.sound new idle p)
