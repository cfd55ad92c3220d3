-- ===== src/FlowGraph/Walks.antt =====
-- flow_graph_validator.py: `has_terminal_path` finds a terminal node whenever one can be reached.
use agent_orchestration_core.Common.{
  ℕ, zero, suc, ◌≤◌, ◌<◌, String, ◌≡◌, refl, sym, ◌∙◌, ◌⊎◌, inl, inr, Bool, true, false, List, [],
  ◌∷◌, has, Result, ok, arith, eq_iff, Bool-cases, false≢true,
}
use agent_orchestration_core.Graph.Reach.{
  Has, Reaches, here, there, missing, missing_less, Has-cons, Has-head, Has-later, Has-nil, Has-one,
}
use agent_orchestration_core.FlowGraph.{any_path, has_terminal_path}

-- The search of one node after another.
module _ (go : String → Result Bool) where
  abbrev Answers : List String → Type 0
  Answers ns = (m : String) → Has ns m → (b : Bool) × (go m ≡ ok b)

  any_path-Answers : (ns : List String) → Answers ns → (b : Bool) × (any_path go ns ≡ ok b)
  unfolding any_path
  any_path-Answers [] h = (false, refl)
  any_path-Answers (n ∷ ns) h =
      let (b, e) = h n (Has-head n ns) in
      let (c, k) = any_path-Answers ns (λ m hm. h m (Has-later n ns m hm)) in
      elim (Bool-cases b) [ inl found ↦ (true, rw (e, found)) | inr missed ↦ (c, rw (e, missed) k) ]

  any_path_finds :
      (ns : List String) (m : String)
      → Answers ns
      → Has ns m
      → go m ≡ ok true
      → any_path go ns ≡ ok true
  unfolding any_path
  any_path_finds [] m h k e = absurd (Has-nil m k)
  any_path_finds (n ∷ ns) m h k e =
      let (b, a) = h n (Has-head n ns) in
      elim (Bool-cases b) [
        | inl found ↦ rw (a, found)
        | inr missed ↦ elim (Has-cons n ns m k) [
          | inl same ↦ rw (same, e)
          | inr later ↦
              rw (a, missed) (any_path_finds ns m (λ x hx. h x (Has-later n ns x hx)) later e)
        ]
      ]

module _ (next : String → List String) (terminals : List String) where
  -- A walk of `k` edges from `n` to a terminal node, through no node of `seen`.
  abbrev Walk : ℕ → List String → String → Type 0
  Walk zero seen n = (has seen n ≡ false) × Has terminals n
  Walk (suc k) seen n = (has seen n ≡ false) × ((m : String) × Has (next n) m × Walk k seen m)

  fresh-cons :
      (n : String) (seen : List String) (m : String)
      → has (n ∷ []) m ≡ false
      → has seen m ≡ false
      → has (n ∷ seen) m ≡ false
  unfolding has
  fresh-cons n seen m d h = ground (arith, eq_iff n m)

  Walk-fresh : (k : ℕ) (seen : List String) (n : String) → Walk k seen n → has seen n ≡ false
  Walk-fresh zero seen n w = w.0
  Walk-fresh (suc k) seen n w = w.0

  -- A walk avoids `n`, or a part of it starts at `n`.
  Walk-split :
      (k : ℕ) (seen : List String) (n m : String)
      → Walk k seen m
      → ((j : ℕ) × Walk j (n ∷ seen) m) ⊎ ((j : ℕ) × (j ≤ k) × Walk j seen n)
  Walk-split zero seen n m w = elim (Bool-cases (has (n ∷ []) m)) [
    | inl same ↦ inr (zero, omega arith, rw (Has-one n m same) w)
    | inr other ↦ inl (zero, (fresh-cons n seen m other w.0, w.1))
  ]
  Walk-split (suc k) seen n m (f, (l, e, w)) = elim (Bool-cases (has (n ∷ []) m)) [
    | inl same ↦ inr (suc k, omega arith, rw (Has-one n m same) (f, (l, e, w)))
    | inr other ↦ elim (Walk-split k seen n l w) [
      | inl (j, v) ↦ inl (suc j, (fresh-cons n seen m other f, (l, e, v)))
      | inr (j, h, v) ↦ inr (j, omega (arith, h), v)
    ]
  ]

  -- A walk that does not end at once has a first edge, after which it need not come back.
  Walk-first :
      (bound k : ℕ) (seen : List String) (n : String)
      → k < bound
      → Walk k seen n
      → has terminals n ≡ false
      → (m : String) × Has (next n) m × ((j : ℕ) × Walk j (n ∷ seen) m)
  Walk-first zero k seen n h w t = elim h [ ]
  Walk-first (suc bound) zero seen n h w t = absurd (false≢true (sym t ∙ w.1))
  Walk-first (suc bound) (suc k) seen n h (f, (m, e, w)) t = elim (Walk-split k seen n m w) [
    | inl (j, v) ↦ (m, e, (j, v))
    | inr (j, below, v) ↦ Walk-first bound j seen n (omega (arith, h, below)) v t
  ]

  module _ (us : List String) (inside : (x y : String) → Has us x → Has (next x) y → Has us y) where
    has_terminal_path_answers :
        (fuel : ℕ) (n : String) (seen : List String)
        → Has us n
        → missing us seen < fuel
        → (b : Bool) × (has_terminal_path next terminals fuel n seen ≡ ok b)
    unfolding has_terminal_path
    has_terminal_path_answers zero n seen h f = elim f [ ]
    has_terminal_path_answers (suc fuel) n seen h f = elim (Bool-cases (has seen n)) [
      | inl old ↦ (false, rw (old, has_terminal_path))
      | inr new ↦ elim (Bool-cases (has terminals n)) [
        | inl ends ↦ (true, rw (new, ends, has_terminal_path))
        | inr goes ↦
            let (b, e) =
              any_path-Answers (λ m. has_terminal_path next terminals fuel m (n ∷ seen)) (next n)
                (λ m hm.
                  has_terminal_path_answers fuel m (n ∷ seen) (inside n m h hm)
                    (omega (arith, f, missing_less us seen n h new))) in
            (b, rw (new, goes, has_terminal_path) e)
      ]
    ]

    pub has_terminal_path_finds :
        (fuel k : ℕ) (n : String) (seen : List String)
        → Has us n
        → missing us seen < fuel
        → Walk k seen n
        → has_terminal_path next terminals fuel n seen ≡ ok true
    unfolding has_terminal_path
    has_terminal_path_finds zero k n seen h f w = elim f [ ]
    has_terminal_path_finds (suc fuel) k n seen h f w = elim (Bool-cases (has terminals n)) [
      | inl ends ↦ rw (Walk-fresh k seen n w, ends, has_terminal_path)
      | inr goes ↦
          let new = Walk-fresh k seen n w in
          let less = missing_less us seen n h new in
          let (m, e, (j, v)) = Walk-first (suc k) k seen n (omega arith) w goes in
          rw (new, goes, has_terminal_path)
            (any_path_finds (λ l. has_terminal_path next terminals fuel l (n ∷ seen)) (next n) m
              (λ l hl.
                has_terminal_path_answers fuel l (n ∷ seen) (inside n l h hl)
                  (omega (arith, f, less)))
              e
              (has_terminal_path_finds fuel j m (n ∷ seen) (inside n m h e) (omega (arith, f, less))
                v))
    ]

  pub Walk-of_Reaches : (n t : String) → Reaches next n t → Has terminals t → (k : ℕ) × Walk k [] n
  unfolding has
  Walk-of_Reaches n t (here x) h = (zero, (refl, h))
  Walk-of_Reaches n t (there a m x e r) h =
      let (k, w) = Walk-of_Reaches m x r h in (suc k, (refl, (m, e, w)))
