-- ===== src/Graph/Rank.antt =====
-- An ordered list of finished nodes ranks them: every strict edge leads to a lower rank.
use agent_orchestration_core.Common.{
  ℕ, suc, ◌+◌, ◌≤◌, ◌<◌, String, inl, inr, List, [], ◌∷◌, length, has, str_eq, arith, eq_iff,
  if◌then◌else◌, Bool-cases,
}
use agent_orchestration_core.Graph.{Arc}
use agent_orchestration_core.Graph.Reach.{Has, missing, missing_less, Has-cons, Has-later, Has-head}
use agent_orchestration_core.Graph.Loops.{strict_targets, IsOrdered, Distinct}

-- The place of the last occurrence, counted from the end.
unfoldable pub rank : List String → String → ℕ
rank [] x = 0
rank (y ∷ ys) x =
    let below = rank ys x in if has ys x then below else if str_eq y x then suc (length ys) else 0

pub rank-le-length : (ys : List String) (x : String) → rank ys x ≤ length ys
unfolding rank
rank-le-length [] x = ground arith
rank-le-length (y ∷ ys) x = ground (arith, rank-le-length ys x)

pub rank_pos : (ys : List String) (x : String) → Has ys x → 0 < rank ys x
unfolding rank has
rank_pos [] x h = ground arith
rank_pos (y ∷ ys) x h = ground (arith, rank_pos ys x)

pub ordered_closed :
    (next : String → List Arc) (ys : List String) (x y : String)
    → IsOrdered next ys
    → Has ys x
    → Has (strict_targets (next x)) y
    → Has ys y
unfolding has
ordered_closed next [] x y o h e = h
ordered_closed next (n ∷ ys) x y o h e = elim (Has-cons n ys x h) [
  | inl same ↦ Has-later n ys y (o.0 y (rw same e))
  | inr old ↦ Has-later n ys y (ordered_closed next ys x y o.1 old e)
]

pub rank_less :
    (next : String → List Arc) (ys : List String) (x y : String)
    → IsOrdered next ys
    → Has ys x
    → Has (strict_targets (next x)) y
    → rank ys y < rank ys x
unfolding rank has
rank_less next [] x y o h e = ground arith
rank_less next (n ∷ ys) x y o h e = elim (Bool-cases (has ys x)) [
  | inl old ↦ ground (arith, ordered_closed next ys x y o.1 old e, rank_less next ys x y o.1 old e)
  | inr new ↦ elim (Has-cons n ys x h) [
    | inl same ↦ ground (arith, eq_iff n x, o.0 y (rw same e), rank-le-length ys y)
    | inr old ↦ ground arith
  ]
]

-- Different nodes out of `us` are no more than `us`.
pub missing_all : (us : List String) → missing us [] ≤ length us
unfolding missing has
missing_all [] = ground arith
missing_all (u ∷ us) = ground (arith, missing_all us)

Distinct-missing :
    (us v : List String)
    → Distinct v
    → ((x : String) → Has v x → Has us x)
    → missing us v + length v ≤ length us
Distinct-missing us [] d i = omega (arith, missing_all us)
Distinct-missing us (x ∷ v) d i = omega (
  arith,
  missing_less us v x (i x (Has-head x v)) d.0,
  Distinct-missing us v d.1 (λ y h. i y (Has-later x v y h)),
)

pub length-le-of_Distinct :
    (us v : List String) → Distinct v → ((x : String) → Has v x → Has us x) → length v ≤ length us
length-le-of_Distinct us v d i = omega (arith, Distinct-missing us v d i)
