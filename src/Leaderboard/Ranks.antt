-- ===== src/Leaderboard/Ranks.antt =====
-- The ranks that recalculateRanks of leaderboard/Leaderboard.service.ts gives.
use proof_stell_backend.Common.{
  ◌≤◌, ◌<◌, ◌≡◌, ◌↔◌, refl, Bool, true, false, List, [], ◌∷◌, map, count, Elem, inl, inr, arith,
  Bool-cases,
}
use mathlib.Core.Path.{subst}
use proof_stell_backend.Leaderboard.{
  Entry, before, rank_of, with_rank, recalculate_ranks_with_manager,
}

count-le :
    (p q : Entry → Bool) (rows : List Entry)
    → ((x : Entry) → p x ≡ true → q x ≡ true)
    → count p rows ≤ count q rows
count-le p q [] imp = omega arith
count-le p q (x ∷ rows) imp = ground (arith, imp x, count-le p q rows imp)

count-lt :
    (p q : Entry → Bool) (rows : List Entry) (a : Entry)
    → ((x : Entry) → p x ≡ true → q x ≡ true)
    → p a ≡ false
    → q a ≡ true
    → Elem a rows
    → count p rows < count q rows
count-lt p q [] a imp no_a yes_a m = elim m [ ]
count-lt p q (x ∷ rows) a imp no_a yes_a (inl e) =
    let no_x : p x ≡ false = subst (λ (z : Entry). p z ≡ false) e no_a in
    let yes_x : q x ≡ true = subst (λ (z : Entry). q z ≡ true) e yes_a in
    ground (arith, no_x, yes_x, count-le p q rows imp)
count-lt p q (x ∷ rows) a imp no_a yes_a (inr m) =
    ground (arith, imp x, count-lt p q rows a imp no_a yes_a m)

-- A row that comes before another one has a lower rank, and only such a row has.
rank_of-lt_iff :
    (rows : List Entry) (a b : Entry)
    → Elem a rows
    → Elem b rows
    → (rank_of rows a < rank_of rows b) ↔ (before a b ≡ true)
rank_of-lt_iff rows a b in_a in_b = (
  λ lower. elim (Bool-cases (before a b)) [
    | inl e ↦ e
    | inr e ↦
        let most : rank_of rows b ≤ rank_of rows a = omega (
          arith,
          count-le (λ x. before x b) (λ x. before x a) rows (λ x h. ground (arith, h, e)),
        ) in
        absurd (omega (arith, most))
  ],
  λ first. omega (
    arith,
    count-lt (λ x. before x a) (λ x. before x b) rows a (λ x h. ground (arith, h, first))
        (ground arith) first in_a,
  ),
)

Elem-map :
    (f : Entry → Entry) (rows : List Entry) (a : Entry)
    → Elem a (map f rows)
    → (e : Entry) × Elem e rows × (a ≡ f e)
Elem-map f [] a m = elim m [ ]
Elem-map f (x ∷ rows) a (inl e) = (x, inl refl, e)
Elem-map f (x ∷ rows) a (inr m) = let (y, there, e) = Elem-map f rows a m in (y, inr there, e)

-- After a recalculation, of any two rows the one has a lower rank than the other exactly when it has
-- the higher score, or the same score and the earlier update; so rows with the same score and time
-- share a rank.
pub recalculate-lt_iff :
    (rows : List Entry) (a b : Entry)
    → Elem a (recalculate_ranks_with_manager rows)
    → Elem b (recalculate_ranks_with_manager rows)
    → (a.rank < b.rank) ↔ (before a b ≡ true)
unfolding recalculate_ranks_with_manager
recalculate-lt_iff rows a b in_a in_b =
    let (x, at_x, a_is) = Elem-map (with_rank rows) rows a in_a in
    let (y, at_y, b_is) = Elem-map (with_rank rows) rows b in_b in
    rw (a_is, b_is) (rank_of-lt_iff rows x y at_x at_y)
