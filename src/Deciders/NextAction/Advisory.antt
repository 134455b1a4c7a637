-- ===== src/Deciders/NextAction/Advisory.antt =====
-- The ranking is a sorted rearrangement of the legal actions, whatever order they came in.
use aios_tools.Prelude.{ℕ, Bool, true, false, List, [], ◌∷◌, ◌≡◌, refl, sym, ◌∙◌, arith, length, ok}
use aios_tools.Prelude.Json.{Json}
use aios_tools.Prelude.Order.{text_le_total, text_le_trans, text_le_antisym}
use aios_tools.Prelude.Sort.{
  Reordered, IsOrder, sorted, sorted-Reordered, sorted-IsSorted, sorted_of_IsSorted,
  sorted_of_Reordered,
}
use aios_tools.Deciders.NextAction.{
  Action, factors, falling, factors_le, action_le, legal_actions, ranked, ranking_of,
  rank_legal_actions,
}
use aios_tools.Deciders.NextAction.Ranks.{IsRanked, IsSorted-IsRanked}

factors_le_total :
    (downs : List Bool) (ms ns : List ℕ) (r r' : Bool)
    → (r ≡ false → r' ≡ true)
    → factors_le downs ms ns r ≡ false
    → factors_le downs ns ms r' ≡ true
unfolding factors_le
factors_le_total [] ms ns r r' t h = t h
factors_le_total (d ∷ downs) [] [] r r' t h = t h
factors_le_total (d ∷ downs) [] (n ∷ ns) r r' t h = t h
factors_le_total (d ∷ downs) (m ∷ ms) [] r r' t h = t h
factors_le_total (d ∷ downs) (m ∷ ms) (n ∷ ns) r r' t h =
    ground (arith, factors_le_total downs ms ns r r' t)

factors_le_antisym :
    (downs : List Bool) (ms ns : List ℕ) (r r' : Bool)
    → length ms ≡ length downs
    → length ns ≡ length downs
    → factors_le downs ms ns r ≡ true
    → factors_le downs ns ms r' ≡ true
    → (ms ≡ ns) × (r ≡ true) × (r' ≡ true)
unfolding factors_le
factors_le_antisym [] [] [] r r' l l' h k = (refl, h, k)
factors_le_antisym [] [] (n ∷ ns) r r' l l' h k = absurd (omega (arith, l'))
factors_le_antisym [] (m ∷ ms) ns r r' l l' h k = absurd (omega (arith, l))
factors_le_antisym (d ∷ downs) [] ns r r' l l' h k = absurd (omega (arith, l))
factors_le_antisym (d ∷ downs) (m ∷ ms) [] r r' l l' h k = absurd (omega (arith, l'))
factors_le_antisym (d ∷ downs) (m ∷ ms) (n ∷ ns) r r' l l' h k =
    ground (arith, factors_le_antisym downs ms ns r r')

factors_le_trans :
    (downs : List Bool) (ms ns os : List ℕ) (r s t : Bool)
    → length ms ≡ length downs
    → length ns ≡ length downs
    → length os ≡ length downs
    → (r ≡ true → s ≡ true → t ≡ true)
    → factors_le downs ms ns r ≡ true
    → factors_le downs ns os s ≡ true
    → factors_le downs ms os t ≡ true
unfolding factors_le
factors_le_trans [] ms ns os r s t l l' l'' f h k = f h k
factors_le_trans (d ∷ downs) [] ns os r s t l l' l'' f h k = absurd (omega (arith, l))
factors_le_trans (d ∷ downs) (m ∷ ms) [] os r s t l l' l'' f h k = absurd (omega (arith, l'))
factors_le_trans (d ∷ downs) (m ∷ ms) (n ∷ ns) [] r s t l l' l'' f h k = absurd (omega (arith, l''))
factors_le_trans (d ∷ downs) (m ∷ ms) (n ∷ ns) (o ∷ os) r s t l l' l'' f h k =
    ground (arith, factors_le_trans downs ms ns os r s t)

action_of_factors : (a b : Action) → factors a ≡ factors b → a.action_id ≡ b.action_id → a ≡ b
action_of_factors a b e f = ground arith

action_le-IsOrder : IsOrder action_le
unfolding action_le
action_le-IsOrder = record {
  total = λ a b h.
      factors_le_total falling (factors a) (factors b) _ _ (text_le_total a.action_id b.action_id)
        h;
  transitive = λ a b c h k.
      factors_le_trans falling (factors a) (factors b) (factors c) _ _ _ (omega arith) (omega arith)
        (omega arith) (text_le_trans a.action_id b.action_id c.action_id) h k;
  antisymmetric = λ a b h k.
      let (same, r, s) =
        factors_le_antisym falling (factors a) (factors b) _ _ (omega arith) (omega arith) h k in
      action_of_factors a b same (text_le_antisym a.action_id b.action_id r s);
}

-- The ranking of a valid packet holds its actions, each as often as there. Of any two it puts first
-- the one with the higher user priority; where these are equal, with the more dependencies unblocked,
-- then the higher urgency, expected value and evidence readiness, the lower risk and cost, the higher
-- reversibility and staleness, and last the id that comes first. No other list does both.
pub rank_legal_actions-IsRanked :
    (packet : Json) (actions : List Action)
    → legal_actions packet ≡ ok actions
    → (ranking : List Action) × (rank_legal_actions packet ≡ ranked ranking)
      × Reordered actions ranking
      × IsRanked ranking
      × ((other : List Action) → Reordered actions other → IsRanked other → other ≡ ranking)
unfolding rank_legal_actions ranking_of
rank_legal_actions-IsRanked packet actions e = (
  sorted action_le actions,
  ground arith,
  sorted-Reordered action_le actions,
  (IsSorted-IsRanked (sorted action_le actions)).0
      (sorted-IsSorted action_le action_le-IsOrder actions),
  λ other r ranks.
      sym (sorted_of_IsSorted action_le other ((IsSorted-IsRanked other).1 ranks))
      ∙ sym (sorted_of_Reordered action_le action_le-IsOrder r),
)

-- Two packets with the same actions, in any order, have the same ranking.
pub rank_of_Reordered :
    (packet other : Json) (actions others : List Action)
    → legal_actions packet ≡ ok actions
    → legal_actions other ≡ ok others
    → Reordered actions others
    → rank_legal_actions packet ≡ rank_legal_actions other
unfolding rank_legal_actions ranking_of
rank_of_Reordered packet other actions others e f r =
    let same : sorted action_le actions ≡ sorted action_le others =
      sorted_of_Reordered action_le action_le-IsOrder r in
    ground arith
