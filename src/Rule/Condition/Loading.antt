-- ===== src/Rule/Condition/Loading.antt =====
-- A condition of the API that is loaded into the editor and saved again.
use iot_saas.Prelude.{ℕ, suc, ◌+◌, ◌<◌, max, String, false, ◌≡◌, refl, ap, ◌∙◌, some, arith}
use iot_saas.Prelude.Numbers.{Numbers}
use iot_saas.Rule.Draft.{Combinator, same_op}
use iot_saas.Rule.Tree.Normal.{IsNormal, AreNormal, HasTwo, FitsIn, normalize_of_IsNormal}
use iot_saas.Rule.Tree.{normalize}
use iot_saas.Rule.Condition.{
  ConditionNode, Conditions, leaf, all_of, end, more, node_from, nodes_from, condition_from,
}
use iot_saas.Rule.Condition.Saving.{
  condition_of, conditions_of, depth, depth_all, condition_from-normalize,
}
use iot_saas.Rule.Condition.Leaf.{LeafFits, filled_leaf, leaf_back}

abbrev pub StandsIn : {N : Type 0} → Combinator → ConditionNode N → Type 0
StandsIn op (leaf l) = Unit
StandsIn op (all_of o ps) = same_op o op ≡ false

abbrev pub AtLeastTwo : {N : Type 0} → Conditions N → Type 0
AtLeastTwo end = ⊥
AtLeastTwo (more p end) = ⊥
AtLeastTwo (more p (more q ps)) = Unit

-- The conditions that the backend stores: fitting leaves, and the trees of the editors.
unfoldable mutual
  pub IsStored : {N : Type 0} → Numbers N → ConditionNode N → Type 0
  IsStored 𝓝 (leaf l) = LeafFits 𝓝 l
  IsStored 𝓝 (all_of op ps) = AtLeastTwo ps × AreStored 𝓝 op ps

  pub AreStored : {N : Type 0} → Numbers N → Combinator → Conditions N → Type 0
  AreStored 𝓝 op end = Unit
  AreStored 𝓝 op (more p ps) = IsStored 𝓝 p × StandsIn op p × AreStored 𝓝 op ps

-- The same condition with the defaults of its leaves written out.
unfoldable mutual
  pub filled : {N : Type 0} → Numbers N → ConditionNode N → ConditionNode N
  filled 𝓝 (leaf l) = leaf (filled_leaf 𝓝 l)
  filled 𝓝 (all_of op ps) = all_of op (filled_all 𝓝 ps)

  pub filled_all : {N : Type 0} → Numbers N → Conditions N → Conditions N
  filled_all 𝓝 end = end
  filled_all 𝓝 (more p ps) = more (filled 𝓝 p) (filled_all 𝓝 ps)

unfoldable mutual
  pub levels : {N : Type 0} → ConditionNode N → ℕ
  levels (leaf l) = 0
  levels (all_of op ps) = suc (levels_all ps)

  pub levels_all : {N : Type 0} → Conditions N → ℕ
  levels_all end = 0
  levels_all (more p ps) = max (levels p) (levels_all ps)

mutual
  unfolding node_from nodes_from condition_of conditions_of filled filled_all IsStored AreStored

  load_then_save :
      {N : Type 0} (𝓝 : Numbers N) (fresh : ℕ → String) (p : ConditionNode N) (k : ℕ)
      → IsStored 𝓝 p
      → condition_of 𝓝 (node_from 𝓝 fresh p k).0 ≡ filled 𝓝 p
  load_then_save 𝓝 fresh (leaf l) k h = ap leaf (leaf_back 𝓝 (fresh k) l h)
  load_then_save 𝓝 fresh (all_of op ps) k h =
      ap (all_of op) (load_all_then_save 𝓝 fresh op ps (k + 1) h.1)

  load_all_then_save :
      {N : Type 0} (𝓝 : Numbers N) (fresh : ℕ → String) (op : Combinator) (ps : Conditions N)
      (k : ℕ)
      → AreStored 𝓝 op ps
      → conditions_of 𝓝 (nodes_from 𝓝 fresh ps k).0 ≡ filled_all 𝓝 ps
  load_all_then_save 𝓝 fresh op end k h = refl
  load_all_then_save 𝓝 fresh op (more p ps) k (h, _, hs) =
      rw
        (
          load_then_save 𝓝 fresh p k h,
          load_all_then_save 𝓝 fresh op ps (node_from 𝓝 fresh p k).1 hs,
        )
        refl

module _ {N : Type 0} (𝓝 : Numbers N) (fresh : ℕ → String) where
  loaded-FitsIn :
      (op : Combinator) (p : ConditionNode N) (k : ℕ)
      → StandsIn op p
      → FitsIn op (node_from 𝓝 fresh p k).0
  unfolding node_from
  loaded-FitsIn op (leaf l) k h = tt
  loaded-FitsIn op (all_of o ps) k h = h

  loaded-HasTwo : (ps : Conditions N) (k : ℕ) → AtLeastTwo ps → HasTwo (nodes_from 𝓝 fresh ps k).0
  unfolding nodes_from
  loaded-HasTwo end k h = absurd h
  loaded-HasTwo (more p end) k h = absurd h
  loaded-HasTwo (more p (more q ps)) k h = tt

mutual
  unfolding node_from nodes_from IsStored AreStored IsNormal AreNormal

  loaded-IsNormal :
      {N : Type 0} (𝓝 : Numbers N) (fresh : ℕ → String) (p : ConditionNode N) (k : ℕ)
      → IsStored 𝓝 p
      → IsNormal (node_from 𝓝 fresh p k).0
  loaded-IsNormal 𝓝 fresh (leaf l) k h = tt
  loaded-IsNormal 𝓝 fresh (all_of op ps) k h =
      (loaded-HasTwo 𝓝 fresh ps (k + 1) h.0, loaded_all_normal 𝓝 fresh op ps (k + 1) h.1)

  loaded_all_normal :
      {N : Type 0} (𝓝 : Numbers N) (fresh : ℕ → String) (op : Combinator) (ps : Conditions N)
      (k : ℕ)
      → AreStored 𝓝 op ps
      → AreNormal op (nodes_from 𝓝 fresh ps k).0
  loaded_all_normal 𝓝 fresh op end k h = tt
  loaded_all_normal 𝓝 fresh op (more p ps) k (h, f, hs) = (
    loaded-IsNormal 𝓝 fresh p k h,
    loaded-FitsIn 𝓝 fresh op p k f,
    loaded_all_normal 𝓝 fresh op ps (node_from 𝓝 fresh p k).1 hs,
  )

mutual
  unfolding node_from nodes_from depth depth_all levels levels_all

  loaded_depth :
      {N : Type 0} (𝓝 : Numbers N) (fresh : ℕ → String) (p : ConditionNode N) (k : ℕ)
      → depth (node_from 𝓝 fresh p k).0 ≡ levels p
  loaded_depth 𝓝 fresh (leaf l) k = refl
  loaded_depth 𝓝 fresh (all_of op ps) k = ap suc (loaded_all_depth 𝓝 fresh ps (k + 1))

  loaded_all_depth :
      {N : Type 0} (𝓝 : Numbers N) (fresh : ℕ → String) (ps : Conditions N) (k : ℕ)
      → depth_all (nodes_from 𝓝 fresh ps k).0 ≡ levels_all ps
  loaded_all_depth 𝓝 fresh end k = refl
  loaded_all_depth 𝓝 fresh (more p ps) k =
      rw (loaded_depth 𝓝 fresh p k, loaded_all_depth 𝓝 fresh ps (node_from 𝓝 fresh p k).1) refl

module _ {N : Type 0} (𝓝 : Numbers N) (fresh : ℕ → String) where
  -- A condition whose leaves have the right-hand side that their operator takes, no hysteresis where
  -- the operator takes none, and set members that `Number` reads back, and whose groups are in
  -- normal form: loaded into the editor and saved with fuel beyond its depth, it is the same
  -- condition with an absent device as "" and an absent hysteresis as 0.
  pub load-save :
      (f : ℕ) (p : ConditionNode N) (k : ℕ)
      → IsStored 𝓝 p
      → levels p < f
      → condition_from 𝓝 f (some (node_from 𝓝 fresh p k).0) ≡ some (some (filled 𝓝 p))
  unfolding normalize
  load-save f p k h d =
      let n = (node_from 𝓝 fresh p k).0 in
      condition_from-normalize 𝓝 f (some n) (omega (arith, loaded_depth 𝓝 fresh p k))
      ∙ rw (normalize_of_IsNormal n (loaded-IsNormal 𝓝 fresh p k h))
          (ap (λ c. some (some c)) (load_then_save 𝓝 fresh p k h))
