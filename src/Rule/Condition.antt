-- ===== src/Rule/Condition.antt =====
-- Conditions as the API has them, and the way there and back (frontend/src/lib/rule-draft.ts,
-- "From the API" and "To the API").
pub mod Saving
pub mod Leaf
pub mod Loading
mod Tests
use iot_saas.Prelude.{
  ℕ, zero, suc, ◌+◌, String, Bool, true, false, not, ◌||◌, Option, none, some, List, [], ◌∷◌, map,
  str_eq, if◌then◌else◌, keep,
}
use iot_saas.Prelude.Text.{join, comma_list}
use iot_saas.Prelude.Numbers.{Numbers}
use iot_saas.Rule.Draft.{
  Combinator, RhsKind, ContactDraft, DraftNode, Nodes, contact, group, nil, cons, given,
}
use iot_saas.Rule.Tree.{normalize}

pub data RhsSpec (N : Type 0) : Type 0 where
  static : N → RhsSpec N
  range : N → N → RhsSpec N
  set : List N → RhsSpec N
  metric : String → String → RhsSpec N

-- A `device_id` that is absent or null is `none`, and so is an absent `hysteresis`.
pub record ConditionLeaf (N : Type 0) : Type 0 where
  pub device_id : Option String
  pub metric : String
  pub operator : String
  pub rhs : Option (RhsSpec N)
  pub hysteresis : Option N

mutual
  pub data ConditionNode (N : Type 0) : Type 0 where
    leaf : ConditionLeaf N → ConditionNode N
    all_of : Combinator → Conditions N → ConditionNode N

  pub data Conditions (N : Type 0) : Type 0 where
    end : Conditions N
    more : ConditionNode N → Conditions N → Conditions N

pub data Arity : Type 0 where
  nothing one range set : Arity

unfoldable pub operator_arity : String → Option Arity
operator_arity o =
    if str_eq o ">"
      || str_eq o ">="
      || str_eq o "<"
      || str_eq o "<="
      || str_eq o "=="
      || str_eq o "!="
    then some Arity.one
    else if str_eq o "between" || str_eq o "not_between"
    then some Arity.range
    else if str_eq o "in" || str_eq o "not_in"
    then some Arity.set
    else if str_eq o "changed" || str_eq o "increased" || str_eq o "decreased"
    then some Arity.nothing
    else none

-- `OPERATOR_ARITY[operator] ?? "one"`
abbrev pub arity_of : String → Arity
arity_of o = given (operator_arity o) Arity.one

-- HYSTERESIS_OPERATORS.has
unfoldable pub has_hysteresis : String → Bool
has_hysteresis o = str_eq o ">" || str_eq o ">=" || str_eq o "<" || str_eq o "<="

module _ {N : Type 0} (𝓝 : Numbers N) where
  -- `id` is what newId() returns.
  pub empty_contact : String → String → ContactDraft N
  empty_contact id device = record {
    id = id;
    device_id = device;
    metric = "";
    operator = ">";
    hysteresis = 𝓝.one;
    rhs_kind = RhsKind.static;
    value = 𝓝.zero;
    low = 𝓝.zero;
    high = 𝓝.zero;
    set_text = "";
    rhs_device_id = "";
    rhs_metric = "";
  }

  pub with_rhs : ContactDraft N → Option (RhsSpec N) → ContactDraft N
  with_rhs base none = base
  with_rhs base (some (RhsSpec.range lo hi)) = record base { low = lo; high = hi }
  with_rhs base (some (RhsSpec.set vs)) = record base { set_text = join ", " (map 𝓝.to_text vs) }
  with_rhs base (some (RhsSpec.metric d m)) = record base {
    rhs_kind = RhsKind.metric;
    rhs_device_id = d;
    rhs_metric = m;
  }
  with_rhs base (some (RhsSpec.static v)) = record base { value = v }

  pub contact_from_leaf : String → ConditionLeaf N → ContactDraft N
  unfolding empty_contact with_rhs
  contact_from_leaf id l =
      with_rhs
        (record (empty_contact id (given l.device_id "")) {
          metric = l.metric;
          operator = l.operator;
          hysteresis = given l.hysteresis 𝓝.zero;
        })
        l.rhs

  static_rhs : ContactDraft N → RhsKind → RhsSpec N
  static_rhs c RhsKind.metric = RhsSpec.metric c.rhs_device_id c.rhs_metric
  static_rhs c RhsKind.static = RhsSpec.static c.value

  pub rhs_for : ContactDraft N → Arity → Option (RhsSpec N)
  unfolding static_rhs
  rhs_for c Arity.nothing = none
  rhs_for c Arity.range = some (RhsSpec.range c.low c.high)
  rhs_for c Arity.set =
      some (RhsSpec.set (keep (λ n. not (𝓝.is_nan n)) (map 𝓝.of_text (comma_list c.set_text))))
  rhs_for c Arity.one = some (static_rhs c c.rhs_kind)

  pub build_rhs : ContactDraft N → Option (RhsSpec N)
  unfolding rhs_for
  build_rhs c = rhs_for c (arity_of c.operator)

  pub leaf_from_contact : ContactDraft N → ConditionLeaf N
  unfolding build_rhs
  leaf_from_contact c = record {
    device_id = some c.device_id;
    metric = c.metric;
    operator = c.operator;
    rhs = build_rhs c;
    hysteresis = some (if has_hysteresis c.operator then c.hysteresis else 𝓝.zero);
  }

-- `fresh k` is what the k-th call of newId() returns; the count of calls goes along.
unfoldable mutual
  pub node_from : {N : Type 0} → Numbers N → (ℕ → String) → ConditionNode N → ℕ → DraftNode N × ℕ
  node_from 𝓝 fresh (leaf l) k = (contact (contact_from_leaf 𝓝 (fresh k) l), k + 1)
  node_from 𝓝 fresh (all_of op ps) k =
      let (cs, k') = nodes_from 𝓝 fresh ps (k + 1) in (group (fresh k) op cs, k')

  pub nodes_from : {N : Type 0} → Numbers N → (ℕ → String) → Conditions N → ℕ → Nodes N × ℕ
  nodes_from 𝓝 fresh end k = (nil, k)
  nodes_from 𝓝 fresh (more p ps) k =
      let (c, k₁) = node_from 𝓝 fresh p k in
      let (cs, k₂) = nodes_from 𝓝 fresh ps k₁ in (cons c cs, k₂)

-- What a save may be: `none` where the fuel ran out or a null stands among the predicates of a
-- group, which `conditionFromNode(c) as ConditionNode` would let through; `some none` is null.
abbrev pub Saved : Type 0 → Type 0
Saved N = Option (Option (ConditionNode N))

module _ {N : Type 0} (𝓝 : Numbers N) where
  abbrev pub and_then : Saved N → Option (Conditions N) → Option (Conditions N)
  and_then (some (some p)) (some ps) = some (more p ps)
  and_then _ _ = none

  abbrev pub as_group : Combinator → Option (Conditions N) → Saved N
  as_group op (some ps) = some (some (all_of op ps))
  as_group op none = none

  -- `children.map(…)` with the recursive call handed in
  pub save_children : (DraftNode N → Saved N) → Nodes N → Option (Conditions N)
  save_children save nil = some end
  save_children save (cons c cs) = and_then (save c) (save_children save cs)

  pub save_normal : (DraftNode N → Saved N) → Option (DraftNode N) → Saved N
  unfolding save_children
  save_normal save none = some none
  save_normal save (some (contact c)) = some (some (leaf (leaf_from_contact 𝓝 c)))
  save_normal save (some (group i op cs)) = as_group op (save_children save cs)

  -- `conditionFromNode`; the fuel bounds the depth of the calls.
  pub condition_from : ℕ → Option (DraftNode N) → Saved N
  unfolding save_normal
  condition_from zero t = none
  condition_from (suc f) t = save_normal (λ c. condition_from f (some c)) (normalize t)
