-- ===== src/Rule/Draft.antt =====
-- The condition part of a rule draft (frontend/src/lib/rule-draft.ts): contacts, groups and the
-- tree. `N` stands for JavaScript's number, which the tree only carries.
use iot_saas.Prelude.{String, Bool, true, false, Option, none, some}

pub data Combinator : Type 0 where
  and or : Combinator

-- `===` on combinators
abbrev pub same_op : Combinator → Combinator → Bool
same_op and and = true
same_op or or = true
same_op _ _ = false

pub data RhsKind : Type 0 where
  static metric : RhsKind

pub record ContactDraft (N : Type 0) : Type 0 where
  pub id : String
  pub device_id : String
  pub metric : String
  pub operator : String
  pub hysteresis : N
  pub rhs_kind : RhsKind
  pub value : N
  pub low : N
  pub high : N
  pub set_text : String
  pub rhs_device_id : String
  pub rhs_metric : String

-- `DraftNode` is a contact or a `GroupDraft`, whose fields `id`, `op` and `children` the second
-- constructor holds.
mutual
  pub data DraftNode (N : Type 0) : Type 0 where
    contact : ContactDraft N → DraftNode N
    group : String → Combinator → Nodes N → DraftNode N

  pub data Nodes (N : Type 0) : Type 0 where
    nil : Nodes N
    cons : DraftNode N → Nodes N → Nodes N

module _ {N : Type 0} where
  -- `node.id`
  abbrev pub node_id : DraftNode N → String
  node_id (contact c) = c.id
  node_id (group i op cs) = i

  -- `[...xs, ...ys]`
  abbrev pub append : Nodes N → Nodes N → Nodes N
  append nil ys = ys
  append (cons x xs) ys = cons x (append xs ys)

-- Partial<Omit<ContactDraft, "kind" | "id">>: the fields that a patch gives.
pub record Patch (N : Type 0) : Type 0 where
  pub device_id : Option String
  pub metric : Option String
  pub operator : Option String
  pub hysteresis : Option N
  pub rhs_kind : Option RhsKind
  pub value : Option N
  pub low : Option N
  pub high : Option N
  pub set_text : Option String
  pub rhs_device_id : Option String
  pub rhs_metric : Option String

abbrev pub given : {A : Type 0} → Option A → A → A
given (some new) old = new
given none old = old

-- `{ ...n, ...patch }`
unfoldable pub apply_patch : {N : Type 0} → Patch N → ContactDraft N → ContactDraft N
apply_patch p c = record {
  id = c.id;
  device_id = given p.device_id c.device_id;
  metric = given p.metric c.metric;
  operator = given p.operator c.operator;
  hysteresis = given p.hysteresis c.hysteresis;
  rhs_kind = given p.rhs_kind c.rhs_kind;
  value = given p.value c.value;
  low = given p.low c.low;
  high = given p.high c.high;
  set_text = given p.set_text c.set_text;
  rhs_device_id = given p.rhs_device_id c.rhs_device_id;
  rhs_metric = given p.rhs_metric c.rhs_metric;
}
