-- ===== src/Rule/Condition/Leaf.antt =====
-- A leaf of a condition that is loaded into a contact and saved again.
use iot_saas.Prelude.{
  String, false, not, ◌≡◌, refl, sym, ap, ◌∙◌, Option, none, some, List, [], ◌∷◌, map, Bool-cases,
  inl, inr, if◌then◌else◌, All, keep,
}
use iot_saas.Prelude.Text.{IsPlain, is_empty, join, comma_list, comma_list-join}
use iot_saas.Prelude.Numbers.{Numbers}
use iot_saas.Rule.Draft.{RhsKind, ContactDraft, given}
use iot_saas.Rule.Condition.{
  RhsSpec, empty_contact, ConditionLeaf, Arity, arity_of, has_hysteresis, contact_from_leaf,
  with_rhs, rhs_for, build_rhs, leaf_from_contact,
}

module _ {N : Type 0} (𝓝 : Numbers N) where
  -- A number that `String` writes with no comma and no space, and that `Number` reads back.
  pub record Readable (n : N) : Type 0 where
    pub plain : IsPlain (𝓝.to_text n)
    pub filled : is_empty (𝓝.to_text n) ≡ false
    pub back : 𝓝.of_text (𝓝.to_text n) ≡ n
    pub no_nan : 𝓝.is_nan n ≡ false

  -- The right-hand side that an operator of this arity takes.
  abbrev pub RhsFits : Arity → Option (RhsSpec N) → Type 0
  RhsFits Arity.nothing none = Unit
  RhsFits Arity.range (some (RhsSpec.range lo hi)) = Unit
  RhsFits Arity.set (some (RhsSpec.set vs)) = All Readable vs
  RhsFits Arity.one (some (RhsSpec.static v)) = Unit
  RhsFits Arity.one (some (RhsSpec.metric d m)) = Unit
  RhsFits _ _ = ⊥

  -- What the backend accepts of a leaf: the operator's right-hand side, and hysteresis only where the
  -- operator takes it.
  pub record LeafFits (l : ConditionLeaf N) : Type 0 where
    pub rhs : RhsFits (arity_of l.operator) l.rhs
    pub hysteresis : has_hysteresis l.operator ≡ false → given l.hysteresis 𝓝.zero ≡ 𝓝.zero

  -- The defaults written out: an empty device, and no hysteresis.
  abbrev pub filled_leaf : ConditionLeaf N → ConditionLeaf N
  filled_leaf l = record l {
    device_id = some (given l.device_id "");
    hysteresis = some (given l.hysteresis 𝓝.zero);
  }

  read_back :
      (vs : List N)
      → All Readable vs
      → keep (λ n. not (𝓝.is_nan n)) (map 𝓝.of_text (map 𝓝.to_text vs)) ≡ vs
  read_back [] h = refl
  read_back (v ∷ vs) (h, hs) = rw (h.back, h.no_nan, read_back vs hs) refl

  All-IsPlain : (vs : List N) → All Readable vs → All IsPlain (map 𝓝.to_text vs)
  All-IsPlain [] h = tt
  All-IsPlain (v ∷ vs) (h, hs) = (h.plain, All-IsPlain vs hs)

  All-filled : (vs : List N) → All Readable vs → All (λ x. is_empty x ≡ false) (map 𝓝.to_text vs)
  All-filled [] h = tt
  All-filled (v ∷ vs) (h, hs) = (h.filled, All-filled vs hs)

  set_back :
      (vs : List N)
      → All Readable vs
      → keep (λ n. not (𝓝.is_nan n)) (map 𝓝.of_text (comma_list (join ", " (map 𝓝.to_text vs))))
        ≡ vs
  set_back vs h =
      ap (λ (ts : List String). keep (λ n. not (𝓝.is_nan n)) (map 𝓝.of_text ts))
        (comma_list-join (map 𝓝.to_text vs) (All-IsPlain vs h) (All-filled vs h))
      ∙ read_back vs h

  with_rhs-keeps :
      (c : ContactDraft N) (r : Option (RhsSpec N))
      → ((with_rhs 𝓝 c r).device_id ≡ c.device_id)
        × ((with_rhs 𝓝 c r).metric ≡ c.metric)
        × ((with_rhs 𝓝 c r).operator ≡ c.operator)
        × ((with_rhs 𝓝 c r).hysteresis ≡ c.hysteresis)
  unfolding with_rhs
  with_rhs-keeps c none = (refl, refl, refl, refl)
  with_rhs-keeps c (some (RhsSpec.static v)) = (refl, refl, refl, refl)
  with_rhs-keeps c (some (RhsSpec.range lo hi)) = (refl, refl, refl, refl)
  with_rhs-keeps c (some (RhsSpec.set vs)) = (refl, refl, refl, refl)
  with_rhs-keeps c (some (RhsSpec.metric d m)) = (refl, refl, refl, refl)

  rhs_back :
      (c : ContactDraft N) (a : Arity) (r : Option (RhsSpec N))
      → c.rhs_kind ≡ RhsKind.static
      → RhsFits a r
      → rhs_for 𝓝 (with_rhs 𝓝 c r) a ≡ r
  unfolding with_rhs rhs_for
  rhs_back c Arity.nothing none k h = refl
  rhs_back c Arity.range (some (RhsSpec.range lo hi)) k h = refl
  rhs_back c Arity.set (some (RhsSpec.set vs)) k h =
      ap (λ ws. some (RhsSpec.set ws)) (set_back vs h)
  rhs_back c Arity.one (some (RhsSpec.static v)) k h = rw k refl
  rhs_back c Arity.one (some (RhsSpec.metric d m)) k h = refl
  rhs_back c _ _ k h = elim h [ ]

  -- The contact that a leaf is loaded into, before its right-hand side.
  abbrev loaded : String → ConditionLeaf N → ContactDraft N
  loaded id l = record (empty_contact 𝓝 id (given l.device_id "")) {
    metric = l.metric;
    operator = l.operator;
    hysteresis = given l.hysteresis 𝓝.zero;
  }

  hysteresis_back :
      (l : ConditionLeaf N)
      → LeafFits l
      → (if has_hysteresis l.operator then given l.hysteresis 𝓝.zero else 𝓝.zero)
        ≡ given l.hysteresis 𝓝.zero
  hysteresis_back l h = elim (Bool-cases (has_hysteresis l.operator)) [
    | inl e ↦ rw e
    | inr e ↦ rw e (sym (h.hysteresis e))
  ]

  pub leaf_back :
      (id : String) (l : ConditionLeaf N)
      → LeafFits l
      → leaf_from_contact 𝓝 (contact_from_leaf 𝓝 id l) ≡ filled_leaf l
  unfolding leaf_from_contact contact_from_leaf build_rhs empty_contact
  leaf_back id l h =
      let (d, m, o, y) = with_rhs-keeps (loaded id l) l.rhs in
      let r : build_rhs 𝓝 (with_rhs 𝓝 (loaded id l) l.rhs) ≡ l.rhs =
        rw o (rhs_back (loaded id l) (arity_of l.operator) l.rhs refl h.rhs) in
      let g : (if has_hysteresis (with_rhs 𝓝 (loaded id l) l.rhs).operator
            then (with_rhs 𝓝 (loaded id l) l.rhs).hysteresis
            else 𝓝.zero)
          ≡ given l.hysteresis 𝓝.zero =
        rw (o, y) (hysteresis_back l h) in
      λ i. record {
        device_id = some (d i);
        metric = m i;
        operator = o i;
        rhs = r i;
        hysteresis = some (g i);
      }
