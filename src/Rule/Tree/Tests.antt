-- ===== src/Rule/Tree/Tests.antt =====
-- The tree operations run on concrete trees.
use iot_saas.Prelude.{ℕ, Bool, ◌≡◌, refl, none, some, map}
use iot_saas.Rule.Draft.{and, ContactDraft, contact}
use iot_saas.Rule.Tree.{
  normalize, contacts, contacts_of, find_node, insert_beside, map_node, remove_node, update_contact,
  set_group_op,
}
use iot_saas.Rule.Tree.Normal.{IsNormalTree, normalize-IsNormal}
use iot_saas.Rule.Tree.Fold.{fold, fold_tree}
use iot_saas.Rule.Tree.Meaning.{truth, normalize_sound}
use iot_saas.Rule.Tree.Beside.{replace, block}
use iot_saas.Rule.Tree.Insert.{insert_beside_sound}
use iot_saas.Rule.Tree.Ids.{ids, count, distinct, HasDistinctIds}
use iot_saas.Rule.Tree.Remove.{emptied, remove_node_sound}
use iot_saas.Rule.Tree.Change.{truth_of_tree, patched, contacts-update_contact, set_group_op_sound}
use iot_saas.Samples.{above, and_or, untidy, new_value}

and_or-HasDistinctIds : HasDistinctIds and_or
unfolding ids count distinct
and_or-HasDistinctIds = refl

normalize-IsNormal_example : IsNormalTree (normalize (some untidy))
normalize-IsNormal_example = normalize-IsNormal (some untidy)

normalize_sound_example :
    ((ρ : ContactDraft ℕ → Bool)
      → fold_tree (truth ρ) (normalize (some untidy)) ≡ fold_tree (truth ρ) (some untidy))
    × (contacts (normalize (some untidy)) ≡ contacts (some untidy))
normalize_sound_example = normalize_sound (some untidy)

insert_beside_sound_example :
    ((ρ : ContactDraft ℕ → Bool)
      → fold_tree (truth ρ) (insert_beside "new" (some and_or) "b" (contact (above "d" 5)) and)
        ≡ fold (truth ρ) (map_node (replace "b" (block "new" and (contact (above "d" 5)))) and_or))
    × (contacts (insert_beside "new" (some and_or) "b" (contact (above "d" 5)) and)
        ≡ contacts_of (map_node (replace "b" (block "new" and (contact (above "d" 5)))) and_or))
insert_beside_sound_example =
    insert_beside_sound "new" "b" (contact (above "d" 5)) and and_or and_or-HasDistinctIds

remove_node_sound_example :
    IsNormalTree (remove_node (some and_or) "b")
    × (find_node (remove_node (some and_or) "b") "b" ≡ none)
    × ((ρ : ContactDraft ℕ → Bool)
        → fold_tree (truth ρ) (remove_node (some and_or) "b")
          ≡ fold (truth ρ) (map_node (replace "b" emptied) and_or))
    × (contacts (remove_node (some and_or) "b")
        ≡ contacts_of (map_node (replace "b" emptied) and_or))
remove_node_sound_example = remove_node_sound and_or "b"

contacts-update_contact_example :
    contacts (update_contact (some and_or) "c" new_value)
    ≡ map (patched "c" new_value) (contacts (some and_or))
contacts-update_contact_example = contacts-update_contact "c" new_value (some and_or)

set_group_op_sound_example :
    ((ρ : ContactDraft ℕ → Bool)
      → fold_tree (truth ρ) (set_group_op (some and_or) "any" and)
        ≡ truth_of_tree "any" and ρ (some and_or))
    × (contacts (set_group_op (some and_or) "any" and) ≡ contacts (some and_or))
    × IsNormalTree (set_group_op (some and_or) "any" and)
set_group_op_sound_example = set_group_op_sound "any" and (some and_or)
