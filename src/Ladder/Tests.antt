-- ===== src/Ladder/Tests.antt =====
-- The ladder drawing run on a concrete tree.
use iot_saas.Prelude.{◌≡◌, some}
use iot_saas.Ladder.{LadderLayout, layout_condition}
use iot_saas.Ladder.Cells.{DrawsTree, layout_condition_sound}
use iot_saas.Samples.{and_or-IsNormal, and_or}

layout_condition_sound_example :
    (l : LadderLayout) × (layout_condition (some and_or) ≡ some l) × DrawsTree (some and_or) l
layout_condition_sound_example = layout_condition_sound (some and_or) and_or-IsNormal
