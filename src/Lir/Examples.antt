-- ===== src/Lir/Examples.antt =====
-- The theorems at concrete constants and places.
use cicest.Prelude.{◌≡◌, [], ◌∷◌}
use cicest.Lir.{LirPlaceKind}
use cicest.Lir.Place.{local, field, project, project_all, project_all_lem}

sample_projections :
    (project (local 3) 20 ≡ field 3 20)
    × (project_all (local 3) (20 ∷ 21 ∷ [])
        ≡ record { kind = LirPlaceKind.field; local_id = 3; field_path = 20 ∷ 21 ∷ [] })
sample_projections = project_all_lem 3 20 (21 ∷ [])
