-- ===== src/Lir/Place.antt =====
-- compiler/cstc_lir/include/cstc_lir/lir.hpp: `LirPlace`, a local and a path of fields from it.
use cicest.Prelude.{◌≡◌, refl, ap, sym, ◌∙◌, List, [], ◌∷◌, ◌++◌, append_assoc, append-nil}
use cicest.Symbol.{Symbol}
use cicest.Lir.{LirPlace, LirPlaceKind, LirLocalId}

abbrev pub local : LirLocalId → LirPlace
local id = record { kind = LirPlaceKind.local; local_id = id; field_path = [] }

abbrev pub field : LirLocalId → Symbol → LirPlace
field id name = record { kind = LirPlaceKind.field; local_id = id; field_path = name ∷ [] }

unfoldable pub project : LirPlace → Symbol → LirPlace
project place name = record place {
  kind = LirPlaceKind.field;
  field_path = place.field_path ++ name ∷ [];
}

-- A row of projections, as nested field accesses make them.
unfoldable pub project_all : LirPlace → List Symbol → LirPlace
unfolding project
project_all place [] = place
project_all place (name ∷ names) = project_all (project place name) names

project_all-field :
    (id : LirLocalId) (path names : List Symbol)
    → project_all (record { kind = LirPlaceKind.field; local_id = id; field_path = path }) names
      ≡ record { kind = LirPlaceKind.field; local_id = id; field_path = path ++ names }
unfolding project_all
project_all-field id path [] =
    ap (λ fields. record { kind = LirPlaceKind.field; local_id = id; field_path = fields })
      (sym (append-nil path))
project_all-field id path (name ∷ names) =
    project_all-field id (path ++ name ∷ []) names
    ∙ ap (λ fields. record { kind = LirPlaceKind.field; local_id = id; field_path = fields })
        (append_assoc path (name ∷ []) names)

-- Projections from a local lead to a field place of that local, whose path has their names in order, and `field`
-- is the first of them.
pub project_all_lem :
    (id : LirLocalId) (name : Symbol) (names : List Symbol)
    → (project (local id) name ≡ field id name)
      × (project_all (local id) (name ∷ names)
          ≡ record { kind = LirPlaceKind.field; local_id = id; field_path = name ∷ names })
unfolding project_all
project_all_lem id name names = (refl, project_all-field id (name ∷ []) names)
