-- ===== src/Ty/Examples.antt =====
-- The theorems on types at concrete types.
use cicest.Prelude.{◌↔◌, ◌≡◌, refl, Bool, true, false, some, none, ◌⊎◌}
use cicest.Ty.{
  ref, num, named, copy, move, ValueSemantics, Ty, ty, nil, cons, null, to, same_shape_as,
  compatible, contains_runtime_tag, common_type,
}
use cicest.Ty.Factory
use cicest.Ty.Factory.{Factory-compatible}
use cicest.Ty.Erasure.{erase, same_shape_as_iff}
use cicest.Ty.Compat.{mentions_never, compatible_preorder, compatible_keeps_runtime}
use cicest.Ty.Join.{IsLeast, common_type-IsLeast}

-- `num` and `runtime num`
abbrev num_ty : Bool → Ty
num_ty = ty num 0 0 nil null copy

-- `&runtime num` and `runtime &num`
abbrev ref_runtime_num : Ty
ref_runtime_num = ty ref 0 0 nil (to (num_ty true)) ValueSemantics.ref false

abbrev runtime_ref_num : Ty
runtime_ref_num = ty ref 0 0 nil (to (num_ty false)) ValueSemantics.ref true

-- `Box<num, runtime num>`
abbrev box : Ty
box = ty named 20 20 (cons (num_ty false) (cons (num_ty true) nil)) null move false

promotes : compatible (num_ty false) (num_ty true) ≡ true
unfolding compatible same_shape_as
promotes = refl

never_demotes : compatible (num_ty true) (num_ty false) ≡ false
unfolding compatible same_shape_as
never_demotes = refl

joined_refs :
    common_type ref_runtime_num runtime_ref_num
    ≡ some (ty ref 0 0 nil (to (num_ty true)) ValueSemantics.ref true)
unfolding common_type same_shape_as
joined_refs = refl

same_shape_as_iff_example :
    (same_shape_as ref_runtime_num runtime_ref_num ≡ true)
    ↔ (erase ref_runtime_num ≡ erase runtime_ref_num)
same_shape_as_iff_example = same_shape_as_iff ref_runtime_num runtime_ref_num

compatible_preorder_example :
    (compatible (num_ty false) (num_ty false) ≡ true)
    × (compatible (num_ty false) (num_ty true) ≡ true
        → compatible (num_ty true) (num_ty true) ≡ true
        → compatible (num_ty false) (num_ty true) ≡ true)
compatible_preorder_example = compatible_preorder (num_ty false) (num_ty true) (num_ty true)

compatible_keeps_runtime_example : contains_runtime_tag box ≡ true
unfolding mentions_never compatible same_shape_as contains_runtime_tag
compatible_keeps_runtime_example = compatible_keeps_runtime box box refl refl refl

common_type-IsLeast_example :
    ((j : Ty) × (common_type ref_runtime_num runtime_ref_num ≡ some j)
      × IsLeast ref_runtime_num runtime_ref_num j)
    ⊎ ((common_type ref_runtime_num runtime_ref_num ≡ none)
        × ((c : Ty)
            → compatible ref_runtime_num c ≡ true
            → compatible runtime_ref_num c ≡ true
            → ⊥))
common_type-IsLeast_example = common_type-IsLeast ref_runtime_num runtime_ref_num

num_factory :
    (compatible (Factory.num false) (Factory.num true) ≡ true)
    × (compatible (Factory.num true) (Factory.num false) ≡ false)
num_factory = Factory-compatible Factory.num Factory.of_num
