-- ===== src/Runtime/Tests.antt =====
-- A struct and a vector on a machine whose points take two atoms.
use midnight_rs.Base.{ℕ, ◌+◌, ◌≡◌, refl, some, List, [], ◌∷◌}
use midnight_rs.Ir.Text.{bytes_of}
use midnight_rs.Ir.Model.{Curve, Ty, Fields}
use midnight_rs.Runtime.Layout.{
  sub_list, layout_from_fields, element_atom_range, atom_count_for_type,
}
use midnight_rs.Runtime.Layout.Slices.{Fits, layout-field_slice, element_atom_range-vector}
use midnight_rs.Interpreter.Tests.Machine.{demo_fab}

abbrev point : Ty
point = Ty.point Curve.jubjub

-- `struct S { a: Boolean, p: Point, b: Bytes<3> }`
abbrev fields : Fields
fields = Fields.more_fields (bytes_of "a") Ty.boolean (
    Fields.more_fields (bytes_of "p") point
      (Fields.more_fields (bytes_of "b") (Ty.bytes 3) Fields.no_fields))

abbrev parts : List (List ℕ)
parts = (1 ∷ []) ∷ (20 ∷ 21 ∷ []) ∷ (3 ∷ []) ∷ []

fits : Fits demo_fab fields parts
unfolding atom_count_for_type
fits = Fits.next refl (Fits.next refl (Fits.next refl Fits.none_left))

layout-field_slice_example :
    some (sub_list {A = ℕ} 1 (1 + 2) (1 ∷ 20 ∷ 21 ∷ 3 ∷ [])) ≡ some (20 ∷ 21 ∷ [])
unfolding layout_from_fields
layout-field_slice_example =
    layout-field_slice demo_fab fields parts fits
      ((bytes_of "a", 0, 1) ∷ (bytes_of "p", 1, 2) ∷ (bytes_of "b", 3, 1) ∷ []) (bytes_of "p") 1 2
      refl refl

element_atom_range-vector_example :
    some (sub_list {A = ℕ} 2 4 (1 ∷ 2 ∷ 3 ∷ 4 ∷ [])) ≡ some (3 ∷ 4 ∷ [])
unfolding element_atom_range
element_atom_range-vector_example =
    element_atom_range-vector demo_fab {X = ℕ} 2 point ((1 ∷ 2 ∷ []) ∷ (3 ∷ 4 ∷ []) ∷ []) refl 2
      refl (refl, (refl, tt)) 1 2 4 refl
