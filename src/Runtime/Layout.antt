-- ===== src/Runtime/Layout.antt =====
-- crates/compact/runtime/src/compact_types.rs: where the parts of a flattened value stand.
pub mod Slices
use midnight_rs.Base.{
  ℕ, zero, suc, ◌+◌, ◌-◌, ◌*◌, ◌^◌, Bool, true, false, ◌&&◌, Option, none, some, List, [], ◌∷◌, ltb,
  leb, ◌==◌, if◌then◌else◌, all, length,
}
use midnight_rs.Ir.Text.{bytes_of, eq_text}
use midnight_rs.Ir.Model.{Curve, FieldType, Ty, Tys, Fields, resolved}
use midnight_rs.Runtime.Value.{Segment, AlignedValue, Fab, is_foreign}

infixl 5 ◌>>?◌
abbrev pub ◌>>?◌ : {A B : Type 0} → Option A → (A → Option B) → Option B
none >>? k = none
some a >>? k = k a

-- A `usize` result of a checked operation, or of a conversion.
abbrev pub to_usize : ℕ → Option ℕ
to_usize n = if ltb n (2 ^ 64) then some n else none

-- `types.len()`
abbrev pub types_length : Tys → ℕ
types_length Tys.no_types = 0
types_length (Tys.more_types t ts) = suc (types_length ts)

-- `types.get(i)`
abbrev pub type_at : Tys → ℕ → Option Ty
type_at Tys.no_types i = none
type_at (Tys.more_types t ts) zero = some t
type_at (Tys.more_types t ts) (suc i) = type_at ts i

-- `types.get(..i)`
abbrev pub types_before : Tys → ℕ → Option Tys
types_before ts zero = some Tys.no_types
types_before Tys.no_types (suc i) = none
types_before (Tys.more_types t ts) (suc i) =
    types_before ts i >>? λ before. some (Tys.more_types t before)

module _ (fab : Fab) where
  unfoldable mutual
    pub atom_count_for_type : Ty → Option ℕ
    atom_count_for_type (Ty.field f) = some (if is_foreign f then fab.foreign_width f else 1)
    atom_count_for_type Ty.boolean = some 1
    atom_count_for_type (Ty.unsigned maxval) = some 1
    atom_count_for_type (Ty.bytes n) = some 1
    atom_count_for_type (Ty.point Curve.jubjub) = some 2
    atom_count_for_type (Ty.point c) = some (fab.point_width c)
    atom_count_for_type (Ty.opaque name) =
        some (if eq_text name (bytes_of "JubjubPoint") then 2 else 1)
    atom_count_for_type (Ty.tuple ts) = atoms_of 0 ts
    atom_count_for_type (Ty.vector n t) =
        atom_count_for_type t >>? λ width. to_usize n >>? λ len. to_usize (width * len)
    atom_count_for_type (Ty.struct name fs) = atoms_of_fields 0 fs
    atom_count_for_type (Ty.enum name variants) = some 1
    atom_count_for_type (Ty.alias nominal name t) = atom_count_for_type t
    atom_count_for_type (Ty.contract name cs) = some 1
    atom_count_for_type (Ty.adt name found) = none
    atom_count_for_type (Ty.type_var v) = none
    atom_count_for_type Ty.unknown = none

    -- `try_fold`, from a total
    pub atoms_of : ℕ → Tys → Option ℕ
    atoms_of total Tys.no_types = some total
    atoms_of total (Tys.more_types t ts) =
        atom_count_for_type t >>? λ n. to_usize (total + n) >>? λ sum. atoms_of sum ts

    pub atoms_of_fields : ℕ → Fields → Option ℕ
    atoms_of_fields total Fields.no_fields = some total
    atoms_of_fields total (Fields.more_fields name t fs) =
        atom_count_for_type t >>? λ n. to_usize (total + n) >>? λ sum. atoms_of_fields sum fs

  -- `StructLayout`: name, offset and length of each field, in declaration order
  abbrev pub layout_from : ℕ → Fields → Option (List (List ℕ × ℕ × ℕ))
  layout_from offset Fields.no_fields = some []
  layout_from offset (Fields.more_fields name t fs) = atom_count_for_type t >>? λ len.
      to_usize (offset + len) >>? λ next.
      layout_from next fs >>? λ rest. some ((name, offset, len) ∷ rest)

  unfoldable pub layout_from_fields : Fields → Option (List (List ℕ × ℕ × ℕ))
  unfolding atom_count_for_type
  layout_from_fields fs = layout_from 0 fs

  unfoldable pub element_atom_range : Ty → ℕ → Option (ℕ × ℕ)
  unfolding atom_count_for_type
  element_atom_range ty i = elim (resolved ty) [
    | Ty.vector n t ↦ to_usize n >>? λ len.
        if leb len i
        then none
        else (atom_count_for_type t >>? λ stride. to_usize (i * stride) >>? λ start.
            to_usize (start + stride) >>? λ end. some (start, end))
    | Ty.tuple ts ↦ types_before ts i >>? λ before. atoms_of 0 before >>? λ start.
        type_at ts i >>? λ t.
        atom_count_for_type t >>? λ width. to_usize (start + width) >>? λ end. some (start, end)
    | _ ↦ none
  ]

abbrev pub field_slice : List (List ℕ × ℕ × ℕ) → List ℕ → Option (ℕ × ℕ)
field_slice [] name = none
field_slice ((n, offset, len) ∷ layout) name =
    if eq_text n name then some (offset, len) else field_slice layout name

abbrev pub element_count : Ty → Option ℕ
element_count ty = elim (resolved ty) [
  | Ty.vector n t ↦ to_usize n
  | Ty.tuple ts ↦ some (types_length ts)
  | _ ↦ none
]

abbrev pub element_type_at : Ty → Option ℕ → Option Ty
element_type_at ty i = elim (resolved ty) [
  | Ty.vector n t ↦ some t
  | Ty.tuple ts ↦ i >>? λ k. type_at ts k
  | _ ↦ none
]

abbrev pub take {ℓ} : {A : Type ℓ} → ℕ → List A → List A
take zero xs = []
take (suc n) [] = []
take (suc n) (x ∷ xs) = x ∷ take n xs

abbrev pub drop {ℓ} : {A : Type ℓ} → ℕ → List A → List A
drop zero xs = xs
drop (suc n) [] = []
drop (suc n) (x ∷ xs) = drop n xs

-- `x[start..end]`, where end is no more than the length
abbrev pub sub_list {ℓ} : {A : Type ℓ} → ℕ → ℕ → List A → List A
sub_list start end xs = take (end - start) (drop start xs)

abbrev pub is_atom : Segment → Bool
is_atom Segment.choice = false
is_atom _ = true

abbrev pub lines_up : AlignedValue → Bool
lines_up av = length av.alignment == length av.value && all is_atom av.alignment

unfoldable pub slice_atoms : AlignedValue → ℕ × ℕ → Option AlignedValue
slice_atoms av (start, end) =
    if lines_up av && leb end (length av.value)
    then some (record {
      value = sub_list start end av.value;
      alignment = sub_list start end av.alignment;
    })
    else none
