-- ===== src/Runtime/Layout/Slices.antt =====
-- crates/compact/runtime/src/compact_types.rs: the slices of a flattened value.
use midnight_rs.Base.{
  ℕ, zero, suc, ◌+◌, ◌-◌, ◌*◌, ◌<◌, ◌≡◌, refl, sym, ap, subst, ◌∙◌, true, false, Option, none, some,
  List, [], ◌∷◌, ◌++◌, inl, inr, leb, if◌then◌else◌, Bool-cases, length, length-append, All,
  append_assoc, arith,
}
use midnight_rs.Ir.Text.{eq_text}
use midnight_rs.Ir.Model.{Ty, Fields}
use midnight_rs.Runtime.Value.{Fab}
use midnight_rs.Runtime.Layout.{
  ◌>>?◌, to_usize, atom_count_for_type, layout_from, layout_from_fields, field_slice,
  element_atom_range, take, drop, sub_list,
}

pub >>?-eq-some :
    {A B : Type 0}
    → (m : Option A) → (k : A → Option B) → {b : B} → (m >>? k) ≡ some b
    → (a : A) × (m ≡ some a) × (k a ≡ some b)
>>?-eq-some none k h = ground arith
>>?-eq-some (some a) k h = (a, refl, h)

to_usize-eq : (n m : ℕ) → to_usize n ≡ some m → m ≡ n
to_usize-eq n m h = ground arith

pub drop-append : {X : Type 0} → (pre xs : List X) → drop (length pre) (pre ++ xs) ≡ xs
drop-append [] xs = refl
drop-append (x ∷ pre) xs = drop-append pre xs

pub take-append : {X : Type 0} → (xs ys : List X) → take (length xs) (xs ++ ys) ≡ xs
take-append [] ys = refl
take-append (x ∷ xs) ys = ap (λ l. x ∷ l) (take-append xs ys)

pub sub_list-append :
    {X : Type 0}
    → (pre xs ys : List X) → sub_list (length pre) (length pre + length xs) (pre ++ (xs ++ ys)) ≡ xs
sub_list-append pre xs ys =
    ap (λ n. take n (drop (length pre) (pre ++ (xs ++ ys)))) (omega arith)
    ∙ ap (λ l. take (length xs) l) (drop-append pre (xs ++ ys))
    ∙ take-append xs ys

absurd_none : {A B : Type 0} → {a : A} → none ≡ some a → B
absurd_none h = ground arith

some-eq : {A : Type 0} → (a b : A) → some a ≡ some b → a ≡ b
some-eq a b h = cc

-- The slot of a name at the head of a layout, and one further on
slot_head :
    {X : Type 0}
    → (n name : List ℕ) → (pre atoms ys : List X) → (rest : List (List ℕ × ℕ × ℕ)) → (start len : ℕ)
    → eq_text n name ≡ true
    → field_slice ((n, length pre, length atoms) ∷ rest) name ≡ some (start, len)
    → sub_list start (start + len) (pre ++ (atoms ++ ys)) ≡ atoms
slot_head n name pre atoms ys rest start len same h =
    sym (
      ap (λ (p : ℕ × ℕ). sub_list (p.0) (p.0 + p.1) (pre ++ (atoms ++ ys)))
        (some-eq _ _ (rw same at h)))
    ∙ sub_list-append pre atoms ys

slot_tail :
    (n name : List ℕ)
    → (start len : ℕ) → (rest : List (List ℕ × ℕ × ℕ)) → (found : Option (ℕ × ℕ))
    → eq_text n name ≡ false
    → field_slice ((n, start, len) ∷ rest) name ≡ found
    → field_slice rest name ≡ found
slot_tail n name start len rest found other h = rw other at h

drop-plus :
    {X : Type 0} → (pre xs : List X) → (n : ℕ) → drop (length pre + n) (pre ++ xs) ≡ drop n xs
drop-plus [] xs n = ap (λ k. drop k xs) (omega arith)
drop-plus (x ∷ pre) xs n =
    let shift : length (x ∷ pre) + n ≡ suc (length pre + n) = omega arith in
    ap (λ k. drop k (x ∷ (pre ++ xs))) shift ∙ drop-plus pre xs n

sub_list-plus :
    {X : Type 0}
    → (pre xs : List X) → (start width : ℕ)
    → sub_list (length pre + start) (length pre + start + width) (pre ++ xs)
      ≡ sub_list start (start + width) xs
sub_list-plus pre xs start width =
    ap (λ k. take k (drop (length pre + start) (pre ++ xs))) (omega arith)
    ∙ ap (λ l. take (start + width - start) l) (drop-plus pre xs start)

module _ (fab : Fab) where
  layout_next :
      (n : List ℕ)
      → (t : Ty) → (fs : Fields) → (offset len : ℕ) → (layout : List (List ℕ × ℕ × ℕ))
      → atom_count_for_type fab t ≡ some len
      → layout_from fab offset (Fields.more_fields n t fs) ≡ some layout
      → (rest : List (List ℕ × ℕ × ℕ)) × (layout_from fab (offset + len) fs ≡ some rest)
        × ((n, offset, len) ∷ rest ≡ layout)
  layout_next n t fs offset len layout count p =
      let (width, at_width, q) = >>?-eq-some (atom_count_for_type fab t) _ p in
      let (after, at_after, r) = >>?-eq-some (to_usize (offset + width)) _ q in
      let (rest, at_rest, made) = >>?-eq-some (layout_from fab after fs) _ r in
      let same_width : width ≡ len = some-eq _ _ (sym at_width ∙ count) in
      (
        rest,
        subst (λ o. layout_from fab o fs ≡ some rest)
            (to_usize-eq _ _ at_after ∙ ap (λ w. offset + w) same_width) at_rest,
        subst (λ w. (n, offset, w) ∷ rest ≡ layout) same_width (some-eq _ _ made),
      )

  vector_range :
      (n : ℕ)
      → (t : Ty) → (width i start end : ℕ) → atom_count_for_type fab t ≡ some width
      → element_atom_range fab (Ty.vector n t) i ≡ some (start, end)
      → (i < n) × (start ≡ i * width) × (end ≡ i * width + width)
  unfolding element_atom_range
  vector_range n t width i start end of_type h =
      let (len, is_len, q) = >>?-eq-some (to_usize n) _ h in
      elim (Bool-cases (leb len i)) [
        | inl past ↦ absurd_none (rw past at q)
        | inr inside ↦
            let (stride, is_stride, r) =
              >>?-eq-some (atom_count_for_type fab t) _ (rw inside at q) in
            let (from, is_from, u) = >>?-eq-some (to_usize (i * stride)) _ r in
            let (to, is_to, made) = >>?-eq-some (to_usize (from + stride)) _ u in
            let same_len = to_usize-eq n len is_len in
            let same = some-eq _ _ (sym is_stride ∙ of_type) in
            let starts = to_usize-eq _ _ is_from ∙ ap (λ w. i * w) same in
            let pair = some-eq _ _ made in
            (
              ground arith,
              sym (ap (λ (p : ℕ × ℕ). p.0) pair) ∙ starts,
              sym (ap (λ (p : ℕ × ℕ). p.1) pair)
                  ∙ to_usize-eq _ _ is_to
                  ∙ ap (λ w. w + stride) starts
                  ∙ ap (λ w. i * width + w) same,
            )
      ]

module _ (fab : Fab) {X : Type 0} where
  -- For each field a list of as many atoms as its type has
  pub data Fits : Fields → List (List X) → Type 0 where
    none_left : Fits Fields.no_fields []
    next :
        {n : List ℕ} {t : Ty} {fs : Fields} {p : List X} {ps : List (List X)}
        → atom_count_for_type fab t ≡ some (length p)
        → Fits fs ps
        → Fits (Fields.more_fields n t fs) (p ∷ ps)

  abbrev pub flatten : List (List X) → List X
  flatten [] = []
  flatten (p ∷ ps) = p ++ flatten ps

  -- The part of the first field of the name
  abbrev pub part_named : Fields → List (List X) → List ℕ → Option (List X)
  part_named (Fields.more_fields n t fs) (p ∷ ps) name =
      if eq_text n name then some p else part_named fs ps name
  part_named _ _ name = none

  slice_from :
      (fs : Fields)
      → (ps : List (List X)) → Fits fs ps
      → (pre : List X) → (layout : List (List ℕ × ℕ × ℕ)) → (name : List ℕ) → (start len : ℕ)
      → layout_from fab (length pre) fs ≡ some layout
      → field_slice layout name ≡ some (start, len)
      → some (sub_list start (start + len) (pre ++ flatten ps)) ≡ part_named fs ps name
  slice_from Fields.no_fields ps fits pre [] name start len p h = ground arith
  slice_from Fields.no_fields ps fits pre (slot ∷ layout) name start len p h = ground arith
  slice_from (Fields.more_fields n t fs) [] fits pre layout name start len p h = elim fits [ ]
  slice_from (Fields.more_fields n t fs) (atoms ∷ ps) (next count fits) pre layout name start len p
        h =
      let (rest, at_rest, made) =
        layout_next fab n t fs (length pre) (length atoms) layout count p in
      let h' = ap (λ l. field_slice l name) made ∙ h in
      elim (Bool-cases (eq_text n name)) [
        | inl same ↦
            rw same
              (ap (λ l. some l) (slot_head n name pre atoms (flatten ps) rest start len same h'))
        | inr other ↦ rw other (
            ap (λ l. some (sub_list start (start + len) l))
              (sym (append_assoc pre atoms (flatten ps)))
            ∙ slice_from fs ps fits (pre ++ atoms) rest name start len
                (ap (λ o. layout_from fab o fs) (length-append pre atoms) ∙ at_rest)
                (slot_tail n name (length pre) (length atoms) rest (some (start, len)) other h'))
      ]

  -- A struct's value is its fields' atoms one after another: what the layout of the struct gives as the
  -- slice of a name is, of a list made of parts that fit the fields, the part of the first field of that
  -- name.
  pub layout-field_slice :
      (fs : Fields)
      → (ps : List (List X)) → Fits fs ps
      → (layout : List (List ℕ × ℕ × ℕ)) → (name : List ℕ) → (start len : ℕ)
      → layout_from_fields fab fs ≡ some layout
      → field_slice layout name ≡ some (start, len)
      → some (sub_list start (start + len) (flatten ps)) ≡ part_named fs ps name
  unfolding layout_from_fields
  layout-field_slice fs ps fits layout name start len p h =
      slice_from fs ps fits [] layout name start len p h

  abbrev pub part_at : List (List X) → ℕ → Option (List X)
  part_at [] i = none
  part_at (p ∷ ps) zero = some p
  part_at (p ∷ ps) (suc i) = part_at ps i

  element_slice :
      (width : ℕ)
      → (ps : List (List X)) → All (λ p. length p ≡ width) ps
      → (i : ℕ) → i < length ps
      → some (sub_list (i * width) (i * width + width) (flatten ps)) ≡ part_at ps i
  element_slice width [] fits i b = ground arith
  element_slice width (p ∷ ps) (fit, fits) zero b =
      let at_zero : 0 * width ≡ 0 = omega arith in
      ap (λ k. some (sub_list k (k + width) (p ++ flatten ps))) at_zero
      ∙ ap (λ w. some (sub_list 0 (0 + w) (p ++ flatten ps))) (sym fit)
      ∙ ap (λ l. some l) (sub_list-append [] p (flatten ps))
  element_slice width (p ∷ ps) (fit, fits) (suc i) b =
      let shift : suc i * width ≡ length p + i * width = grind arith in
      ap (λ k. some (sub_list k (k + width) (p ++ flatten ps))) shift
      ∙ ap (λ l. some l) (sub_list-plus p (flatten ps) (i * width) width)
      ∙ element_slice width ps fits i (omega arith)

  -- A vector's value is its elements' atoms one after another: the range of the atoms of an element of a
  -- vector is, in a list made of as many parts as the vector has elements, each of as many atoms as the
  -- element type has, the part at the element's index.
  pub element_atom_range-vector :
      (n : ℕ)
      → (t : Ty) → (ps : List (List X)) → length ps ≡ n
      → (width : ℕ) → atom_count_for_type fab t ≡ some width
      → All (λ p. length p ≡ width) ps
      → (i start end : ℕ) → element_atom_range fab (Ty.vector n t) i ≡ some (start, end)
      → some (sub_list start end (flatten ps)) ≡ part_at ps i
  unfolding element_atom_range
  element_atom_range-vector n t ps count width of_type fits i start end h =
      let (inside, starts, ends) = vector_range fab n t width i start end of_type h in
      ap (λ k. some (sub_list k end (flatten ps))) starts
      ∙ ap (λ k. some (sub_list (i * width) k (flatten ps))) ends
      ∙ element_slice width ps fits i (omega arith)
