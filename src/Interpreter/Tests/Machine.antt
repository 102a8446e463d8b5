-- ===== src/Interpreter/Tests/Machine.antt =====
-- A small machine: the ledger's encoding on numbers and bytes.
use midnight_rs.Base.{
  ℕ, ◌+◌, ◌*◌, ◌^◌, none, some, List, [], ◌∷◌, ◌++◌, ltb, ◌==◌, if◌then◌else◌, Result, err,
}
use midnight_rs.Runtime.Value.{Segment, AlignedValue, Value, InterpreterError, ArithOp, Fab}
use midnight_rs.Runtime.Encode.{le_bytes}
use midnight_rs.Interpreter.Numbers.{le_value}

abbrev before : ℕ → List ℕ → List ℕ
before b [] = if b == 0 then [] else b ∷ []
before b (c ∷ cs) = b ∷ c ∷ cs

abbrev trim : List ℕ → List ℕ
trim [] = []
trim (b ∷ bs) = before b (trim bs)

abbrev pub number_of_width : ℕ → ℕ → AlignedValue
number_of_width width n = record {
  value = trim (le_bytes width n) ∷ [];
  alignment = Segment.byte_atom width ∷ [];
}

abbrev joined_values : List AlignedValue → List (List ℕ)
joined_values [] = []
joined_values (av ∷ avs) = av.value ++ joined_values avs

abbrev joined_alignments : List AlignedValue → List Segment
joined_alignments [] = []
joined_alignments (av ∷ avs) = av.alignment ++ joined_alignments avs

abbrev field_arith : ArithOp → ℕ → ℕ → ℕ
field_arith ArithOp.mul a b = a * b
field_arith _ a b = a + b

abbrev no_value : {A : Type 0} → Result InterpreterError A
no_value = err InterpreterError.unsupported

abbrev pub demo_fab : Fab
demo_fab = record {
  of_bool = λ b. number_of_width 1 (if b then 1 else 0);
  of_u8 = number_of_width 1;
  of_u64 = number_of_width 8;
  of_u128 = number_of_width 16;
  of_unit = record { value = []; alignment = [] };
  of_fr = λ n. record { value = trim (le_bytes 32 n) ∷ []; alignment = Segment.field_atom ∷ [] };
  concat = λ parts. record { value = joined_values parts; alignment = joined_alignments parts };
  new_aligned = λ atoms segments. some (record { value = atoms; alignment = segments });
  atom_of_bytes = trim;
  atom_to_u128 = λ atom. if ltb (le_value atom) (2 ^ 128) then some (le_value atom) else none;
  fr_of_u128 = λ n. n;
  fr_of_bytes = λ bs. some (le_value bs);
  fr_bytes = le_bytes 32;
  fr_of_atoms = λ atoms. elim atoms [ atom ∷ [] ↦ some (le_value atom) | _ ↦ none ];
  fr_arith = field_arith;
  empty_opaque = record { value = [] ∷ []; alignment = Segment.compress ∷ [] };
  point_default = λ c. record {
    value = [] ∷ [] ∷ [];
    alignment = Segment.field_atom ∷ Segment.field_atom ∷ [];
  };
  point_width = λ c. 2;
  point_encode = λ c v. no_value;
  foreign_width = λ f. 2;
  foreign_zero = λ f. record {
    value = [] ∷ [] ∷ [];
    alignment = Segment.field_atom ∷ Segment.field_atom ∷ [];
  };
  foreign_encode = λ f v. no_value;
  foreign_arith = λ f op l r. no_value;
  foreign_of_bytes = λ f bs. Value.void;
  foreign_bytes = λ f v. no_value;
}
