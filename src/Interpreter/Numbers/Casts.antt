-- ===== src/Interpreter/Numbers/Casts.antt =====
-- crates/compact/interpreter/src/lib.rs: the casts to a `Uint` type, and the numbers that values stand for.
use native.Mathlib.Numerals.{unary_clauses}
use midnight_rs.Base.{
  ℕ, zero, suc, ◌+◌, ◌*◌, ◌^◌, ◌≤◌, ◌<◌, ◌≡◌, ◌↔◌, inl, inr, refl, sym, ap, subst, ◌∙◌, List, [],
  ◌∷◌, ltb, if◌then◌else◌, length, Bool-cases, >>=-eq-ok, ok, ◌>>=◌, arith,
}
use midnight_rs.Ir.Model.{Ty, resolved}
use midnight_rs.Runtime.Value.{AlignedValue, Value, Try, Fab, ir_length, try_to_aligned_value}
use midnight_rs.Interpreter.Numbers.Bounds.{within_bounds}
use midnight_rs.Interpreter.Numbers.{
  le_value, single_number, single_atom, pad, padded_bytes, value_to_byte_string, uint_value,
  to_number, within, cast_to_uint, numeric_value,
}

-- The number that bytes write from place `i` on, the least significant first: each counts 256 ^ place.
abbrev pub weigh : ℕ → List ℕ → ℕ
weigh i [] = 0
weigh i (b ∷ bs) = b * 256 ^ i + weigh (suc i) bs

-- A single atom, and the number that its bytes write
pub record IsAtom (atoms : List (List ℕ)) (n : ℕ) : Type 0 where
  pub atom : List ℕ
  pub single : atoms ≡ atom ∷ []
  pub written : n ≡ weigh 0 atom

-- A byte string of `len` bytes or fewer, and the number that it writes
pub record IsByteString (len : ℕ) (v : Value) (n : ℕ) : Type 0 where
  pub av : AlignedValue
  pub at_atom : v ≡ Value.aligned av
  pub parts : IsAtom av.value n
  pub short : length parts.atom ≤ len
  pub addressable : len < 2 ^ 64

-- A value that is encoded as a single atom, and the number that the atom writes
pub record IsEncoded (fab : Fab) (v : Value) (n : ℕ) : Type 0 where
  pub av : AlignedValue
  pub encoded : try_to_aligned_value fab v ≡ ok av
  pub parts : IsAtom av.value n

-- The number that a value stands for at a type other than `Bytes`: an integer and a Boolean are their
-- own number, and anything else is the number that its encoding writes.
abbrev pub IsNumber : Fab → Value → ℕ → Type 0
IsNumber fab (Value.integer m) n = n ≡ m
IsNumber fab (Value.bool b) n = n ≡ (if b then 1 else 0)
IsNumber fab v n = IsEncoded fab v n

abbrev pub StandsFor : Fab → Ty → Value → ℕ → Type 0
StandsFor fab (Ty.bytes len) v n = IsByteString len v n
StandsFor fab ty v n = IsNumber fab v n

weigh-le_value : (i : ℕ) (bs : List ℕ) → weigh i bs ≡ 256 ^ i * le_value bs
weigh-le_value i [] = omega arith
weigh-le_value i (b ∷ bs) =
    step (weigh (suc i) bs) (le_value bs) (256 ^ i) (256 ^ suc i) (next_power i)
      (weigh-le_value (suc i) bs)
  where
    next_power : (i : ℕ) → 256 ^ suc i ≡ 256 ^ i * 256
    next_power i = simp unary_clauses (omega arith)

    step : (w v p q : ℕ) → q ≡ p * 256 → w ≡ q * v → b * p + w ≡ p * (b + 256 * v)
    step w v p q e h = let g : w ≡ p * 256 * v = h ∙ ap (λ t. t * v) e in ground (arith, g)

weigh-le_value_zero : (bs : List ℕ) → weigh 0 bs ≡ le_value bs
weigh-le_value_zero bs = omega (arith, weigh-le_value 0 bs)

le_value-pad : (n : ℕ) (bs : List ℕ) → length bs ≤ n → le_value (pad n bs) ≡ le_value bs
le_value-pad zero [] h = refl
le_value-pad zero (b ∷ bs) h = omega arith
le_value-pad (suc n) [] h = omega (arith, le_value-pad n [] (omega arith))
le_value-pad (suc n) (b ∷ bs) h = omega (arith, le_value-pad n bs (omega arith))

ok_same : {A : Type 0} {x y : A} → ◌≡◌ {A = Try A} (ok x) (ok y) → x ≡ y
ok_same h = cc

first_same : (a b : List ℕ) → ◌≡◌ {A = List (List ℕ)} (a ∷ []) (b ∷ []) → a ≡ b
first_same a b e = cc

module _ (fab : Fab) where
  single_number-IsAtom :
      (atoms : List (List ℕ)) (n : ℕ) → single_number atoms ≡ ok n ↔ IsAtom atoms n
  single_number-IsAtom [] n = (λ h. absurd (cc), λ a. absurd (none_single a.atom a.single))
    where
      none_single : (atom : List ℕ) → [] ≡ atom ∷ [] → ⊥
      none_single atom e = cc
  single_number-IsAtom (atom ∷ []) n = (
    λ h. record {
      atom = atom;
      single = refl;
      written = sym (ok_same h) ∙ sym (weigh-le_value_zero atom);
    },
    λ a. ap ok (
        ap le_value (first_same atom a.atom a.single)
        ∙ sym (a.written ∙ weigh-le_value_zero a.atom)),
  )
  single_number-IsAtom (atom ∷ other ∷ atoms) n =
      (λ h. absurd (cc), λ a. absurd (two_single a.atom a.single))
    where
      two_single : (a : List ℕ) → atom ∷ other ∷ atoms ≡ a ∷ [] → ⊥
      two_single a e = cc

  try_to_aligned_value-IsEncoded :
      (v : Value) (n : ℕ)
      → ((try_to_aligned_value fab v >>= λ av. single_number av.value) ≡ ok n) ↔ IsEncoded fab v n
  try_to_aligned_value-IsEncoded v n = (
    λ h.
        let (av, e, s) = >>=-eq-ok (try_to_aligned_value fab v) (λ av. single_number av.value) h in
        record { av = av; encoded = e; parts = (single_number-IsAtom av.value n).0 s },
    λ r. rw r.encoded ((single_number-IsAtom r.av.value n).1 r.parts),
  )

  numeric_value-IsNumber : (v : Value) (n : ℕ) → (numeric_value fab v ≡ ok n) ↔ IsNumber fab v n
  unfolding numeric_value
  numeric_value-IsNumber (Value.integer m) n = (λ h. sym (ok_same h), λ e. ap ok (sym e))
  numeric_value-IsNumber (Value.bool b) n = (λ h. sym (ok_same h), λ e. ap ok (sym e))
  numeric_value-IsNumber (Value.aligned av) n = try_to_aligned_value-IsEncoded (Value.aligned av) n
  numeric_value-IsNumber (Value.struct ms) n = try_to_aligned_value-IsEncoded (Value.struct ms) n
  numeric_value-IsNumber (Value.tuple vs) n = try_to_aligned_value-IsEncoded (Value.tuple vs) n
  numeric_value-IsNumber Value.void n = try_to_aligned_value-IsEncoded Value.void n

  single_atom_iff :
      (len : ℕ) (atoms : List (List ℕ)) (raw : List ℕ)
      → (single_atom len atoms ≡ ok raw) ↔ ((atoms ≡ raw ∷ []) × (length raw ≤ len))
  single_atom_iff len [] raw = (λ h. absurd (cc), λ (e, b). absurd (cc))
  single_atom_iff len (atom ∷ []) raw = elim (Bool-cases (ltb len (length atom))) [
    | inl long ↦ (λ h. absurd (cc), λ (e, b). absurd (ground arith))
    | inr short ↦ (λ h. (ground arith, ground arith), λ (e, b). ground arith)
  ]
  single_atom_iff len (atom ∷ other ∷ atoms) raw = (λ h. absurd (cc), λ (e, b). absurd (cc))

  length_fits : (len l : ℕ) → ir_length len ≡ ok l → (l ≡ len) × (len < 2 ^ 64)
  length_fits len l h = ground arith

  value_to_byte_string_ok :
      (v : Value) (len : ℕ) (raw : List ℕ)
      → value_to_byte_string v len ≡ ok raw
      → (av : AlignedValue) × ((v ≡ Value.aligned av) × (av.value ≡ raw ∷ []) × (length raw ≤ len))
  value_to_byte_string_ok (Value.aligned av) len raw h =
      let (single, short) = (single_atom_iff len av.value raw).0 h in (av, (refl, single, short))
  value_to_byte_string_ok (Value.bool b) len raw h = absurd (cc)
  value_to_byte_string_ok (Value.integer n) len raw h = absurd (cc)
  value_to_byte_string_ok (Value.struct ms) len raw h = absurd (cc)
  value_to_byte_string_ok (Value.tuple vs) len raw h = absurd (cc)
  value_to_byte_string_ok Value.void len raw h = absurd (cc)

  to_number-IsByteString :
      (len : ℕ) (v : Value) (n : ℕ) → to_number fab (Ty.bytes len) v ≡ ok n → IsByteString len v n
  unfolding padded_bytes
  to_number-IsByteString len v n h =
      let (l, fits, rest) =
        >>=-eq-ok (ir_length len) (λ l. padded_bytes v l >>= λ bs. ok (le_value bs)) h in
      let (same, addressable) = length_fits len l fits in
      let (bs, padded, number) = >>=-eq-ok (padded_bytes v l) (λ bs. ok (le_value bs)) rest in
      let (raw, read, full) = >>=-eq-ok (value_to_byte_string v l) (λ bs. ok (pad l bs)) padded in
      let (av, (at_atom, single, short)) = value_to_byte_string_ok v l raw read in
      record {
        av = av;
        at_atom = at_atom;
        parts = record {
          atom = raw;
          single = single;
          written =
              sym (ok_same number)
              ∙ ap le_value (sym (ok_same full))
              ∙ le_value-pad l raw short
              ∙ sym (weigh-le_value_zero raw);
        };
        short = subst (λ k. length raw ≤ k) same short;
        addressable = addressable;
      }

  IsByteString-to_number :
      (len : ℕ) (v : Value) (n : ℕ) → IsByteString len v n → to_number fab (Ty.bytes len) v ≡ ok n
  unfolding padded_bytes
  IsByteString-to_number len v n s =
      let read : value_to_byte_string v len ≡ ok s.parts.atom =
        ap (λ u. value_to_byte_string u len) s.at_atom
        ∙ (single_atom_iff len s.av.value s.parts.atom).1 (s.parts.single, s.short) in
      let fits : ir_length len ≡ ok len = length_in len s.addressable in
      rw (fits, read)
        (ap ok (
          le_value-pad len s.parts.atom s.short
          ∙ sym (weigh-le_value_zero s.parts.atom)
          ∙ sym s.parts.written))
    where
      length_in : (len : ℕ) → len < 2 ^ 64 → ir_length len ≡ ok len
      length_in len h = ground arith

  to_number-StandsFor :
      (ty : Ty) (v : Value) (n : ℕ) → (to_number fab ty v ≡ ok n) ↔ StandsFor fab ty v n
  to_number-StandsFor (Ty.bytes len) v n =
      (to_number-IsByteString len v n, IsByteString-to_number len v n)
  to_number-StandsFor Ty.boolean v n = numeric_value-IsNumber v n
  to_number-StandsFor Ty.unknown v n = numeric_value-IsNumber v n
  to_number-StandsFor (Ty.field f) v n = numeric_value-IsNumber v n
  to_number-StandsFor (Ty.unsigned m) v n = numeric_value-IsNumber v n
  to_number-StandsFor (Ty.point c) v n = numeric_value-IsNumber v n
  to_number-StandsFor (Ty.opaque s) v n = numeric_value-IsNumber v n
  to_number-StandsFor (Ty.vector k t) v n = numeric_value-IsNumber v n
  to_number-StandsFor (Ty.tuple ts) v n = numeric_value-IsNumber v n
  to_number-StandsFor (Ty.struct s fs) v n = numeric_value-IsNumber v n
  to_number-StandsFor (Ty.enum s ns) v n = numeric_value-IsNumber v n
  to_number-StandsFor (Ty.alias b s t) v n = numeric_value-IsNumber v n
  to_number-StandsFor (Ty.contract s cs) v n = numeric_value-IsNumber v n
  to_number-StandsFor (Ty.adt s as') v n = numeric_value-IsNumber v n
  to_number-StandsFor (Ty.type_var s) v n = numeric_value-IsNumber v n

within_iff :
    (n maxval : ℕ) (w : Value)
    → (within n maxval ≡ ok w) ↔ ((w ≡ Value.integer n) × (n ≤ maxval) × (n < 2 ^ 128))
unfolding uint_value
within_iff n maxval w = (within_bounds n maxval w, λ (e, bound, small). rw e (ground arith))

-- A cast to a `Uint` type gives a value exactly if the value that is cast stands for a number, at the type
-- that it is cast from, which is within the type's bound and within a `u128`, and the value that it
-- gives is that number. A byte string, of no more bytes than its type says, stands for the sum of its
-- bytes, each times 256 to the power of its place.
pub cast_to_uint-StandsFor :
    (fab : Fab) (v w : Value) (from : Ty) (maxval : ℕ)
    → (cast_to_uint fab v from maxval ≡ ok w) ↔ (
        (n : ℕ) × ((w ≡ Value.integer n)
          × StandsFor fab (resolved from) v n
          × (n ≤ maxval)
          × (n < 2 ^ 128)))
unfolding cast_to_uint
cast_to_uint-StandsFor fab v w from maxval = (
  λ h.
      let (n, p, q) = >>=-eq-ok (to_number fab (resolved from) v) (λ n. within n maxval) h in
      let (e, bound, small) = (within_iff n maxval w).0 q in
      (n, (e, (to_number-StandsFor fab (resolved from) v n).0 p, bound, small)),
  λ (n, (e, number, bound, small)).
      ap (λ t. t >>= λ k. within k maxval) ((to_number-StandsFor fab (resolved from) v n).1 number)
      ∙ (within_iff n maxval w).1 (e, bound, small),
)
