-- ===== src/Ir/Sexp/Progress.antt =====
-- crates/compact/analyzed-ir/src/sexp.rs: how far each piece of the reader gets in its input.
use midnight_rs.Base.{
  ℕ, zero, suc, ◌+◌, ◌≤◌, ◌<◌, ◌≡◌, refl, Bool, true, false, ◌||◌, not, Option, none, some, List,
  [], ◌∷◌, ◌++◌, leb, ◌==◌, if◌then◌else◌, length, pos, negsuc, arith, Bool-cases, inl, inr,
}
use midnight_rs.Ir.Datum.{Sexp, sym, str, int, bool, bytes, list, pair, Read, Problem, on_ok}
use midnight_rs.Ir.Atoms.{
  Escape, is_whitespace, is_delimiter, skip, skip_ws, span, token_of, read_atom, escape_of,
  is_hexdigit, from_hex, is_scalar, scalar_of, end_hex, read_escape, utf8, is_plain, on_stop,
  read_string, byte_of, on_byte, read_bytes,
}

-- The piece ended on an input of n bytes.
abbrev pub Ends {ℓ} : {A : Type ℓ} → ℕ → Read A → Type 0
Ends n (Read.ok a rest) = length rest < n
Ends n (Read.err p rest) = length rest ≤ n
Ends n Read.out_of_fuel = ⊥

pub Ends-on_ok {ℓ κ} :
    {A : Type ℓ} {B : Type κ} (m n : ℕ) (r : Read A) (k : A → List ℕ → Read B)
    → m ≤ n
    → Ends m r
    → ((a : A) (rest : List ℕ) → length rest < m → Ends n (k a rest))
    → Ends n (on_ok r k)
Ends-on_ok m n (Read.ok a rest) k le e h = h a rest e
Ends-on_ok m n (Read.err p rest) k le e h = omega arith
Ends-on_ok m n Read.out_of_fuel k le e h = absurd e

pub Ends-wider {ℓ} : {A : Type ℓ} (m n : ℕ) (r : Read A) → m ≤ n → Ends m r → Ends n r
Ends-wider m n (Read.ok a rest) le e = omega arith
Ends-wider m n (Read.err p rest) le e = omega arith
Ends-wider m n Read.out_of_fuel le e = e

length-if :
    (b : Bool) (x y : List ℕ) (n : ℕ)
    → length x ≤ n
    → length y ≤ n
    → length (if b then x else y) ≤ n
length-if true x y n hx hy = hx
length-if false x y n hx hy = hy

pub length-skip : (comment : Bool) (cs : List ℕ) → length (skip comment cs) ≤ length cs
unfolding skip
length-skip comment [] = omega arith
length-skip comment (c ∷ cs) =
    let next = if comment then not (c == 10) else c == b';' in
    length-if (comment || is_whitespace c || c == b';') (skip next cs) (c ∷ cs) (suc (length cs))
      (omega (arith, length-skip next cs)) (omega arith)

length-span : (p : ℕ → Bool) (cs : List ℕ) → length (span p cs).0 + length (span p cs).1 ≡ length cs
unfolding span
length-span p [] = refl
length-span p (c ∷ cs) = elim (Bool-cases (p c)) [
  | inl h ↦ rw h (omega (arith, length-span p cs))
  | inr h ↦ rw h (omega arith)
]

token_of-Ends :
    (cs : List ℕ) (t : List ℕ × List ℕ)
    → length t.0 + length t.1 ≡ length cs
    → Ends (length cs) (token_of cs t)
token_of-Ends cs ([], rest) h = omega arith
token_of-Ends cs (c ∷ tok, rest) h = omega arith

pub read_atom-Ends : (cs : List ℕ) → Ends (length cs) (read_atom cs)
unfolding read_atom
read_atom-Ends cs = token_of-Ends cs _ (length-span (λ c. not (is_delimiter c)) cs)

scalar_of-Ends : (n : Option ℕ) (rest : List ℕ) → Ends (suc (length rest)) (scalar_of n rest)
scalar_of-Ends none rest = omega arith
scalar_of-Ends (some n) rest = elim (Bool-cases (is_scalar n)) [
  | inl h ↦ rw h (omega arith)
  | inr h ↦ rw h (omega arith)
]

end_hex-Ends : (m : ℕ) (t : List ℕ × List ℕ) → length t.1 ≤ m → Ends m (end_hex t)
end_hex-Ends m (digits, []) h = omega arith
end_hex-Ends m (digits, c ∷ rest) h = elim (Bool-cases (c == b';')) [
  | inl e ↦ rw e (Ends-wider (suc (length rest)) m _ h (scalar_of-Ends (from_hex digits) rest))
  | inr e ↦ rw e (omega arith)
]

read_escape-Ends : (cs : List ℕ) → Ends (length cs) (read_escape cs)
unfolding read_escape
read_escape-Ends [] = omega arith
read_escape-Ends (c ∷ cs) = at_escape (escape_of c)
  where
    at_escape :
        (e : Escape)
        → Ends (suc (length cs)) (elim e [
          | Escape.char n ↦ Read.ok n cs
          | Escape.hex ↦ end_hex (span is_hexdigit cs)
          | Escape.unknown ↦ Read.err Problem.unknown_escape cs
        ])
    at_escape (Escape.char n) = omega arith
    at_escape Escape.hex =
        end_hex-Ends _ (span is_hexdigit cs) (omega (arith, length-span is_hexdigit cs))
    at_escape Escape.unknown = omega arith

on_stop-Ends :
    (out : List ℕ) (n : ℕ) (t : List ℕ × List ℕ) (k : List ℕ → List ℕ → Read Sexp)
    → length t.1 ≤ n
    → ((out' rest : List ℕ) → length rest < n → Ends n (k out' rest))
    → Ends n (on_stop out t k)
on_stop-Ends out n (chunk, []) k h hk = omega arith
on_stop-Ends out n (chunk, c ∷ rest) k h hk = elim (Bool-cases (c == 34)) [
  | inl e ↦ rw e h
  | inr e ↦ rw e (hk (out ++ chunk) rest (omega arith))
]

pub read_string-Ends :
    (f : ℕ) (out cs : List ℕ) → length cs < f → Ends (length cs) (read_string f out cs)
unfolding read_string
read_string-Ends zero out cs h = absurd (omega arith)
read_string-Ends (suc f) out cs h =
    on_stop-Ends out (length cs) (span is_plain cs) _ (omega (arith, length-span is_plain cs))
      (λ out' rest lt.
        Ends-on_ok (length rest) (length cs) (read_escape rest) _ (omega arith)
          (read_escape-Ends rest)
          (λ n rest' lt'.
            Ends-wider (length rest') (length cs) (read_string f (out' ++ utf8 n) rest')
              (omega arith) (read_string-Ends f (out' ++ utf8 n) rest' (omega arith))))

byte_of-Ends : (s : Sexp) (rest : List ℕ) → Ends (suc (length rest)) (byte_of s rest)
byte_of-Ends (int (pos n)) rest = elim (Bool-cases (leb n 255)) [
  | inl e ↦ rw e (omega arith)
  | inr e ↦ rw e (omega arith)
]
byte_of-Ends (int (negsuc n)) rest = omega arith
byte_of-Ends (sym x) rest = omega arith
byte_of-Ends (str x) rest = omega arith
byte_of-Ends (bool x) rest = omega arith
byte_of-Ends (bytes x) rest = omega arith
byte_of-Ends (list x) rest = omega arith
byte_of-Ends (pair x y) rest = omega arith

on_byte-Ends :
    (acc : List ℕ) (n : ℕ) (cs : List ℕ) (k : List ℕ → Read Sexp)
    → length cs ≤ n
    → ((c : ℕ) (rest : List ℕ) → length rest < n → Ends n (k (c ∷ rest)))
    → Ends n (on_byte acc cs k)
on_byte-Ends acc n [] k h hk = omega arith
on_byte-Ends acc n (c ∷ cs) k h hk = elim (Bool-cases (c == b')')) [
  | inl e ↦ rw e h
  | inr e ↦ rw e (hk c cs h)
]

pub read_bytes-Ends :
    (f : ℕ) (acc cs : List ℕ) → length cs < f → Ends (length cs) (read_bytes f acc cs)
unfolding read_bytes
read_bytes-Ends zero acc cs h = absurd (omega arith)
read_bytes-Ends (suc f) acc cs h =
    on_byte-Ends acc (length cs) (skip_ws cs) _ (length-skip false cs) (λ c cs' lt.
      Ends-on_ok (suc (length cs')) (length cs) (read_atom (c ∷ cs')) _ lt
        (read_atom-Ends (c ∷ cs'))
        (λ s rest lt'.
          Ends-on_ok (suc (length rest)) (length cs) (byte_of s rest) _ (omega arith)
            (byte_of-Ends s rest)
            (λ n rest' lt''.
              Ends-wider (length rest') (length cs) (read_bytes f (acc ++ n ∷ []) rest')
                (omega arith) (read_bytes-Ends f (acc ++ n ∷ []) rest' (omega arith)))))
