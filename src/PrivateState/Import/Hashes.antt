-- ===== src/PrivateState/Import/Hashes.antt =====
-- midnight-private-state/src/fs.rs: validated texts of hashes, and the numbers that they spell.
use midnight_rs.Base.{
  ℕ, ◌+◌, ◌*◌, ◌<◌, ◌≡◌, refl, ap, Bool, true, false, ◌&&◌, List, [], ◌∷◌, some, ok, ◌==◌, all,
  length, arith, Bool-cases, inl, inr, ◌↔◌,
}
use midnight_rs.PrivateState.Import.{
  is_lowercase_hex, validate_hash_field, digit_value, spelled, hash_value,
}

digit_value-lt : (b : ℕ) → is_lowercase_hex b ≡ true → digit_value b < 16
digit_value-lt b h = ground arith

digit_value-injective :
    (b c : ℕ)
    → is_lowercase_hex b ≡ true
    → is_lowercase_hex c ≡ true
    → digit_value b ≡ digit_value c
    → b ≡ c
digit_value-injective b c hb hc e = ground arith

and-true : (b c : Bool) → (b && c) ≡ true → (b ≡ true) × (c ≡ true)
and-true true c h = (refl, h)
and-true false c h = cc

spelled-injective :
    (n m : ℕ) (s t : List ℕ)
    → length s ≡ length t
    → all is_lowercase_hex s ≡ true
    → all is_lowercase_hex t ≡ true
    → spelled n s ≡ spelled m t
    → (n ≡ m) × (s ≡ t)
spelled-injective n m [] [] len hs ht e = (e, refl)
spelled-injective n m [] (c ∷ cs) len hs ht e = absurd (omega arith)
spelled-injective n m (b ∷ bs) [] len hs ht e = absurd (omega arith)
spelled-injective n m (b ∷ bs) (c ∷ cs) len hs ht e =
    let (hb, hbs) = and-true (is_lowercase_hex b) (all is_lowercase_hex bs) hs in
    let (hc, hcs) = and-true (is_lowercase_hex c) (all is_lowercase_hex cs) ht in
    let (top, rest) =
      spelled-injective (16 * n + digit_value b) (16 * m + digit_value c) bs cs (omega arith) hbs
        hcs e in
    let lb = digit_value-lt b hb in
    let lc = digit_value-lt c hc in
    let same : digit_value b ≡ digit_value c = omega arith in
    let head = digit_value-injective b c hb hc same in (omega arith, cc)

validate_hash_field-ok :
    (s : List ℕ)
    → validate_hash_field (some s) ≡ ok tt
    → (length s ≡ 64) × (all is_lowercase_hex s ≡ true)
unfolding validate_hash_field
validate_hash_field-ok s h = elim (Bool-cases (length s == 64 && all is_lowercase_hex s)) [
  | inl good ↦
      let (len, digits) = and-true (length s == 64) (all is_lowercase_hex s) good in
      (ground arith, digits)
  | inr bad ↦ absurd (cc (rw bad at h))
]

-- Two fields that the import accepts spell the same number exactly if they are the same text.
pub validate_hash_field-faithful :
    (s t : List ℕ)
    → validate_hash_field (some s) ≡ ok tt
    → validate_hash_field (some t) ≡ ok tt
    → (hash_value s ≡ hash_value t) ↔ (s ≡ t)
validate_hash_field-faithful s t hs ht =
    let (ls, ds) = validate_hash_field-ok s hs in
    let (lt, dt) = validate_hash_field-ok t ht in
    (λ e. (spelled-injective 0 0 s t (omega arith) ds dt e).1, λ e. ap hash_value e)
