-- ===== src/Ir/Sexp/Quoted.antt =====
-- crates/compact/analyzed-ir/src/sexp.rs: the reader on written strings and bytevectors.
use midnight_rs.Base.{
  and-true, ==→eq, ℕ, zero, suc, ◌≤◌, ◌<◌, ◌≡◌, refl, sym as inverse, subst, ◌∙◌, ap, Bool, true,
  false, List, [], ◌∷◌, ◌++◌, append_assoc, append-nil, leb, ◌==◌, all, length, arith, Bool-cases,
  inl, inr,
}
use midnight_rs.Ir.Datum.{Sexp, str, bytes, Read}
use midnight_rs.Ir.Atoms.{
  Escape, is_delimiter, skip_ws, span, is_digit, is_plain, on_stop, read_escape, escape_of, utf8,
  read_string, on_byte, read_bytes,
}
use midnight_rs.Ir.Sexp.{is_lone}
use midnight_rs.Ir.Sexp.Write.{decimal, gap, write_char, write_chars, write_bytes}
use midnight_rs.Ir.Sexp.Scan.{is_solid, skip_ws-gap, decimal-Digits, read_atom-decimal}

-- A plain byte is pushed, in whatever chunk it stands.
on_stop-plain :
    (out : List ℕ) (c : ℕ) (p : List ℕ × List ℕ) (k : List ℕ → List ℕ → Read Sexp)
    → on_stop out (c ∷ p.0, p.1) k ≡ on_stop (out ++ c ∷ []) p k
on_stop-plain out c (chunk, []) k = refl
on_stop-plain out c (chunk, d ∷ rest) k = rw (append_assoc out (c ∷ []) chunk)

span-plain :
    (c : ℕ) (cs : List ℕ)
    → is_plain c ≡ true
    → span is_plain (c ∷ cs) ≡ (c ∷ (span is_plain cs).0, (span is_plain cs).1)
unfolding span
span-plain c cs h = rw h

read_string-plain :
    (f : ℕ) (out : List ℕ) (c : ℕ) (cs : List ℕ)
    → is_plain c ≡ true
    → read_string (suc f) out (c ∷ cs) ≡ read_string (suc f) (out ++ c ∷ []) cs
unfolding read_string
read_string-plain f out c cs h = rw (span-plain c cs h) (on_stop-plain out c (span is_plain cs) _)

-- An escape takes a round of the loop.
read_string-escape :
    (f : ℕ) (out : List ℕ) (e n : ℕ) (cs : List ℕ)
    → escape_of e ≡ Escape.char n
    → utf8 n ≡ n ∷ []
    → read_string (suc f) out (92 ∷ e ∷ cs) ≡ read_string f (out ++ n ∷ []) cs
unfolding read_string
read_string-escape f out e n cs h one = rw (append-nil out, read_escape, h, one)

read_string-end :
    (f : ℕ) (out cs : List ℕ) → read_string (suc f) out (34 ∷ cs) ≡ Read.ok (str out) cs
unfolding read_string
read_string-end f out cs = rw (append-nil out)

-- A byte as it is written: by an escape, or as itself.
data Written (c : ℕ) : Type 0 where
  by_escape :
      (e : ℕ)
      → write_char c ≡ 92 ∷ e ∷ []
      → escape_of e ≡ Escape.char c
      → utf8 c ≡ c ∷ []
      → Written c
  as_itself : write_char c ≡ c ∷ [] → is_plain c ≡ true → Written c

by_escape_at :
    (k e c : ℕ)
    → write_char k ≡ 92 ∷ e ∷ []
    → escape_of e ≡ Escape.char k
    → utf8 k ≡ k ∷ []
    → (c == k) ≡ true
    → Written c
by_escape_at k e c w n u hit = subst Written (inverse (==→eq c k hit)) (Written.by_escape e w n u)

write_char-Written : (c : ℕ) → Written c
write_char-Written c = if_hit 7 b'a' refl refl refl (λ h7. if_hit 8 b'b' refl refl refl (λ h8.
    if_hit 9 b't' refl refl refl (λ h9. if_hit 10 b'n' refl refl refl (λ h10.
      if_hit 11 b'v' refl refl refl (λ h11. if_hit 12 b'f' refl refl refl (λ h12.
        if_hit 13 b'r' refl refl refl (λ h13. if_hit 34 34 refl refl refl (λ h34.
          if_hit 92 92 refl refl refl (λ h92.
            Written.as_itself (rw (h7, h8, h9, h10, h11, h12, h13, h34, h92))
              (rw (h34, h92)))))))))))
  where
    if_hit :
        (k e : ℕ)
        → write_char k ≡ 92 ∷ e ∷ []
        → escape_of e ≡ Escape.char k
        → utf8 k ≡ k ∷ []
        → ((c == k) ≡ false → Written c)
        → Written c
    if_hit k e w n u miss = elim (Bool-cases (c == k)) [
      | inl hit ↦ by_escape_at k e c w n u hit
      | inr other ↦ miss other
    ]

-- A written byte is pushed, at the cost of a round at most.
read_string-Written :
    (f : ℕ) (out : List ℕ) (c : ℕ) (cs : List ℕ) (result : Read Sexp)
    → Written c
    → ((g : ℕ) → f ≤ g → read_string g (out ++ c ∷ []) cs ≡ result)
    → read_string (suc f) out (write_char c ++ cs) ≡ result
read_string-Written f out c cs result (Written.by_escape e w n u) next =
    rw w (read_string-escape f out e c cs n u ∙ next f (omega arith))
read_string-Written f out c cs result (Written.as_itself w plain) next =
    rw w (read_string-plain f out c cs plain ∙ next (suc f) (omega arith))

pub read_string-write_chars :
    (f : ℕ) (out s rest : List ℕ)
    → length s < f
    → read_string f out (write_chars s ++ rest) ≡ Read.ok (str (out ++ s)) rest
read_string-write_chars zero out s rest h = absurd (omega arith)
read_string-write_chars (suc f) out [] rest h =
    read_string-end f out rest ∙ ap (λ o. Read.ok (str o) rest) (inverse (append-nil out))
read_string-write_chars (suc f) out (c ∷ s) rest h =
    ap (read_string (suc f) out) (append_assoc (write_char c) (write_chars s) rest)
    ∙ read_string-Written f out c (write_chars s ++ rest) (Read.ok (str (out ++ c ∷ s)) rest)
        (write_char-Written c)
        (λ g le.
          read_string-write_chars g (out ++ c ∷ []) s rest (omega arith)
          ∙ ap (λ o. Read.ok (str o) rest) (append_assoc out (c ∷ []) s))

digit_solid : (c : ℕ) → is_digit c ≡ true → is_solid c ≡ true
digit_solid c h = ground arith

digit_no_close : (c : ℕ) → is_digit c ≡ true → (c == b')') ≡ false
digit_no_close c h = ground arith

write_bytes_lone : (bs rest : List ℕ) → is_lone (write_bytes false bs ++ rest) ≡ true
unfolding is_delimiter
write_bytes_lone [] rest = refl
write_bytes_lone (b ∷ bs) rest = refl

-- The input at an element: the gap is skipped, and its first digit is no closing parenthesis.
on_byte-decimal :
    (acc : List ℕ) (first : Bool) (b : ℕ) (after : List ℕ) (k : List ℕ → Read Sexp)
    → on_byte acc (skip_ws (gap first ++ (decimal b ++ after))) k ≡ k (decimal b ++ after)
on_byte-decimal acc first b after k =
    let d = decimal-Digits b in
    rw d.parts (
      rw (skip_ws-gap first d.c (d.cs ++ after) (digit_solid d.c d.first))
        (rw (digit_no_close d.c d.first)))

pub regroup : (x y z rest : List ℕ) → (x ++ (y ++ z)) ++ rest ≡ x ++ (y ++ (z ++ rest))
regroup x y z rest = append_assoc x (y ++ z) rest ∙ ap (λ l. x ++ l) (append_assoc y z rest)

pub read_bytes-write_bytes :
    (f : ℕ) (acc : List ℕ) (first : Bool) (bs rest : List ℕ)
    → length bs < f
    → all (λ b. leb b 255) bs ≡ true
    → read_bytes f acc (write_bytes first bs ++ rest) ≡ Read.ok (bytes (acc ++ bs)) rest
unfolding read_bytes
read_bytes-write_bytes zero acc first bs rest h small = absurd (omega arith)
read_bytes-write_bytes (suc f) acc first [] rest h small =
    ap (λ bs. Read.ok (bytes bs) rest) (inverse (append-nil acc))
read_bytes-write_bytes (suc f) acc first (b ∷ bs) rest h small =
    let (fits, more) = and-true (leb b 255) (all (λ b'. leb b' 255) bs) small in
    let after = write_bytes false bs ++ rest in
    rw (regroup (gap first) (decimal b) (write_bytes false bs) rest) (
      on_byte-decimal acc first b after _
      ∙ (rw (read_atom-decimal b after (write_bytes_lone bs rest), fits)
          (read_bytes-write_bytes f (acc ++ b ∷ []) false bs rest (omega arith) more
            ∙ ap (λ o. Read.ok (bytes o) rest) (append_assoc acc (b ∷ []) bs))))
