-- ===== src/Ir/Text.antt =====
-- Names as the bytes of their texts.
use Prim.Native.String.{String}
use Prim.Native.Char.{code}
use midnight_rs.Base.{and-true, ==→eq, ℕ, ◌≡◌, refl, Bool, true, false, ◌&&◌, List, [], ◌∷◌, ◌==◌}

-- The bytes of an ASCII text. `String` has its own `[]` and `∷`.
abbrev pub bytes_of : String → List ℕ
bytes_of String.[] = []
bytes_of (String.◌∷◌ c s) = code c ∷ bytes_of s

abbrev pub eq_text : List ℕ → List ℕ → Bool
eq_text [] [] = true
eq_text [] (d ∷ t) = false
eq_text (c ∷ s) [] = false
eq_text (c ∷ s) (d ∷ t) = c == d && eq_text s t

pub eq_text-eq : (s t : List ℕ) → eq_text s t ≡ true → s ≡ t
eq_text-eq [] [] h = refl
eq_text-eq [] (d ∷ t) h = cc
eq_text-eq (c ∷ s) [] h = cc
eq_text-eq (c ∷ s) (d ∷ t) h =
    let (hc, hs) = and-true (c == d) (eq_text s t) h in λ i. ==→eq c d hc i ∷ eq_text-eq s t hs i
