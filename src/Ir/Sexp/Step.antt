-- ===== src/Ir/Sexp/Step.antt =====
-- One call of the reader, as a function of what is left once the white space is skipped.
use midnight_rs.Base.{
  and-true, ℕ, suc, ◌≡◌, refl, sym as inverse, ◌∙◌, ap, Bool, true, false, not, List, [], ◌∷◌, ◌++◌,
  all,
}
use midnight_rs.Ir.Datum.{Sexp, Sexps, sym, list, nil, cons, snoc, Read, Problem, on_ok}
use midnight_rs.Ir.Atoms.{is_delimiter, skip_ws, atom_of, read_atom, read_hash, read_string}
use midnight_rs.Ir.Sexp.{
  start_of, Start, next_of, Next, is_lone, close_pair, quote_name, read, read_list,
}
use midnight_rs.Ir.Sexp.Write.{gap}
use midnight_rs.Ir.Sexp.Scan.{skip_ws-solid, skip_ws-gap, solid_token, read_atom-token}
use midnight_rs.Ir.Sexp.Tokens.{Opens, Token}

abbrev pub read_at : ℕ → List ℕ → Start → Read Sexp
read_at f t Start.finished = Read.err Problem.end_of_input []
read_at f t (Start.opening rest) = read_list f nil rest
read_at f t Start.closing = Read.err Problem.unexpected_close t
read_at f t (Start.quoting rest) =
    on_ok (read f rest) (λ s rest'. Read.ok (list (cons (sym quote_name) (cons s nil))) rest')
read_at f t (Start.quotes rest) = read_string f [] rest
read_at f t Start.hash = read_hash f t
read_at f t Start.atom = read_atom t

abbrev pub list_at : ℕ → Sexps → List ℕ → Next → Read Sexp
list_at f items t Next.finished = Read.err Problem.unterminated_list []
list_at f items t (Next.closing rest) = Read.ok (list items) rest
list_at f items t (Next.dot rest) =
    on_ok (read f rest) (λ tail rest'. close_pair items tail (skip_ws rest'))
list_at f items t Next.item = on_ok (read f t) (λ s rest. read_list f (snoc items s) rest)

-- The cases of `read` and of `read_list` are these.
at_start :
    (f : ℕ) (cs : List ℕ) (s : Start)
    → (elim s [
      | Start.finished ↦ Read.err Problem.end_of_input []
      | Start.opening rest ↦ read_list f nil rest
      | Start.closing ↦ Read.err Problem.unexpected_close cs
      | Start.quoting rest ↦
          on_ok (read f rest) (λ s rest'. Read.ok (list (cons (sym quote_name) (cons s nil))) rest')
      | Start.quotes rest ↦ read_string f [] rest
      | Start.hash ↦ read_hash f cs
      | Start.atom ↦ read_atom cs
    ])
      ≡ read_at f cs s
at_start f cs Start.finished = refl
at_start f cs (Start.opening rest) = refl
at_start f cs Start.closing = refl
at_start f cs (Start.quoting rest) = refl
at_start f cs (Start.quotes rest) = refl
at_start f cs Start.hash = refl
at_start f cs Start.atom = refl

at_next :
    (f : ℕ) (items : Sexps) (cs : List ℕ) (n : Next)
    → (elim n [
      | Next.finished ↦ Read.err Problem.unterminated_list []
      | Next.closing rest ↦ Read.ok (list items) rest
      | Next.dot rest ↦ on_ok (read f rest) (λ tail rest'. close_pair items tail (skip_ws rest'))
      | Next.item ↦ on_ok (read f cs) (λ s rest. read_list f (snoc items s) rest)
    ])
      ≡ list_at f items cs n
at_next f items cs Next.finished = refl
at_next f items cs (Next.closing rest) = refl
at_next f items cs (Next.dot rest) = refl
at_next f items cs Next.item = refl

pub read_step :
    (f : ℕ) (cs : List ℕ) → read (suc f) cs ≡ read_at f (skip_ws cs) (start_of (skip_ws cs))
unfolding read
read_step f cs = at_start f (skip_ws cs) (start_of (skip_ws cs))

pub read_list_step :
    (f : ℕ) (items : Sexps) (cs : List ℕ)
    → read_list (suc f) items cs ≡ list_at f items (skip_ws cs) (next_of (skip_ws cs))
unfolding read
read_list_step f items cs = at_next f items (skip_ws cs) (next_of (skip_ws cs))

-- The same, once what is skipped is known.
read_to : (f : ℕ) (cs t : List ℕ) → skip_ws cs ≡ t → read (suc f) cs ≡ read_at f t (start_of t)
read_to f cs t h = read_step f cs ∙ ap (λ u. read_at f u (start_of u)) h

read_list_to :
    (f : ℕ) (items : Sexps) (cs t : List ℕ)
    → skip_ws cs ≡ t
    → read_list (suc f) items cs ≡ list_at f items t (next_of t)
read_list_to f items cs t h = read_list_step f items cs ∙ ap (λ u. list_at f items u (next_of u)) h

next_of-Opens : (text rest : List ℕ) (o : Opens text) → next_of (o.c ∷ o.cs ++ rest) ≡ Next.item
next_of-Opens text rest o = rw (o.stays_open, o.no_dot rest)

-- The reader at an item of a list, at a datum behind a gap, and at an atom.
pub read_list-item :
    (f : ℕ) (items : Sexps) (first : Bool) (text rest : List ℕ)
    → Opens text
    → read_list (suc f) items (gap first ++ (text ++ rest))
      ≡ on_ok (read f (text ++ rest)) (λ s r. read_list f (snoc items s) r)
read_list-item f items first text rest o = rw o.parts (
    read_list_to f items _ (o.c ∷ o.cs ++ rest) (skip_ws-gap first o.c (o.cs ++ rest) o.solid)
    ∙ ap (list_at f items (o.c ∷ o.cs ++ rest)) (next_of-Opens text rest o))

pub read-behind_space :
    (f : ℕ) (text rest : List ℕ)
    → Opens text
    → read (suc f) (b' ' ∷ (text ++ rest)) ≡ read (suc f) (text ++ rest)
read-behind_space f text rest o = rw o.parts (
    read_to f _ (o.c ∷ o.cs ++ rest) (skip_ws-gap false o.c (o.cs ++ rest) o.solid)
    ∙ inverse (read_to f _ (o.c ∷ o.cs ++ rest) (skip_ws-solid o.c (o.cs ++ rest) o.solid)))

pub read-Token :
    (f : ℕ) (t rest : List ℕ)
    → Token t
    → is_lone rest ≡ true
    → read (suc f) (t ++ rest) ≡ Read.ok (atom_of t) rest
read-Token f t rest k lone =
    let solid =
      solid_token k.c
        (and-true (not (is_delimiter k.c)) (all (λ d. not (is_delimiter d)) k.cs) k.whole).0 in
    rw k.parts (
      read_to f _ (k.c ∷ k.cs ++ rest) (skip_ws-solid k.c (k.cs ++ rest) solid)
      ∙ ap (read_at f (k.c ∷ k.cs ++ rest)) (k.starts rest)
      ∙ read_atom-token k.c k.cs rest k.whole lone)
