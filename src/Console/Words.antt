-- ===== src/Console/Words.antt =====
-- What the parser of the console makes of a line (src/console.c): its words.
use project_lucario.Base.{
  ℕ, ◌≡◌, refl, ap, ◌∙◌, arith, Bool, true, false, List, [], ◌∷◌, ◌++◌, if◌then◌else◌,
}
use project_lucario.Machine.{Text}
use project_lucario.Console.Parsing.{
  is_space, is_delimiter, skip_spaces, squeeze, strip_last, trim_whitespace, cut_newline,
  flush_word, tokens, parse_input, parsed_of,
}

-- A text in which every space is a blank or a tab.
abbrev IsPlain : Text → Type 0
IsPlain [] = Unit
IsPlain (c ∷ rest) = (is_delimiter c ≡ is_space c) × IsPlain rest

-- One byte of the loop, by whether it is a space.
IsPlain-byte :
    (b k : Bool) (c : ℕ) (inside outside : Text)
    → is_space c ≡ k
    → IsPlain inside
    → IsPlain outside
    → IsPlain (if k then if b then 32 ∷ outside else outside else c ∷ inside)
IsPlain-byte true true c inside outside e pi po = (refl, po)
IsPlain-byte false true c inside outside e pi po = po
IsPlain-byte b false c inside outside e pi po = (ground arith, pi)

squeeze-IsPlain : (b : Bool) (s : Text) → IsPlain (squeeze b s)
unfolding squeeze
squeeze-IsPlain b [] = tt
squeeze-IsPlain b (c ∷ rest) =
    IsPlain-byte b (is_space c) c (squeeze true rest) (squeeze false rest) refl
      (squeeze-IsPlain true rest) (squeeze-IsPlain false rest)

tokens-strip_last :
    (w t : Text) → IsPlain t → tokens is_delimiter w (strip_last t) ≡ tokens is_delimiter w t
unfolding tokens strip_last
tokens-strip_last w [] p = refl
tokens-strip_last w (c ∷ []) p = by_kind (is_space c) p.0
  where
    by_kind :
        (k : Bool)
        → is_delimiter c ≡ k
        → tokens is_delimiter w (if k then [] else c ∷ []) ≡ tokens is_delimiter w (c ∷ [])
    by_kind true e = unfold tokens in rw e refl
    by_kind false e = refl
tokens-strip_last w (c ∷ d ∷ rest) p =
    ap (λ (t : List Text × List Text). if is_delimiter c then flush_word w t.0 else t.1)
      (ground (
        arith,
        tokens-strip_last [] (d ∷ rest) p.1,
        tokens-strip_last (w ++ (c ∷ [])) (d ∷ rest) p.1,
      ))

abbrev is_word : Text → Bool
is_word [] = false
is_word (c ∷ word) = true

-- One byte of a line, read by both, where the rest of the line gives both the same words.
module _ (c : ℕ) (rest : Text)
    (outside : tokens is_delimiter [] (squeeze false rest) ≡ tokens is_space [] rest)
    (inside : (w : Text)
      → tokens is_delimiter (w ++ (c ∷ [])) (squeeze true rest)
        ≡ tokens is_space (w ++ (c ∷ [])) rest) where
  tokens-byte :
      (k : Bool)
      → is_space c ≡ k
      → (w : Text)
      → tokens is_delimiter w (
          if k
          then if is_word w then 32 ∷ squeeze false rest else squeeze false rest
          else c ∷ squeeze true rest)
        ≡ (if k
            then flush_word w (tokens is_space [] rest)
            else tokens is_space (w ++ (c ∷ [])) rest)
  tokens-byte true e [] = outside
  tokens-byte true e (d ∷ w) = unfold tokens in ap (flush_word (d ∷ w)) outside
  tokens-byte false e w =
      unfold tokens in let plain : is_delimiter c ≡ false = ground arith in rw plain (inside w)

tokens-squeeze : (w s : Text) → tokens is_delimiter w (squeeze (is_word w) s) ≡ tokens is_space w s
unfolding tokens squeeze
tokens-squeeze w [] = refl
tokens-squeeze w (c ∷ rest) =
    tokens-byte c rest (tokens-squeeze [] rest)
      (λ v. in_word v (tokens-squeeze (v ++ (c ∷ [])) rest)) (is_space c) refl w
  where
    in_word :
        (v : Text)
        → tokens is_delimiter (v ++ (c ∷ [])) (squeeze (is_word (v ++ (c ∷ []))) rest)
          ≡ tokens is_space (v ++ (c ∷ [])) rest
        → tokens is_delimiter (v ++ (c ∷ [])) (squeeze true rest)
          ≡ tokens is_space (v ++ (c ∷ [])) rest
    in_word [] h = h
    in_word (d ∷ v) h = h

tokens-skipped :
    (c : ℕ) (rest : Text) (k : Bool)
    → is_space c ≡ k
    → tokens is_space [] (skip_spaces rest) ≡ tokens is_space [] rest
    → tokens is_space [] (if k then skip_spaces rest else c ∷ rest)
      ≡ (if k then tokens is_space [] rest else tokens is_space (c ∷ []) rest)
tokens-skipped c rest true e h = h
tokens-skipped c rest false e h = unfold tokens in rw e refl

tokens-skip_spaces : (s : Text) → tokens is_space [] (skip_spaces s) ≡ tokens is_space [] s
unfolding tokens skip_spaces
tokens-skip_spaces [] = refl
tokens-skip_spaces (c ∷ rest) = tokens-skipped c rest (is_space c) refl (tokens-skip_spaces rest)

-- For every line the parser returns the words between spaces of any kind, up to the line's end: the
-- first as the command, cut to 19 bytes, and up to forty others as its arguments; a line without a
-- word is empty.
pub parse_input_lem :
    (input : Text) → parse_input input ≡ parsed_of (tokens is_space [] (cut_newline input))
unfolding parse_input trim_whitespace
parse_input_lem input =
    let line = skip_spaces (cut_newline input) in
    ap parsed_of (
      tokens-strip_last [] (squeeze false line) (squeeze-IsPlain false line)
      ∙ tokens-squeeze [] line
      ∙ tokens-skip_spaces (cut_newline input))
