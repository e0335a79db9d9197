-- ===== src/Console/Parsing.antt =====
-- The parsing of a command line (src/console.c): `trimWhitespace` and `parseInput`. A line is the list
-- of its bytes up to the terminating NUL; `strtok` is modelled by the list of the words between
-- delimiters.
use project_lucario.Base.{
  ℕ, Bool, true, false, ◌&&◌, ◌||◌, List, [], ◌∷◌, ◌++◌, ◌==◌, leb, take, ◌*◌, if◌then◌else◌,
}
use project_lucario.Machine.{Text, max_processes}

-- `isspace` in the C locale
abbrev pub is_space : ℕ → Bool
is_space c = c == 32 || (leb 9 c && leb c 13)

-- The delimiters " \t" of `strtok`
abbrev pub is_delimiter : ℕ → Bool
is_delimiter c = c == 32 || c == 9

-- The first loop of `trimWhitespace`
unfoldable pub skip_spaces : Text → Text
skip_spaces [] = []
skip_spaces (c ∷ rest) = let skipped = skip_spaces rest in if is_space c then skipped else c ∷ rest

-- The second loop, with `inWord`: the first space after a word is written as a blank.
unfoldable pub squeeze : Bool → Text → Text
squeeze in_word [] = []
squeeze in_word (c ∷ rest) =
    let outside = squeeze false rest in
    if is_space c then if in_word then 32 ∷ outside else outside else c ∷ squeeze true rest

-- A space at the end is taken back.
unfoldable pub strip_last : Text → Text
strip_last [] = []
strip_last (c ∷ []) = if is_space c then [] else c ∷ []
strip_last (c ∷ d ∷ rest) = c ∷ strip_last (d ∷ rest)

unfoldable pub trim_whitespace : Text → Text
trim_whitespace line = strip_last (squeeze false (skip_spaces line))

-- `input[strcspn(input, "\n")] = '\0'`
unfoldable pub cut_newline : Text → Text
cut_newline [] = []
cut_newline (c ∷ rest) = let shorter = cut_newline rest in if c == 10 then [] else c ∷ shorter

-- A word that has been read, if there is one, before the words that follow.
abbrev pub flush_word : Text → List Text → List Text
flush_word [] words = words
flush_word (c ∷ word) words = (c ∷ word) ∷ words

-- The words between delimiters, after the part of a word that has been read.
unfoldable pub tokens : (ℕ → Bool) → Text → Text → List Text
tokens delimiter word [] = flush_word word []
tokens delimiter word (c ∷ rest) =
    let after = tokens delimiter [] rest in
    if delimiter c then flush_word word after else tokens delimiter (word ++ (c ∷ [])) rest

pub data CommandStatus : Type 0 where
  cmd_success cmd_empty cmd_unknown cmd_missing_args cmd_load_error cmd_runtime_error :
      CommandStatus
  cmd_too_many_args : CommandStatus

-- A parsed line: the status, the command, and the arguments.
pub record Parsed : Type 0 where
  pub status : CommandStatus
  pub command : Text
  pub args : List Text

-- The command has room for 19 bytes, and there is room for forty arguments.
unfoldable pub parsed_of : List Text → Parsed
parsed_of [] = record { status = cmd_empty; command = []; args = [] }
parsed_of (word ∷ words) = record {
  status = cmd_success;
  command = take 19 word;
  args = take (max_processes * 2) words;
}

unfoldable pub parse_input : Text → Parsed
unfolding parsed_of
parse_input input = parsed_of (tokens is_delimiter [] (trim_whitespace (cut_newline input)))
