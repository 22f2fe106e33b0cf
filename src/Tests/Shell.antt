-- ===== src/Tests/Shell.antt =====
-- The parser of the shell on short lines.
use sisop_mendez.Base.{[], arith, none, refl, true, ◌∷◌, ◌≡◌}
use sisop_mendez.Fs.Types.{Str}
use sisop_mendez.Shell.Parsing.{Environment, block_contains, is_environ_var, parse_exec}
use sisop_mendez.Shell.Parsing.Lines.{IsSegment, behind_spaces}
use sisop_mendez.Shell.Parsing.Words.{IsWord, join, parse_exec-join, plain}
use sisop_mendez.Shell.Types.{parsed}

abbrev pub environment : Environment
environment = record { getenv = λ name. none; status_text = b'0' ∷ []; realloc = true }

abbrev pub ls : Str
ls = b'l' ∷ b's' ∷ []

abbrev option : Str
option = b'-' ∷ b'a' ∷ []

ls-IsWord : IsWord ls
unfolding block_contains is_environ_var
ls-IsWord = record {
  nonempty = λ e. cc e;
  fits = omega arith;
  spaceless = (refl, (refl, tt));
  no_output = refl;
  no_input = refl;
  no_variable = refl;
  no_dollar = refl;
}

option-IsWord : IsWord option
unfolding block_contains is_environ_var
option-IsWord = record {
  nonempty = λ e. cc e;
  fits = omega arith;
  spaceless = (refl, (refl, tt));
  no_output = refl;
  no_input = refl;
  no_variable = refl;
  no_dollar = refl;
}

parse_exec-join_example :
    parse_exec environment (join (ls ∷ option ∷ [])) ≡ parsed (plain (ls ∷ option ∷ []))
parse_exec-join_example =
    parse_exec-join environment (ls ∷ option ∷ []) (ls-IsWord, (option-IsWord, tt)) (omega arith)

-- " ls", as it stands behind a bar.
abbrev pub spaced_ls : Str
spaced_ls = b' ' ∷ ls

pub spaced_ls-IsSegment : IsSegment spaced_ls
unfolding behind_spaces
spaced_ls-IsSegment = record {
  nonblank = λ e. cc e;
  barless = (refl, (refl, (refl, tt)));
  endless = (refl, (refl, (refl, tt)));
}
