-- ===== src/Tests/DictFile.antt =====
-- A dictionary file with an include, and one that includes itself.
use pyrad.Common.{◌≡◌, refl, Option, none, some, List, [], ◌∷◌, Text, codes, if◌then◌else◌, arith}
use pyrad.Common.Eq.{text_eq}
use pyrad.Common.Strs.{before, strip, lstrip, words, upper}
use pyrad.DictFile.{
  done, endless, is_abs, include_name, get_include, all_lines, of_lines, path_of, join,
}
use pyrad.DictFile.Expansion.{
  Expands, plain, include, nothing, give, all_lines-Expands, self_include_endless, rounds,
}

abbrev root : Text
root = b'/' ∷ []

abbrev directive : Text
directive = codes "$INCLUDE inner"

abbrev vendor : Text
vendor = codes "VENDOR V 9"

-- `inner` of the current directory has one line, `/loop` includes itself
abbrev files : Text → Option (List Text)
files p =
    if text_eq p (codes "/inner")
    then some (vendor ∷ [])
    else if text_eq p (codes "/loop")
    then some (codes "$INCLUDE /loop" ∷ [])
    else none

is_directive : include_name directive ≡ some (codes "inner")
unfolding include_name get_include before strip lstrip words upper
is_directive = refl

is_loop : include_name (codes "$INCLUDE /loop") ≡ some (codes "/loop")
unfolding include_name get_include before strip lstrip words upper
is_loop = refl

is_plain : include_name vendor ≡ none
unfolding include_name get_include before strip lstrip words upper
is_plain = refl

opens : files (path_of files root (join root []) (codes "inner")) ≡ some (vendor ∷ [])
unfolding path_of join is_abs
opens = refl

abbrev expansion : Expands files root (join root []) (directive ∷ []) (vendor ∷ [])
expansion = include (codes "inner") is_directive opens (plain is_plain nothing) nothing

all_lines-Expands_example :
    all_lines files root 9 (of_lines files root (directive ∷ [])) ≡ give (vendor ∷ []) done
all_lines-Expands_example = all_lines-Expands files root expansion 9 (unfold rounds in omega arith)

self_include_endless_example :
    all_lines files root 1000 (of_lines files root (codes "$INCLUDE /loop" ∷ [])) ≡ endless
self_include_endless_example =
    self_include_endless files root (codes "$INCLUDE /loop") (codes "/loop") [] [] 1000 is_loop
      (unfold is_abs in refl) refl
