-- ===== src/DictFile.antt =====
-- pyrad/dictfile.py: the lines of a dictionary file, with the files that `$INCLUDE` names put in.
-- The file system is a parameter: the lines that `open(path).readlines()` gives, `none` for an
-- OSError, and the current directory.
pub mod Expansion
use pyrad.Common.{
  ℕ, zero, suc, ◌+◌, Bool, true, false, not, ◌||◌, ◌&&◌, Option, none, some, List, [], ◌∷◌, ◌++◌,
  Text, codes, ◌==◌, if◌then◌else◌,
}
use mathlib.Core.List.{reverse}
use pyrad.Common.Eq.{text_eq}
use pyrad.Common.Int.{ℤ, pos, negsuc}
use pyrad.Common.Strs.{before, strip, words, upper}
use pyrad.Common.Result.{Error, Result, ok, raise, stuck, os_error, stop_iteration}

-- `os.path.isabs`
unfoldable pub is_abs : Text → Bool
is_abs [] = false
is_abs (c ∷ s) = c == b'/'

ends_with_slash : Text → Bool
ends_with_slash [] = false
ends_with_slash (c ∷ []) = c == b'/'
ends_with_slash (c ∷ d ∷ s) = ends_with_slash (d ∷ s)

-- `os.path.join` of two parts
unfoldable pub join : Text → Text → Text
unfolding is_abs ends_with_slash
join a [] = if ends_with_slash a then a else elim a [ [] ↦ [] | c ∷ s ↦ (c ∷ s) ++ b'/' ∷ [] ]
join a (c ∷ b) = if c == b'/' then c ∷ b else elim a [
  | [] ↦ c ∷ b
  | d ∷ s ↦ if ends_with_slash (d ∷ s) then (d ∷ s) ++ c ∷ b else (d ∷ s) ++ b'/' ∷ c ∷ b
]

-- of a path backwards: what stands before and after the last slash, the slash with the former
drop_name : Text → Text
drop_name [] = []
drop_name (c ∷ s) = if c == b'/' then c ∷ s else drop_name s

take_name : Text → Text
take_name [] = []
take_name (c ∷ s) = if c == b'/' then [] else c ∷ take_name s

strip_slashes : Text → Text
strip_slashes [] = []
strip_slashes (c ∷ s) = if c == b'/' then strip_slashes s else c ∷ s

-- a head of slashes only is kept
without_slashes : Text → Text → Text
without_slashes head [] = head
without_slashes head (c ∷ s) = c ∷ s

-- `os.path.dirname` and `os.path.basename`
unfoldable pub dirname : Text → Text
unfolding drop_name strip_slashes without_slashes
dirname p =
    let head : Text = drop_name (reverse p) in reverse (without_slashes head (strip_slashes head))

unfoldable pub basename : Text → Text
unfolding take_name
basename p = reverse (take_name (reverse p))

-- `_Node`: the lines from the current one on, and how many have been read
pub record Node : Type 0 where
  pub name : Text
  pub dir : Text
  pub rest : List Text
  pub current : ℕ

-- `_Node.__init__`
unfoldable pub make_node : List Text → Text → Text → Node
make_node lines name parentdir = record {
  name = basename name;
  dir = if is_abs (dirname name) then dirname name else join parentdir (dirname name);
  rest = lines;
  current = 0;
}

-- `_Node.Next`
unfoldable pub next_of : Node → Option (Text × Node)
next_of node = elim node.rest [
  | [] ↦ none
  | line ∷ rest ↦ some (line, record node { rest = rest; current = node.current + 1 })
]

joined : List Text → Text
joined [] = []
joined (w ∷ []) = w
joined (w ∷ v ∷ ws) = w ++ b' ' ∷ joined (v ∷ ws)

include_of : List Text → Option Text
unfolding joined
include_of [] = none
include_of (w ∷ ws) = if text_eq (upper w) (codes "$INCLUDE") then some (joined ws) else none

-- `__get_include`
unfoldable pub get_include : Text → Option Text
unfolding include_of
get_include line = include_of (words (strip (before b'#' line)))

-- `if inc`: an empty name is no include
unfoldable pub include_name : Text → Option Text
include_name line = elim (get_include line) [
  | none ↦ none
  | some [] ↦ none
  | some (c ∷ s) ↦ some (c ∷ s)
]

-- `DictFile.line` and `DictFile.file`; the top of the stack stands first
unfoldable pub line_number : List Node → ℤ
line_number [] = negsuc 0
line_number (node ∷ stack) = pos node.current

unfoldable pub file_name : List Node → Text
file_name [] = []
file_name (node ∷ stack) = node.name

-- What one round of the loop of `__next__` does: it stops, raises, goes on, or gives a line.
pub data Round : Type 0 where
  finished : Round
  failed : Error → Round
  moved : List Node → Round
  gave : Text → List Node → Round

-- What a `for` loop over a DictFile gets: lines, then the end, an exception, or no end.
pub data Lines : Type 0 where
  done : Lines
  broken : Error → Lines
  endless : Lines
  line : Text → Lines → Lines

module _ (open_file : Text → Option (List Text)) (cwd : Text) where
  cur_dir : List Node → Text
  cur_dir [] = cwd
  cur_dir (node ∷ stack) = node.dir

  -- the path that is opened for a name
  unfoldable pub path_of : Text → Text → Text
  path_of parentdir name = if is_abs name then name else join parentdir name

  -- `__read_node` of a name
  unfoldable pub read_node : Text → List Node → Result (List Node)
  unfolding cur_dir
  read_node name stack = elim (open_file (path_of (cur_dir stack) name)) [
    | none ↦ raise os_error
    | some lines ↦ ok (make_node lines name (cur_dir stack) ∷ stack)
  ]

  -- `DictFile(fil)` for an open file with these lines
  unfoldable pub of_lines : List Text → List Node
  of_lines lines = make_node lines [] cwd ∷ []

  entered : Result (List Node) → Round
  entered (ok stack) = moved stack
  entered (raise e) = failed e
  entered stuck = finished

  take_line : Text → List Node → Round
  unfolding entered
  take_line text stack = elim (include_name text) [
    | none ↦ gave text stack
    | some name ↦ entered (read_node name stack)
  ]

  unfoldable pub round : List Node → Round
  unfolding take_line
  round [] = finished
  round (node ∷ stack) = elim (next_of node) [
    | none ↦ moved stack
    | some (text, node') ↦ take_line text (node' ∷ stack)
  ]

  -- `__next__`: the line and the stack that it leaves
  unfoldable pub next_line : ℕ → List Node → Result (Text × List Node)
  next_line zero stack = stuck
  next_line (suc fuel) stack = elim (round stack) [
    | finished ↦ raise stop_iteration
    | failed e ↦ raise e
    | moved stack' ↦ next_line fuel stack'
    | gave text stack' ↦ ok (text, stack')
  ]

  -- `for line in fil`: calls of `__next__` until it raises StopIteration, on fuel for all rounds
  unfoldable pub all_lines : ℕ → List Node → Lines
  all_lines zero stack = endless
  all_lines (suc fuel) stack = elim (round stack) [
    | finished ↦ done
    | failed e ↦ broken e
    | moved stack' ↦ all_lines fuel stack'
    | gave text stack' ↦ line text (all_lines fuel stack')
  ]
