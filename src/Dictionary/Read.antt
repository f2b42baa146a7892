-- ===== src/Dictionary/Read.antt =====
-- `read_dictionary` of pyrad/dictionary.py.
use pyrad.Common.{List, [], ◌∷◌}
use pyrad.Common.Result.{Result, ok, raise, stuck}
use pyrad.Common.Exec.{Exec, pure, modify, ◌>>◌}
use pyrad.Externals.{Externals}
use pyrad.DictFile.{Lines, done, broken, endless, line}
use pyrad.Dictionary.Types.{Dictionary}
use pyrad.Dictionary.Parse.{Parser, new_dictionary, parse_line, parse_deferred}

-- `state` and `defer_parse` at the start
unfoldable pub start_parser : Dictionary → Parser
start_parser d = record { dict = d; vendor = []; tlvs = []; defer_parse = [] }

module _ (x : Externals) where
  -- the loop over the lines of the file
  unfoldable pub parse_lines : Lines → Exec Parser (Unit {0})
  parse_lines done s = (ok tt, s)
  parse_lines (broken e) s = (raise e, s)
  parse_lines endless s = (stuck, s)
  parse_lines (line text rest) s = (do parse_line x text; parse_lines rest) s

  -- both loops
  unfoldable pub parse_file : Lines → Exec Parser (Unit {0})
  parse_file file = do
    parse_lines file
    λ s. parse_deferred x s.defer_parse s
    modify (λ s. record s { defer_parse = [] })

  -- What is read before an exception stays in the dictionary.
  unfoldable pub read_dictionary : Lines → Exec Dictionary (Unit {0})
  read_dictionary file d = let (r, s) = parse_file file (start_parser d) in (r, s.dict)

  -- `Dictionary(dict, *dicts)`
  unfoldable pub read_all : List Lines → Exec Dictionary (Unit {0})
  read_all [] = pure tt
  read_all (file ∷ files) = do read_dictionary file; read_all files

  unfoldable pub make_dictionary : List Lines → Result Dictionary
  make_dictionary files = elim (read_all files new_dictionary).0 [
    | ok _ ↦ ok (read_all files new_dictionary).1
    | raise e ↦ raise e
    | stuck ↦ stuck
  ]
