-- ===== src/Dictionary/Consistency.antt =====
-- The dictionaries that pyrad/dictionary.py reads.
use pyrad.Common.{ℕ, ◌≡◌, true, some, List, [], ◌∷◌, Text, get_elem?, arith}
use pyrad.Common.Eq.{text_eq_instance, int_eq_instance}
use pyrad.Common.Result.{Result, ok, raise, stuck}
use pyrad.Common.Exec.{Exec, ◌>>=◌, ◌>>◌}
use pyrad.Common.Exec
use pyrad.Common.Dict.{lookup}
use pyrad.Externals.{Externals}
use pyrad.DictFile.{Lines, done, broken, endless, line}
use pyrad.Dictionary.Types.{Key, Attribute, Dictionary, key_eq_instance}
use pyrad.Dictionary.{find_attribute, is_tlv_type}
use pyrad.Dictionary.Parse.{Parser, new_dictionary, parse_line, parse_deferred}
use pyrad.Dictionary.Parse.Invariant.{IsValid, Keeps, continue-IsValid}
use pyrad.Dictionary.Parse.Preservation.{parse_line-IsValid, parse_deferred-IsValid}
use pyrad.Dictionary.Read.{
  start_parser, parse_lines, parse_file, read_dictionary, read_all, make_dictionary,
}

-- A dictionary is consistent if every name refers to an object of that name and has a key in
-- `attrindex`, and if the parent of an object is a tlv.
abbrev pub IsConsistent : Dictionary → Type 0
IsConsistent d = IsValid (start_parser d)

with_dict-IsConsistent : (s : Parser) → IsValid s → IsConsistent s.dict
unfolding start_parser lookup
with_dict-IsConsistent s v = record {
  named = v.named;
  indexed = v.indexed;
  parents = v.parents;
  open_tlvs = λ c r e. cc e;
}

pub new_dictionary-IsConsistent : IsConsistent new_dictionary
unfolding start_parser lookup
new_dictionary-IsConsistent = record {
  named = λ n r e. cc e;
  indexed = λ n r e. cc e;
  parents = λ r a p e k. cc e;
  open_tlvs = λ c r e. cc e;
}

module _ (x : Externals) where
  parse_lines-IsValid : (file : Lines) → Keeps (parse_lines x file)
  unfolding parse_lines
  parse_lines-IsValid done s v = v
  parse_lines-IsValid (broken e) s v = v
  parse_lines-IsValid endless s v = v
  parse_lines-IsValid (line text rest) s v =
      continue-IsValid (parse_line x text s).0 (λ _. parse_lines x rest) (parse_line x text s).1
        (parse_line-IsValid x text s v) (λ _. parse_lines-IsValid rest)

  parse_file-IsValid : (file : Lines) → Keeps (parse_file x file)
  unfolding parse_file
  parse_file-IsValid file s v =
      continue-IsValid (parse_lines x file s).0 _ (parse_lines x file s).1
        (parse_lines-IsValid file s v)
        (λ _ s v.
          continue-IsValid (parse_deferred x s.defer_parse s).0 _
            (parse_deferred x s.defer_parse s).1 (parse_deferred-IsValid x s.defer_parse s v)
            (λ _ s v. record {
              named = v.named;
              indexed = v.indexed;
              parents = v.parents;
              open_tlvs = v.open_tlvs;
            }))

  -- Reading a file leaves a consistent dictionary consistent, whatever its lines say, and whether or
  -- not an exception ends the reading. Consistent says that every name refers to an object of that
  -- name and has a key in `attrindex`, and that the parent of an object is a tlv.
  pub read_dictionary-IsConsistent :
      (file : Lines) (d : Dictionary) → IsConsistent d → IsConsistent (read_dictionary x file d).1
  unfolding read_dictionary
  read_dictionary-IsConsistent file d v =
      with_dict-IsConsistent (parse_file x file (start_parser d)).1
        (parse_file-IsValid file (start_parser d) v)

  continue-IsConsistent :
      (r : Result (Unit {0})) (f : Exec Dictionary (Unit {0})) (d : Dictionary)
      → IsConsistent d
      → ((d : Dictionary) → IsConsistent d → IsConsistent (f d).1)
      → IsConsistent (Exec.continue r (λ _. f) d).1
  continue-IsConsistent (ok a) f d v h = h d v
  continue-IsConsistent (raise e) f d v h = v
  continue-IsConsistent stuck f d v h = v

  read_all-IsConsistent :
      (files : List Lines) (d : Dictionary) → IsConsistent d → IsConsistent (read_all x files d).1
  unfolding read_all
  read_all-IsConsistent [] d v = v
  read_all-IsConsistent (file ∷ files) d v =
      continue-IsConsistent (read_dictionary x file d).0 (read_all x files)
        (read_dictionary x file d).1 (read_dictionary-IsConsistent file d v)
        (read_all-IsConsistent files)

  made :
      (files : List Lines) (d : Dictionary) (r : Result (Unit {0}) × Dictionary)
      → (elim r.0 as (λ _. Result Dictionary) [ ok _ ↦ ok r.1 | raise e ↦ raise e | stuck ↦ stuck ])
        ≡ ok d
      → r.1 ≡ d
  made files d (ok a, e) h = cc h
  made files d (raise a, e) h = cc h
  made files d (stuck, e) h = cc h

  made-IsConsistent :
      (files : List Lines) (d : Dictionary) → make_dictionary x files ≡ ok d → IsConsistent d
  unfolding make_dictionary
  made-IsConsistent files d h =
      rw (made files d (read_all x files new_dictionary) h) at
        (read_all-IsConsistent files new_dictionary new_dictionary-IsConsistent)

  -- In a dictionary that `Dictionary(*files)` made, from files with whatever lines, an attribute that
  -- is known by a name is an object of that name, and has a key in `attrindex`.
  pub known_attribute :
      (files : List Lines) (d : Dictionary) (name : Text) (r : ℕ)
      → make_dictionary x files ≡ ok d
      → lookup name d.attributes ≡ some r
      → (a : Attribute) × (find_attribute d name ≡ some a)
        × (a.name ≡ name)
        × ((k : Key) × (lookup name d.attrindex.forward ≡ some k))
  unfolding find_attribute start_parser
  known_attribute files d name r h found =
      let v : IsConsistent d = made-IsConsistent files d h in
      let (a, e, n) = v.named name r found in (a, ground (arith, e), n, v.indexed name r found)

  -- In a dictionary that `Dictionary(*files)` made, from files with whatever lines, the parent of an
  -- attribute object, where it has one, is an attribute object of type tlv.
  pub parent_is_tlv :
      (files : List Lines) (d : Dictionary) (r p : ℕ) (a : Attribute)
      → make_dictionary x files ≡ ok d
      → get_elem? d.heap r ≡ some a
      → a.parent ≡ some p
      → (b : Attribute) × (get_elem? d.heap p ≡ some b) × (is_tlv_type b.type ≡ true)
  unfolding start_parser
  parent_is_tlv files d r p a h e k =
      let v : IsConsistent d = made-IsConsistent files d h in v.parents r a p e k
