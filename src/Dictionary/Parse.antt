-- ===== src/Dictionary/Parse.antt =====
-- The parser of pyrad/dictionary.py: `__parse_attribute`, `__parse_value`, `__parse_vendor`,
-- `__parse_begin_vendor`, `__parse_end_vendor` and the loops of `read_dictionary`. The file name and
-- the line number, which only error messages show, are left out.
pub mod Heap
pub mod Invariant
pub mod Preservation
use pyrad.Common.{
  ℕ, zero, suc, Bool, true, false, not, ◌&&◌, ◌||◌, Option, none, some, List, [], ◌∷◌, ◌++◌, map,
  Text, codes, length, get_elem?, ◌==◌, if◌then◌else◌,
}
use pyrad.Common.Eq.{text_eq, text_eq_instance, int_eq_instance}
use pyrad.Common.Int.{ℤ, pos}
use pyrad.Common.Strs.{before, upper, strip, words, parse_int}
use pyrad.Common.Result.{
  Error, Result, ok, raise, stuck, key_error, value_error, bad_tokens, unknown_vendor, illegal_type,
  unknown_attribute, non_open_vendor, or_raise,
}
use pyrad.Common.Exec.{Exec, pure, lift, fail, modify, ◌>>=◌, ◌>>◌}
use pyrad.Common.Dict.{Dict, lookup, insert}
use pyrad.Bidict
use pyrad.Externals.{Externals}
use pyrad.Encoding.{Value, int, str, encode_attr}
use pyrad.Dictionary.Types.{Datatype, Key, Attribute, Dictionary, key_eq_instance}
use pyrad.Dictionary.{is_tlv_type}
use pyrad.Dictionary.Tokens.{
  Options, datatype_named, parse_options, parse_codes, index_key, check_format,
}

-- The dictionary, the parser's `state`, and `defer_parse`, whose states no later step reads. The
-- tlvs are places in the heap.
pub record Parser : Type 0 where
  pub dict : Dictionary
  pub vendor : Text
  pub tlvs : Dict ℤ ℕ
  pub defer_parse : List (List Text)

-- `Dictionary()`
abbrev pub new_dictionary : Dictionary
new_dictionary = record {
  vendors = Bidict.add [] (pos 0) Bidict.empty;
  attrindex = Bidict.empty;
  attributes = [];
  heap = [];
}

-- a write to the object at a place of the heap
unfoldable pub update_at : ℕ → (Attribute → Attribute) → List Attribute → List Attribute
update_at i f [] = []
update_at zero f (a ∷ heap) = f a ∷ heap
update_at (suc i) f (a ∷ heap) = a ∷ update_at i f heap

unfoldable pub update_object : ℕ → (Attribute → Attribute) → Parser → Parser
update_object r f s = record s { dict = record s.dict { heap = update_at r f s.dict.heap } }

abbrev with_dict : Dictionary → Parser → Parser
with_dict d s = record s { dict = d }

-- `if datatype == 'tlv': state['tlvs'][code] = self.attributes[attribute]`
save_tlv : Datatype → ℤ → ℕ → Parser → Parser
save_tlv t c r s = if is_tlv_type t then record s { tlvs = insert c r s.tlvs } else s

-- the writes to the parent and to the attribute that a sub-attribute needs
link_to : Option ℕ → ℤ → Text → ℕ → Exec Parser (Unit {0})
unfolding update_object
link_to none c name r s = (raise key_error, s)
link_to (some p) c name r s = (
  ok tt,
  update_object r (λ a. record a { parent = some p })
      (update_object p (λ a. record a { sub_attributes = insert c name a.sub_attributes }) s),
)

link_parent : Option ℤ → ℤ → Text → ℕ → Exec Parser (Unit {0})
unfolding link_to
link_parent none c name r s = (ok tt, s)
link_parent (some parent) c name r s = link_to (lookup parent s.tlvs) c name r s

abbrev pub is_sub : Option ℤ → Bool
is_sub none = false
is_sub (some parent) = true

-- `Attribute(...)`, as the constructor leaves it
abbrev pub new_attribute : Text → ℤ → Datatype → Bool → Options → Attribute
new_attribute name c t sub o = record {
  name = name;
  code = c;
  type = t;
  vendor = o.option_vendor;
  encrypt = o.encrypt;
  has_tag = o.has_tag;
  values = Bidict.empty;
  sub_attributes = [];
  parent = none;
  is_sub_attribute = sub;
}

-- `self.attrindex.add(attribute, key)` and `self.attributes[attribute] = Attribute(...)`: the new
-- object stands at the end of the heap
unfoldable pub store_attribute : Key → Attribute → Parser → Parser
store_attribute key a s =
    with_dict
      (record s.dict {
        attrindex = Bidict.add a.name key s.dict.attrindex;
        attributes = insert a.name (length s.dict.heap) s.dict.attributes;
        heap = s.dict.heap ++ a ∷ [];
      })
      s

-- `__parse_attribute` behind the options
unfoldable pub define_attribute : Text → Text → Text → Options → Exec Parser (Unit {0})
unfolding save_tlv link_parent
define_attribute name number type o = do
  (c, parent) ← lift (parse_codes number)
  t ← lift (or_raise illegal_type (datatype_named (before b'[' type)))
  key ← λ s. (index_key s.dict o.option_vendor c parent, s)
  λ s.
      let r = length s.dict.heap in
      let stored : Parser = store_attribute key (new_attribute name c t (is_sub parent) o) s in
      link_parent parent c name r (save_tlv t c r stored)

-- An attribute whose options end its parsing is ignored.
define_with : Text → Text → Text → Option Options → Exec Parser (Unit {0})
define_with name number type none s = (ok tt, s)
define_with name number type (some o) s = define_attribute name number type o s

-- `__parse_attribute`
unfoldable pub parse_attribute : List Text → Exec Parser (Unit {0})
unfolding define_with
parse_attribute (_ ∷ name ∷ number ∷ type ∷ []) s =
    (do o ← lift (parse_options s.dict s.vendor []); define_with name number type o) s
parse_attribute (_ ∷ name ∷ number ∷ type ∷ option ∷ []) s =
    (do o ← lift (parse_options s.dict s.vendor (option ∷ [])); define_with name number type o) s
parse_attribute _ s = (raise bad_tokens, s)

is_int_type : Datatype → Bool
is_int_type Datatype.integer = true
is_int_type Datatype.signed = true
is_int_type Datatype.short = true
is_int_type Datatype.byte = true
is_int_type Datatype.integer64 = true
is_int_type _ = false

-- the argument of `encode_attr`
value_of : Datatype → Text → Result Value
unfolding is_int_type
value_of t value =
    if is_int_type t
    then elim (parse_int 0 value) [ none ↦ raise value_error | some n ↦ ok (int n) ]
    else ok (str value)

module _ (x : Externals) where
  add_value : Text → Text → ℕ → Attribute → Exec Parser (Unit {0})
  unfolding value_of update_object
  add_value key value r a = do
    v ← lift (value_of a.type value)
    b ← lift (encode_attr x a.type v)
    modify (update_object r (λ o. record o { values = Bidict.add key b o.values }))

  -- the object at a place; every place that `attributes` has is one of the heap
  add_value_at : Text → Text → ℕ → Option Attribute → Exec Parser (Unit {0})
  unfolding add_value
  add_value_at key value r none s = (raise key_error, s)
  add_value_at key value r (some a) s = add_value key value r a s

  -- for an attribute that is not there: a line that is kept for later, or an error
  no_attribute : Bool → List Text → Exec Parser (Unit {0})
  no_attribute true tokens s = (ok tt, record s { defer_parse = s.defer_parse ++ tokens ∷ [] })
  no_attribute false tokens s = (raise unknown_attribute, s)

  value_for : Option ℕ → Bool → Text → Text → List Text → Exec Parser (Unit {0})
  unfolding add_value_at no_attribute
  value_for none defer key value tokens s = no_attribute defer tokens s
  value_for (some r) defer key value tokens s = add_value_at key value r (get_elem? s.dict.heap r) s

  -- `__parse_value`
  unfoldable pub parse_value : Bool → List Text → Exec Parser (Unit {0})
  unfolding value_for
  parse_value defer (word ∷ attr ∷ key ∷ value ∷ []) s =
      value_for (lookup attr s.dict.attributes) defer key value (word ∷ attr ∷ key ∷ value ∷ []) s
  parse_value defer _ s = (raise bad_tokens, s)

  add_vendor : Text → Text → Exec Parser (Unit {0})
  add_vendor name number = do
    n ← lift (or_raise value_error (parse_int 0 number))
    modify (λ s. with_dict (record s.dict { vendors = Bidict.add name n s.dict.vendors }) s)

  -- `__parse_vendor`
  unfoldable pub parse_vendor : List Text → Exec Parser (Unit {0})
  unfolding add_vendor
  parse_vendor (_ ∷ name ∷ number ∷ []) = add_vendor name number
  parse_vendor (_ ∷ name ∷ number ∷ option ∷ []) = do
    lift (check_format (option ∷ []))
    add_vendor name number
  parse_vendor _ = fail bad_tokens

  -- `__parse_begin_vendor`
  unfoldable pub parse_begin_vendor : List Text → Exec Parser (Unit {0})
  parse_begin_vendor (_ ∷ vendor ∷ []) s =
      if Bidict.has_forward s.dict.vendors vendor
      then (ok tt, record s { vendor = vendor })
      else (raise unknown_vendor, s)
  parse_begin_vendor _ s = (raise bad_tokens, s)

  -- `__parse_end_vendor`
  unfoldable pub parse_end_vendor : List Text → Exec Parser (Unit {0})
  parse_end_vendor (_ ∷ vendor ∷ []) s =
      if text_eq s.vendor vendor
      then (ok tt, record s { vendor = [] })
      else (raise non_open_vendor, s)
  parse_end_vendor _ s = (raise bad_tokens, s)

  -- the dispatch on `tokens[0].upper()`
  unfoldable pub parse_tokens : List Text → Exec Parser (Unit {0})
  parse_tokens [] s = (ok tt, s)
  parse_tokens (word ∷ tokens) s =
      if text_eq (upper word) (codes "ATTRIBUTE")
      then parse_attribute (word ∷ tokens) s
      else if text_eq (upper word) (codes "VALUE")
      then parse_value true (word ∷ tokens) s
      else if text_eq (upper word) (codes "VENDOR")
      then parse_vendor (word ∷ tokens) s
      else if text_eq (upper word) (codes "BEGIN-VENDOR")
      then parse_begin_vendor (word ∷ tokens) s
      else if text_eq (upper word) (codes "END-VENDOR")
      then parse_end_vendor (word ∷ tokens) s
      else (ok tt, s)

  -- a line of the file: the text before `#`, in words
  unfoldable pub parse_line : Text → Exec Parser (Unit {0})
  parse_line line = parse_tokens (words (strip (before b'#' line)))

  -- the loop over `defer_parse`, which holds only VALUE lines
  unfoldable pub parse_deferred : List (List Text) → Exec Parser (Unit {0})
  parse_deferred [] = pure tt
  parse_deferred (tokens ∷ rest) = do parse_value false tokens; parse_deferred rest
