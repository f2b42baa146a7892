-- ===== src/Tests/Dictionary.antt =====
-- A dictionary file with a tlv and a sub-attribute, read line by line.
use pyrad.Common.{◌≡◌, refl, true, false, some, [], ◌∷◌, codes, get_elem?}
use pyrad.Common.Eq.{text_eq_instance}
use pyrad.Common.Strs.{before, strip, lstrip, words, upper, split_on, starts_with, parse_int}
use pyrad.Common.Int.{pos}
use pyrad.Common.Result.{ok}
use pyrad.Common.Dict.{lookup, insert}
use pyrad.Bidict
use pyrad.DictFile.{Lines, line, done}
use pyrad.Dictionary.{is_tlv_type}
use pyrad.Dictionary.Types.{Datatype, Attribute, Dictionary}
use pyrad.Dictionary.Tokens.{datatype_named, parse_options, parse_codes, index_key}
use pyrad.Dictionary.Parse.{
  new_dictionary, parse_line, parse_tokens, parse_attribute, define_attribute, store_attribute,
  update_object, update_at, parse_deferred,
}
use pyrad.Dictionary.Read.{
  start_parser, parse_lines, parse_file, read_dictionary, read_all, make_dictionary,
}
use pyrad.Dictionary.Consistency.{
  IsConsistent, read_dictionary-IsConsistent, parent_is_tlv, new_dictionary-IsConsistent,
}
use pyrad.Tests.Data.{summing_digests}

abbrev file : Lines
file = line (codes "ATTRIBUTE A 1 tlv") (line (codes "ATTRIBUTE B 1.2 octets # last") done)

abbrev sample : Dictionary
sample = (read_dictionary summing_digests file new_dictionary).1

is_made : make_dictionary summing_digests (file ∷ []) ≡ ok sample
unfolding make_dictionary read_all read_dictionary parse_file parse_lines parse_line parse_tokens
    parse_attribute define_attribute parse_options parse_codes index_key store_attribute
    parse_deferred datatype_named before strip lstrip words upper split_on starts_with parse_int
    lookup insert start_parser Bidict.add
is_made = refl

known_b : lookup (codes "B") sample.attributes ≡ some 1
unfolding read_dictionary parse_file parse_lines parse_line parse_tokens parse_attribute
    define_attribute parse_options parse_codes index_key store_attribute parse_deferred
    datatype_named before strip lstrip words upper split_on starts_with parse_int lookup insert
    start_parser Bidict.add
known_b = refl

abbrev object_b : Attribute
object_b = record {
  name = codes "B";
  code = pos 2;
  type = Datatype.octets;
  vendor = [];
  encrypt = 0;
  has_tag = false;
  values = Bidict.empty;
  sub_attributes = [];
  parent = some 0;
  is_sub_attribute = true;
}

object_of_b : get_elem? sample.heap 1 ≡ some object_b
unfolding read_dictionary parse_file parse_lines parse_line parse_tokens parse_attribute
    define_attribute parse_options parse_codes index_key store_attribute parse_deferred
    datatype_named before strip lstrip words upper split_on starts_with parse_int lookup insert
    start_parser Bidict.add update_object update_at
object_of_b = refl

read_dictionary-IsConsistent_example : IsConsistent sample
read_dictionary-IsConsistent_example =
    read_dictionary-IsConsistent summing_digests file new_dictionary new_dictionary-IsConsistent

parent_is_tlv_example :
    (b : Attribute) × (get_elem? sample.heap 0 ≡ some b) × (is_tlv_type b.type ≡ true)
parent_is_tlv_example =
    parent_is_tlv summing_digests (file ∷ []) sample 1 0 object_b is_made object_of_b refl
