-- ===== src/Dictionary/Tokens.antt =====
-- The tokens of a line of a dictionary file: the parts of `__parse_attribute` and `__parse_vendor` of
-- pyrad/dictionary.py that change nothing.
use pyrad.Common.{
  ℕ, Bool, true, false, not, ◌&&◌, ◌||◌, Option, none, some, List, [], ◌∷◌, map, Text, codes, ◌==◌,
  if◌then◌else◌,
}
use pyrad.Common.Eq.{text_eq, text_eq_instance, int_eq_instance}
use pyrad.Common.Int.{ℤ, pos}
use pyrad.Common.Strs.{split_on, parse_int, starts_with}
use pyrad.Common.Result.{
  Result, ok, raise, value_error, index_error, bad_encryption, unknown_vendor, nested_tlvs,
  unknown_option, bad_format, bad_vendor_syntax, or_raise, ◌>>=◌,
}
use pyrad.Common.Dict.{lookup}
use pyrad.Bidict
use pyrad.Dictionary.Types.{Datatype, Key, code, pair, triple, Dictionary, key_eq_instance}

-- the members of DATATYPES
unfoldable pub datatype_named : Text → Option Datatype
datatype_named t = lookup t (
    (codes "string", Datatype.string)
    ∷ (codes "ipaddr", Datatype.ipaddr)
    ∷ (codes "integer", Datatype.integer)
    ∷ (codes "date", Datatype.date)
    ∷ (codes "octets", Datatype.octets)
    ∷ (codes "abinary", Datatype.abinary)
    ∷ (codes "ipv6addr", Datatype.ipv6addr)
    ∷ (codes "ipv6prefix", Datatype.ipv6prefix)
    ∷ (codes "short", Datatype.short)
    ∷ (codes "byte", Datatype.byte)
    ∷ (codes "signed", Datatype.signed)
    ∷ (codes "ifid", Datatype.ifid)
    ∷ (codes "ether", Datatype.ether)
    ∷ (codes "tlv", Datatype.tlv)
    ∷ (codes "integer64", Datatype.integer64)
    ∷ [])

-- `keyval`: the key, and the value if there is exactly one `=`
keyval : List Text → Text × Option Text
keyval [] = ([], none)
keyval (k ∷ v ∷ []) = (k, some v)
keyval (k ∷ rest) = (k, none)

-- the values of `encrypt` that are allowed, and their numbers
encryption : Option Text → Result ℕ
encryption none = raise bad_encryption
encryption (some v) =
    if text_eq v (codes "1")
    then ok 1
    else if text_eq v (codes "2")
    then ok 2
    else if text_eq v (codes "3")
    then ok 3
    else raise bad_encryption

-- One round of the loop over the options: `has_tag` and `encrypt` so far.
read_option : Text × Option Text → Bool → ℕ → Result (Bool × ℕ)
unfolding encryption
read_option (key, val) has_tag encrypt =
    if text_eq key (codes "has_tag")
    then ok (true, encrypt)
    else if text_eq key (codes "encrypt")
    then (do e ← encryption val; ok (has_tag, e))
    else ok (has_tag, encrypt)

read_options : List Text → Bool → ℕ → Result (Bool × ℕ)
unfolding keyval read_option
read_options [] has_tag encrypt = ok (has_tag, encrypt)
read_options (o ∷ os) has_tag encrypt = do
  (t, e) ← read_option (keyval (split_on b'=' o)) has_tag encrypt
  read_options os t e

-- What the optional fifth token says: `none` ends the parsing of an attribute of type "concat".
pub record Options : Type 0 where
  pub option_vendor : Text
  pub has_tag : Bool
  pub encrypt : ℕ

vendor_option : Dictionary → Text → Bool → ℕ → Text → Result (Option Options)
vendor_option d vendor has_tag encrypt token =
    if not has_tag && encrypt == 0
    then (if Bidict.has_forward d.vendors token
        then ok (some (record { option_vendor = token; has_tag = has_tag; encrypt = encrypt }))
        else if text_eq token (codes "concat")
        then ok none
        else raise unknown_vendor)
    else ok (some (record { option_vendor = vendor; has_tag = has_tag; encrypt = encrypt }))

unfoldable pub parse_options : Dictionary → Text → List Text → Result (Option Options)
unfolding read_options vendor_option
parse_options d vendor [] =
    ok (some (record { option_vendor = vendor; has_tag = false; encrypt = 0 }))
parse_options d vendor (token ∷ _) = do
  (has_tag, encrypt) ← read_options (split_on b',' token) false 0
  vendor_option d vendor has_tag encrypt token

-- a code in hex, octal or decimal
parse_code : Text → Result ℤ
parse_code c = or_raise value_error (
    if starts_with (codes "0x") c
    then parse_int 16 c
    else if starts_with (codes "0o") c
    then parse_int 8 c
    else parse_int 10 c)

parse_each : List Text → Result (List ℤ)
unfolding parse_code
parse_each [] = ok []
parse_each (c ∷ cs) = do n ← parse_code c; ns ← parse_each cs; ok (n ∷ ns)

-- the code, and the parent's if there are two
own_and_parent : List ℤ → Result (ℤ × Option ℤ)
own_and_parent (c ∷ []) = ok (c, none)
own_and_parent (parent ∷ c ∷ []) = ok (c, some parent)
own_and_parent _ = raise nested_tlvs

unfoldable pub parse_codes : Text → Result (ℤ × Option ℤ)
unfolding parse_each own_and_parent
parse_codes t = do codes' ← parse_each (split_on b'.' t); own_and_parent codes'

-- the key under which `attrindex` has the attribute
unfoldable pub index_key : Dictionary → Text → ℤ → Option ℤ → Result Key
index_key d [] c none = ok (code c)
index_key d [] c (some parent) = ok (pair parent c)
index_key d (v ∷ vs) c none = do n ← Bidict.get_forward d.vendors (v ∷ vs); ok (pair n c)
index_key d (v ∷ vs) c (some parent) = do
  n ← Bidict.get_forward d.vendors (v ∷ vs)
  ok (triple n parent c)

-- `t not in [1, 2, 4] or l not in [0, 1, 2]`
known_format : ℤ → ℤ → Bool
known_format (pos t) (pos l) = (t == 1 || t == 2 || t == 4) && (l == 0 || l == 1 || l == 2)
known_format _ _ = false

-- The two numbers; a ValueError becomes a ParseError.
check_numbers : List (Option ℤ) → Result (Unit {0})
unfolding known_format
check_numbers (some t ∷ some l ∷ []) = if known_format t l then ok tt else raise bad_format
check_numbers _ = raise bad_vendor_syntax

-- `fmt[1]`
check_format_of : List Text → Result (Unit {0})
unfolding check_numbers
check_format_of [] = raise unknown_option
check_format_of (key ∷ rest) =
    if text_eq key (codes "format")
    then elim rest [
      | [] ↦ raise index_error
      | v ∷ _ ↦ check_numbers (map (parse_int 10) (split_on b',' v))
    ]
    else raise unknown_option

-- the format of a vendor is checked and forgotten
unfoldable pub check_format : List Text → Result (Unit {0})
unfolding check_format_of
check_format [] = ok tt
check_format (option ∷ _) = check_format_of (split_on b'=' option)
