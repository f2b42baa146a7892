-- ===== src/Dictionary/Parse/Preservation.antt =====
-- Every line of a dictionary file, and what was deferred, keeps the state of the parser valid.
use pyrad.Common.{
  ℕ, refl, Bool, true, false, Option, none, some, List, [], ◌∷◌, Text, codes, get_elem?,
  if◌then◌else◌, Bool-cases, inl, inr,
}
use pyrad.Common.Eq.{text_eq, text_eq_instance, int_eq_instance}
use pyrad.Common.Result.{Result, or_raise, value_error}
use pyrad.Common.Dict.{lookup}
use pyrad.Bidict
use pyrad.Externals.{Externals}
use pyrad.Dictionary.Types.{Attribute, key_eq_instance}
use pyrad.Dictionary.Tokens.{check_format}
use pyrad.Common.Strs.{before, upper, strip, words, parse_int}
use pyrad.Encoding.{encode_attr}
use pyrad.Dictionary.Parse.{
  add_value_at, no_attribute, value_for, value_of, Parser, add_value, parse_value, add_vendor,
  parse_vendor, parse_begin_vendor, parse_end_vendor, parse_tokens, parse_line, parse_deferred,
}
use pyrad.Dictionary.Parse.Invariant.{
  IsValid, Keeps, continue-IsValid, update_object-IsValid, parse_attribute-IsValid,
}

module _ (x : Externals) where
  add_value-IsValid : (key value : Text) (r : ℕ) (a : Attribute) → Keeps (add_value x key value r a)
  unfolding add_value
  add_value-IsValid key value r a s v = continue-IsValid (value_of a.type value) _ s v (λ w s v.
      continue-IsValid (encode_attr x a.type w) _ s v (λ b s v.
        update_object-IsValid r (λ (o : Attribute). record o { values = Bidict.add key b o.values })
          s (λ a. (refl, refl)) (λ a q e k. v.parents r a q e k) v))

  add_value_at-IsValid :
      (key value : Text) (r : ℕ) (o : Option Attribute) → Keeps (add_value_at x key value r o)
  unfolding add_value_at
  add_value_at-IsValid key value r none s v = v
  add_value_at-IsValid key value r (some a) s v = add_value-IsValid key value r a s v

  no_attribute-IsValid : (defer : Bool) (tokens : List Text) → Keeps (no_attribute x defer tokens)
  unfolding no_attribute
  no_attribute-IsValid false tokens s v = v
  no_attribute-IsValid true tokens s v = record {
    named = v.named;
    indexed = v.indexed;
    parents = v.parents;
    open_tlvs = v.open_tlvs;
  }

  value_for-IsValid :
      (o : Option ℕ) (defer : Bool) (key value : Text) (tokens : List Text)
      → Keeps (value_for x o defer key value tokens)
  unfolding value_for
  value_for-IsValid none defer key value tokens s v = no_attribute-IsValid defer tokens s v
  value_for-IsValid (some r) defer key value tokens s v =
      add_value_at-IsValid key value r (get_elem? s.dict.heap r) s v

  pub parse_value-IsValid : (defer : Bool) (tokens : List Text) → Keeps (parse_value x defer tokens)
  unfolding parse_value
  parse_value-IsValid defer (w ∷ attr ∷ key ∷ value ∷ []) s v =
      value_for-IsValid (lookup attr s.dict.attributes) defer key value
        (w ∷ attr ∷ key ∷ value ∷ []) s v
  parse_value-IsValid defer [] s v = v
  parse_value-IsValid defer (a ∷ []) s v = v
  parse_value-IsValid defer (a ∷ b ∷ []) s v = v
  parse_value-IsValid defer (a ∷ b ∷ c ∷ []) s v = v
  parse_value-IsValid defer (a ∷ b ∷ c ∷ d ∷ e ∷ rest) s v = v

  add_vendor-IsValid : (name number : Text) → Keeps (add_vendor x name number)
  unfolding add_vendor
  add_vendor-IsValid name number s v =
      continue-IsValid (or_raise value_error (parse_int 0 number)) _ s v (λ n s v. record {
        named = v.named;
        indexed = v.indexed;
        parents = v.parents;
        open_tlvs = v.open_tlvs;
      })

  parse_vendor-IsValid : (tokens : List Text) → Keeps (parse_vendor x tokens)
  unfolding parse_vendor
  parse_vendor-IsValid (w ∷ name ∷ number ∷ []) s v = add_vendor-IsValid name number s v
  parse_vendor-IsValid (w ∷ name ∷ number ∷ option ∷ []) s v =
      continue-IsValid (check_format (option ∷ [])) _ s v (λ _. add_vendor-IsValid name number)
  parse_vendor-IsValid [] s v = v
  parse_vendor-IsValid (a ∷ []) s v = v
  parse_vendor-IsValid (a ∷ b ∷ []) s v = v
  parse_vendor-IsValid (a ∷ b ∷ c ∷ d ∷ e ∷ rest) s v = v

  with_vendor-IsValid :
      (vendor : Text) (s : Parser) → IsValid s → IsValid (record s { vendor = vendor })
  with_vendor-IsValid vendor s v = record {
    named = v.named;
    indexed = v.indexed;
    parents = v.parents;
    open_tlvs = v.open_tlvs;
  }

  parse_begin_vendor-IsValid : (tokens : List Text) → Keeps (parse_begin_vendor x tokens)
  unfolding parse_begin_vendor
  parse_begin_vendor-IsValid (w ∷ vendor ∷ []) s v =
      elim (Bool-cases (Bidict.has_forward s.dict.vendors vendor)) [
        | inl known ↦ rw known (with_vendor-IsValid vendor s v)
        | inr unknown ↦ rw unknown v
      ]
  parse_begin_vendor-IsValid [] s v = v
  parse_begin_vendor-IsValid (a ∷ []) s v = v
  parse_begin_vendor-IsValid (a ∷ b ∷ c ∷ rest) s v = v

  parse_end_vendor-IsValid : (tokens : List Text) → Keeps (parse_end_vendor x tokens)
  unfolding parse_end_vendor
  parse_end_vendor-IsValid (w ∷ vendor ∷ []) s v = elim (Bool-cases (text_eq s.vendor vendor)) [
    | inl same ↦ rw same (with_vendor-IsValid [] s v)
    | inr other ↦ rw other v
  ]
  parse_end_vendor-IsValid [] s v = v
  parse_end_vendor-IsValid (a ∷ []) s v = v
  parse_end_vendor-IsValid (a ∷ b ∷ c ∷ rest) s v = v

  if-IsValid :
      (b : Bool) (m n : Result (Unit {0}) × Parser)
      → IsValid m.1
      → IsValid n.1
      → IsValid (if b then m else n).1
  if-IsValid true m n hm hn = hm
  if-IsValid false m n hm hn = hn

  parse_tokens-IsValid : (tokens : List Text) → Keeps (parse_tokens x tokens)
  unfolding parse_tokens
  parse_tokens-IsValid [] s v = v
  parse_tokens-IsValid (w ∷ ts) s v =
      if-IsValid (text_eq (upper w) (codes "ATTRIBUTE")) _ _ (parse_attribute-IsValid (w ∷ ts) s v)
        (if-IsValid (text_eq (upper w) (codes "VALUE")) _ _ (parse_value-IsValid true (w ∷ ts) s v)
          (if-IsValid (text_eq (upper w) (codes "VENDOR")) _ _ (parse_vendor-IsValid (w ∷ ts) s v) (
            if-IsValid (text_eq (upper w) (codes "BEGIN-VENDOR")) _ _
              (parse_begin_vendor-IsValid (w ∷ ts) s v)
              (if-IsValid (text_eq (upper w) (codes "END-VENDOR")) _ _
                (parse_end_vendor-IsValid (w ∷ ts) s v) v))))

  pub parse_line-IsValid : (line : Text) → Keeps (parse_line x line)
  unfolding parse_line
  parse_line-IsValid line = parse_tokens-IsValid (words (strip (before b'#' line)))

  pub parse_deferred-IsValid : (lines : List (List Text)) → Keeps (parse_deferred x lines)
  unfolding parse_deferred
  parse_deferred-IsValid [] s v = v
  parse_deferred-IsValid (tokens ∷ rest) s v =
      continue-IsValid (parse_value x false tokens s).0 (λ _. parse_deferred x rest)
        (parse_value x false tokens s).1 (parse_value-IsValid false tokens s v)
        (λ _. parse_deferred-IsValid rest)
