-- ===== src/Dictionary/Parse/Invariant.antt =====
-- What holds of a dictionary, and of the parser's state, after every line of a dictionary file,
-- whatever it says, and after every exception.
use pyrad.Common.{
  ℕ, ◌≡◌, refl, true, Option, none, some, List, [], ◌∷◌, Text, length, get_elem?, arith, Bool-cases,
  inl, inr,
}
use pyrad.Common.Eq.{text_eq, text_eq_iff, text_eq_instance, int_eq_instance}
use pyrad.Common.Int.{ℤ}
use pyrad.Common.Result.{Result, ok, raise, stuck, or_raise, illegal_type}
use pyrad.Common.Exec.{Exec, continue}
use pyrad.Common.Dict.{lookup, insert, lookup-insert}
use pyrad.Bidict
use pyrad.Dictionary.Types.{Datatype, Key, Attribute, key_eq_instance}
use pyrad.Dictionary.{is_tlv_type}
use pyrad.Dictionary.Tokens.{Options, datatype_named, parse_options, parse_codes, index_key}
use pyrad.Common.Strs.{before}
use pyrad.Dictionary.Parse.{
  link_to, define_with, Parser, update_object, store_attribute, save_tlv, link_parent,
  define_attribute, parse_attribute, new_attribute, is_sub,
}
use pyrad.Dictionary.Parse.Heap.{
  NameAt, TlvAt, HasTlvParents, NameAt-append, TlvAt-append, HasTlvParents-append, get_elem?-new,
  NameAt-update, TlvAt-update, HasTlvParents-update,
}

-- Every name refers to an object of that name, and has a key; parents are tlvs; the parser's tlvs are.
pub record IsValid (s : Parser) : Type 0 where
  pub named : (n : Text) (r : ℕ) → lookup n s.dict.attributes ≡ some r → NameAt s.dict.heap r n
  pub indexed :
      (n : Text) (r : ℕ)
      → lookup n s.dict.attributes ≡ some r
      → (k : Key) × (lookup n s.dict.attrindex.forward ≡ some k)
  pub parents : HasTlvParents s.dict.heap
  pub open_tlvs : (c : ℤ) (r : ℕ) → lookup c s.tlvs ≡ some r → TlvAt s.dict.heap r

-- An action that keeps the state valid, also where it raises.
abbrev pub Keeps : Exec Parser (Unit {0}) → Type 0
Keeps m = (s : Parser) → IsValid s → IsValid (m s).1

pub continue-IsValid :
    {A : Type 0} (r : Result A) (f : A → Exec Parser (Unit {0})) (s : Parser)
    → IsValid s
    → ((a : A) → Keeps (f a))
    → IsValid (continue r f s).1
continue-IsValid (ok a) f s v h = h a s v
continue-IsValid (raise e) f s v h = v
continue-IsValid stuck f s v h = v

store_attribute-IsValid :
    (key : Key) (a : Attribute) (s : Parser)
    → a.parent ≡ none
    → IsValid s
    → IsValid (store_attribute key a s)
unfolding store_attribute Bidict.add
store_attribute-IsValid key a s orphan v = record {
  named = λ n r e. elim (Bool-cases (text_eq a.name n)) [
    | inl same ↦
        let new : length s.dict.heap ≡ r =
          ground (arith, lookup-insert a.name n (length s.dict.heap) s.dict.attributes) in
        rw (← new) (a, get_elem?-new s.dict.heap a, (text_eq_iff a.name n).0 same)
    | inr other ↦ NameAt-append s.dict.heap a r n (
        v.named n r (ground (arith, lookup-insert a.name n (length s.dict.heap) s.dict.attributes)))
  ];
  indexed = λ n r e. elim (Bool-cases (text_eq a.name n)) [
    | inl same ↦ (key, rw (lookup-insert a.name n key s.dict.attrindex.forward, same))
    | inr other ↦
        let (k, e') =
          v.indexed n r
            (ground (arith, lookup-insert a.name n (length s.dict.heap) s.dict.attributes)) in
        (k, rw (lookup-insert a.name n key s.dict.attrindex.forward, other) e')
  ];
  parents = HasTlvParents-append s.dict.heap a v.parents orphan;
  open_tlvs = λ c r e. TlvAt-append s.dict.heap a r (v.open_tlvs c r e);
}

save_tlv-IsValid :
    (t : Datatype) (c : ℤ) (r : ℕ) (s : Parser)
    → (is_tlv_type t ≡ true → TlvAt s.dict.heap r)
    → IsValid s
    → IsValid (save_tlv t c r s)
unfolding save_tlv
save_tlv-IsValid t c r s new v = elim (Bool-cases (is_tlv_type t)) [
  | inr other ↦ rw other v
  | inl tlv ↦ rw tlv (record {
    named = v.named;
    indexed = v.indexed;
    parents = v.parents;
    open_tlvs = λ d q e. elim (Bool-cases (int_eq_instance.beq c d)) [
      | inl same ↦
          let here : r ≡ q = ground (arith, lookup-insert c d r s.tlvs) in rw (← here) (new tlv)
      | inr differs ↦ v.open_tlvs d q (ground (arith, lookup-insert c d r s.tlvs))
    ];
  })
]

pub update_object-IsValid :
    (i : ℕ) (f : Attribute → Attribute) (s : Parser)
    → ((a : Attribute) → ((f a).name ≡ a.name) × ((f a).type ≡ a.type))
    → ((a : Attribute) (p : ℕ)
        → get_elem? s.dict.heap i ≡ some a
        → (f a).parent ≡ some p
        → TlvAt s.dict.heap p)
    → IsValid s
    → IsValid (update_object i f s)
unfolding update_object
update_object-IsValid i f s names parents v = record {
  named = λ n r e. NameAt-update i f names s.dict.heap r n (v.named n r e);
  indexed = v.indexed;
  parents = HasTlvParents-update i f names s.dict.heap parents v.parents;
  open_tlvs = λ c r e. TlvAt-update i f names s.dict.heap r (v.open_tlvs c r e);
}

link_to-IsValid :
    (o : Option ℕ) (c : ℤ) (name : Text) (r : ℕ) (s : Parser)
    → ((p : ℕ) → o ≡ some p → TlvAt s.dict.heap p)
    → IsValid s
    → IsValid (link_to o c name r s).1
unfolding link_to
link_to-IsValid none c name r s tlv v = v
link_to-IsValid (some p) c name r s tlv v =
    let add_sub : Attribute → Attribute =
      λ a. record a { sub_attributes = insert c name a.sub_attributes } in
    update_object-IsValid r (λ (a : Attribute). record a { parent = some p })
      (update_object p add_sub s) (λ a. (refl, refl))
      (λ a q e k.
        let same : p ≡ q = cc k in
        rw (← same) (
          unfold update_object in
          TlvAt-update p add_sub (λ a. (refl, refl)) s.dict.heap p (tlv p refl)))
      (update_object-IsValid p add_sub s (λ a. (refl, refl)) (λ a q e k. v.parents p a q e k) v)

link_parent-IsValid :
    (parent : Option ℤ) (c : ℤ) (name : Text) (r : ℕ) → Keeps (link_parent parent c name r)
unfolding link_parent
link_parent-IsValid none c name r s v = v
link_parent-IsValid (some parent) c name r s v =
    link_to-IsValid (lookup parent s.tlvs) c name r s (v.open_tlvs parent) v

define-IsValid :
    (name : Text) (c : ℤ) (parent : Option ℤ) (t : Datatype) (key : Key) (o : Options) (s : Parser)
    → IsValid s
    → IsValid
        (link_parent parent c name (length s.dict.heap) (
          save_tlv t c
            (length s.dict.heap)
            (store_attribute key (new_attribute name c t (is_sub parent) o) s))).1
unfolding store_attribute
define-IsValid name c parent t key o s v =
    let a : Attribute = new_attribute name c t (is_sub parent) o in
    link_parent-IsValid parent c name (length s.dict.heap) _ (
      save_tlv-IsValid t c (length s.dict.heap) (store_attribute key a s)
        (λ tlv. (a, get_elem?-new s.dict.heap a, tlv)) (store_attribute-IsValid key a s refl v))

define_attribute-IsValid :
    (name number type : Text) (o : Options) → Keeps (define_attribute name number type o)
unfolding define_attribute
define_attribute-IsValid name number type o s v =
    continue-IsValid (parse_codes number) _ s v (λ (cp : ℤ × Option ℤ) s v.
      continue-IsValid (or_raise illegal_type (datatype_named (before b'[' type))) _ s v
        (λ (t : Datatype) s v.
          continue-IsValid (index_key s.dict o.option_vendor cp.0 cp.1) _ s v
            (λ (key : Key) s v. define-IsValid name cp.0 cp.1 t key o s v)))

define_with-IsValid :
    (name number type : Text) (o : Option Options) → Keeps (define_with name number type o)
unfolding define_with
define_with-IsValid name number type none s v = v
define_with-IsValid name number type (some o) s v = define_attribute-IsValid name number type o s v

pub parse_attribute-IsValid : (tokens : List Text) → Keeps (parse_attribute tokens)
unfolding parse_attribute
parse_attribute-IsValid (w ∷ name ∷ number ∷ type ∷ []) s v =
    continue-IsValid (parse_options s.dict s.vendor []) _ s v (define_with-IsValid name number type)
parse_attribute-IsValid (w ∷ name ∷ number ∷ type ∷ option ∷ []) s v =
    continue-IsValid (parse_options s.dict s.vendor (option ∷ [])) _ s v
      (define_with-IsValid name number type)
parse_attribute-IsValid [] s v = v
parse_attribute-IsValid (w ∷ []) s v = v
parse_attribute-IsValid (w ∷ name ∷ []) s v = v
parse_attribute-IsValid (w ∷ name ∷ number ∷ []) s v = v
parse_attribute-IsValid (w ∷ name ∷ number ∷ type ∷ option ∷ more ∷ rest) s v = v
