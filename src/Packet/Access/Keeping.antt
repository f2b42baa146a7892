-- ===== src/Packet/Access/Keeping.antt =====
-- Writing attributes by name keeps the header of the packet, its secret and an authenticator that it
-- has.
use pyrad.Common.{
  ℕ, ◌+◌, ◌≡◌, refl, ◌∙◌, Bool, true, false, Option, none, some, List, [], ◌∷◌, Bytes, Text, ◌==◌,
  if◌then◌else◌,
}
use pyrad.Common.Int.{ℤ}
use pyrad.Common.Result.{Result, ok, raise, stuck}
use pyrad.Common.Exec.{Exec, pure, lift, continue, ◌>>=◌}
use pyrad.Common.Dict.{Dict, lookup}
use pyrad.Common.Strs.{before, after}
use pyrad.Dictionary.{attribute}
use pyrad.Dictionary.Types.{key_eq_instance}
use pyrad.Packet.Names.{encode_key}
use pyrad.Externals.{Externals}
use pyrad.Dictionary.Types.{Attribute, Key}
use pyrad.Encoding.{Value, bytes}
use pyrad.Packet.State.{Slot, values, subs, Packet}
use pyrad.Packet.Crypt.{salt_crypt, salt_value, zero_authenticator}
use pyrad.Packet.Access.{
  extend_slot, extend_parent, encode_value, encode_each, encode_key_values, set_item, extend,
  add_attribute, plain_value, tag_bytes, parent_name,
}

-- `q` is `p` but for the attributes, an authenticator that was missing, and the mark of the message
-- authenticator.
pub record Keeps (p q : Packet) : Type 0 where
  pub kind : q.kind ≡ p.kind
  pub code : q.code ≡ p.code
  pub id : q.id ≡ p.id
  pub secret : q.secret ≡ p.secret
  pub dict : q.dict ≡ p.dict
  pub auth_type : q.auth_type ≡ p.auth_type
  pub authenticator : (a : Bytes) → p.authenticator ≡ some a → q.authenticator ≡ some a

pub Keeps-refl : (p : Packet) → Keeps p p
Keeps-refl p = record {
  kind = refl;
  code = refl;
  id = refl;
  secret = refl;
  dict = refl;
  auth_type = refl;
  authenticator = λ a h. h;
}

pub Keeps-trans : {p q r : Packet} → Keeps p q → Keeps q r → Keeps p r
Keeps-trans k l = record {
  kind = l.kind ∙ k.kind;
  code = l.code ∙ k.code;
  id = l.id ∙ k.id;
  secret = l.secret ∙ k.secret;
  dict = l.dict ∙ k.dict;
  auth_type = l.auth_type ∙ k.auth_type;
  authenticator = λ a h. l.authenticator a (k.authenticator a h);
}

abbrev pub Keeping : {A : Type 0} → Exec Packet A → Type 0
Keeping m = (p : Packet) → Keeps p (m p).1

continue-Keeps :
    {A B : Type 0} (r : Result A) (f : A → Exec Packet B) (p q : Packet)
    → Keeps p q
    → ((a : A) → Keeping (f a))
    → Keeps p (continue r f q).1
continue-Keeps (ok a) f p q h k = Keeps-trans h (k a q)
continue-Keeps (raise e) f p q h k = h
continue-Keeps stuck f p q h k = h

-- A chain keeps what its calls keep.
pub >>=-Keeping :
    {A B : Type 0} (m : Exec Packet A) (f : A → Exec Packet B)
    → Keeping m
    → ((a : A) → Keeping (f a))
    → Keeping (m >>= f)
>>=-Keeping m f h k p = continue-Keeps (m p).0 f p (m p).1 (h p) k

pub if-Keeps :
    {A : Type 0} (b : Bool) (m n : Result A × Packet) (p : Packet)
    → Keeps p m.1
    → Keeps p n.1
    → Keeps p (if b then m else n).1
if-Keeps true m n p h k = h
if-Keeps false m n p h k = k

pub if-Keeping :
    {A : Type 0} (b : Bool) (m n : Exec Packet A)
    → Keeping m
    → Keeping n
    → Keeping (if b then m else n)
if-Keeping true m n h k = h
if-Keeping false m n h k = k

-- The authenticator that salt encryption sets is the one that is there.
salt_authenticator :
    (x : Externals) (p : Packet) (a : Bytes)
    → p.authenticator ≡ some a
    → some (zero_authenticator x p) ≡ some a
unfolding zero_authenticator
salt_authenticator x p a h = rw h refl

salt_crypt-Keeping : (x : Externals) (draw : ℕ) (b : Bytes) → Keeping (salt_crypt x draw (bytes b))
unfolding salt_crypt salt_value
salt_crypt-Keeping x draw b p = record {
  kind = refl;
  code = refl;
  id = refl;
  secret = refl;
  dict = refl;
  auth_type = refl;
  authenticator = λ a h. salt_authenticator x p a h;
}

with_attrs-Keeps : (p : Packet) (attrs : Dict Key Slot) → Keeps p (record p { attrs = attrs })
with_attrs-Keeps p attrs = record {
  kind = refl;
  code = refl;
  id = refl;
  secret = refl;
  dict = refl;
  auth_type = refl;
  authenticator = λ a h. h;
}

extend_slot-Keeping :
    (o : Option Slot) (key : Key) (vs : List Bytes) → Keeping (extend_slot o key vs)
unfolding extend_slot
extend_slot-Keeping none key vs p = with_attrs-Keeps p _
extend_slot-Keeping (some (values ws)) key vs p = with_attrs-Keeps p _
extend_slot-Keeping (some (subs d)) key vs p = Keeps-refl p

extend_parent-Keeping :
    (o : Option Slot) (parent : Key) (c : ℤ) (vs : List Bytes)
    → Keeping (extend_parent o parent c vs)
unfolding extend_parent
extend_parent-Keeping none parent c vs p = with_attrs-Keeps p _
extend_parent-Keeping (some (values ws)) parent c vs p = Keeps-refl p
extend_parent-Keeping (some (subs d)) parent c vs p = with_attrs-Keeps p _

lift-Keeping : {A : Type 0} (r : Result A) → Keeping (lift r)
lift-Keeping r p = Keeps-refl p

pure-Keeping : {A : Type 0} (a : A) → Keeping (pure a)
pure-Keeping a p = Keeps-refl p

module _ (x : Externals) (draw : ℕ → ℕ) where
  encode_value-Keeping : (i : ℕ) (a : Attribute) (v : Value) → Keeping (encode_value x draw i a v)
  unfolding encode_value
  encode_value-Keeping i a v =
      >>=-Keeping (lift (plain_value x draw a v)) _ (lift-Keeping (plain_value x draw a v))
        (λ b. if-Keeping (a.encrypt == 2) _ _ (salt_crypt-Keeping x (draw i) b) (pure-Keeping b))

  encode_each-Keeping :
      (vs : List Value) (i : ℕ) (a : Attribute) (tag : Bytes)
      → Keeping (encode_each x draw i a tag vs)
  unfolding encode_each
  encode_each-Keeping [] i a tag = Keeps-refl
  encode_each-Keeping (v ∷ vs) i a tag =
      >>=-Keeping (encode_value x draw i a v) _ (encode_value-Keeping i a v) (λ b.
        >>=-Keeping (encode_each x draw (i + 1) a tag vs) _ (encode_each-Keeping vs (i + 1) a tag)
          (λ rest. Keeps-refl))

  encode_key_values-Keeping :
      (name : Text) (vs : List Value) → Keeping (encode_key_values x draw name vs)
  unfolding encode_key_values
  encode_key_values-Keeping name vs p =
      >>=-Keeping (lift (attribute p.dict (before b':' name))) _ Keeps-refl
        (λ a. >>=-Keeping (lift (encode_key p.dict (before b':' name))) _ Keeps-refl (λ key.
          >>=-Keeping (lift (tag_bytes a.has_tag (after b':' name))) _ Keeps-refl (λ tag.
            >>=-Keeping (encode_each x draw 0 a tag vs) _ (encode_each-Keeping vs 0 a tag)
              (λ bs. Keeps-refl))))
        p

  pub set_item-Keeping : (name : Text) (vs : List Value) → Keeping (set_item x draw name vs)
  unfolding set_item
  set_item-Keeping name vs =
      >>=-Keeping (encode_key_values x draw name vs) _ (encode_key_values-Keeping name vs)
        (λ kv p. with_attrs-Keeps p _)

  extend-Keeping : (a : Attribute) (key : Key) (vs : List Bytes) → Keeping (extend x draw a key vs)
  unfolding extend
  extend-Keeping a key vs p =
      if-Keeps a.is_sub_attribute _ _ p
        (>>=-Keeping (lift (parent_name p.dict a)) _ Keeps-refl
          (λ name.
            >>=-Keeping (lift (encode_key p.dict name)) _ Keeps-refl
              (λ parent q. extend_parent-Keeping (lookup parent q.attrs) parent a.code vs q))
          p)
        (extend_slot-Keeping (lookup key p.attrs) key vs p)

  pub add_attribute-Keeping :
      (name : Text) (vs : List Value) → Keeping (add_attribute x draw name vs)
  unfolding add_attribute
  add_attribute-Keeping name vs p =
      >>=-Keeping (lift (attribute p.dict (before b':' name))) _ Keeps-refl
        (λ a.
          >>=-Keeping (encode_key_values x draw name vs) _ (encode_key_values-Keeping name vs)
            (λ kv. extend-Keeping a kv.0 kv.1))
        p
