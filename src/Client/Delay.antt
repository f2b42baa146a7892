-- ===== src/Client/Delay.antt =====
-- Acct-Delay-Time in the retransmitted accounting requests of pyrad/client.py.
use pyrad.Common.{ℕ, ◌+◌, ◌<◌, ◌≡◌, refl, ◌∙◌, Option, none, some, [], ◌∷◌, Text, codes, arith}
use pyrad.Common.Eq.{beq_refl, int_eq_instance, text_eq_instance}
use pyrad.Common.Int.{pos}
use pyrad.Common.Strs.{before}
use pyrad.Common.Struct.{be, pack_uint}
use pyrad.Common.Result.{ok}
use pyrad.Common.Dict.{lookup, insert, lookup-insert, is_some}
use pyrad.Externals.{Externals}
use pyrad.Dictionary.{attribute}
use pyrad.Dictionary.Types.{Datatype, Key, Attribute, Dictionary, key_eq_instance}
use pyrad.Encoding.{int, encode_attr, encode_integer, to_int, pack}
use pyrad.Packet.State.{Slot, values, Packet}
use pyrad.Packet.Names.{encode_key, list, contains_name, get_item}
use pyrad.Packet.Access.RoundTrip.{IsNumber, set_item_number, get_item_number}
use pyrad.Client.{plus, plus_timeout, add_delay}

abbrev pub delay_name : Text
delay_name = codes "Acct-Delay-Time"

-- The dictionary has Acct-Delay-Time, under the key, as an integer without names, tag or encryption.
pub record HasDelay (d : Dictionary) (key : Key) : Type 0 where
  pub object : Attribute
  pub known : attribute d delay_name ≡ ok object
  pub keyed : encode_key d delay_name ≡ ok key
  pub is_integer : object.type ≡ Datatype.integer
  pub number : IsNumber object

module _ (x : Externals) (draw : ℕ → ℕ) (seconds : ℕ) where
  pub encode_integer_lem :
      (t : Datatype) (m : ℕ)
      → t ≡ Datatype.integer
      → m < 4294967296
      → encode_attr x t (int (pos m)) ≡ ok (be 4 m)
  unfolding encode_attr encode_integer to_int pack pack_uint
  encode_integer_lem t m is_integer small = rw is_integer (ground arith)

  whole : before b':' delay_name ≡ delay_name
  unfolding before
  whole = refl

  abbrev pub with_delay : Key → ℕ → Packet → Packet
  with_delay key m p = record p { attrs = insert key (values (be 4 m ∷ [])) p.attrs }

  pub found_delay :
      (key : Key) (m : ℕ) (p : Packet)
      → lookup key (with_delay key m p).attrs ≡ some (values (be 4 m ∷ []))
  found_delay key m p =
      lookup-insert key key (values (be 4 m ∷ [])) p.attrs ∙ rw (beq_refl key) refl

  contains_lem :
      (name : Text) (key : Key) (o : Option Slot) (p : Packet)
      → encode_key p.dict name ≡ ok key
      → lookup key p.attrs ≡ o
      → contains_name p name ≡ is_some o
  unfolding contains_name
  contains_lem name key o p keyed found = ground (arith, keyed, found)

  pub add_delay_first :
      (key : Key) (p : Packet)
      → HasDelay p.dict key
      → lookup key p.attrs ≡ none
      → seconds < 4294967296
      → add_delay x draw seconds p ≡ (ok tt, with_delay key seconds p)
  unfolding add_delay
  add_delay_first key p has new small = rw (contains_lem delay_name key none p has.keyed new) (
      set_item_number x draw delay_name has.object key (pos seconds) (be 4 seconds) p whole
        has.known has.keyed has.number
        (encode_integer_lem has.object.type seconds has.is_integer small))

  pub add_delay_next :
      (key : Key) (m : ℕ) (p : Packet)
      → HasDelay p.dict key
      → lookup key p.attrs ≡ some (values (be 4 m ∷ []))
      → m + seconds < 4294967296
      → add_delay x draw seconds p ≡ (ok tt, with_delay key (m + seconds) p)
  unfolding add_delay plus_timeout plus
  add_delay_next key m p has there small =
      let item : get_item x p delay_name ≡ ok (list (int (pos m) ∷ [])) =
        get_item_number x draw delay_name has.object key (pos m) (be 4 m) p has.known has.keyed
          has.number (encode_integer_lem has.object.type m has.is_integer (omega arith)) there in
      rw (contains_lem delay_name key (some (values (be 4 m ∷ []))) p has.keyed there, item)
        (set_item_number x draw delay_name has.object key (pos (m + seconds)) (be 4 (m + seconds)) p
          whole has.known has.keyed has.number
          (encode_integer_lem has.object.type (m + seconds) has.is_integer small))
