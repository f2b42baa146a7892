-- ===== src/Packet/State.antt =====
-- The packet object of pyrad/packet.py: an ordered dict of attributes, with the fields that the
-- constructors set.
use pyrad.Common.{ℕ, Bool, Option, none, some, List, [], ◌∷◌, ◌++◌, Bytes, Text}
use pyrad.Common.Int.{ℤ}
use pyrad.Common.Result.{Result, ok, raise, attribute_error}
use pyrad.Common.Exec.{Exec}
use pyrad.Common.Dict.{Dict, lookup, insert}
use pyrad.Dictionary.Types.{Dictionary, Key, key_eq_instance}

-- The value of an attribute: the list of its encoded values, or for a tlv the dict from the codes of
-- its sub-attributes to theirs.
pub data Slot : Type 0 where
  values : List Bytes → Slot
  subs : Dict ℤ (List Bytes) → Slot

-- the class of the object
pub data Kind : Type 0 where
  plain auth acct coa : Kind

pub record Packet : Type 0 where
  pub kind : Kind
  pub code : ℕ
  pub id : ℕ
  pub secret : Bytes
  pub authenticator : Option Bytes
  pub message_authenticator : Option Bool
  pub dict : Dictionary
  -- the OrderedDict itself
  pub attrs : Dict Key Slot
  -- set by the constructors of the subclasses from the argument `packet`
  pub raw_packet : Option Bytes
  pub auth_type : Text

append_to : Option Slot → Key → Bytes → Packet → Result (Unit {0}) × Packet
append_to none k v p = (ok tt, record p { attrs = insert k (values (v ∷ [])) p.attrs })
append_to (some (values vs)) k v p =
    (ok tt, record p { attrs = insert k (values (vs ++ v ∷ [])) p.attrs })
append_to (some (subs d)) k v p = (raise attribute_error, p)

-- `self.setdefault(key, []).append(value)`; a dict has no `append`
unfoldable pub append_value : Key → Bytes → Exec Packet (Unit {0})
unfolding append_to
append_value k v p = append_to (lookup k p.attrs) k v p
