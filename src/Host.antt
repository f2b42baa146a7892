-- ===== src/Host.antt =====
-- pyrad/host.py and the hosts of pyrad/server.py: packets with the dictionary of the host, and the
-- remote hosts with their secrets.
pub mod Sending
use pyrad.Common.{ℕ, none, Bytes, Text, codes}
use pyrad.Common.Result.{Result}
use pyrad.Dictionary.Types.{Dictionary}
use pyrad.Externals.{Externals}
use pyrad.Packet.PacketCode
use pyrad.Packet.State.{Kind, plain, auth, acct, coa, Packet}
use pyrad.Packet.Create.{Args, construct}

pub record Host : Type 0 where
  pub authport : ℕ
  pub acctport : ℕ
  pub coaport : ℕ
  pub dict : Dictionary

-- `RemoteHost` of pyrad/server.py
pub record RemoteHost : Type 0 where
  pub address : Text
  pub secret : Bytes
  pub name : Text
  pub authport : ℕ
  pub acctport : ℕ
  pub coaport : ℕ

-- the default codes of the constructors
unfoldable pub default_code : Kind → ℕ
default_code plain = 0
default_code auth = PacketCode.access_request
default_code acct = PacketCode.accounting_request
default_code coa = PacketCode.coa_request

-- `create_packet`, `create_auth_packet`, `create_acct_packet` and `create_coa_packet`, by the class,
-- with the secret given or empty, and the number that `create_id` returns
unfoldable pub create : Externals → (ℕ → ℕ) → Kind → Bytes → ℕ → Dictionary → Args → Result Packet
unfolding default_code
create x draw kind secret id dict args =
    construct x draw kind (default_code kind) id secret none dict (codes "pap") args
