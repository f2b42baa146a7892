-- ===== src/Externals.antt =====
-- What the program takes from packages that it does not contain: `hashlib`, `hmac`, and `ipaddress`
-- for IPv6 addresses and networks. The functions are parameters of the model; the laws are the
-- documented size of an MD5 digest, and that it consists of bytes.
use pyrad.Common.{ℕ, ◌≡◌, Option, none, Bytes, Text, length, length-replicate, replicate, [], arith}
use pyrad.Common.{All, All-replicate, IsByte}

pub record Externals : Type 0 where
  -- hashlib.md5(message).digest()
  pub md5 : Bytes → Bytes
  -- hmac.new(key, message, digestmod=md5).digest()
  pub hmac_md5 : Bytes → Bytes → Bytes
  -- IPv6Address(text).packed; `none` is an AddressValueError, a ValueError
  pub ipv6_packed : Text → Option Bytes
  -- str(IPv6Address(packed)), of 16 bytes
  pub ipv6_text : Bytes → Text
  -- IPv6Network(text): its prefixlen and network_address.packed
  pub ipv6_network : Text → Option (ℕ × Bytes)
  -- str(IPv6Network((packed, prefixlen)))
  pub ipv6_network_text : Bytes → ℕ → Option Text
  -- ip_network(text): its prefixlen and network_address.packed
  pub ip_network : Text → Option (ℕ × Bytes)
  pub length-md5 : (m : Bytes) → length (md5 m) ≡ 16
  pub md5-IsByte : (m : Bytes) → All IsByte (md5 m)
  pub length-hmac_md5 : (key m : Bytes) → length (hmac_md5 key m) ≡ 16

-- An instance for the tests: digests are constant, and there is no IPv6.
abbrev pub constant_digests : Externals
constant_digests = record {
  md5 = λ m. replicate 16 7;
  hmac_md5 = λ key m. replicate 16 9;
  ipv6_packed = λ t. none;
  ipv6_text = λ b. [];
  ipv6_network = λ t. none;
  ipv6_network_text = λ b n. none;
  ip_network = λ t. none;
  length-md5 = λ m. length-replicate {A = ℕ} 16 7;
  md5-IsByte = λ m. All-replicate IsByte 16 7 (omega arith);
  length-hmac_md5 = λ key m. length-replicate {A = ℕ} 16 9;
}
