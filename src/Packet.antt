-- ===== src/Packet.antt =====
-- pyrad/packet.py
pub mod PacketCode
pub mod State
pub mod Encode
pub mod Decode
pub mod Crypt
pub mod Names
pub mod Access
pub mod Raw
pub mod Authenticator
pub mod Create
pub mod Reply
pub mod Request
