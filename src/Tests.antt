-- ===== src/Tests.antt =====
-- Runs at concrete inputs: the theorems of the development applied to small packets, hosts and dicts.
mod Data
mod Bidict
mod Packet
mod Server
mod ServerAsync
mod Hostile
mod Crypt
mod Encoding
mod Proxy
mod Client
mod ClientAsync
mod Genuine
mod Examples
mod Auth
mod Tlv
mod Delay
mod Dictionary
mod DictFile
