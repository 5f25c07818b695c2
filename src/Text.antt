-- ===== src/Text.antt =====
-- The text form of addresses: `inet_ntop` and `inet_pton` of src/endpoint.cpp.
pub mod Strings
pub mod Convert
pub mod Sockaddr
