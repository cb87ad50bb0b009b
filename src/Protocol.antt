-- ===== src/Protocol.antt =====
-- guest-tools/crates/protocol/src/lib.rs: the messages between the host and the guest agent.
--
-- Bytes are numbers, and an encoded text is the list of its characters. An address is its number.
pub mod Checks
pub mod Replay
pub mod Frame
pub mod Messages
use vexa_vm.Common.{
  ℕ, ◌/◌, ◌^◌, Bool, String, true, false, ◌&&◌, ◌||◌, Option, none, some, List, [], ◌∷◌, ◌==◌,
}
use vexa_vm.Common.Int.{ℤ}
use vexa_vm.Error.{Result}

pub data ProtocolError : Type 0 where
  weak_secret : ProtocolError
  unsupported_version : ℕ → ProtocolError
  invalid_envelope : String → ProtocolError
  invalid_command : String → ProtocolError
  authentication : ProtocolError
  encryption : ProtocolError
  expired : ProtocolError
  replay : ProtocolError
  frame_too_large : ℕ → ProtocolError
  io : String → ProtocolError
  json : String → ProtocolError

abbrev pub ProtocolResult : Type 0 → Type 0
ProtocolResult A = Result ProtocolError A

abbrev pub protocol_version : ℕ
protocol_version = 2

abbrev pub max_frame_bytes : ℕ
max_frame_bytes = 65536

abbrev pub min_secret_bytes : ℕ
min_secret_bytes = 32

-- `std::net::IpAddr`, by its 32 or 128 bits.
pub data IpAddr : Type 0 where
  v4 : ℕ → IpAddr
  v6 : ℕ → IpAddr

abbrev pub is_ipv4 : IpAddr → Bool
is_ipv4 (v4 a) = true
is_ipv4 (v6 a) = false

abbrev pub is_unspecified : IpAddr → Bool
is_unspecified (v4 a) = a == 0
is_unspecified (v6 a) = a == 0

abbrev pub is_loopback : IpAddr → Bool
is_loopback (v4 a) = a / 2 ^ 24 == 127
is_loopback (v6 a) = a == 1

abbrev pub is_multicast : IpAddr → Bool
is_multicast (v4 a) = a / 2 ^ 28 == 14
is_multicast (v6 a) = a / 2 ^ 120 == 255

abbrev pub ip_eq : IpAddr → IpAddr → Bool
ip_eq (v4 a) (v4 b) = a == b
ip_eq (v6 a) (v6 b) = a == b
ip_eq (v4 a) (v6 b) = false
ip_eq (v6 a) (v4 b) = false

pub record NetworkAddress : Type 0 where
  pub address : IpAddr
  pub prefix_length : ℕ

pub data Command : Type 0 where
  ping : Command
  health : Command
  set_password : (username password : String) → Command
  set_hostname : (hostname : String) → Command
  set_dns : (interface : Option String) (servers : List IpAddr) → Command
  set_network :
      (interface : Option String) (addresses : List NetworkAddress)
      (gateways dns_servers : List IpAddr)
      → Command
  set_ssh_keys : (username : String) (authorized_keys : List String) → Command
  shutdown : Command
  reboot : Command

pub record Request : Type 0 where
  pub version : ℕ
  pub request_id : String
  pub sent_at : ℤ
  pub nonce : String
  pub encrypted_command : String
  pub signature : String

pub data ResponseData : Type 0 where
  pong : (agent_version : String) → ResponseData
  health :
      (agent_version operating_system hostname : String) (uptime_seconds : ℕ)
      (capabilities : List String)
      → ResponseData
  action : (changed reboot_required : Bool) (message : String) → ResponseData

pub record ErrorBody : Type 0 where
  pub code : String
  pub message : String

pub record Response : Type 0 where
  pub version : ℕ
  pub request_id : String
  pub sent_at : ℤ
  pub request_nonce : String
  pub ok : Bool
  pub encrypted_payload : String
  pub signature : String

pub record ResponsePayload : Type 0 where
  pub payload : Option ResponseData
  pub error : Option ErrorBody
