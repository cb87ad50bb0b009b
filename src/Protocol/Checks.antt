-- ===== src/Protocol/Checks.antt =====
-- guest-tools/crates/protocol/src/lib.rs: the checks of commands, and of what a response says.
--
-- `decode` and `decode_padded` are base64 decoding without and with padding. A test of bytes is
-- one of characters here: a character that is not ASCII fails it, as its bytes do.
pub mod Shape
use vexa_vm.Common.{
  ℕ, Bool, String, len, str_append, true, false, ◌&&◌, ◌||◌, not, Option, none, some, List, [], ◌∷◌,
  if◌then◌else◌, ltb, leb, ◌==◌, length, all, any, retain,
}
use vexa_vm.Common.Chars.{codes, split, text_eq, starts_with, is_alphanumeric, is_control}
use vexa_vm.Error.{Result, ok, err, ◌>>=◌, ◌>>◌, reject_if}
use vexa_vm.Db.{is_some}
use vexa_vm.Db.Text.{is_whitespace}
use vexa_vm.Protocol.{
  ProtocolError, invalid_command, invalid_envelope, ProtocolResult, IpAddr, is_ipv4, is_unspecified,
  is_loopback, is_multicast, ip_eq, NetworkAddress, Command, ping, health, set_password,
  set_hostname, set_dns, set_network, set_ssh_keys, shutdown, reboot, ResponseData, pong, action,
  ErrorBody,
}

-- `'\0' | '\r' | '\n'`.
abbrev pub breaks_line : ℕ → Bool
breaks_line c = c == 0 || c == 13 || c == 10

abbrev pub is_username : ℕ → Bool
is_username c = is_alphanumeric c || c == b'-' || c == b'_' || c == b'.'

unfoldable pub validate_username : String → ProtocolResult (Unit {0})
validate_username name =
    reject_if
      (len name == 0
        || ltb 64 (len name)
        || starts_with (b'-' ∷ []) (codes name)
        || not (all is_username (codes name)))
      (invalid_command "only a local username may be used")

abbrev ends_with_dash : List ℕ → Bool
ends_with_dash [] = false
ends_with_dash (c ∷ []) = c == b'-'
ends_with_dash (c ∷ d ∷ cs) = ends_with_dash (d ∷ cs)

abbrev pub is_label_char : ℕ → Bool
is_label_char c = is_alphanumeric c || c == b'-'

abbrev pub bad_label : List ℕ → Bool
bad_label l =
    length l == 0
    || ltb 63 (length l)
    || starts_with (b'-' ∷ []) l
    || ends_with_dash l
    || not (all is_label_char l)

unfoldable pub validate_hostname : String → ProtocolResult (Unit {0})
validate_hostname name = do
  reject_if (len name == 0 || ltb 253 (len name)) (invalid_command "hostname is invalid")
  reject_if (any bad_label (split b'.' (codes name))) (invalid_command "hostname is invalid")

abbrev pub bad_interface : String → Bool
bad_interface name = len name == 0 || ltb 128 (len name) || any is_control (codes name)

unfoldable pub validate_interface : Option String → ProtocolResult (Unit {0})
validate_interface none = ok tt
validate_interface (some name) =
    reject_if (bad_interface name) (invalid_command "interface name is invalid")

abbrev extend : ℕ → List (List ℕ) → List (List ℕ)
extend c [] = (c ∷ []) ∷ []
extend c (w ∷ ws) = (c ∷ w) ∷ ws

-- The parts between characters of white space, and those of them that are not empty.
abbrev split_space : List ℕ → List (List ℕ)
split_space [] = [] ∷ []
split_space (c ∷ cs) =
    let rest = split_space cs in if is_whitespace c then [] ∷ rest else extend c rest

-- `str::split_whitespace`.
abbrev pub split_whitespace : List ℕ → List (List ℕ)
split_whitespace s = retain (λ w. not (length w == 0)) (split_space s)

-- `parts.next().unwrap_or_default()`, twice.
abbrev first_word : List (List ℕ) → List ℕ
first_word [] = []
first_word (w ∷ ws) = w

abbrev second_word : List (List ℕ) → List ℕ
second_word [] = []
second_word (w ∷ ws) = first_word ws

abbrev pub is_supported : List ℕ → Bool
is_supported kind =
    text_eq kind (codes "ssh-ed25519")
    || text_eq kind (codes "ssh-rsa")
    || starts_with (codes "ecdsa-sha2-") kind
    || starts_with (codes "sk-ssh-") kind
    || starts_with (codes "sk-ecdsa-") kind

-- The address and prefix pairs of a `HashSet`.
abbrev pub same_network : NetworkAddress → NetworkAddress → Bool
same_network a b = ip_eq a.address b.address && a.prefix_length == b.prefix_length

abbrev pub bad_address : NetworkAddress → Bool
bad_address a =
    ltb (if is_ipv4 a.address then 32 else 128) a.prefix_length
    || is_unspecified a.address
    || is_loopback a.address
    || is_multicast a.address

unfoldable pub bad_addresses : List NetworkAddress → List NetworkAddress → Bool
bad_addresses unique [] = false
bad_addresses unique (a ∷ as') =
    bad_address a || any (λ b. same_network b a) unique || bad_addresses (a ∷ unique) as'

abbrev pub bad_peer : IpAddr → Bool
bad_peer a = is_unspecified a || is_loopback a || is_multicast a

abbrev same_bool : Bool → Bool → Bool
same_bool true b = b
same_bool false b = not b

-- At most one gateway of each family.
unfoldable pub bad_gateways : List Bool → List IpAddr → Bool
bad_gateways families [] = false
bad_gateways families (g ∷ gs) =
    bad_peer g
    || any (λ f. same_bool f (is_ipv4 g)) families
    || bad_gateways (is_ipv4 g ∷ families) gs

module _ (decode decode_padded : List ℕ → Option (List ℕ)) where
  unfoldable pub validate_ssh_key : String → ProtocolResult (Unit {0})
  validate_ssh_key key = do
    reject_if (len key == 0 || ltb 16384 (len key) || any breaks_line (codes key))
        (invalid_command "SSH key is invalid")
    let kind = first_word (split_whitespace (codes key))
    let encoded = second_word (split_whitespace (codes key))
    reject_if
        (not (is_supported kind)
          || ltb 12288 (length encoded)
          || (not (is_some (decode encoded)) && not (is_some (decode_padded encoded))))
        (invalid_command "SSH key type or encoding is invalid")

  unfoldable pub validate_ssh_keys : List String → ProtocolResult (Unit {0})
  validate_ssh_keys [] = ok tt
  validate_ssh_keys (key ∷ keys) = do validate_ssh_key key; validate_ssh_keys keys

  unfoldable pub validate : Command → ProtocolResult (Unit {0})
  validate ping = ok tt
  validate Command.health = ok tt
  validate shutdown = ok tt
  validate reboot = ok tt
  validate (set_password username password) = do
    validate_username username
    reject_if (len password == 0 || ltb 1024 (len password))
        (invalid_command "password must contain between 1 and 1024 bytes")
    reject_if (any breaks_line (codes password))
        (invalid_command "password contains an unsupported control character")
  validate (set_hostname hostname) = validate_hostname hostname
  validate (set_dns interface servers) = do
    validate_interface interface
    reject_if (length servers == 0 || ltb 8 (length servers))
        (invalid_command "between 1 and 8 DNS servers are required")
    reject_if (any is_unspecified servers)
        (invalid_command "unspecified DNS addresses are not accepted")
  validate (set_network interface addresses gateways dns_servers) = do
    validate_interface interface
    reject_if (ltb 64 (length addresses))
        (invalid_command "at most 64 network addresses are accepted")
    reject_if (bad_addresses [] addresses)
        (invalid_command "network address or prefix is invalid or duplicated")
    reject_if (ltb 2 (length gateways) || ltb 8 (length dns_servers))
        (invalid_command "at most one gateway per family and 8 DNS servers are accepted")
    reject_if (bad_gateways [] gateways)
        (invalid_command "gateway is invalid or duplicated for its address family")
    reject_if (any bad_peer dns_servers) (invalid_command "DNS address is invalid")
  validate (set_ssh_keys username keys) = do
    validate_username username
    reject_if (ltb 64 (length keys)) (invalid_command "at most 64 SSH keys may be installed")
    validate_ssh_keys keys

unfoldable pub validate_response_text : String → String → ℕ → Bool → ProtocolResult (Unit {0})
validate_response_text label value maximum_bytes allow_empty =
    reject_if
      ((not allow_empty && len value == 0)
        || ltb maximum_bytes (len value)
        || any is_control (codes value))
      (invalid_envelope (str_append label " is invalid"))

unfoldable pub validate_capabilities : List String → ProtocolResult (Unit {0})
validate_capabilities [] = ok tt
validate_capabilities (c ∷ cs) = do
  validate_response_text "capability" c 64 false
  validate_capabilities cs

unfoldable pub validate_data : ResponseData → ProtocolResult (Unit {0})
validate_data (pong agent_version) = validate_response_text "agent version" agent_version 64 false
validate_data (ResponseData.health agent_version operating_system hostname uptime capabilities) = do
  validate_response_text "agent version" agent_version 64 false
  validate_response_text "operating system" operating_system 256 false
  validate_response_text "reported hostname" hostname 253 false
  reject_if (ltb 64 (length capabilities)) (invalid_envelope "too many reported capabilities")
  validate_capabilities capabilities
validate_data (action changed reboot_required message) =
    validate_response_text "action message" message 1024 true

abbrev pub is_code : ℕ → Bool
is_code c =
    (leb b'a' c && leb c b'z') || (leb b'0' c && leb c b'9') || c == b'_' || c == b'-' || c == b'.'

unfoldable pub validate_error : ErrorBody → ProtocolResult (Unit {0})
validate_error e = do
  reject_if (len e.code == 0 || ltb 64 (len e.code) || not (all is_code (codes e.code)))
      (invalid_envelope "response error code is invalid")
  validate_response_text "response error message" e.message 1024 true
