-- ===== src/Addresses/Sample.antt =====
-- A toy of the packages that parse addresses and networks, for runs.
use Prim.Native.Char.{code}
use vexa_vm.Common.{ℕ, zero, suc, ◌≡◌, refl, ap, String, Option, none, some, if◌then◌else◌, ◌==◌}
use vexa_vm.Protocol.{IpAddr, ip_eq}
use vexa_vm.Addresses.{IpLibrary}

-- An address is its family and its number in unary.
abbrev pub unary : ℕ → String
unary zero = ""
unary (suc n) = String.◌∷◌ "a" (unary n)

abbrev pub count : String → ℕ
count String.[] = 0
count (String.◌∷◌ c s) = suc (count s)

pub count-unary : (n : ℕ) → count (unary n) ≡ n
count-unary zero = refl
count-unary (suc n) = ap suc (count-unary n)

abbrev pub print : IpAddr → String
print (IpAddr.v4 n) = String.◌∷◌ "4" (unary n)
print (IpAddr.v6 n) = String.◌∷◌ "6" (unary n)

abbrev pub parse : String → Option IpAddr
parse String.[] = none
parse (String.◌∷◌ c s) =
    if code c == b'4'
    then some (IpAddr.v4 (count s))
    else if code c == b'6'
    then some (IpAddr.v6 (count s))
    else none

pub parse-print : (a : IpAddr) → parse (print a) ≡ some a
parse-print (IpAddr.v4 n) = ap (λ (k : ℕ). some (IpAddr.v4 k)) (count-unary n)
parse-print (IpAddr.v6 n) = ap (λ (k : ℕ). some (IpAddr.v6 k)) (count-unary n)

-- A network is one address.
abbrev pub toy : IpLibrary IpAddr
toy = record {
  parse = parse;
  print = print;
  parse_network = parse;
  network_to_string = print;
  addr = λ a. a;
  contains = ip_eq;
  prefix_len = λ a. 32;
  parse-print = parse-print;
}
