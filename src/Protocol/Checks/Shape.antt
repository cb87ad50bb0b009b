-- ===== src/Protocol/Checks/Shape.antt =====
-- What the network settings that pass the checks are like.
use vexa_vm.Common.{
  ℕ, ◌+◌, ◌*◌, ◌^◌, ◌<◌, ◌⊎◌, ◌≡◌, ◌≤◌, refl, Bool, true, false, not, Option, List, [], ◌∷◌, arith,
  if◌then◌else◌, ltb, length, any, count_if, String,
}
use vexa_vm.Error.{ok}
use vexa_vm.Db.Rows.{All, All-mono}
use vexa_vm.Protocol.{IpAddr, v4, v6, ip_eq, is_ipv4, NetworkAddress, set_network}
use vexa_vm.Protocol.Checks.{
  validate, bad_address, same_network, bad_addresses, same_bool, bad_gateways,
}

-- No two entries are one address with one prefix length.
abbrev pub AreDistinct : List NetworkAddress → Type 0
AreDistinct [] = Unit {0}
AreDistinct (a ∷ as') = All (λ b. ¬ (a ≡ b)) as' × AreDistinct as'

-- An address outside the ranges of RFC 1122, 5771 and 4291 that no host has: not `0.0.0.0`, not of
-- `127.0.0.0/8`, not of `224.0.0.0/4`; not `::` or `::1`, and not of `ff00::/8`.
abbrev pub IsUnicast : IpAddr → Type 0
IsUnicast (v4 a) =
    (0 < a) × ((a < 127 * 2 ^ 24) ⊎ (128 * 2 ^ 24 ≤ a)) × ((a < 224 * 2 ^ 24) ⊎ (240 * 2 ^ 24 ≤ a))
IsUnicast (v6 a) = (1 < a) × ((a < 255 * 2 ^ 120) ⊎ (2 ^ 128 ≤ a))

-- The prefix has at most as many bits as the address.
abbrev pub IsPrefix : IpAddr → ℕ → Type 0
IsPrefix (v4 a) bits = bits ≤ 32
IsPrefix (v6 a) bits = bits ≤ 128

ip_eq_refl : (a : IpAddr) → ip_eq a a ≡ true
ip_eq_refl (v4 a) = ground arith
ip_eq_refl (v6 a) = ground arith

same_network_refl : (a : NetworkAddress) → same_network a a ≡ true
same_network_refl a = ground (arith, ip_eq_refl a.address)

differ : (a b : NetworkAddress) → same_network a b ≡ false → ¬ (a ≡ b)
differ a b h e =
    let same : same_network a b ≡ true = rw (← e) (same_network_refl a) in
    absurd (ground (arith, h, same))

good_address :
    (a : IpAddr) (bits : ℕ)
    → bad_address (record { address = a; prefix_length = bits }) ≡ false
    → IsPrefix a bits × IsUnicast a
good_address (v4 a) bits h = (ground arith, (ground arith, ground arith, ground arith))
good_address (v6 a) bits h = (ground arith, (ground arith, ground arith))

-- An entry that is already known is the same network as none of those that pass.
known_apart :
    (u : NetworkAddress) (unique as' : List NetworkAddress)
    → bad_addresses unique as' ≡ false
    → ((v : NetworkAddress) → any (λ b. same_network b v) unique ≡ false → same_network u v ≡ false)
    → All (λ v. same_network u v ≡ false) as'
unfolding bad_addresses
known_apart u unique [] h known = tt
known_apart u unique (a ∷ as') h known = (
  known a (ground arith),
  known_apart u (a ∷ unique) as' (ground arith) (λ v k. known v (ground (arith, k))),
)

addresses_good :
    (unique as' : List NetworkAddress)
    → bad_addresses unique as' ≡ false
    → AreDistinct as' × All (λ a. IsPrefix a.address a.prefix_length × IsUnicast a.address) as'
unfolding bad_addresses
addresses_good unique [] h = (tt, tt)
addresses_good unique (a ∷ as') h =
    let rest = addresses_good (a ∷ unique) as' (ground arith) in
    (
      (
        All-mono (λ b. same_network a b ≡ false) (λ b. ¬ (a ≡ b)) as' (differ a)
            (known_apart a (a ∷ unique) as' (ground arith) (λ v k. ground (arith, k))),
        rest.0,
      ),
      (good_address a.address a.prefix_length (ground arith), rest.1),
    )

abbrev one_if : Bool → ℕ
one_if b = if b then 1 else 0

-- The gateways of one family, with the families that are known already.
gateways_counted :
    (family : Bool) (families : List Bool) (gs : List IpAddr)
    → bad_gateways families gs ≡ false
    → count_if (λ g. same_bool (is_ipv4 g) family) gs
        + one_if (any (λ f. same_bool f family) families)
      ≤ 1
unfolding bad_gateways
gateways_counted family families [] h = ground arith
gateways_counted true families (g ∷ gs) h =
    ground (arith, gateways_counted true (is_ipv4 g ∷ families) gs)
gateways_counted false families (g ∷ gs) h =
    ground (arith, gateways_counted false (is_ipv4 g ∷ families) gs)

count_four :
    (gs : List IpAddr) → count_if is_ipv4 gs ≡ count_if (λ g. same_bool (is_ipv4 g) true) gs
count_four [] = refl
count_four (g ∷ gs) = ground (arith, count_four gs)

count_six :
    (gs : List IpAddr)
    → count_if (λ g. not (is_ipv4 g)) gs ≡ count_if (λ g. same_bool (is_ipv4 g) false) gs
count_six [] = refl
count_six (g ∷ gs) = ground (arith, count_six gs)

module _ (decode decode_padded : List ℕ → Option (List ℕ)) where
  -- Network settings that pass the checks have at most 64 addresses, no two of which are the same
  -- address with the same prefix; no prefix is longer than its family allows and no address is
  -- unspecified, loopback or multicast; and there is at most one gateway of each family.
  pub validate-set_network :
      (interface : Option String) (addresses : List NetworkAddress) (gateways dns : List IpAddr)
      → validate decode decode_padded (set_network interface addresses gateways dns) ≡ ok tt
      → (length addresses ≤ 64)
        × AreDistinct addresses
        × All (λ a. IsPrefix a.address a.prefix_length × IsUnicast a.address) addresses
        × (count_if is_ipv4 gateways ≤ 1)
        × (count_if (λ g. not (is_ipv4 g)) gateways ≤ 1)
  unfolding validate
  validate-set_network interface addresses gateways dns h =
      let small : ltb 64 (length addresses) ≡ false = ground arith in
      let good : bad_addresses [] addresses ≡ false = ground arith in
      let one : bad_gateways [] gateways ≡ false = ground arith in
      let (distinct, fine) = addresses_good [] addresses good in
      (
        ground (arith, small),
        distinct,
        fine,
        ground (arith, count_four gateways, gateways_counted true [] gateways one),
        ground (arith, count_six gateways, gateways_counted false [] gateways one),
      )
