-- ===== src/Instances/AddressLaws.antt =====
-- hcloud/instances.go: the addresses that are reported for a node.
use hcloud_cloud_controller.Common.{
  ℕ, ℤ, false, [], ◌∷◌, ◌≡◌, inl, inr, refl, ap, Bool-cases, arith, Eq-string,
}
use hcloud_cloud_controller.ProviderId.{Bytes}
use hcloud_cloud_controller.Config.{HccmConfiguration}
use hcloud_cloud_controller.Instances.Data.{CloudServer, Network}
use hcloud_cloud_controller.Instances.Addresses.{
  with_low_bit, set_host_bit, ipv6_address, hcloud_node_addresses, wants_ipv6,
}

with_low_bit_idem : (b : ℕ) → with_low_bit (with_low_bit b) ≡ with_low_bit b
unfolding with_low_bit
with_low_bit_idem b = ground arith

set_host_bit_idem : (bs : Bytes) → set_host_bit (set_host_bit bs) ≡ set_host_bit bs
unfolding set_host_bit
set_host_bit_idem [] = refl
set_host_bit_idem (b ∷ []) = rw (with_low_bit_idem b) refl
set_host_bit_idem (b ∷ c ∷ []) = ap (λ t. b ∷ t ∷ []) (with_low_bit_idem c)
set_host_bit_idem (b ∷ c ∷ d ∷ bs) = ap (λ t. b ∷ t) (set_host_bit_idem (c ∷ d ∷ bs))

module _ (net : Network) (cfg : HccmConfiguration)
    (bit_law : (ip : Bytes)
      → net.ipv6_is_unspecified ip ≡ false
      → net.ipv6_is_unspecified (set_host_bit ip) ≡ false) where
  -- `hcloudNodeAddresses` changes the server that the cache holds; but called again on the server
  -- as it left it, it reports the same addresses and changes nothing; given that an address with a
  -- bit set is not unspecified.
  pub hcloud_node_addresses_idem :
      (network_id : ℤ) (v : CloudServer)
      → hcloud_node_addresses net network_id (hcloud_node_addresses net network_id v cfg).1 cfg
        ≡ hcloud_node_addresses net network_id v cfg
  unfolding hcloud_node_addresses ipv6_address
  hcloud_node_addresses_idem network_id v = elim (Bool-cases (wants_ipv6 cfg)) [
    | inr unwanted ↦ simp unwanted
    | inl wanted ↦ elim (Bool-cases (net.ipv6_is_unspecified v.ipv6)) [
      | inl nothing ↦ simp (wanted, nothing)
      | inr known ↦ simp (wanted, known, bit_law v.ipv6 known, set_host_bit_idem v.ipv6)
    ]
  ]
