-- ===== src/Config/Accepted.antt =====
-- What a configuration satisfies when `validate` of src/config.cpp reports nothing.
use native.Mathlib.Nat.{div-div-eq-div-mul}
use wirelab_experiments.Common.{
  ℕ, ◌+◌, ◌-◌, ◌*◌, ◌/◌, ◌^◌, ◌≤◌, ◌<◌, min, true, false, [], ◌≡◌, ◌≢◌, ◌↔◌, inl, inr, refl, ap,
  sym, ◌∙◌, Option, none, some, Text, arith, text_eq, text_eq-false_iff, c_str, Option-cases,
  List-cases,
}
use wirelab_experiments.Common.Bits.{two_pow_add}
use wirelab_experiments.Inet.{Inet}
use wirelab_experiments.Config.{
  NetworkConfig, valid_interface, unicast_mac, unicast_ipv4, host_of, check_addresses,
  validate_fields, validate, validate_subnets, has_nul, unicast_address, invalid_vlan_id,
}
use wirelab_experiments.Config.Subnets.{SubnetsOk, network, block, validate_subnets-nil_iff}

-- Addresses of one block lie in one block of any shorter prefix.
network-coarser :
    (p m a b : ℕ) → p ≤ 32 → m ≤ p → network p a ≡ network p b → network m a ≡ network m b
network-coarser p m a b hp hm e =
    rw
      (
        grow,
        ← div-div-eq-div-mul a (block p) (2 ^ (p - m)),
        ← div-div-eq-div-mul b (block p) (2 ^ (p - m)),
      )
      (ap (λ (t : ℕ). t / 2 ^ (p - m)) e)
  where
    sum : (p m : ℕ) → p ≤ 32 → m ≤ p → 32 - m ≡ (32 - p) + (p - m)
    sum p m hp hm = omega arith

    grow : block m ≡ block p * 2 ^ (p - m)
    grow = ap (λ (t : ℕ). 2 ^ t) (sum p m hp hm) ∙ two_pow_add (32 - p) (p - m)

module _ (inet : Inet) where
  -- The text is an address outside 0.0.0.0/8, 127.0.0.0/8 and 224.0.0.0/3.
  pub record IsUnicast (text : Text) : Type 0 where
    pub address : ℕ
    pub parsed : inet.inet_pton (c_str text) ≡ some address
    pub whole : has_nul text ≡ false
    pub not_this_network : address / 2 ^ 24 ≢ 0
    pub not_loopback : address / 2 ^ 24 ≢ 127
    pub below_multicast : address / 2 ^ 24 < 224

  unicast_ipv4-IsUnicast : (t : Text) → unicast_ipv4 inet t ≡ true → IsUnicast t
  unfolding unicast_ipv4 unicast_address
  unicast_ipv4-IsUnicast t h = elim (Option-cases (inet.inet_pton (c_str t))) [
    | inl e ↦ cc e
    | inr (a, e) ↦ record {
      address = a;
      parsed = e;
      whole = ground arith;
      not_this_network = ground arith;
      not_loopback = ground arith;
      below_multicast = ground arith;
    }
  ]

  IsUnicast→unicast_ipv4 : (t : Text) → IsUnicast t → unicast_ipv4 inet t ≡ true
  unfolding unicast_ipv4 unicast_address
  IsUnicast→unicast_ipv4 t u = ground arith

  pub record FieldsOk (c : NetworkConfig) : Type 0 where
    pub outer_interface : valid_interface c.outer_interface ≡ true
    pub inner_interface : valid_interface c.inner_interface ≡ true
    pub distinct_interfaces : c.outer_interface ≢ c.inner_interface
    pub device : IsUnicast c.device_ipv4
    pub inner_gateway : IsUnicast c.inner_gateway_ipv4
    pub outer : IsUnicast c.outer_ipv4
    pub outer_gateway : IsUnicast c.outer_gateway_ipv4
    pub inner_prefix : (1 ≤ c.inner_prefix) × (c.inner_prefix ≤ 30)
    pub outer_prefix : (1 ≤ c.outer_prefix) × (c.outer_prefix ≤ 30)
    pub distinct_inner : c.device_ipv4 ≢ c.inner_gateway_ipv4
    pub distinct_outer : c.outer_ipv4 ≢ c.outer_gateway_ipv4
    pub mac : unicast_mac c.outer_mac ≡ true
    pub vlan : (id : ℕ) → c.vlan_id ≡ some id → (1 ≤ id) × (id ≤ 4094)

  -- The same as tests.
  record Flags (c : NetworkConfig) : Type 0 where
    outer_interface : valid_interface c.outer_interface ≡ true
    inner_interface : valid_interface c.inner_interface ≡ true
    distinct_interfaces : text_eq c.outer_interface c.inner_interface ≡ false
    device : unicast_ipv4 inet c.device_ipv4 ≡ true
    inner_gateway : unicast_ipv4 inet c.inner_gateway_ipv4 ≡ true
    outer : unicast_ipv4 inet c.outer_ipv4 ≡ true
    outer_gateway : unicast_ipv4 inet c.outer_gateway_ipv4 ≡ true
    inner_prefix : (1 ≤ c.inner_prefix) × (c.inner_prefix ≤ 30)
    outer_prefix : (1 ≤ c.outer_prefix) × (c.outer_prefix ≤ 30)
    distinct_inner : text_eq c.device_ipv4 c.inner_gateway_ipv4 ≡ false
    distinct_outer : text_eq c.outer_ipv4 c.outer_gateway_ipv4 ≡ false
    mac : unicast_mac c.outer_mac ≡ true
    vlan : invalid_vlan_id c.vlan_id ≡ false

  validate_fields→Flags : (c : NetworkConfig) → validate_fields inet c ≡ [] → Flags c
  unfolding validate_fields check_addresses
  validate_fields→Flags c h = ground arith

  Flags→validate_fields : (c : NetworkConfig) → Flags c → validate_fields inet c ≡ []
  unfolding validate_fields check_addresses
  Flags→validate_fields c h = ground arith

  vlan_range :
      (v : Option ℕ) → invalid_vlan_id v ≡ false → (id : ℕ) → v ≡ some id → (1 ≤ id) × (id ≤ 4094)
  unfolding invalid_vlan_id
  vlan_range v h id e = ground arith

  vlan_test :
      (v : Option ℕ) → ((id : ℕ) → v ≡ some id → (1 ≤ id) × (id ≤ 4094)) → invalid_vlan_id v ≡ false
  unfolding invalid_vlan_id
  vlan_test none h = refl
  vlan_test (some id) h = ground (arith, h id refl)

  Flags→FieldsOk : (c : NetworkConfig) → Flags c → FieldsOk c
  Flags→FieldsOk c f = record {
    outer_interface = f.outer_interface;
    inner_interface = f.inner_interface;
    distinct_interfaces = (text_eq-false_iff _ _).0 f.distinct_interfaces;
    device = unicast_ipv4-IsUnicast _ f.device;
    inner_gateway = unicast_ipv4-IsUnicast _ f.inner_gateway;
    outer = unicast_ipv4-IsUnicast _ f.outer;
    outer_gateway = unicast_ipv4-IsUnicast _ f.outer_gateway;
    inner_prefix = f.inner_prefix;
    outer_prefix = f.outer_prefix;
    distinct_inner = (text_eq-false_iff _ _).0 f.distinct_inner;
    distinct_outer = (text_eq-false_iff _ _).0 f.distinct_outer;
    mac = f.mac;
    vlan = vlan_range c.vlan_id f.vlan;
  }

  FieldsOk→Flags : (c : NetworkConfig) → FieldsOk c → Flags c
  FieldsOk→Flags c f = record {
    outer_interface = f.outer_interface;
    inner_interface = f.inner_interface;
    distinct_interfaces = (text_eq-false_iff _ _).1 f.distinct_interfaces;
    device = IsUnicast→unicast_ipv4 _ f.device;
    inner_gateway = IsUnicast→unicast_ipv4 _ f.inner_gateway;
    outer = IsUnicast→unicast_ipv4 _ f.outer;
    outer_gateway = IsUnicast→unicast_ipv4 _ f.outer_gateway;
    inner_prefix = f.inner_prefix;
    outer_prefix = f.outer_prefix;
    distinct_inner = (text_eq-false_iff _ _).1 f.distinct_inner;
    distinct_outer = (text_eq-false_iff _ _).1 f.distinct_outer;
    mac = f.mac;
    vlan = vlan_test c.vlan_id f.vlan;
  }

  host_of-lt : (t : Text) → host_of inet t < 2 ^ 32
  unfolding host_of
  host_of-lt t = elim (Option-cases (inet.inet_pton (c_str t))) [
    | inl e ↦ rw (e, host_of) (omega arith)
    | inr (a, e) ↦ rw (e, host_of) (inet.inet_pton-lt _ a e)
  ]

  -- The fields are right, and the subnets that they describe.
  pub record IsAcceptable (c : NetworkConfig) : Type 0 where
    pub fields : FieldsOk c
    pub subnets :
        SubnetsOk c.inner_prefix c.outer_prefix
          (host_of inet c.inner_gateway_ipv4)
          (host_of inet c.device_ipv4)
          (host_of inet c.outer_ipv4)
          (host_of inet c.outer_gateway_ipv4)

  subnets_iff :
      (c : NetworkConfig)
      → (validate_subnets c.inner_prefix c.outer_prefix
            (host_of inet c.inner_gateway_ipv4)
            (host_of inet c.device_ipv4)
            (host_of inet c.outer_ipv4)
            (host_of inet c.outer_gateway_ipv4)
          ≡ [])
        ↔ SubnetsOk c.inner_prefix c.outer_prefix
            (host_of inet c.inner_gateway_ipv4)
            (host_of inet c.device_ipv4)
            (host_of inet c.outer_ipv4)
            (host_of inet c.outer_gateway_ipv4)
  subnets_iff c =
      validate_subnets-nil_iff _ _ _ _ _ _ (host_of-lt _) (host_of-lt _) (host_of-lt _)
        (host_of-lt _)

  -- `validate` reports nothing exactly when the interface names are valid and distinct, the four
  -- addresses are unicast, the device address is not that of the inner gateway nor the outer address
  -- that of the outer gateway, the prefixes lie in 1 to 30, the MAC address passes `unicast_mac`, a
  -- VLAN identifier lies in 1 to 4094, all four addresses are hosts of their subnets, device and inner
  -- gateway share the inner subnet, outer address and outer gateway the outer one, and the networks
  -- under the shorter prefix differ.
  pub validate-nil_iff : (c : NetworkConfig) → (validate inet c ≡ []) ↔ IsAcceptable c
  unfolding validate
  validate-nil_iff c = (forwards, backwards)
    where
      forwards : validate inet c ≡ [] → IsAcceptable c
      forwards h = elim (List-cases (validate_fields inet c)) [
        | inl e ↦ record {
          fields = Flags→FieldsOk c (validate_fields→Flags c e);
          subnets = (subnets_iff c).0 (rw (e, validate) at h);
        }
        | inr (x, xs, e) ↦ cc (rw (e, validate) at h)
      ]

      backwards : IsAcceptable c → validate inet c ≡ []
      backwards a =
          rw (Flags→validate_fields c (FieldsOk→Flags c a.fields), validate)
            ((subnets_iff c).1 a.subnets)

  -- No address lies in both subnets of an accepted configuration, whatever the two prefixes.
  pub validate_disjoint :
      (c : NetworkConfig)
      → validate inet c ≡ []
      → (a : ℕ)
      → network c.inner_prefix a ≡ network c.inner_prefix (host_of inet c.inner_gateway_ipv4)
      → network c.outer_prefix a ≢ network c.outer_prefix (host_of inet c.outer_ipv4)
  validate_disjoint c h a i o =
      let v = (validate-nil_iff c).0 h in
      v.subnets.disjoint (
        sym (
          network-coarser c.inner_prefix (min c.inner_prefix c.outer_prefix) _ _ (omega arith)
            (omega arith) i)
        ∙ network-coarser c.outer_prefix (min c.inner_prefix c.outer_prefix) _ _ (omega arith)
            (omega arith) o)
