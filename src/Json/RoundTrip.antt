-- ===== src/Json/RoundTrip.antt =====
-- `config_json` and `config_from_json` of src/json.cpp, one behind the other.
use wirelab_experiments.Common.{
  ℕ, ◌<◌, ◌≤◌, ◌^◌, ◌≡◌, refl, sym, ◌∙◌, ap, true, false, not, List, [], ◌∷◌, none, some, Text,
  codes, text_eq, ltb, All, All-map, Option-cases, Outcome, returned-inj, subst, returned, thrown,
  ◌>>=◌, throw_if, ◌%◌, arith, List-cases, inl, inr,
}
use wirelab_experiments.Inet.{Inet}
use wirelab_experiments.Config.{NetworkConfig, default_config, validate}
use wirelab_experiments.Config.Accepted.{IsAcceptable, validate-nil_iff}
use wirelab_experiments.Network.Outside.{Exception, Kernel, Controller}
use wirelab_experiments.Network.Checks.{revalidate}
use wirelab_experiments.Json.{
  Json, JsonLaws, find, has_key, config_json, check_names, string_member, prefixes, vlan_member,
  checked, read_config, config_from_json,
}

checked_valid :
    (inet : Inet) (c : NetworkConfig) → validate inet c ≡ [] → checked inet c ≡ returned c
unfolding checked
checked_valid inet c h = rw (h, checked) refl

checked-returned :
    (inet : Inet) (c d : NetworkConfig) → checked inet c ≡ returned d → validate inet d ≡ []
unfolding checked
checked-returned inet c d h = elim (List-cases (validate inet c)) [
  | inl e ↦
      let same : c ≡ d = returned-inj (sym (checked_valid inet c e) ∙ h) in
      subst (λ x. validate inet x ≡ []) same e
  | inr (x, xs, e) ↦ cc (rw (e, checked) at h)
]

checked-revalidate :
    (kernel : Kernel) (inet : Inet) (c : NetworkConfig) (n : Controller kernel.World)
    → checked inet c ≡ (revalidate kernel inet c n).outcome
unfolding checked revalidate
checked-revalidate kernel inet c n = ground arith

>>=-returned :
    {A B : Type 0} (m : Outcome Exception A) (f : A → Outcome Exception B) (b : B)
    → (m >>= f) ≡ returned b
    → (a : A) × (f a ≡ returned b)
>>=-returned (returned a) f b h = (a, h)
>>=-returned (thrown e) f b h = cc

module _ (json : Json) where
  -- Whatever value is read, a configuration that comes out of it is an acceptable one.
  pub config_from_json-IsAcceptable :
      (inet : Inet) (v : json.Value) (c : NetworkConfig)
      → config_from_json json inet v ≡ returned c
      → IsAcceptable inet c
  unfolding config_from_json
  config_from_json-IsAcceptable inet v c h =
      let read = λ (u : Unit {0}). read_config json v >>= checked inet in
      let names = check_names json (config_json json default_config) (json.member_names v) in
      let s1 = >>=-returned (throw_if (not (json.is_object v)) _) (λ _. names >>= read) c h in
      let s2 = >>=-returned names read c s1.1 in
      let s3 = >>=-returned (read_config json v) (checked inet) c s2.1 in
      (validate-nil_iff inet c).0 (checked-returned inet s3.0 c s3.1)

module _ (json : Json) (laws : JsonLaws json) where
  is_object-config_json : (c : NetworkConfig) → json.is_object (config_json json c) ≡ true
  unfolding config_json
  is_object-config_json c = laws.is_object-object _

  -- Each member is found.
  string_member-config_json :
      (c : NetworkConfig)
      → (string_member json (config_json json c) (codes "outer_interface")
          ≡ returned c.outer_interface)
        × (string_member json (config_json json c) (codes "inner_interface")
            ≡ returned c.inner_interface)
        × (string_member json (config_json json c) (codes "device_ipv4") ≡ returned c.device_ipv4)
        × (string_member json (config_json json c) (codes "inner_gateway_ipv4")
            ≡ returned c.inner_gateway_ipv4)
        × (string_member json (config_json json c) (codes "outer_ipv4") ≡ returned c.outer_ipv4)
        × (string_member json (config_json json c) (codes "outer_gateway_ipv4")
            ≡ returned c.outer_gateway_ipv4)
        × (string_member json (config_json json c) (codes "outer_mac") ≡ returned c.outer_mac)
  unfolding string_member config_json find text_eq
  string_member-config_json c =
      simp (laws.at-object, laws.is_string-text, laws.as_string-text)
        (refl, refl, refl, refl, refl, refl, refl)

  prefixes-config_json :
      (c : NetworkConfig)
      → c.inner_prefix < 2 ^ 32
      → c.outer_prefix < 2 ^ 32
      → prefixes json (config_json json c) ≡ returned (c.inner_prefix, c.outer_prefix)
  unfolding prefixes config_json find text_eq
  prefixes-config_json c i o = simp (
    laws.at-object,
    laws.is_uint-uint c.inner_prefix i,
    laws.is_uint-uint c.outer_prefix o,
    laws.as_uint-uint c.inner_prefix i,
    laws.as_uint-uint c.outer_prefix o,
  )

  vlan_none :
      (c : NetworkConfig) → c.vlan_id ≡ none → vlan_member json (config_json json c) ≡ returned none
  unfolding vlan_member config_json find has_key text_eq
  vlan_none c e = simp (e, laws.at-object, laws.is_member-object, laws.is_null-null)

  vlan_some :
      (c : NetworkConfig) (id : ℕ)
      → c.vlan_id ≡ some id
      → id ≤ 4094
      → vlan_member json (config_json json c) ≡ returned (some id)
  unfolding vlan_member config_json find has_key text_eq
  vlan_some c id e h =
      let r : ltb 4094 id ≡ false = ground arith in
      let m : id % 2 ^ 16 ≡ id = omega arith in
      simp (
        e,
        laws.at-object,
        laws.is_member-object,
        laws.is_null-uint,
        laws.is_uint-uint id (omega arith),
        laws.as_uint-uint id (omega arith),
        r,
        m,
      )

  check_names-known :
      (names : List Text)
      → All (λ k. json.is_member (config_json json default_config) k ≡ true) names
      → check_names json (config_json json default_config) names ≡ returned tt
  unfolding check_names
  check_names-known [] h = refl
  check_names-known (k ∷ ks) h = rw (h.0, check_names) (check_names-known ks h.1)

  known_names :
      (c : NetworkConfig) (names : List Text)
      → All (λ k. json.is_member (config_json json c) k ≡ true) names
      → All (λ k. json.is_member (config_json json default_config) k ≡ true) names
  unfolding config_json has_key
  known_names c [] h = tt
  known_names c (k ∷ ks) h =
      (laws.is_member-object k _ ∙ (sym (laws.is_member-object k _) ∙ h.0), known_names c ks h.1)

  own_names :
      (c : NetworkConfig)
      → All
          (λ k. json.is_member (config_json json c) k ≡ true)
          (json.member_names (config_json json c))
  unfolding config_json
  own_names c = All-map _ _ _ (λ k h. laws.is_member-object k _ ∙ h) (laws.member_names-object _)

  vlan_member-config_json :
      (c : NetworkConfig)
      → ((id : ℕ) → c.vlan_id ≡ some id → id ≤ 4094)
      → vlan_member json (config_json json c) ≡ returned c.vlan_id
  vlan_member-config_json c h = elim (Option-cases c.vlan_id) [
    | inl e ↦ vlan_none c e ∙ ap returned (sym e)
    | inr (id, e) ↦ vlan_some c id e (h id e) ∙ ap returned (sym e)
  ]

  read_config-config_json :
      (c : NetworkConfig)
      → c.inner_prefix < 2 ^ 32
      → c.outer_prefix < 2 ^ 32
      → ((id : ℕ) → c.vlan_id ≡ some id → id ≤ 4094)
      → read_config json (config_json json c) ≡ returned c
  unfolding read_config
  read_config-config_json c i o v =
      let m = string_member-config_json c in
      simp
        (m.0, m.1, m.2, m.3, m.4, m.5, m.6, prefixes-config_json c i o, vlan_member-config_json c v)

  -- Reading back what `config_json` made of an accepted configuration gives the same configuration.
  pub config_from_json-config_json :
      (inet : Inet) (c : NetworkConfig)
      → validate inet c ≡ []
      → config_from_json json inet (config_json json c) ≡ returned c
  unfolding config_from_json
  config_from_json-config_json inet c h =
      let a = ((validate-nil_iff inet c).0 h).fields in
      let object : json.is_object (config_json json c) ≡ true = is_object-config_json c in
      simp (
        object,
        check_names-known _ (known_names c _ (own_names c)),
        read_config-config_json c (omega (arith, a.inner_prefix)) (omega (arith, a.outer_prefix))
            (λ id e. (a.vlan id e).1),
        checked_valid inet c h,
      )

  -- What `apply` gets of `config_from_json(config_json(c))` is what `revalidate` makes of `c`, errors
  -- included, for prefixes of 32 bits and VLAN identifiers up to 4094.
  pub config_from_json-revalidate :
      (kernel : Kernel) (inet : Inet) (c : NetworkConfig) (n : Controller kernel.World)
      → c.inner_prefix < 2 ^ 32
      → c.outer_prefix < 2 ^ 32
      → ((id : ℕ) → c.vlan_id ≡ some id → id ≤ 4094)
      → config_from_json json inet (config_json json c) ≡ (revalidate kernel inet c n).outcome
  unfolding config_from_json
  config_from_json-revalidate kernel inet c n i o v =
      simp
        (
          is_object-config_json c,
          check_names-known _ (known_names c _ (own_names c)),
          read_config-config_json c i o v,
        )
        (checked-revalidate kernel inet c n)
