-- ===== src/Network/Rules.antt =====
-- `guard` and `ruleset` of src/network.cpp: the nftables batches, byte for byte.
use wirelab_experiments.Common.{[], ◌∷◌, ◌++◌, Text, codes}
use wirelab_experiments.Config.{NetworkConfig}
use wirelab_experiments.Network.Netlink.{outer_link}

abbrev pub newline : Text
newline = 10 ∷ []

-- A name between double quotes.
abbrev pub quoted : Text → Text
quoted name = b'"' ∷ (name ++ b'"' ∷ [])

abbrev forward_chain : Text
forward_chain =
    codes
      "table inet magicbox { chain forward { type filter hook forward priority -10; policy accept;"

unfoldable pub guard : NetworkConfig → Text
guard c =
    let i = quoted c.inner_interface in
    let o = quoted (outer_link c) in
    forward_chain
    ++ (codes " iifname { "
        ++ (i
            ++ (codes ", "
                ++ (o
                    ++ (codes " } drop; oifname { "
                        ++ (i
                            ++ (codes ", "
                                ++ (o
                                    ++ (codes " } drop; }"
                                        ++ (newline ++ (codes "}" ++ newline)))))))))))

nat_chains : NetworkConfig → Text
nat_chains c =
    let o = quoted (outer_link c) in
    codes "table ip magicbox {"
    ++ (newline
        ++ (codes
              "chain prerouting { type nat hook prerouting priority dstnat; policy accept; iifname "
            ++ (o
                ++ (codes " ip daddr "
                    ++ (c.outer_ipv4
                        ++ (codes " dnat to "
                            ++ (c.device_ipv4
                                ++ (codes "; }"
                                    ++ (newline
                                        ++ (codes
                                              "chain postrouting { type nat hook postrouting priority srcnat; policy accept; oifname "
                                            ++ (o
                                                ++ (codes " ip saddr "
                                                    ++ (c.device_ipv4
                                                        ++ (codes " snat to "
                                                            ++ (c.outer_ipv4
                                                            ++ (codes "; }"
                                                            ++ (newline
                                                            ++ (codes "}"
                                                            ++ newline))))))))))))))))))

filter_chain : NetworkConfig → Text
filter_chain c =
    let i = quoted c.inner_interface in
    let o = quoted (outer_link c) in
    forward_chain
    ++ (newline
        ++ (codes "iifname "
            ++ (i
                ++ (codes " oifname "
                    ++ (o
                        ++ (codes " ip saddr "
                            ++ (c.device_ipv4
                                ++ (codes " ct mark set 0x4d425800 accept"
                                    ++ (newline
                                        ++ (codes "iifname "
                                            ++ (o
                                                ++ (codes " oifname "
                                                    ++ (i
                                                        ++ (codes " ip daddr "
                                                            ++ (c.device_ipv4
                                                            ++ (codes
                                                            " ct mark set 0x4d425800 accept"
                                                            ++ (newline
                                                            ++ drops i o)))))))))))))))))
  where
    drops : Text → Text → Text
    drops i o =
        codes "iifname { "
        ++ (i
            ++ (codes ", "
                ++ (o
                    ++ (codes " } drop"
                        ++ (newline
                            ++ (codes "oifname { "
                                ++ (i
                                    ++ (codes ", "
                                        ++ (o
                                            ++ (codes " } drop"
                                                ++ (newline
                                                    ++ (codes "}"
                                                        ++ (newline
                                                            ++ (codes "}" ++ newline))))))))))))))

unfoldable pub ruleset_text : NetworkConfig → Text
unfolding nat_chains filter_chain
ruleset_text c = nat_chains c ++ filter_chain c
