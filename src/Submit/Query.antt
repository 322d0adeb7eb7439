-- ===== src/Submit/Query.antt =====
-- ens.go: the parameters of the RunInstances call. The JSON of the system disk is an argument, and so
-- is the decimal text of the amount.
use ens_provider.Prelude.{Bool, true, false, Option, none, some, [], ◌∷◌, Str, codes}
use ens_provider.Config.{Config, Group, Labels}

unfoldable pub network_parameters : Bool → Str → Labels
network_parameters true bandwidth =
    (codes "PublicIpIdentification", codes "true")
    ∷ (codes "InternetMaxBandwidthOut", bandwidth)
    ∷ []
network_parameters false bandwidth =
    (codes "PublicIpIdentification", codes "false")
    ∷ (codes "InternetMaxBandwidthOut", codes "0")
    ∷ []

unfoldable pub query_parameters : Config → Group → Bool → Str → Str → Str → Str → Labels
unfolding network_parameters
query_parameters c g public_ip system_disk name amount userdata =
    (codes "RegionId", c.control_region)
    ∷ (codes "EnsRegionId", c.ens_region)
    ∷ (codes "ScheduleAreaLevel", codes "Region")
    ∷ (codes "NetWorkId", g.network_id)
    ∷ (codes "VSwitchId", g.vswitch_id)
    ∷ (codes "SecurityId", g.security_group_id)
    ∷ (codes "InstanceType", g.instance_type)
    ∷ (codes "ImageId", g.image_id)
    ∷ (codes "KeyPairName", g.keypair)
    ∷ (codes "InstanceChargeType", codes "PostPaid")
    ∷ (codes "InstanceChargeStrategy", codes "instance")
    ∷ (codes "BillingCycle", codes "Hour")
    ∷ (codes "SystemDisk", system_disk)
    ∷ (codes "InstanceName", name)
    ∷ (codes "UniqueSuffix", codes "true")
    ∷ (codes "Amount", amount)
    ∷ (codes "UserData", userdata)
    ∷ network_parameters public_ip g.bandwidth

-- `*g.PublicIP` panics on nil, and so is `none`; LoadConfig fills it in.
unfoldable pub order_query : Config → Group → Str → Str → Str → Str → Option Labels
unfolding query_parameters
order_query c g system_disk name amount userdata = elim g.public_ip [
  | none ↦ none
  | some public_ip ↦ some (query_parameters c g public_ip system_disk name amount userdata)
]
