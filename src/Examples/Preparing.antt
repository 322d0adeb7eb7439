-- ===== src/Examples/Preparing.antt =====
-- Examples of orders that are prepared around a token.
use ens_provider.Prelude.{ℕ, ◌≡◌, refl, some, none, [], Str, codes, pos}
use ens_provider.Config.{Group}
use ens_provider.Config.Load.{with_defaults}
use ens_provider.Submit.Disk.{system_disk}
use ens_provider.Examples.Data.{cfg, web}

abbrev web_group : Group
web_group = with_defaults cfg web

abbrev sized : Str → Group
sized size = record web { disk_size = size; disk_category = codes "local_ssd" }

disk_of_size : system_disk (sized (codes "50")) ≡ codes "{\"Category\":\"local_ssd\",\"Size\":50}"
unfolding system_disk ens_provider.Prelude.is_empty
disk_of_size = refl

-- A whole number that is no number of JSON.
disk_of_leading_zero : system_disk (sized (codes "050")) ≡ []
unfolding system_disk ens_provider.Prelude.is_empty
disk_of_leading_zero = refl
