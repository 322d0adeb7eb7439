-- ===== src/Provider/Calls.antt =====
-- Every call of RunInstances is a step of the provider.
use ens_provider.Prelude.{◌≡◌, List, ◌++◌, ℤ}
use ens_provider.Config.{Config, Group}
use ens_provider.Inventory.{Instance}
use ens_provider.Order.{Context}
use ens_provider.Submit.Run.{Outside, run_instances}
use ens_provider.Provider.{World, OthersKeep}

-- The world after a call for the group `g`, where ENS has created `landed`.
pub record IsAfter (cfg : Config) (ctx : Context) (g : Group) (count : ℤ) (o : Outside)
    (landed : List Instance) (s t : World) : Type 0 where
  pub state : t.state ≡ (run_instances cfg ctx g count o s.state).0
  pub visible : t.visible g.id ≡ s.visible g.id
  pub hidden : t.hidden g.id ≡ landed ++ s.hidden g.id
  pub others : OthersKeep g.id s t
