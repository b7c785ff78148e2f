-- ===== src/Virsh/Config.antt =====
-- An entry of `config.data["provider"]` as a record: the images and machines that a provider offers.
use rally_ci.Prelude.{ℕ, String, Option, List}
use rally_ci.Prelude.Dict.{Dict}

-- An item of `images`
pub record ImageConfig : Type 0 where
  pub parent : Option String
  pub url : Option String
  pub build_scripts : Option (List String)
  pub build_net : Option String
  pub memory : Option ℕ

-- An item of `vms`
pub record VmConfig : Type 0 where
  pub memory : Option ℕ
  pub image : Option String
  pub net : Option (List String)

-- `maxla` counts hundredths.
pub record ProviderConfig : Type 0 where
  pub images : Dict ImageConfig
  pub vms : Dict VmConfig
  pub freemb : Option ℕ
  pub maxla : Option ℕ
