-- ===== src/Tests/Plugins.antt =====
-- The theorems on the plugin host at concrete inputs.
use tx_ide_rs.Prelude.{ℕ, ◌≡◌, refl, [], ◌∷◌, Text, codes, text_eq, contains}
use tx_ide_rs.Result.{ok}
use tx_ide_rs.Engine.Registry.{validate_ext_key}
use tx_ide_rs.Plugins.{PluginConfig, Plugin, Host, add_verb, active}
use tx_ide_rs.Plugins.Plug.{plug, preview_verbs}
use tx_ide_rs.Plugins.Preview.{plug-preview}
use tx_ide_rs.Plugins.Unique.{IsHost, DistinctKeys, DistinctNames, plug-IsHost}
use tx_ide_rs.Tests.Sample.{sample_engine}

-- A verb is its name, and sinks and the configuration are texts.
abbrev by_name : Text → Text
by_name verb = verb

abbrev sample_plugin : Plugin ℕ Text Text Text
sample_plugin = record {
  id = codes "kill";
  fill = λ r. ok (add_verb (codes "kill") (add_verb (codes "all") r));
}

abbrev sample_config : PluginConfig
sample_config = record { disabled = []; settings = []; reserved = codes "new" ∷ [] }

abbrev bare_host : Host ℕ Text Text
bare_host = record {
  engines = sample_engine ∷ [];
  sinks = [];
  verbs = [];
  resources = [];
  status = [];
}

abbrev plugged_host : Host ℕ Text Text
plugged_host = record bare_host {
  verbs =
      (codes "all", (codes "kill", codes "all"))
      ∷ (codes "kill", (codes "kill", codes "kill"))
      ∷ [];
  status = (codes "kill", active) ∷ [];
}

plugged :
    plug by_name (sample_plugin ∷ []) sample_config (codes "c") bare_host ≡ (ok tt, plugged_host)
unfolding plug text_eq contains add_verb
plugged = refl

plug-preview_example :
    preview_verbs by_name (sample_plugin ∷ []) sample_config (codes "c")
    ≡ ok (codes "all" ∷ codes "kill" ∷ [])
plug-preview_example =
    plug-preview by_name (sample_plugin ∷ []) sample_config (codes "c") bare_host plugged_host refl
      plugged

bare-IsHost : IsHost sample_config bare_host
unfolding DistinctKeys DistinctNames text_eq validate_ext_key
bare-IsHost = record {
  engines = (refl, tt, tt, tt);
  verbs = record { unreserved = tt; distinct = tt };
  resources = tt;
}

plug-IsHost_example :
    IsHost sample_config
      (plug by_name (sample_plugin ∷ sample_plugin ∷ []) sample_config (codes "c") bare_host).1
plug-IsHost_example =
    plug-IsHost sample_config by_name (sample_plugin ∷ sample_plugin ∷ []) (codes "c") bare_host
      bare-IsHost
