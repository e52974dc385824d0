-- ===== src/Tests/Settings.antt =====
-- A configuration file that holds nothing, and one variable.
use winify.Common.{true, false, none, some, [], ◌∷◌, if◌then◌else◌, Text, codes, text_eq, ok, err}
use winify.Config.Settings.Defaults.{default_config}
use winify.Config.Settings.Load.{Surroundings, bytes}
use winify.Config.Settings.Placement.{resolve_config_paths}
use winify.Config.Settings.Rules.{Net}
use winify.Config.Settings.{Config}

abbrev net : Net
net = record {
  parse = λ u. some (record {
    scheme = codes "https";
    host = codes "localhost:2019";
    hostname = codes "localhost";
  });
  split_host_port = λ a. some ([], codes "9000");
  is_loopback_ip = λ h. false;
}

abbrev surroundings : Surroundings
surroundings = record {
  read_file = λ path. bytes [];
  unmarshal = λ s cfg. ok cfg;
  is_file = λ path. true;
  abs_dir = λ path. ok (codes "/etc/winify");
  getenv = λ name. if text_eq name (codes "CC_DEPLOY_WORKDIR") then codes "../work" else [];
  net = net;
}

abbrev loaded : Config
loaded =
    let cfg = resolve_config_paths default_config (codes "/etc/winify") in
    record cfg { deploy = record cfg.deploy { work_dir = codes "../work" } }
