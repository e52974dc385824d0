-- ===== src/Tests/Slots.antt =====
-- A blue-green deployment whose smoke test fails.
use winify.Common.{
  Bool, true, false, Option, none, some, [], ◌∷◌, ◌++◌, if◌then◌else◌, Text, codes, text_eq,
  has_prefix, pos, ◌==◌, drop, length,
}
use winify.Config.Entities.{Project}
use winify.Deployment.BlueGreen.{SlotConfig}
use winify.Deployment.Deployer.{concat}
use winify.Deployment.Shell.{Host, last_line}
use winify.Deployment.Upload.{stop_on_error}
use winify.Tests.Data.{shop}

abbrev iis_shop : Project
iis_shop = record shop { iis_physical_path = codes "C:\\shop"; iis_app_pool = codes "shop" }

abbrev slot_config : SlotConfig
slot_config = record {
  health = record { health_interval_seconds = pos 5; health_timeout_seconds = pos 60 };
  quote = λ s. s;
}

-- The text of a string of PowerShell behind its first quote; `true` if the byte before was a quote.
abbrev unquoted : Bool → Text → Text
unquoted b [] = []
unquoted false (c ∷ s) = elim (c == b'\'') [ true ↦ unquoted true s | false ↦ c ∷ unquoted false s ]
unquoted true (c ∷ s) = elim (c == b'\'') [ true ↦ c ∷ unquoted false s | false ↦ [] ]

abbrev swap_head : Text
swap_head = concat (
    stop_on_error
    ∷ codes "Import-Module WebAdministration\n$site = 'shop'\n$pool = 'shop'\n$service = ''\n"
    ∷ codes "$target = '"
    ∷ [])

abbrev read_head : Text
read_head = stop_on_error ++ codes "$marker"

abbrev smoke_head : Text
smoke_head = stop_on_error ++ codes "$url"

abbrev unless_line : Bool → Option Text
unless_line true = none
unless_line false = some (codes "exit 1")

-- The site serves the slot that is the state; the slot C:\shop.blue does not answer.
abbrev host : Host Text
host = record {
  run = λ cmd s.
      if has_prefix cmd swap_head
      then (unquoted false (drop (length swap_head) cmd), record { out = []; error = none })
      else if has_prefix cmd read_head
      then (s, record { out = s; error = unless_line (text_eq (last_line s) s) })
      else if has_prefix cmd smoke_head
      then (s, record { out = []; error = unless_line (text_eq s (codes "C:\\shop")) })
      else (s, record { out = []; error = none });
  secrets = none;
  base64 = λ s. s;
  describe = λ e. codes "failed";
}

abbrev serving : Text → Text
serving s = s
