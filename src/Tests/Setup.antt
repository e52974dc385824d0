-- ===== src/Tests/Setup.antt =====
-- A setup of two steps, run for the first time and as a dry run.
use winify.Common.{true, false, none, Option, List, [], ◌∷◌, Bool, Text, codes, Result, ok}
use winify.Bootstrap.{Step, StatusKind, Options, Machine, Report}

-- A target with two switches.
abbrev Switches : Type 0
Switches = Bool × Bool

abbrev left : Switches × Option Text → Result Text Bool
left p = ok p.0.0

abbrev right : Switches × Option Text → Result Text Bool
right p = ok p.0.1

abbrev first : Step Switches
first = record { name = codes "dirs"; check = λ t. ok t.0; apply = λ t. ((true, t.1), none) }

abbrev second : Step Switches
second = record { name = codes "nssm"; check = λ t. ok t.1; apply = λ t. ((t.0, true), none) }

abbrev steps : List (Step Switches)
steps = first ∷ second ∷ []

abbrev options : Options
options = record { dry_run = false; has_meta = true; set_meta_ok = true; state_namespace = [] }

abbrev dry : Options
dry = record options { dry_run = true }

abbrev no_meta : Text → Text
no_meta k = []

abbrev machine : Machine Switches
machine = record { target = (false, false); meta = no_meta }
