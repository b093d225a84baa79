-- ===== src/Report.antt =====
-- internal/report/client.go: what one report holds.
pub mod Client
use pulsitor_lan_agent.Base.{Bool, Option, List, Text, ℤ}

pub record Device : Type 0 where
  pub mac : Text
  pub ip : Text
  pub hostname : Text
  pub vendor : Text

pub record Interface : Type 0 where
  pub name : Text
  pub cidr : Text

pub record Observation : Type 0 where
  pub id : ℤ
  pub online : Bool
  pub ip : Text
  pub hostname : Text

-- A nil pointer is `none`: discovery did not run. An empty list is a discovery that found nothing.
pub record Report : Type 0 where
  pub contract : ℤ
  pub version : Text
  pub observed_at : Text
  pub interfaces : Option (List Interface)
  pub devices : Option (List Device)
  pub scanned : Option (List Text)
  pub observations : List Observation
