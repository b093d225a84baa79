-- ===== src/Examples/Units.antt =====
-- An installation on a machine with systemd.
use pulsitor_lan_agent.Base.{
  inl, inr, refl, true, false, none, [], ◌∷◌, ◌++◌, ◌==◌, nat_eq, list_beq, text_eq, texts_eq,
  codes, int_eq, In,
}
use pulsitor_lan_agent.Service.{Definition}
use pulsitor_lan_agent.Service.Linux.{
  command, Linux, enable, ensure_account, prepare_owned, prepare_state, run, activate,
  install_prepared, install, attempt,
}
use pulsitor_lan_agent.Service.Linux.Installing.{IsInstalled, install_enables}

abbrev linux : Linux
linux = record {
  paths = record { dir = λ p. codes "/v"; join = λ a b. a ++ (codes "/" ++ b) };
  is_root = true;
  has_systemctl = true;
  knows = false;
  has_tool = λ tool. tool == codes "adduser";
  succeeds = λ line. true;
  knows_after = λ line. true;
  has_ids = false;
  makes = λ directory. true;
  entries = λ directory. none;
  writes_unit = true;
  unit_there = false;
  removes_unit = true;
  active = codes "active";
}

abbrev plain : Definition
plain = record {
  executable = codes "/b";
  arguments = codes "--state" ∷ codes "/v/s" ∷ [];
  log_path = [];
}

-- The account is made with `adduser`, a directory made and the unit written before the service
-- starts.
enabled : In (command enable) (install linux plain).1
unfolding install ensure_account attempt prepare_state prepare_owned install_prepared activate run
    list_beq
enabled = inr (inr (inr (inr (inl refl))))

install_enables_example : IsInstalled linux plain (install linux plain).1
install_enables_example = install_enables linux plain enabled
