-- ===== src/Config/Settings.antt =====
-- What a command line means, setting by setting.
use proxy_server_sa.Base.{
  ℕ, ◌≡◌, refl, sym, ◌∙◌, ap, true, none, some, List, [], ◌∷◌, ◌++◌, append_assoc, append-nil,
}
use proxy_server_sa.Base.Int.{ℤ}
use proxy_server_sa.Base.Text.{codes, same_text}
use proxy_server_sa.Config.{
  Config, default_config, with_value, alone, parse_arguments, parse_config,
}

pub data Setting : Type 0 where
  port backlog max_events bind_host : List ℕ → Setting
  verbose : Setting

-- How a setting is written.
abbrev pub written : Setting → List (List ℕ)
written (port v) = codes "--port" ∷ v ∷ []
written (backlog v) = codes "--backlog" ∷ v ∷ []
written (max_events v) = codes "--max-events" ∷ v ∷ []
written (bind_host v) = codes "--bind-host" ∷ v ∷ []
written verbose = codes "--verbose" ∷ []

abbrev pub all_written : List Setting → List (List ℕ)
all_written [] = []
all_written (s ∷ ss) = written s ++ all_written ss

module _ (atoi : List ℕ → ℤ) where
  -- What it does.
  abbrev pub set : Setting → Config → Config
  set (port v) cfg = record cfg { port = atoi v }
  set (backlog v) cfg = record cfg { backlog = atoi v }
  set (max_events v) cfg = record cfg { max_events = atoi v }
  set (bind_host v) cfg = record cfg { bind_host = v }
  set verbose cfg = record cfg { verbose = true }

  abbrev pub set_all : List Setting → Config → Config
  set_all [] cfg = cfg
  set_all (s ∷ ss) cfg = set_all ss (set s cfg)

  parse_one :
      (s : Setting) (rest : List (List ℕ)) (cfg : Config)
      → parse_arguments atoi cfg (written s ++ rest) ≡ parse_arguments atoi (set s cfg) rest
  unfolding parse_arguments with_value alone same_text
  parse_one (port v) rest cfg = refl
  parse_one (backlog v) rest cfg = refl
  parse_one (max_events v) rest cfg = refl
  parse_one (bind_host v) rest cfg = refl
  parse_one verbose [] cfg = refl
  parse_one verbose (v ∷ rest) cfg = refl

  parse_all :
      (ss : List Setting) (rest : List (List ℕ)) (cfg : Config)
      → parse_arguments atoi cfg (all_written ss ++ rest)
        ≡ parse_arguments atoi (set_all ss cfg) rest
  parse_all [] rest cfg = refl
  parse_all (s ∷ ss) rest cfg =
      ap (parse_arguments atoi cfg) (append_assoc (written s) (all_written ss) rest)
      ∙ parse_one s (all_written ss ++ rest) cfg
      ∙ parse_all ss rest (set s cfg)

  help_ends :
      (rest : List (List ℕ)) (cfg : Config)
      → parse_arguments atoi cfg (codes "--help" ∷ rest) ≡ none
  unfolding parse_arguments alone with_value same_text
  help_ends [] cfg = refl
  help_ends (v ∷ rest) cfg = refl

  -- A command line that writes down settings is read as those settings, applied to the defaults
  -- from left to right. A `--port` behind them without a value changes nothing, and a `--help`
  -- behind them ends the program, whatever follows.
  pub parse_config_settings :
      (ss : List Setting) (rest : List (List ℕ))
      → (parse_config atoi (all_written ss) ≡ some (set_all ss default_config))
        × (parse_config atoi (all_written ss ++ codes "--port" ∷ [])
            ≡ some (set_all ss default_config))
        × (parse_config atoi (all_written ss ++ codes "--help" ∷ rest) ≡ none)
  unfolding parse_config parse_arguments alone with_value same_text
  parse_config_settings ss rest = (
    ap (parse_arguments atoi default_config) (sym (append-nil (all_written ss)))
        ∙ parse_all ss [] default_config,
    parse_all ss (codes "--port" ∷ []) default_config,
    parse_all ss (codes "--help" ∷ rest) default_config
        ∙ help_ends rest (set_all ss default_config),
  )
