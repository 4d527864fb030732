-- ===== src/Config/Tests.antt =====
-- A command line that is read.
use proxy_server_sa.Base.{ℕ, ◌≡◌, none, some, List, [], ◌∷◌, ◌++◌, length}
use proxy_server_sa.Base.Int.{ℤ, pos}
use proxy_server_sa.Base.Text.{codes}
use proxy_server_sa.Config.{default_config, parse_config}
use proxy_server_sa.Config.Settings.{
  Setting, port, bind_host, verbose, all_written, set_all, parse_config_settings,
}

-- In place of `std::atoi`.
abbrev text_length : List ℕ → ℤ
text_length text = pos (length text)

abbrev settings : List Setting
settings = port (codes "80") ∷ verbose ∷ bind_host (codes "::1") ∷ port (codes "9000") ∷ []

parse_config_settings_example :
    (parse_config text_length (all_written settings)
      ≡ some (set_all text_length settings default_config))
    × (parse_config text_length (all_written settings ++ codes "--port" ∷ [])
        ≡ some (set_all text_length settings default_config))
    × (parse_config text_length (all_written settings ++ codes "--help" ∷ []) ≡ none)
parse_config_settings_example = parse_config_settings text_length settings []
