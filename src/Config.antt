-- ===== src/Config.antt =====
-- server/config.h and config.cc: the options of the command line. What is printed is left out.
pub mod Settings
mod Tests
use proxy_server_sa.Base.{
  ℕ, Bool, true, false, Option, none, some, List, [], ◌∷◌, ◌&&◌, ◌==◌, if◌then◌else◌,
}
use proxy_server_sa.Base.Int.{ℤ, pos}
use proxy_server_sa.Base.Text.{codes, same_text}

pub record Config : Type 0 where
  pub port : ℤ
  pub bind_host : List ℕ
  pub backlog : ℤ
  pub max_events : ℤ
  pub verbose : Bool
  pub log_file_name : List ℕ

-- `Config cfg;`
abbrev pub default_config : Config
default_config = record {
  port = pos 8080;
  bind_host = [];
  backlog = pos 128;
  max_events = pos 16;
  verbose = false;
  log_file_name = codes "proxy_server.log";
}

-- `std::atoi` is an argument.
module _ (atoi : List ℕ → ℤ) where
  -- The options that take the next argument; `none` for any other.
  unfoldable pub with_value : List ℕ → List ℕ → Config → Option Config
  unfolding same_text
  with_value option value cfg =
      if same_text option (codes "--port")
      then some (record cfg { port = atoi value })
      else if same_text option (codes "--backlog")
      then some (record cfg { backlog = atoi value })
      else if same_text option (codes "--max-events")
      then some (record cfg { max_events = atoi value })
      else if same_text option (codes "--bind-host")
      then some (record cfg { bind_host = value })
      else none

  -- The options that stand alone; `none` where the program exits. An option that is not known
  -- changes nothing.
  unfoldable pub alone : List ℕ → Config → Option Config
  unfolding same_text
  alone option cfg =
      if same_text option (codes "--verbose")
      then some (record cfg { verbose = true })
      else if same_text option (codes "--help")
      then none
      else some cfg

  -- The loop over the arguments.
  unfoldable pub parse_arguments : Config → List (List ℕ) → Option Config
  unfolding with_value alone
  parse_arguments cfg [] = some cfg
  parse_arguments cfg (option ∷ []) = alone option cfg
  parse_arguments cfg (option ∷ value ∷ rest) = elim (with_value option value cfg) [
    | some cfg' ↦ parse_arguments cfg' rest
    | none ↦ elim (alone option cfg) [
      | some cfg' ↦ parse_arguments cfg' (value ∷ rest)
      | none ↦ none
    ]
  ]

  -- `ParseConfig`, on the arguments behind the name of the program.
  unfoldable pub parse_config : List (List ℕ) → Option Config
  unfolding parse_arguments
  parse_config arguments = parse_arguments default_config arguments
