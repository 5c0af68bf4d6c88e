-- ===== src/Config/Loading.antt =====
-- src/config.rs: how configurations and the context of the `markets` commands are read. Files, TOML
-- and the environment are parameters.
use archer_market_maker.Base.{◌++◌, Option, none, some, is_empty, if◌then◌else◌}
use archer_market_maker.Base.Text.{Text, codes, strip_prefix}
use archer_market_maker.Base.Results.{Result, ok, err, ◌>>=◌, context}
use archer_market_maker.Float.{F64}
use archer_market_maker.Config.{
  MmConfig, ConnectionSettings, ConfigError, valid, invalid, validate_config,
}

pub data LoadError : Type 0 where
  reading : LoadError
  parsing : LoadError
  invalid_config : ConfigError → LoadError
  rpc_url_missing : LoadError

-- The sections that the `markets` commands read: the connection and the market's key, if there is
-- such a section.
pub record Partial : Type 0 where
  pub connection : ConnectionSettings Text
  pub market : Option Text

pub record MarketsContext : Type 0 where
  pub rpc_url : Text
  pub default_market : Option Text

-- `read_to_string`, the two uses of `toml::from_str`, and the variable HOME.
pub record Files (F : Type 0) : Type 0 where
  pub read_to_string : Text → Option Text
  pub from_str : Text → Option (MmConfig F Text)
  pub partial_from_str : Text → Option Partial
  pub home : Option Text

-- `filter(|s| !s.is_empty())`
abbrev pub some_text : Option Text → Option Text
some_text none = none
some_text (some s) = if is_empty s then none else some s

module _ {F : Type 0} ⦃fl : F64 F⦄ (files : Files F) where
  open files use {read_to_string, from_str, partial_from_str, home}

  unfoldable pub load_config : Text → Result LoadError (MmConfig F Text)
  unfolding validate_config
  load_config path = do
    contents ← context reading (read_to_string path)
    config ← context parsing (from_str contents)
    elim (validate_config is_empty config) [
      | valid ↦ ok config
      | invalid e ↦ err (invalid_config e)
    ]

  pub load_markets_context : Text → Result LoadError MarketsContext
  load_markets_context path = do
    contents ← context reading (read_to_string path)
    p ← context parsing (partial_from_str contents)
    if is_empty p.connection.rpc_url
        then err rpc_url_missing
        else ok (record { rpc_url = p.connection.rpc_url; default_market = some_text p.market })

  unfoldable pub resolve_path : Text → Text
  resolve_path s = elim (strip_prefix (codes "~/") s) [
    | none ↦ s
    | some rest ↦ elim home [ none ↦ s | some h ↦ h ++ (codes "/" ++ rest) ]
  ]
