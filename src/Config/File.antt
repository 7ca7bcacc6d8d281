-- ===== src/Config/File.antt =====
-- src/config.rs: the config file, loaded, saved and updated.
pub mod Kept
pub mod Tests
use pve_compose.Base.{
  ◌≡◌, Bool, Option, none, some, List, [], ◌∷◌, ◌++◌, Text, codes, trim, is_empty, if◌then◌else◌,
  Result, ok, err, map_err, ok_or,
}
use pve_compose.Config.{Config, default_config}
use pve_compose.Pct.Ran.{Ran, stays, with_result, and_then}

pub data IoError : Type 0 where
  not_found : IoError
  other : IoError

-- What the file system does for the program.
pub record Disk : Type 1 where
  pub S : Type 0
  pub read : (path : Text) → S → Result IoError Text
  pub write : (path body : Text) → S → Ran S IoError (Unit {0})
  pub rename : (from to : Text) → S → Ran S IoError (Unit {0})

pub data ConfigError : Type 0 where
  cannot_print : ConfigError
  bad_configuration : (path : Text) → ConfigError
  cannot_read : (path : Text) → ConfigError
  cannot_write : (path : Text) → ConfigError
  cannot_replace : (path : Text) → ConfigError

-- `serde_yaml_ng` for `Config`, and the derived equality.
pub record Yaml : Type 0 where
  pub from_str : Text → Option Config
  pub to_string : Config → Option Text
  pub same : Config → Config → Bool

abbrev pub temporary : Text → Text
temporary path = path ++ codes ".tmp"

abbrev pub comment : Text
comment = codes "# pve-compose: written by `pve-compose config` and `new`; every key optional.\n"

module _ (yaml : Yaml) where
  abbrev pub parsed : (path : Text) → Option Config → Result ConfigError Config
  parsed path none = err (bad_configuration path)
  parsed path (some c) = ok c

  abbrev pub loaded : (path : Text) → Result IoError Text → Result ConfigError Config
  loaded path (ok text) =
      if is_empty (trim text) then ok default_config else parsed path (yaml.from_str text)
  loaded path (err not_found) = ok default_config
  loaded path (err other) = err (cannot_read path)

  abbrev pub text_of : Config → Result ConfigError Text
  text_of c = if yaml.same c default_config then ok [] else ok_or (yaml.to_string c) cannot_print

  module _ (disk : Disk) (path : Text) where
    unfoldable pub load_from : disk.S → Result ConfigError Config
    load_from s = loaded path (disk.read path s)

    unfoldable pub write_body : Text → disk.S → Ran disk.S ConfigError (Unit {0})
    write_body body s =
        let w = disk.write (temporary path) body s in
        and_then (with_result w (map_err (λ e. cannot_write (temporary path)) w.result)) λ _ s'.
          let r = disk.rename (temporary path) path s' in
          with_result r (map_err (λ e. cannot_replace path) r.result)

    unfoldable pub save_to : Config → disk.S → Ran disk.S ConfigError (Unit {0})
    save_to c s = and_then (stays s (text_of c)) (λ text. write_body (comment ++ text))

    -- `Config::update`: the change is applied to what the file has now.
    unfoldable pub update : (change : Config → Config) → disk.S → Ran disk.S ConfigError Config
    unfolding load_from save_to
    update change s =
        and_then (stays s (load_from s))
          λ c s'. and_then (save_to (change c) s') (λ _ s''. stays s'' (ok (change c)))
