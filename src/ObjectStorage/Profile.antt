-- ===== src/ObjectStorage/Profile.antt =====
-- The credentials that src/object_storage.rs takes from the profile files of AWS: `parse_profile_file` and
-- `resolve_profile_credentials`. A file is its text, where it can be read; the environment is a function.
use gresse.Prelude.{
  Bool, true, false, ◌&&◌, ◌||◌, Option, none, some, List, [], ◌∷◌, ◌++◌, if◌then◌else◌, Outcome,
  ok, ◌>>=◌, expect, nat_key,
}
use gresse.Map
use gresse.Map.{Map}
use gresse.Text.{Text}
use gresse.Text.Lines.{
  text_key, trim, lines, starts_with, ends_with, without_first, without_last, split_once,
}
use gresse.Config.{
  ObjectStorageConfig, Env, or_text, aws_profile, aws_shared_credentials_file, aws_config_file,
  home, aws_access_key_id, aws_secret_access_key,
}

abbrev pub Profiles : Type 0
Profiles = Map Text (Map Text Text)

-- What the loop has built, and the section it is in.
pub record Scan : Type 0 where
  pub profiles : Profiles
  pub current_section : Option Text

abbrev is_empty : Text → Bool
is_empty [] = true
is_empty (_ ∷ _) = false

-- An empty line, or a comment.
unfoldable pub is_ignored : Text → Bool
is_ignored trimmed = is_empty trimmed || starts_with b'#' trimmed || starts_with b';' trimmed

unfoldable pub is_section : Text → Bool
is_section trimmed = starts_with b'[' trimmed && ends_with b']' trimmed

abbrev keep_map : Map Text Text → Map Text Text
keep_map m = m

unfoldable pub open_section : Text → Scan → Scan
open_section trimmed s =
    let section = trim (without_last (without_first trimmed)) in
    record {
      profiles = Map.upsert section keep_map Map.empty s.profiles;
      current_section = some section;
    }

abbrev set_in : Text → Option (Text × Text) → Scan → Scan
set_in section none s = s
set_in section (some (key, value)) s = record s {
  profiles =
      Map.upsert section (Map.insert (trim key) (trim value))
        (Map.insert (trim key) (trim value) Map.empty) s.profiles;
}

unfoldable pub set_value : Text → Scan → Scan
set_value trimmed s = elim s.current_section [
  | none ↦ s
  | some section ↦ set_in section (split_once b'=' trimmed) s
]

-- One round of the loop.
unfoldable pub scan_line : Text → Scan → Scan
scan_line line s =
    let trimmed = trim line in
    if is_ignored trimmed
    then s
    else if is_section trimmed
    then open_section trimmed s
    else set_value trimmed s

unfoldable pub scan_lines : List Text → Scan → Scan
scan_lines [] s = s
scan_lines (line ∷ rest) s = scan_lines rest (scan_line line s)

abbrev pub start : Scan
start = record { profiles = Map.empty; current_section = none }

abbrev profiles_of : Scan → Profiles
profiles_of s = s.profiles

unfoldable pub parse_profile_file : Option Text → Profiles
parse_profile_file none = Map.empty
parse_profile_file (some raw_contents) = profiles_of (scan_lines (lines raw_contents) start)

pub record SharedProfileCredentials : Type 0 where
  pub access_key_id : Text
  pub secret_access_key : Text
  pub session_token : Option Text

-- "default", "profile ", and the names of the three values.
abbrev pub default_profile : Text
default_profile = b'd' ∷ b'e' ∷ b'f' ∷ b'a' ∷ b'u' ∷ b'l' ∷ b't' ∷ []

abbrev pub profile_prefix : Text
profile_prefix = b'p' ∷ b'r' ∷ b'o' ∷ b'f' ∷ b'i' ∷ b'l' ∷ b'e' ∷ b' ' ∷ []

abbrev pub aws_access_key_id_key : Text
aws_access_key_id_key =
    b'a' ∷ b'w' ∷ b's' ∷ b'_' ∷ b'a' ∷ b'c' ∷ b'c' ∷ b'e' ∷ b's' ∷ b's' ∷ b'_' ∷ b'k' ∷ b'e' ∷ b'y'
    ∷ b'_' ∷ b'i' ∷ b'd' ∷ []

abbrev pub aws_secret_access_key_key : Text
aws_secret_access_key_key =
    b'a' ∷ b'w' ∷ b's' ∷ b'_' ∷ b's' ∷ b'e' ∷ b'c' ∷ b'r' ∷ b'e' ∷ b't' ∷ b'_' ∷ b'a' ∷ b'c' ∷ b'c'
    ∷ b'e' ∷ b's' ∷ b's' ∷ b'_' ∷ b'k' ∷ b'e' ∷ b'y' ∷ []

abbrev pub aws_session_token_key : Text
aws_session_token_key =
    b'a' ∷ b'w' ∷ b's' ∷ b'_' ∷ b's' ∷ b'e' ∷ b's' ∷ b's' ∷ b'i' ∷ b'o' ∷ b'n' ∷ b'_' ∷ b't' ∷ b'o'
    ∷ b'k' ∷ b'e' ∷ b'n' ∷ []

abbrev pub is_set : Option Text → Bool
is_set none = false
is_set (some _) = true

abbrev or_else : Option (Map Text Text) → Option (Map Text Text) → Option (Map Text Text)
or_else none other = other
or_else (some section) other = some section

abbrev credentials_in : Option (Map Text Text) → Option SharedProfileCredentials
credentials_in none = none
credentials_in (some section) = elim (Map.get aws_access_key_id_key section) [
  | none ↦ none
  | some access_key_id ↦ elim (Map.get aws_secret_access_key_key section) [
    | none ↦ none
    | some secret_access_key ↦ some (record {
      access_key_id = access_key_id;
      secret_access_key = secret_access_key;
      session_token = Map.get aws_session_token_key section;
    })
  ]
]

-- The section of a profile, in the first file that has it.
unfoldable pub credentials_section : Text → Profiles → Profiles → Option (Map Text Text)
credentials_section profile_name credentials config_profiles =
    or_else (Map.get profile_name credentials) (
      or_else (Map.get profile_name config_profiles)
        (Map.get (profile_prefix ++ profile_name) config_profiles))

-- "/.aws/credentials" and "/.aws/config" under the home directory, which must be set.
abbrev pub default_path : Text → Env → Option Text → Outcome Text
default_path suffix env (some path) = ok path
default_path suffix env none = do home_dir ← expect (env home); ok (home_dir ++ suffix)

abbrev pub credentials_suffix : Text
credentials_suffix =
    b'/' ∷ b'.' ∷ b'a' ∷ b'w' ∷ b's' ∷ b'/' ∷ b'c' ∷ b'r' ∷ b'e' ∷ b'd' ∷ b'e' ∷ b'n' ∷ b't' ∷ b'i'
    ∷ b'a' ∷ b'l' ∷ b's' ∷ []

abbrev pub config_suffix : Text
config_suffix =
    b'/' ∷ b'.' ∷ b'a' ∷ b'w' ∷ b's' ∷ b'/' ∷ b'c' ∷ b'o' ∷ b'n' ∷ b'f' ∷ b'i' ∷ b'g' ∷ []

-- `read_file` gives the text of a file that can be read.
unfoldable pub resolve_profile_credentials :
    Env → (Text → Option Text) → ObjectStorageConfig → Outcome (Option SharedProfileCredentials)
resolve_profile_credentials env read_file config =
    let profile_name = or_text default_profile (env aws_profile) in
    if is_set config.access_key || is_set config.secret_key || is_set config.session_token
    then ok none
    else if is_set (env aws_access_key_id) || is_set (env aws_secret_access_key)
    then ok none
    else do
      credentials_path ← default_path credentials_suffix env (env aws_shared_credentials_file)
      config_path ← default_path config_suffix env (env aws_config_file)
      ok (
          credentials_in (
            credentials_section profile_name (parse_profile_file (read_file credentials_path))
              (parse_profile_file (read_file config_path))))
