-- ===== src/Builder.antt =====
-- pkg/builder: the contexts of an image's build (git.go, dir.go), its arguments (args.go) and the
-- defaults of builder.go. A build context is the text that the builder reads.
pub mod Contexts
pub mod Kaniko
pub mod Docker
use knuu.Prelude.{Bool, true, false, if◌then◌else◌, Option, none, some, List, [], ◌∷◌, ◌++◌}
use knuu.Prelude.Text.{Text, codes, is_empty}
use knuu.Prelude.Strings.{has_prefix, drop_text, trim_prefix, trim_suffix, trim}
use knuu.Errors.{Result, ok, err, raised, builder_code}
use knuu.Errors.Codes.{BuilderCode}
use knuu.Host.{Foreign, Os, CacheOptions}

pub record GitContext : Type 0 where
  pub repo : Text
  pub branch : Text
  pub commit : Text
  pub username : Text
  pub password : Text

-- The regular expression ^(https?|git|ssh|ftp):// , of which at most one alternative fits.
abbrev pub protocols : List Text
protocols =
    codes "http://" ∷ codes "https://" ∷ codes "git://" ∷ codes "ssh://" ∷ codes "ftp://" ∷ []

abbrev pub drop_protocol : List Text → Text → Text
drop_protocol [] repo = repo
drop_protocol (p ∷ ps) repo =
    let rest = drop_protocol ps repo in if has_prefix p repo then drop_text p repo else rest

abbrev pub git_protocol : Text
git_protocol = codes "git://"

abbrev pub dir_protocol : Text
dir_protocol = codes "dir:///"

-- The context with its repository cleaned, as BuildContext leaves it.
unfoldable pub clean_repo : GitContext → GitContext
clean_repo g = record g {
  repo = trim_suffix (codes "/") (trim_suffix (codes ".git") (drop_protocol protocols g.repo));
}

abbrev pub credentials : GitContext → Text
credentials g =
    if is_empty g.username
    then []
    else g.username ++ ((if is_empty g.password then [] else codes ":" ++ g.password) ++ codes "@")

abbrev pub git_text : GitContext → Text
git_text g =
    git_protocol
    ++ (credentials g
        ++ (g.repo
            ++ ((if is_empty g.branch then [] else codes "#refs/heads/" ++ g.branch)
                ++ (if is_empty g.commit then [] else codes "#" ++ g.commit))))

unfoldable pub git_build_context : GitContext → GitContext × Text
unfolding clean_repo
git_build_context g = (clean_repo g, git_text (clean_repo g))

unfoldable pub is_git_context : Text → Bool
is_git_context ctx = has_prefix git_protocol ctx

unfoldable pub dir_build_context : Text → Text
dir_build_context path = dir_protocol ++ trim b'/' path

unfoldable pub get_dir_from_build_context : Text → Text
get_dir_from_build_context ctx = codes "/" ++ trim_prefix dir_protocol ctx

unfoldable pub is_dir_context : Text → Bool
is_dir_context ctx = has_prefix dir_protocol ctx

-- The two types that implement ArgInterface.
pub data Arg : Type 0 where
  build_arg : Text → Arg
  custom_arg : Text → Text → Arg

abbrev pub get_key : Arg → Text
get_key (build_arg value) = codes "--build-arg"
get_key (custom_arg key value) = key

abbrev pub get_value : Arg → Text
get_value (build_arg value) = value
get_value (custom_arg key value) = value

module _ ⦃f : Foreign⦄ ⦃o : Os⦄ where
  -- hashString; writing to a hash never fails.
  abbrev pub hash_string : Text → Text
  hash_string s = o.sha256_hex s

  abbrev pub hashed_name : Text → Text
  hashed_name build_context = codes "ttl.sh/" ++ (hash_string build_context ++ codes ":24h")

  unfoldable pub default_cache : Text → Result CacheOptions
  default_cache build_context =
      if is_empty build_context
      then err (raised (builder_code BuilderCode.build_context_empty))
      else ok (record { enabled = true; dir = []; repo = hashed_name build_context })

  unfoldable pub default_image_name : Text → Result Text
  default_image_name build_context =
      if is_empty build_context
      then err (raised (builder_code BuilderCode.build_context_empty))
      else ok (hashed_name build_context)
