-- ===== src/Builder/Contexts.antt =====
-- What a builder reads off the contexts that are built for it.
use knuu.Prelude.{◌≡◌, refl, sym, ap, ◌∙◌, ◌++◌}
use knuu.Prelude.Text.{Text, codes}
use knuu.Prelude.Strings.{trim_prefix-append, trim, trim_left, trim_suffix, trim_suffix-append}
use knuu.Builder.{
  GitContext, protocols, drop_protocol, dir_protocol, git_text, clean_repo, git_build_context,
  dir_build_context, get_dir_from_build_context,
}

-- The directory read off the context of an absolute path is that path, where the rest of the path
-- neither begins nor ends with a slash.
pub get_dir_from_build_context-dir_build_context :
    (path : Text)
    → trim b'/' path ≡ path
    → get_dir_from_build_context (dir_build_context (codes "/" ++ path)) ≡ codes "/" ++ path
unfolding get_dir_from_build_context dir_build_context trim_left
get_dir_from_build_context-dir_build_context path h =
    ap (λ t. codes "/" ++ t) (trim_prefix-append dir_protocol (trim b'/' path) ∙ h)

pub data Protocol : Type 0 where
  http https git ssh ftp : Protocol

abbrev pub protocol_text : Protocol → Text
protocol_text http = codes "http://"
protocol_text https = codes "https://"
protocol_text git = codes "git://"
protocol_text ssh = codes "ssh://"
protocol_text ftp = codes "ftp://"

drop_protocol-append :
    (p : Protocol) (t : Text) → drop_protocol protocols (protocol_text p ++ t) ≡ t
drop_protocol-append http t = refl
drop_protocol-append https t = refl
drop_protocol-append git t = refl
drop_protocol-append ssh t = refl
drop_protocol-append ftp t = refl

-- A repository that has neither a protocol in front nor .git at its end gives the same build context
-- with any of the protocols in front and .git at its end.
pub git_build_context-same :
    (p : Protocol) (g : GitContext)
    → drop_protocol protocols g.repo ≡ g.repo
    → trim_suffix (codes ".git") g.repo ≡ g.repo
    → (git_build_context (record g { repo = protocol_text p ++ (g.repo ++ codes ".git") })).1
      ≡ (git_build_context g).1
unfolding git_build_context clean_repo
git_build_context-same p g no_protocol no_git =
    let clean : (trim_suffix (codes ".git")
          (drop_protocol protocols (protocol_text p ++ (g.repo ++ codes ".git"))))
        ≡ trim_suffix (codes ".git") (drop_protocol protocols g.repo) =
      ap (trim_suffix (codes ".git")) (drop_protocol-append p (g.repo ++ codes ".git"))
      ∙ (trim_suffix-append (codes ".git") g.repo
          ∙ sym (ap (trim_suffix (codes ".git")) no_protocol ∙ no_git)) in
    ap (λ t. git_text (record g { repo = trim_suffix (codes "/") t })) clean
