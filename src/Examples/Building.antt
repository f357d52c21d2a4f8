-- ===== src/Examples/Building.antt =====
-- The theorems on build contexts, the scope and the statuses of pods at concrete inputs.
use knuu.Prelude.{List, ◌∷◌, lookup}
use knuu.Prelude.Text.{text_has_eq}
use knuu.Prelude.Int.{pos}
use knuu.K8s.Cluster.Status.{PodStatus, count_of, count_statuses}
use knuu.K8s.Cluster.Status.Counts.{occurrences, count_statuses-occurrences}
use knuu.Prelude.{some, false, ◌≡◌, refl, []}
use knuu.Prelude.Text.{codes}
use knuu.Prelude.Strings.{trim_left, trim_right, trim_suffix}
use knuu.K8s.Sanitize.{sanitize_name}
use knuu.K8s.Sanitize.Laws.{IsDnsLabel, sanitize_name-IsDnsLabel}
use knuu.Knuu.{validate_options, set_scope, client_namespace}
use knuu.Knuu.Scope.{set_scope-client_namespace}
use knuu.Builder.{GitContext, git_build_context, dir_build_context, get_dir_from_build_context}
use knuu.Builder.Contexts.{
  https, git_build_context-same, get_dir_from_build_context-dir_build_context,
}

get_dir_from_build_context-dir_build_context_example :
    get_dir_from_build_context (dir_build_context (codes "/tmp/app")) ≡ codes "/tmp/app"
unfolding trim_left trim_right
get_dir_from_build_context-dir_build_context_example =
    get_dir_from_build_context-dir_build_context (codes "tmp/app") refl

abbrev repository : GitContext
repository = record {
  repo = codes "github.com/celestiaorg/knuu";
  branch = codes "main";
  commit = [];
  username = [];
  password = [];
}

git_build_context-same_example :
    (git_build_context
      (record repository { repo = codes "https://github.com/celestiaorg/knuu.git" })).1
    ≡ (git_build_context repository).1
unfolding trim_suffix
git_build_context-same_example = git_build_context-same https repository refl refl

my_app-IsDnsLabel : IsDnsLabel (codes "my-app")
unfolding sanitize_name
my_app-IsDnsLabel = sanitize_name-IsDnsLabel (codes "my_app") (codes "my-app") refl

set_scope-client_namespace_example :
    client_namespace (some (codes "my-app")) (codes "my-app") ≡ some (codes "my-app")
unfolding sanitize_name validate_options set_scope
set_scope-client_namespace_example =
    set_scope-client_namespace false (some (codes "my-app")) (codes "My_app") (codes "now")
      (codes "my-app") my_app-IsDnsLabel refl refl

abbrev statuses : List PodStatus
statuses =
    record { name = codes "a"; status = codes "Running"; pending_duration = pos 0 }
    ∷ record { name = codes "b"; status = codes "Pending"; pending_duration = pos 9 }
    ∷ record { name = codes "c"; status = codes "Running"; pending_duration = pos 0 }
    ∷ []

count_statuses-occurrences_example :
    count_of (lookup (codes "Running") (count_statuses [] statuses))
    ≡ occurrences (codes "Running") statuses
count_statuses-occurrences_example = count_statuses-occurrences (codes "Running") statuses
