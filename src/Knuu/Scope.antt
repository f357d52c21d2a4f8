-- ===== src/Knuu/Scope.antt =====
-- The scope and the namespace are the same.
use knuu.Prelude.{◌≡◌, sym, ap, ◌∙◌, inl, inr, Bool, Option, none, some, Bool-cases}
use knuu.Prelude.Text.{Text, is_empty, text_eq, text_eq_iff}
use knuu.Errors.{ok}
use knuu.K8s.Sanitize.{sanitize_name}
use knuu.K8s.Sanitize.Laws.{IsDnsLabel, sanitize_name_of_IsDnsLabel, sanitize_name_idem}
use knuu.Knuu.{matches, validate_options, given_scope, set_scope, client_namespace}

-- The namespace of a client that is given is a DNS-1123 label.
abbrev pub IsProper : Option Text → Type 0
IsProper none = Unit
IsProper (some namespace) = IsDnsLabel namespace

matched : (namespace : Text) (o : Option Text) → matches namespace o ≡ ok tt → o ≡ some namespace
matched namespace none h = cc
matched namespace (some scope) h = elim (Bool-cases (text_eq scope namespace)) [
  | inl e ↦ ap some ((text_eq_iff scope namespace).0 e)
  | inr e ↦ let mismatch = rw e at h in absurd cc
]

-- Where the options are valid, the scope is the namespace of the client, whether that is given, in a
-- namespace that is a DNS-1123 label, or made for the scope.
pub set_scope-client_namespace :
    (has_minio : Bool) (client : Option Text) (scope default_scope s : Text)
    → IsProper client
    → validate_options has_minio client scope ≡ ok tt
    → set_scope client scope default_scope ≡ some s
    → client_namespace client s ≡ some s
unfolding validate_options set_scope client_namespace
set_scope-client_namespace has_minio none scope default_scope s proper valid h =
    sanitize_name_idem (given_scope none scope default_scope) s h
set_scope-client_namespace has_minio (some namespace) scope default_scope s proper valid h =
    elim (Bool-cases (is_empty scope)) [
      | inl e ↦ sym (sanitize_name_of_IsDnsLabel namespace proper) ∙ rw e at h
      | inr e ↦ sym (matched namespace (sanitize_name scope) (rw e at valid)) ∙ rw e at h
    ]
