-- ===== src/K8s/Cluster/Namespaces/Entering.antt =====
-- A new client has its namespace.
use knuu.Prelude.{
  ◌≡◌, refl, sym, ap, ◌∙◌, inl, inr, if◌then◌else◌, Option, none, some, List, [], Option-cases,
}
use knuu.Prelude.Text.{Text, text_eq}
use knuu.Errors.{ok, foreign, already_exists, k8s_code}
use knuu.Errors.Codes.{creating_namespace, invalid_cluster_domain}
use knuu.Action.{wrap_result, pure, wrapping}
use knuu.Action.Stops.{bind_of_ok}
use knuu.Host.{Foreign}
use knuu.K8s.Objects.{Namespace}
use knuu.K8s.Sanitize.{sanitize_name}
use knuu.K8s.Sanitize.Laws.{IsDnsLabel, sanitize_name-IsDnsLabel}
use knuu.K8s.Validate.{Validation, validate_dns1123_subdomain, validate_namespace}
use knuu.K8s.Cluster.{Clientset}
use knuu.K8s.Cluster.Outcomes.{on_error_of_err, on_error_of_ok, passed}
use knuu.K8s.Cluster.Store.{IsServer, created}
use knuu.K8s.Cluster.Namespaces.{
  create_namespace, default_cluster_domain, apply_options, client_in, enter_namespace,
  new_client_custom,
}

-- The namespaces, with one more if there is none of its name.
abbrev pub with_namespace :
    Text → (Text → Option Namespace) → Option Namespace → Text → Option Namespace
with_namespace name m none n = if text_eq name n then some (record { name = name }) else m n
with_namespace name m (some ns) n = m n

module _ ⦃f : Foreign⦄ ⦃v : Validation⦄ (cs : Clientset)
    (st : IsServer cs.namespaces (λ ns. ns.name))
    (keeps : (ns : Namespace) (x : f.Outside) → st.admitted ns x ≡ ns) where
  -- The outside once the namespace is there.
  abbrev entered : Text → f.Outside → Option Namespace → f.Outside
  entered name x none = st.put (record { name = name }) x
  entered name x (some ns) = x

  entered-view :
      (name : Text) (x : f.Outside) (o : Option Namespace) (n : Text)
      → st.view (entered name x o) n ≡ with_namespace name (st.view x) o n
  entered-view name x none n =
      let ns : Namespace = record { name = name } in
      st.view_put ns x n ∙ ap (λ a. if text_eq name n then some a else st.view x n) (keeps ns x)
  entered-view name x (some ns) n = refl

  created_entered :
      (domain name : Text) (x : f.Outside)
      → validate_namespace name ≡ none
      → create_namespace (client_in cs domain name) name x
        ≡ (entered name x (st.view x name), ok tt)
  unfolding create_namespace pure
  created_entered domain name x h =
      let ns : Namespace = record { name = name } in
      passed _ x none refl
      ∙ (passed _ x _ h ∙ elim (Option-cases (st.view x name)) [
        | inl e ↦
            on_error_of_ok (cs.namespaces.create ns) _ _ x (st.put ns x) (st.admitted ns x)
              (st.create_lem ns x ∙ ap (created x (st.put ns x) (st.admitted ns x)) e)
            ∙ ap (λ o. (entered name x o, ok tt)) (sym e)
        | inr (old, e) ↦
            on_error_of_err (cs.namespaces.create ns) _ _ x x (foreign already_exists)
              (st.create_lem ns x ∙ ap (created x (st.put ns x) (st.admitted ns x)) e)
            ∙ ap (λ o. (entered name x o, ok tt)) (sym e)
      ])

  entered_client :
      (domain name : Text) (x : f.Outside)
      → validate_namespace name ≡ none
      → enter_namespace cs domain (some name) x
        ≡ (entered name x (st.view x name), ok (client_in cs domain name))
  unfolding wrapping pure
  entered_client domain name x h = bind_of_ok _ _ x (entered name x (st.view x name)) tt (
      ap (λ (y, r). (y, wrap_result (k8s_code creating_namespace) r))
        (created_entered domain name x h))

  -- NewClientCustom returns a client in the namespace of the sanitized name, not terminated, on a
  -- server without faults that keeps the names of namespaces, where the domain is valid and the checks accept DNS-1123 labels; then the
  -- server has that namespace, and otherwise what it had.
  pub new_client_custom-enters :
      (namespace name : Text) (options : List (Text → Text)) (x : f.Outside)
      → ((t : Text) → IsDnsLabel t → v.is_dns1123_label t ≡ [])
      → v.is_dns1123_subdomain (apply_options options default_cluster_domain) ≡ []
      → sanitize_name namespace ≡ some name
      → ((new_client_custom cs namespace options x).1
          ≡ ok (client_in cs (apply_options options default_cluster_domain) name))
        × ((n : Text)
            → st.view (new_client_custom cs namespace options x).0 n
              ≡ with_namespace name (st.view x) (st.view x name) n)
  new_client_custom-enters namespace name options x accepts domain_valid h =
      let domain = apply_options options default_cluster_domain in
      let e : new_client_custom cs namespace options x
          ≡ (entered name x (st.view x name), ok (client_in cs domain name)) =
        unfold new_client_custom in
        passed _ x (validate_dns1123_subdomain domain invalid_cluster_domain) (rw domain_valid refl)
        ∙ (ap (λ o. enter_namespace cs domain o x) h
            ∙ entered_client domain name x
                (rw (accepts name (sanitize_name-IsDnsLabel namespace name h)) refl)) in
      (ap (λ p. p.1) e, λ n. ap (λ p. st.view p.0 n) e ∙ entered-view name x (st.view x name) n)
