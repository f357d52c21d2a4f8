-- ===== src/Traefik/Available.antt =====
-- When the API of Traefik is found to be available.
use knuu.Prelude.{
  ◌≡◌, ◌≢◌, refl, sym, ap, ◌∙◌, Bool, true, false, ◌&&◌, inl, inr, List, [], ◌∷◌, map, any,
  Bool-cases, some,
}
use knuu.Prelude.Text.{Text, codes, text_eq, text_eq_iff}
use knuu.Errors.{ok}
use knuu.Action.{pure}
use knuu.Host.{Foreign}
use knuu.K8s.Custom.{ApiResource}
use knuu.K8s.Cluster.{Client}
use knuu.K8s.Cluster.Outcomes.{on_error_of_ok}
use knuu.Traefik.{Traefik, api_version, still_required, is_none_left, is_traefik_api_available}

-- Whether a name is among some.
abbrev pub among : Text → List Text → Bool
among name names = any (λ n. text_eq n name) names

none_left : (names : List Text) → still_required [] names ≡ []
none_left [] = refl
none_left (n ∷ names) = none_left names

one_left :
    (a : Text) (names : List Text) → is_none_left (still_required (a ∷ []) names) ≡ among a names
one_left a [] = refl
one_left a (n ∷ names) = elim (Bool-cases (text_eq n a)) [
  | inl e ↦ rw e (ap is_none_left (none_left names))
  | inr e ↦ rw e (one_left a names)
]

two_left :
    (a b : Text) (names : List Text)
    → a ≢ b
    → is_none_left (still_required (a ∷ b ∷ []) names) ≡ among a names && among b names
two_left a b [] d = refl
two_left a b (n ∷ names) d = elim (Bool-cases (text_eq n a)) [
  | inl e ↦ elim (Bool-cases (text_eq n b)) [
    | inl e' ↦ absurd (d (sym ((text_eq_iff n a).0 e) ∙ (text_eq_iff n b).0 e'))
    | inr e' ↦ rw (e, e') (one_left b names)
  ]
  | inr e ↦ elim (Bool-cases (text_eq n b)) [
    | inl e' ↦ rw (e, e') (one_left a names ∙ both (among a names))
    | inr e' ↦ rw (e, e') (two_left a b names d)
  ]
]
  where
    both : (c : Bool) → c ≡ c && true
    both true = refl
    both false = refl

module _ ⦃f : Foreign⦄ where
  -- Where the cluster answers with its resources, the API is available exactly if the middlewares and
  -- the routes are both among them, whatever else is there and in whatever order.
  pub is_traefik_api_available-among :
      (t : Traefik) (c : Client) (x y : f.Outside) (rs : List ApiResource)
      → t.k8s_client ≡ some c
      → c.clientset.server_resources api_version x ≡ (y, ok rs)
      → let names = map (λ r. r.name) rs in
        (is_traefik_api_available t x).1
        ≡ ok (among (codes "middlewares") names && among (codes "ingressroutes") names)
  unfolding is_traefik_api_available pure
  is_traefik_api_available-among t c x y rs e h = rw e (
      ap (λ p. p.1) (on_error_of_ok _ _ _ x y rs h)
      ∙ ap ok
          (two_left (codes "middlewares") (codes "ingressroutes") (map (λ r. r.name) rs) (λ d. cc)))
