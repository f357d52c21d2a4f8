-- ===== src/K8s/Validate/Meaning.antt =====
-- What the checks of validate.go accept, said without them.
use knuu.Prelude.{
  ℕ, zero, suc, ◌≤◌, ◌≡◌, ◌≢◌, ◌↔◌, refl, ap, Bool, true, false, not, ◌||◌, ltb, none, some, List,
  [], ◌∷◌, All, arith,
}
use knuu.Prelude.Text.{Text, is_empty}
use knuu.Prelude.Int.{ℤ, pos, pos_part, negsuc, ltb_ℤ}
use knuu.Errors.Codes.{K8sCode}
use knuu.Host.{Foreign}
use knuu.K8s.Types.{File, Volume, ContainerConfig, PodConfig, ReplicaSetConfig}
use knuu.K8s.Validate.{
  Validation, Verdict, ◌⨾◌, fails_if, no_errors, all_of, byte_length, validate_file,
  validate_volume, validate_label, validate_annotation, validate_container_config,
  validate_pod_config, validate_replica_set_config,
}

module _ {P Q : Type 0} where
  both : (a b : Verdict) → ((a ≡ none) ↔ P) → ((b ≡ none) ↔ Q) → ((a ⨾ b) ≡ none) ↔ (P × Q)
  both none b p q = (λ h. (p.0 refl, q.0 h), λ (x, y). q.1 y)
  both (some c) b p q = (λ h. absurd (not_none c h), λ (x, y). p.1 x)
    where
      not_none : (c : K8sCode) → some c ≡ none → ⊥
      not_none c h = cc

module _ {A : Type 0} {P : A → Type 0} (g : A → Verdict) (h : (x : A) → (g x ≡ none) ↔ P x) where
  each_of : (xs : List A) → (all_of g xs ≡ none) ↔ All P xs
  each_of [] = (λ _. tt, λ _. refl)
  each_of (x ∷ xs) = both (g x) (all_of g xs) (h x) (each_of xs)

errors_iff : (errs : List Text) (c : K8sCode) → (no_errors errs c ≡ none) ↔ (errs ≡ [])
errors_iff [] c = (λ _. refl, λ _. refl)
errors_iff (e ∷ errs) c = (λ h. cc, λ h. cc)

some_text : (t : Text) (c : K8sCode) → (fails_if (is_empty t) c ≡ none) ↔ (t ≢ [])
some_text [] c = (λ h. cc, λ h. absurd (h refl))
some_text (x ∷ t) c = (λ h e. cc, λ h. refl)

holds : (b : Bool) (c : K8sCode) → fails_if b c ≡ none → b ≡ false
holds true c h = cc
holds false c h = refl

passes : (b : Bool) (c : K8sCode) → b ≡ false → fails_if b c ≡ none
passes true c h = cc
passes false c h = refl

two_texts :
    (s d : Text) (c : K8sCode)
    → (fails_if (is_empty s || is_empty d) c ≡ none) ↔ ((s ≢ []) × (d ≢ []))
two_texts [] d c = (λ h. cc, λ (x, y). absurd (x refl))
two_texts (x ∷ s) [] c = (λ h. cc, λ (x, y). absurd (y refl))
two_texts (x ∷ s) (y ∷ d) c = (λ h. (λ e. cc, λ e. cc), λ h. refl)

-- A positive integer, and one that is not negative.
pub record IsPositive (z : ℤ) : Type 0 where
  pub before : ℕ
  pub is_after : z ≡ pos (suc before)

pub record IsNatural (z : ℤ) : Type 0 where
  pub value : ℕ
  pub is_value : z ≡ pos value

IsPositive-iff : (z : ℤ) (c : K8sCode) → (fails_if (not (ltb_ℤ (pos 0) z)) c ≡ none) ↔ IsPositive z
IsPositive-iff (pos zero) c = (
  λ h. absurd (impossible (holds _ c h)),
  λ p. let e : pos zero ≡ pos (suc p.before) = p.is_after in absurd (pos_differ e),
)
  where
    impossible : not (ltb_ℤ (pos 0) (pos 0)) ≡ false → ⊥
    impossible h = ground arith

    pos_differ : {n : ℕ} → pos zero ≡ pos (suc n) → ⊥
    pos_differ {n} e = let e' : zero ≡ suc n = ap pos_part e in omega (arith, e')
IsPositive-iff (pos (suc n)) c =
    (λ h. record { before = n; is_after = refl }, λ p. passes _ c (greater n))
  where
    greater : (n : ℕ) → not (ltb_ℤ (pos 0) (pos (suc n))) ≡ false
    greater n = ground arith
IsPositive-iff (negsuc n) c = (
  λ h. absurd (impossible n (holds _ c h)),
  λ p. let e : negsuc n ≡ pos (suc p.before) = p.is_after in cc,
)
  where
    impossible : (n : ℕ) → not (ltb_ℤ (pos 0) (negsuc n)) ≡ false → ⊥
    impossible n h = ground arith

IsNatural-iff : (z : ℤ) (c : K8sCode) → (fails_if (ltb_ℤ z (pos 0)) c ≡ none) ↔ IsNatural z
IsNatural-iff (pos n) c = (λ h. record { value = n; is_value = refl }, λ p. passes _ c (not_less n))
  where
    not_less : (n : ℕ) → ltb_ℤ (pos n) (pos 0) ≡ false
    not_less n = ground arith
IsNatural-iff (negsuc n) c = (
  λ h. absurd (impossible n (holds _ c h)),
  λ p. let e : negsuc n ≡ pos p.value = p.is_value in cc,
)
  where
    impossible : (n : ℕ) → ltb_ℤ (negsuc n) (pos 0) ≡ false → ⊥
    impossible n h = ground arith

at_most_iff : (n m : ℕ) (c : K8sCode) → (fails_if (ltb n m) c ≡ none) ↔ (m ≤ n)
at_most_iff n m c = (
  λ h. let e : ltb n m ≡ false = holds _ c h in ground arith,
  λ h. let e : ltb n m ≡ false = ground arith in passes _ c e,
)

abbrev pub IsValidFile : File → Type 0
IsValidFile file = (file.source ≢ []) × (file.dest ≢ [])

file_iff : (file : File) → (validate_file file ≡ none) ↔ IsValidFile file
file_iff file = two_texts file.source file.dest _

module _ ⦃v : Validation⦄ where
  abbrev pub IsValidLabel : Text × Text → Type 0
  IsValidLabel (key, value) = (v.is_qualified_name key ≡ []) × (v.is_valid_label_value value ≡ [])

  abbrev pub IsValidAnnotation : Text × Text → Type 0
  IsValidAnnotation (key, value) = (v.is_qualified_name key ≡ []) × (byte_length value ≤ 256000)

  label_iff : (l : Text × Text) → (validate_label l ≡ none) ↔ IsValidLabel l
  label_iff (key, value) = both _ _ (errors_iff _ _) (errors_iff _ _)

  annotation_iff : (a : Text × Text) → (validate_annotation a ≡ none) ↔ IsValidAnnotation a
  annotation_iff (key, value) = both _ _ (errors_iff _ _) (at_most_iff 256000 (byte_length value) _)

  module _ ⦃f : Foreign⦄ where
    abbrev pub IsValidVolume : Volume → Type 0
    IsValidVolume volume = (volume.path ≢ []) × IsPositive (f.quantity_value volume.size)

    abbrev pub IsValidContainer : ContainerConfig → Type 0
    IsValidContainer config =
        (config.image ≢ [])
        × (All IsValidVolume config.volumes
            × (All IsValidFile config.files × (v.is_dns1123_label config.name ≡ [])))

    abbrev pub IsValidPod : PodConfig → Type 0
    IsValidPod config =
        (v.is_dns1123_subdomain config.name ≡ [])
        × ((v.is_dns1123_label config.namespace ≡ [])
            × (All IsValidLabel config.labels
                × (All IsValidAnnotation config.annotations
                    × (IsValidContainer config.container_config
                        × All IsValidContainer config.sidecar_configs))))

    abbrev pub IsValidReplicaSet : ReplicaSetConfig → Type 0
    IsValidReplicaSet config =
        (v.is_dns1123_subdomain config.name ≡ [])
        × ((v.is_dns1123_label config.namespace ≡ [])
            × (All IsValidLabel config.labels
                × (IsNatural config.replicas × IsValidPod config.pod_config)))

    volume_iff : (volume : Volume) → (validate_volume volume ≡ none) ↔ IsValidVolume volume
    volume_iff volume = both _ _ (some_text _ _) (IsPositive-iff _ _)

    container_iff :
        (config : ContainerConfig)
        → (validate_container_config config ≡ none) ↔ IsValidContainer config
    container_iff config = both _ _ (some_text _ _) (
        both _ _ (each_of validate_volume volume_iff config.volumes)
          (both _ _ (each_of validate_file file_iff config.files) (errors_iff _ _)))

    pod_iff : (config : PodConfig) → (validate_pod_config config ≡ none) ↔ IsValidPod config
    pod_iff config = both _ _ (errors_iff _ _) (
        both _ _ (errors_iff _ _) (
          both _ _ (each_of validate_label label_iff config.labels) (
            both _ _ (each_of validate_annotation annotation_iff config.annotations) (
              both _ _ (container_iff config.container_config)
                (each_of validate_container_config container_iff config.sidecar_configs)))))

    -- validateReplicaSetConfig accepts a configuration exactly if its names, namespaces and labels, and
    -- those of its pod, are valid, its replicas are not negative, no annotation has more than 256000 bytes,
    -- and each container has an image, a valid name, volumes with a path and a positive size, and files with
    -- a source and a destination.
    pub validate_replica_set_config-none_iff :
        (config : ReplicaSetConfig)
        → (validate_replica_set_config config ≡ none) ↔ IsValidReplicaSet config
    validate_replica_set_config-none_iff config = both _ _ (errors_iff _ _) (
        both _ _ (errors_iff _ _) (
          both _ _ (each_of validate_label label_iff config.labels)
            (both _ _ (IsNatural-iff _ _) (pod_iff config.pod_config))))
