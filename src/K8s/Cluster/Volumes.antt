-- ===== src/K8s/Cluster/Volumes.antt =====
-- pvc.go of pkg/k8s: the claims of volumes.
use knuu.Prelude.{Bool, true, false, if◌then◌else◌, none, [], ◌∷◌}
use knuu.Prelude.Text.{Text, codes}
use knuu.Errors.{is_missing, k8s_code}
use knuu.Errors.Codes.{creating_persistent_volume_claim, deleting_persistent_volume_claim}
use knuu.Action.{pure, throw, wrapping, ◌>>◌}
use knuu.Host.{Foreign, Call}
use knuu.K8s.Types.{Labels}
use knuu.K8s.Objects.{VolumeClaim}
use knuu.K8s.Validate.{Validation, validate_pvc_name, validate_pvc_size, validate_labels}
use knuu.K8s.Cluster.{on_error, check, Client, alive}
use knuu.K8s.Cluster.Access.{ignore}

module _ ⦃f : Foreign⦄ where
  abbrev pub get_persistent_volume_claim : Client → Text → Call VolumeClaim
  get_persistent_volume_claim c name = (c.clientset.volume_claims c.namespace).get name

  abbrev pub persistent_volume_claim_exists : Client → Text → Call Bool
  persistent_volume_claim_exists c name =
      on_error (get_persistent_volume_claim c name) (λ e. pure false) (λ pvc. pure true)

  unfoldable pub delete_persistent_volume_claim : Client → Text → Call (Unit {0})
  delete_persistent_volume_claim c name =
      on_error (get_persistent_volume_claim c name) (λ e. if is_missing e then pure tt else throw e)
        (λ pvc.
          wrapping (k8s_code deleting_persistent_volume_claim)
            ((c.clientset.volume_claims c.namespace).delete name none))

  module _ ⦃v : Validation⦄ where
    unfoldable pub create_persistent_volume_claim :
        Client → Text → Labels → f.Quantity → Call (Unit {0})
    create_persistent_volume_claim c name labels size = do
      alive c
      check (validate_pvc_name name)
      check (validate_pvc_size size)
      check (validate_labels labels)
      ignore (
          wrapping (k8s_code creating_persistent_volume_claim) (
            (c.clientset.volume_claims c.namespace).create (record {
              meta = record {
                namespace = c.namespace;
                name = name;
                labels = labels;
                annotations = [];
              };
              access_modes = codes "ReadWriteOnce" ∷ [];
              storage = size;
            })))
