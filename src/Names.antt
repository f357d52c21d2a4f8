-- ===== src/Names.antt =====
-- pkg/names: random names. The text of a UUID has 36 characters, so that its first eight are there.
use knuu.Prelude.{◌++◌, take}
use knuu.Prelude.Text.{Text, codes}
use knuu.Action.{pure, ◌>>=◌}
use knuu.Host.{Foreign, Os, Call}

module _ ⦃f : Foreign⦄ ⦃o : Os⦄ where
  unfoldable pub new_random_k8 : Text → Call Text
  new_random_k8 prefix = do uuid ← o.new_uuid; pure (prefix ++ (codes "-" ++ take 8 uuid))
