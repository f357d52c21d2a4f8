-- ===== src/Instance/Storage.antt =====
-- storage.go: the volumes and files of an instance. The reading of files out of an
-- instance is in Reading.
pub mod Frame
pub mod Reading
use knuu.Prelude.{
  ℕ, zero, suc, ◌+◌, ◌*◌, Bool, true, false, not, ◌&&◌, ◌||◌, Option, none, some, List, [], ◌∷◌,
  ◌++◌, ltb, leb, ◌==◌, length,
}
use knuu.Prelude.Text.{Text, codes, is_empty, contains, split, decimal, octal, digits_value}
use knuu.Prelude.Int.{ℤ, pos}
use knuu.Errors.{Fault, Result, ok, err, panic, foreign, is_missing}
use knuu.Errors.Codes.{
  adding_folder_not_allowed, src_does_not_exist_or_is_not_directory, copying_folder_to_instance,
  src_must_be_set, dest_must_be_set, chown_must_be_set, chown_must_be_in_format_user_group,
  failed_to_convert_to_int64, adding_file_not_allowed, src_does_not_exist, getting_build_dir,
  creating_directory, failed_to_open_src_file, failed_to_get_src_file_info,
  failed_to_create_dest_file, failed_to_copy_file, failed_to_set_permissions,
  failed_to_get_file_size, file_too_large_committed, src_does_not_exist_or_is_directory,
  total_files_size_too_large, maximum_volumes_exceeded, adding_volume_not_allowed,
  failed_to_check_persistent_volume_claim, failed_to_create_persistent_volume_claim,
  failed_to_delete_persistent_volume_claim, failed_to_open_file, failed_to_read_file,
  failed_to_create_config_map, failed_to_delete_config_map,
}
use knuu.Action.{Action, pure, throw, attempt, deferring, when, each, crash, ◌>>=◌, ◌>>◌}
use knuu.Host.{Foreign, Os, FileInfo, WalkEntry}
use knuu.K8s.Types.{KubeManager, Volume, File, Labels}
use knuu.Instance.State
use knuu.Instance.State.{State, state_eq, is_in_state}
use knuu.Instance.World.{Ref, World, Instance, Storage, call}
use knuu.Instance.Access.{
  configurable, fail, fail_over, or_wrap, guard, self, edit, require_state, labels,
}
use knuu.Instance.Build.{get_build_dir, add_file_to_builder}

abbrev pub max_total_files_bytes : ℕ
max_total_files_bytes = 1024 * 1024

-- strconv.ParseInt(s, 10, 64) succeeds: an optional sign, then decimal digits, in range.
abbrev below : ℕ → Option ℕ → Bool
below top none = false
below top (some n) = leb n top

digits_ok : ℕ → Text → Bool
digits_ok top s = not (is_empty s) && below top (digits_value 0 s)

is_int64_signed : ℕ → Text → Bool
unfolding digits_ok digits_value
is_int64_signed c s =
    (c == b'-' && digits_ok 9223372036854775808 s)
    || (c == b'+' && digits_ok 9223372036854775807 s)
    || digits_ok 9223372036854775807 (c ∷ s)

unfoldable pub is_int64 : Text → Bool
unfolding is_int64_signed
is_int64 [] = false
is_int64 (c ∷ s) = is_int64_signed c s

abbrev pub no_volumes {ℓ} : {A : Type ℓ} → List A → Bool
no_volumes [] = true
no_volumes (v ∷ vs) = false

module _ ⦃f : Foreign⦄ where
  -- make and copy: new slices of pointers to equal copies; the program stores no nil pointer in them.
  pub clone : Storage → Storage
  clone s = record { volumes = s.volumes; files = s.files }

  abbrev edit_storage : Ref → (Storage → Storage) → Action World (Unit {0})
  edit_storage i g = edit i (λ inst. record inst { storage = g inst.storage })

  unfoldable pub check_state_for_adding_file : Ref → Action World (Unit {0})
  check_state_for_adding_file i = require_state i configurable adding_file_not_allowed

  pub validate_file_args : Text → Text → Text → Action World (Unit {0})
  unfolding split
  validate_file_args src dest chown = do
    guard (not (is_empty src)) src_must_be_set
    guard (not (is_empty dest)) dest_must_be_set
    guard (not (is_empty chown)) chown_must_be_set
    guard (contains b':' chown && (length (split b':' chown) == 2))
        chown_must_be_in_format_user_group
    each (λ part. guard (is_int64 part) failed_to_convert_to_int64) (split b':' chown)

  unfoldable pub add_volume_with_owner : Ref → Text → f.Quantity → ℤ → Action World (Unit {0})
  add_volume_with_owner i path size owner = do
    require_state i configurable adding_volume_not_allowed
    inst ← self i
    guard (no_volumes inst.storage.volumes) maximum_volumes_exceeded
    edit_storage i λ s. record s {
      volumes = s.volumes ++ record { path = path; size = size; owner = owner } ∷ [];
    }

  unfoldable pub add_volume : Ref → Text → f.Quantity → Action World (Unit {0})
  unfolding add_volume_with_owner
  add_volume i path size = do
    inst ← self i
    guard (no_volumes inst.storage.volumes) maximum_volumes_exceeded
    add_volume_with_owner i path size (pos 0)

  module _ ⦃o : Os⦄ where
    -- An error of os.Stat other than IsNotExist is passed over.
    abbrev src_exists : Result FileInfo → Action World (Unit {0})
    src_exists (ok info) = pure tt
    src_exists (err e) = when (is_missing e) (fail_over src_does_not_exist e) (pure tt)
    src_exists panic = crash

    check_src_exists : Text → Action World (Unit {0})
    check_src_exists src = do found ← attempt (call (o.stat src)); src_exists found

    pub copy_file_to_build_dir : Ref → Text → Text → Action World Text
    copy_file_to_build_dir i src dest = do
      build_dir ← or_wrap getting_build_dir (get_build_dir i)
      let dst_path = o.path_join build_dir dest
      or_wrap creating_directory (call (o.mkdir_all (o.path_dir dst_path)))
      or_wrap failed_to_open_src_file (call (o.open_file src))
      src_info ← or_wrap failed_to_get_src_file_info (call (o.stat_open src))
      or_wrap failed_to_create_dest_file (call (o.create_file dst_path src_info.perm))
      or_wrap failed_to_copy_file (call (o.copy_file dst_path src))
      or_wrap failed_to_set_permissions (call (o.chmod dst_path src_info.perm))
      pure dst_path

    -- os.IsNotExist(err) || srcInfo.IsDir(): on any other error `srcInfo` is nil.
    abbrev existing_file : Result FileInfo → Action World FileInfo
    existing_file (ok info) = when info.is_dir (fail src_does_not_exist_or_is_directory) (pure info)
    existing_file (err e) =
        when (is_missing e) (fail_over src_does_not_exist_or_is_directory e) crash
    existing_file panic = crash

    size_of : Text → Action World ℕ
    size_of path = do info ← or_wrap failed_to_get_file_size (call (o.stat path)); pure info.size

    -- The loop that adds the sizes of the files of the instance to `size`.
    sum_sizes : ℕ → List File → Action World ℕ
    sum_sizes size [] = pure size
    sum_sizes size (file ∷ files) = do s ← size_of file.source; sum_sizes (size + s) files

    pub add_file_to_instance : Ref → Text → Text → Text → Action World (Unit {0})
    unfolding size_of sum_sizes
    add_file_to_instance i src_path dest chown = do
      found ← attempt (call (o.stat src_path))
      src_info ← existing_file found
      inst ← self i
      before ← sum_sizes 0 inst.storage.files
      added ← size_of src_path
      guard (leb (before + added) max_total_files_bytes) total_files_size_too_large
      edit_storage i λ s. record s {
        files =
            s.files
            ++ record {
              source = src_path;
              dest = dest;
              chown = chown;
              permission = octal src_info.perm;
            }
              ∷ [];
      }

    -- The same of a directory.
    abbrev pub existing_folder : Result FileInfo → Action World (Unit {0})
    existing_folder (ok info) =
        when info.is_dir (pure tt) (fail src_does_not_exist_or_is_not_directory)
    existing_folder (err e) =
        when (is_missing e) (fail_over src_does_not_exist_or_is_not_directory e) crash
    existing_folder panic = crash

    -- The switch on the state. Its cases are all the states that the first check lets through.
    abbrev place_file : Ref → State → Text → Text → Text → Text → Action World (Unit {0})
    place_file i s src build_path dest chown =
        when (state_eq s State.preparing) (add_file_to_builder i dest chown) (
          when (is_in_state s (State.committed ∷ State.stopped ∷ []))
            (do
              src_info ← or_wrap failed_to_get_file_size (call (o.stat src))
              guard (leb src_info.size max_total_files_bytes) file_too_large_committed
              add_file_to_instance i build_path dest chown)
            (pure tt))

    unfoldable pub add_file : Ref → Text → Text → Text → Action World (Unit {0})
    unfolding check_src_exists
    add_file i src dest chown = do
      check_state_for_adding_file i
      validate_file_args src dest chown
      check_src_exists src
      build_path ← copy_file_to_build_dir i src dest
      inst ← self i
      place_file i inst.state src build_path dest chown

    -- The function that AddFolder gives to filepath.Walk.
    abbrev pub add_entry :
        Ref → Text → Text → Text → WalkEntry → Option Fault → Action World (Unit {0})
    add_entry i src dest chown entry (some fault) = throw (foreign fault)
    add_entry i src dest chown entry none = do
      rel_path ← call (o.path_rel src entry.path)
      build_dir ← or_wrap getting_build_dir (get_build_dir i)
      when entry.is_dir (call (o.mkdir_all (o.path_join (o.path_join build_dir dest) rel_path)))
          (add_file i entry.path (o.path_join dest rel_path) chown)

    unfoldable pub add_folder : Ref → Text → Text → Text → Action World (Unit {0})
    unfolding add_file
    add_folder i src dest chown = do
      require_state i configurable adding_folder_not_allowed
      validate_file_args src dest chown
      found ← attempt (call (o.stat src))
      existing_folder found
      or_wrap copying_folder_to_instance do
        entries ← call (o.walk src)
        each (λ entry. add_entry i src dest chown entry entry.failure) entries
      or_wrap getting_build_dir (get_build_dir i)
      pure tt

    unfoldable pub add_file_bytes : Ref → Text → Text → Text → Action World (Unit {0})
    unfolding add_file
    add_file_bytes i content dest chown = do
      check_state_for_adding_file i
      temp ← call (o.create_temp (codes "temp"))
      deferring (call (o.remove temp)) do
        call (o.write_temp temp content)
        call (o.chmod_temp temp 420)
        call (o.close_temp temp)
        add_file i temp dest chown

    -- The data of the config map: the content of each file under its number.
    pub file_data : ℕ → List File → Action World Labels
    file_data n [] = pure []
    file_data n (file ∷ files) = do
      or_wrap failed_to_open_file (call (o.open_file file.source))
      content ← or_wrap failed_to_read_file (call (o.read_all file.source))
      rest ← file_data (n + 1) files
      pure ((decimal n, content) ∷ rest)

  module _ ⦃k : KubeManager⦄ where
    abbrev pub total_size : List Volume → f.Quantity → f.Quantity
    total_size [] sum = sum
    total_size (v ∷ vs) sum = total_size vs (f.add_quantity sum v.size)

    pub deploy_volume : Ref → Action World (Unit {0})
    deploy_volume i = do
      inst ← self i
      exists ←
          or_wrap failed_to_check_persistent_volume_claim (call (k.volume_claim_exists inst.name))
      when exists (pure tt) do
        ls ← labels i
        or_wrap failed_to_create_persistent_volume_claim (
            call (
              k.create_volume_claim inst.name ls (total_size inst.storage.volumes f.zero_quantity)))

    unfoldable pub destroy_volume : Ref → Action World (Unit {0})
    destroy_volume i = do
      inst ← self i
      or_wrap failed_to_delete_persistent_volume_claim (call (k.delete_volume_claim inst.name))

    unfoldable pub destroy_files : Ref → Action World (Unit {0})
    destroy_files i = do
      inst ← self i
      or_wrap failed_to_delete_config_map (call (k.delete_config_map inst.name))

    pub deploy_files : ⦃o : Os⦄ → Ref → Action World (Unit {0})
    unfolding file_data
    deploy_files i = do
      inst ← self i
      contents ← file_data 0 inst.storage.files
      ls ← labels i
      or_wrap failed_to_create_config_map
          (call (k.create_or_update_config_map inst.name ls contents))
