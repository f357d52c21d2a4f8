-- ===== src/Instance/Storage/Frame.antt =====
-- The operations on the storage change the storage of one instance, its factory and the outside.
use knuu.Prelude.{ℕ, Option, none, some, List, [], ◌∷◌}
use knuu.Prelude.Text.{Text}
use knuu.Prelude.Int.{ℤ}
use knuu.Errors.{Fault, Result, ok, err, panic}
use knuu.Action.Moves.{Moves, moves_rules}
use knuu.Host.{Foreign, Os, FileInfo, WalkEntry}
use knuu.K8s.Types.{KubeManager, Volume, File}
use knuu.Instance.State.{State}
use knuu.Instance.World.{Ref, Instance}
use knuu.Instance.Access.Frame.{Frame, Each, frame_rules}
use knuu.Instance.Build.Frame.{get_build_dir-Each, add_file_to_builder-Each}
use knuu.Instance.Storage.{
  check_state_for_adding_file, validate_file_args, add_volume_with_owner, add_volume, src_exists,
  existing_folder, add_entry, add_folder, add_file_bytes, check_src_exists, copy_file_to_build_dir,
  existing_file, size_of, sum_sizes, add_file_to_instance, place_file, add_file, file_data,
  deploy_volume, destroy_volume, destroy_files, deploy_files,
}

module _ ⦃f : Foreign⦄ {Q : Instance → Instance → Type 0} (q : Frame Q) where
  check_state-Each : (i : Ref) → Moves (Each Q) (check_state_for_adding_file i)
  unfolding check_state_for_adding_file
  check_state-Each i = search frame_rules

  validate_file_args-Each :
      (src dest chown : Text) → Moves (Each Q) (validate_file_args src dest chown)
  unfolding validate_file_args
  validate_file_args-Each src dest chown = search (moves_rules, frame_rules) depth 16

  module _
      (volumes : (a : Instance) (vs : List Volume)
        → Q a (record a { storage = record (a.storage) { volumes = vs } })) where
    pub add_volume_with_owner-Each :
        (i : Ref) (path : Text) (size : f.Quantity) (owner : ℤ)
        → Moves (Each Q) (add_volume_with_owner i path size owner)
    unfolding add_volume_with_owner
    add_volume_with_owner-Each i path size owner =
        search (moves_rules, frame_rules, volumes) depth 12

    pub add_volume-Each :
        (i : Ref) (path : Text) (size : f.Quantity) → Moves (Each Q) (add_volume i path size)
    unfolding add_volume
    add_volume-Each i path size =
        search (moves_rules, frame_rules, add_volume_with_owner-Each) depth 12

  module _ ⦃o : Os⦄ where
    src_exists-Each : (r : Result FileInfo) → Moves (Each Q) (src_exists r)
    src_exists-Each (ok info) = search (moves_rules, frame_rules)
    src_exists-Each (err e) = search (moves_rules, frame_rules)
    src_exists-Each panic = search (moves_rules, frame_rules)

    existing_folder-Each : (r : Result FileInfo) → Moves (Each Q) (existing_folder r)
    existing_folder-Each (ok info) = search (moves_rules, frame_rules)
    existing_folder-Each (err e) = search (moves_rules, frame_rules)
    existing_folder-Each panic = search (moves_rules, frame_rules)

    check_src_exists-Each : (src : Text) → Moves (Each Q) (check_src_exists src)
    unfolding check_src_exists
    check_src_exists-Each src = search (moves_rules, frame_rules, src_exists-Each) depth 12

    copy_file_to_build_dir-Each :
        (i : Ref) (src dest : Text) → Moves (Each Q) (copy_file_to_build_dir i src dest)
    unfolding copy_file_to_build_dir
    copy_file_to_build_dir-Each i src dest =
        search (moves_rules, frame_rules, get_build_dir-Each) depth 24

    existing_file-Each : (r : Result FileInfo) → Moves (Each Q) (existing_file r)
    existing_file-Each (ok info) = search (moves_rules, frame_rules)
    existing_file-Each (err e) = search (moves_rules, frame_rules)
    existing_file-Each panic = search (moves_rules, frame_rules)

    size_of-Each : (path : Text) → Moves (Each Q) (size_of path)
    unfolding size_of
    size_of-Each path = search (moves_rules, frame_rules)

    sum_sizes-Each : (size : ℕ) (files : List File) → Moves (Each Q) (sum_sizes size files)
    unfolding sum_sizes
    sum_sizes-Each size [] = search (moves_rules, frame_rules)
    sum_sizes-Each size (file ∷ files) =
        search (moves_rules, frame_rules, size_of-Each, λ (n : ℕ). sum_sizes-Each n files)

    add_file_to_instance-Each :
        (i : Ref) (src dest chown : Text) → Moves (Each Q) (add_file_to_instance i src dest chown)
    unfolding add_file_to_instance
    add_file_to_instance-Each i src dest chown =
        search (moves_rules, frame_rules, existing_file-Each, size_of-Each, sum_sizes-Each, q.files)
          depth 24

    place_file-Each :
        (i : Ref) (s : State) (src path dest chown : Text)
        → Moves (Each Q) (place_file i s src path dest chown)
    place_file-Each i s src path dest chown =
        search (moves_rules, frame_rules, add_file_to_builder-Each, add_file_to_instance-Each) depth
          16

    pub add_file-Each :
        (i : Ref) (src dest chown : Text) → Moves (Each Q) (add_file i src dest chown)
    unfolding add_file
    add_file-Each i src dest chown =
        search
          (
            moves_rules, frame_rules, check_state-Each, validate_file_args-Each,
            check_src_exists-Each, copy_file_to_build_dir-Each, place_file-Each,
          )
          depth 16

    add_entry-Each :
        (i : Ref) (src dest chown : Text) (entry : WalkEntry) (failure : Option Fault)
        → Moves (Each Q) (add_entry i src dest chown entry failure)
    add_entry-Each i src dest chown entry none =
        search (moves_rules, frame_rules, get_build_dir-Each, add_file-Each) depth 16
    add_entry-Each i src dest chown entry (some fault) = search (moves_rules, frame_rules)

    pub add_folder-Each :
        (i : Ref) (src dest chown : Text) → Moves (Each Q) (add_folder i src dest chown)
    unfolding add_folder
    add_folder-Each i src dest chown =
        search
          (
            moves_rules, frame_rules, get_build_dir-Each, validate_file_args-Each,
            existing_folder-Each, add_entry-Each,
          )
          depth 24

    pub add_file_bytes-Each :
        (i : Ref) (content dest chown : Text) → Moves (Each Q) (add_file_bytes i content dest chown)
    unfolding add_file_bytes
    add_file_bytes-Each i content dest chown =
        search (moves_rules, frame_rules, check_state-Each, add_file-Each) depth 24

    file_data-Each : (n : ℕ) (files : List File) → Moves (Each Q) (file_data n files)
    unfolding file_data
    file_data-Each n [] = search (moves_rules, frame_rules)
    file_data-Each n (file ∷ files) =
        search (moves_rules, frame_rules, λ (m : ℕ). file_data-Each m files) depth 16

  module _ ⦃k : KubeManager⦄ (i : Ref) where
    pub deploy_volume-Each : Moves (Each Q) (deploy_volume i)
    unfolding deploy_volume
    deploy_volume-Each = search (moves_rules, frame_rules) depth 16

    pub destroy_volume-Each : Moves (Each Q) (destroy_volume i)
    unfolding destroy_volume
    destroy_volume-Each = search (moves_rules, frame_rules)

    pub destroy_files-Each : Moves (Each Q) (destroy_files i)
    unfolding destroy_files
    destroy_files-Each = search (moves_rules, frame_rules)

    pub deploy_files-Each : ⦃o : Os⦄ → Moves (Each Q) (deploy_files i)
    unfolding deploy_files
    deploy_files-Each = search (moves_rules, frame_rules, file_data-Each) depth 16
