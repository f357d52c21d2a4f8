-- ===== src/K8s/Pods/InitCommand.antt =====
-- The command of the init container is a chain of steps, joined by &&.
use knuu.Prelude.{
  ◌≡◌, refl, ap, sym, ◌∙◌, Bool, true, false, List, [], ◌∷◌, ◌++◌, map, any, if◌then◌else◌,
  Bool-cases, inl, inr,
}
use knuu.Prelude.Text.{Text, codes, is_empty, text_eq, join}
use knuu.Prelude.Strings.{trim_suffix, trim_suffix-append, concat, show_int}
use knuu.Host.{Foreign, Os}
use knuu.K8s.Types.{File, Volume}
use knuu.K8s.Pods.{
  knuu_path, and_then, add_file_to_knuu, make_parent, file_commands, copy_volume,
  build_init_container_command,
}

-- Each part with && behind it.
abbrev pub chained : List Text → Text
chained [] = []
chained (s ∷ ss) = (s ++ and_then) ++ chained ss

append_assoc : (a b c : Text) → (a ++ b) ++ c ≡ a ++ (b ++ c)
append_assoc [] b c = refl
append_assoc (x ∷ a) b c = ap (λ t. x ∷ t) (append_assoc a b c)

append_nil : (a : Text) → a ++ [] ≡ a
append_nil [] = refl
append_nil (x ∷ a) = ap (λ t. x ∷ t) (append_nil a)

chained-append : (xs ys : List Text) → chained (xs ++ ys) ≡ chained xs ++ chained ys
chained-append [] ys = refl
chained-append (x ∷ xs) ys =
    rw (chained-append xs ys) (sym (append_assoc (x ++ and_then) (chained xs) (chained ys)))

chained_ends : (s : Text) (ss : List Text) → chained (s ∷ ss) ≡ join and_then (s ∷ ss) ++ and_then
unfolding join
chained_ends s [] = append_nil (s ++ and_then)
chained_ends s (t ∷ ss) = rw (chained_ends t ss) (simp append_assoc)

module _ ⦃f : Foreign⦄ ⦃o : Os⦄ where
  -- What is done for a file, for the files, and for a volume.
  abbrev pub file_steps : File → List Text
  file_steps file =
      let target = o.path_join knuu_path file.dest in
      (codes "cp " ++ (file.dest ++ (codes " " ++ target)))
      ∷ ((if is_empty file.chown
            then []
            else (codes "chown " ++ (file.chown ++ (codes " " ++ target))) ∷ [])
          ++ (if is_empty file.permission
              then []
              else (codes "chmod " ++ (file.permission ++ (codes " " ++ target))) ∷ []))

  file_steps-chained : (file : File) → add_file_to_knuu file ≡ chained (file_steps file)
  file_steps-chained file = elim (Bool-cases (is_empty file.chown)) [
    | inl e ↦ elim (Bool-cases (is_empty file.permission)) [
      | inl e' ↦ rw (e, e') (simp (append_assoc, append_nil))
      | inr e' ↦ rw (e, e') (simp (append_assoc, append_nil))
    ]
    | inr e ↦ elim (Bool-cases (is_empty file.permission)) [
      | inl e' ↦ rw (e, e') (simp (append_assoc, append_nil))
      | inr e' ↦ rw (e, e') (simp (append_assoc, append_nil))
    ]
  ]

  abbrev pub volume_step : Volume → Text
  volume_step volume =
      let target = knuu_path ++ volume.path in
      let owner = show_int volume.owner in
      (codes "if [ -d "
        ++ (volume.path
            ++ (codes " ] && [ \"$(ls -A "
                ++ (volume.path
                    ++ (codes ")\" ]; then mkdir -p "
                        ++ (target
                            ++ (codes " && cp -r "
                                ++ (volume.path
                                    ++ (codes "/* "
                                        ++ (target
                                            ++ (codes " && chown -R "
                                                ++ (owner
                                                    ++ (codes ":"
                                                        ++ (owner
                                                            ++ (codes " " ++ target)))))))))))))))
      ++ codes " ;fi"

  volumes-chained : (vs : List Volume) → concat (map copy_volume vs) ≡ chained (map volume_step vs)
  volumes-chained [] = refl
  volumes-chained (v ∷ vs) = rw (volumes-chained vs) (simp append_assoc)

  -- The directory of each file is made before the first file in it.
  abbrev pub files_steps : List Text → List File → List Text
  files_steps seen [] = []
  files_steps seen (file ∷ files) = elim (any (text_eq (o.path_dir file.dest)) seen) [
    | true ↦ file_steps file ++ files_steps seen files
    | false ↦
        (codes "mkdir -p " ++ (knuu_path ++ o.path_dir file.dest))
        ∷ (file_steps file ++ files_steps (o.path_dir file.dest ∷ seen) files)
  ]

  seen_steps :
      (file : File) (cs : List Text) (ss : List Text)
      → concat cs ≡ chained ss
      → concat (add_file_to_knuu file ∷ cs) ≡ chained (file_steps file ++ ss)
  seen_steps file cs ss h =
      ap (λ t. t ++ concat cs) (file_steps-chained file)
      ∙ (ap (λ t. chained (file_steps file) ++ t) h ∙ sym (chained-append (file_steps file) ss))

  new_steps :
      (file : File) (cs : List Text) (ss : List Text)
      → concat cs ≡ chained ss
      → concat (make_parent (o.path_dir file.dest) ∷ add_file_to_knuu file ∷ cs)
        ≡ chained
            ((codes "mkdir -p " ++ (knuu_path ++ o.path_dir file.dest)) ∷ (file_steps file ++ ss))
  new_steps file cs ss h = rw (sym (seen_steps file cs ss h)) (simp append_assoc)

  chosen :
      (b : Bool) (file : File) (cs cs' ss ss' : List Text)
      → concat cs ≡ chained ss
      → concat cs' ≡ chained ss'
      → concat (elim b [
        | true ↦ add_file_to_knuu file ∷ cs
        | false ↦ make_parent (o.path_dir file.dest) ∷ add_file_to_knuu file ∷ cs'
      ])
        ≡ chained (elim b [
          | true ↦ file_steps file ++ ss
          | false ↦
              (codes "mkdir -p " ++ (knuu_path ++ o.path_dir file.dest)) ∷ (file_steps file ++ ss')
        ])
  chosen true file cs cs' ss ss' h h' = seen_steps file cs ss h
  chosen false file cs cs' ss ss' h h' = new_steps file cs' ss' h'

  files-chained :
      (seen : List Text) (files : List File)
      → concat (file_commands seen files) ≡ chained (files_steps seen files)
  unfolding file_commands
  files-chained seen [] = refl
  files-chained seen (file ∷ files) =
      let seen' = o.path_dir file.dest ∷ seen in
      chosen (any (text_eq (o.path_dir file.dest)) seen) file (file_commands seen files)
        (file_commands seen' files) (files_steps seen files) (files_steps seen' files)
        (files-chained seen files) (files-chained seen' files)

  concat-append : (xs ys : List Text) → concat (xs ++ ys) ≡ concat xs ++ concat ys
  concat-append [] ys = refl
  concat-append (x ∷ xs) ys =
      rw (concat-append xs ys) (sym (append_assoc x (concat xs) (concat ys)))

  rest-chained :
      (vs : List Volume) (fs : List File)
      → concat (file_commands [] fs ++ map copy_volume vs)
        ≡ chained (files_steps [] fs ++ map volume_step vs)
  rest-chained vs fs =
      rw
        (
          concat-append (file_commands [] fs) (map copy_volume vs),
          files-chained [] fs,
          volumes-chained vs,
        )
        (sym (chained-append (files_steps [] fs) (map volume_step vs)))

  abbrev pub all_steps : List Volume → List File → List Text
  all_steps vs fs = (codes "mkdir -p " ++ knuu_path) ∷ (files_steps [] fs ++ map volume_step vs)

  commands-chained :
      (vs : List Volume) (fs : List File)
      → concat (
          codes "set -xe && "
          ∷ (codes "mkdir -p " ++ (knuu_path ++ and_then))
          ∷ (file_commands [] fs ++ map copy_volume vs))
        ≡ join and_then (codes "set -xe" ∷ all_steps vs fs) ++ and_then
  commands-chained vs fs =
      rw (rest-chained vs fs) refl ∙ chained_ends (codes "set -xe") (all_steps vs fs)

  -- buildInitContainerCommand gives the shell the steps of the files and of the volumes, after those
  -- that set it up, joined by && with none left at the end.
  pub build_init_container_command-join :
      (vs : List Volume) (fs : List File)
      → build_init_container_command vs fs
        ≡ codes "sh" ∷ codes "-c" ∷ join and_then (codes "set -xe" ∷ all_steps vs fs) ∷ []
  unfolding build_init_container_command
  build_init_container_command-join vs fs =
      ap (λ t. codes "sh" ∷ codes "-c" ∷ t ∷ [])
        (ap (trim_suffix and_then) (commands-chained vs fs)
          ∙ trim_suffix-append and_then (join and_then (codes "set -xe" ∷ all_steps vs fs)))
