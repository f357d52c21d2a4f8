-- ===== src/Container/Frame.antt =====
-- The operations on a BuilderFactory change no instance.
use knuu.Prelude.{List, refl}
use knuu.Prelude.Text.{Text}
use knuu.Action.Moves.{IsPreorder, Moves, Moves-bind, Moves-gets, Moves-pure, moves_rules}
use knuu.Host.{Foreign, Os}
use knuu.K8s.Types.{Labels}
use knuu.Instance.World.{Ref, Instance, BuilderFactory}
use knuu.Instance.Access.Frame.{Frame, Each, frame_rules, Moves-elsewhere, Each-preorder}
use knuu.Container.{
  factory, edit_factory, allocate_factory, add_cmd_to_builder, add_to_builder, set_env_var,
  set_user, new_builder_factory, make_context, push_builder_image, generate_image_hash,
}

module _ ⦃f : Foreign⦄ {Q : Instance → Instance → Type 0} (q : Frame Q) (b : Ref) where
  pub factory-Each : Moves (Each Q) (factory b)
  unfolding factory
  factory-Each = search (moves_rules, frame_rules)

  edit_factory-Each : (g : BuilderFactory → BuilderFactory) → Moves (Each Q) (edit_factory b g)
  unfolding edit_factory
  edit_factory-Each g = Moves-elsewhere q _ (λ w. refl)

  pub add_cmd_to_builder-Each : (c : List Text) → Moves (Each Q) (add_cmd_to_builder b c)
  unfolding add_cmd_to_builder
  add_cmd_to_builder-Each c = search edit_factory-Each

  pub add_to_builder-Each :
      (src dest chown : Text) → Moves (Each Q) (add_to_builder b src dest chown)
  unfolding add_to_builder
  add_to_builder-Each src dest chown = search edit_factory-Each

  pub set_env_var-Each : (name value : Text) → Moves (Each Q) (set_env_var b name value)
  unfolding set_env_var
  set_env_var-Each name value = search edit_factory-Each

  pub set_user-Each : (user : Text) → Moves (Each Q) (set_user b user)
  unfolding set_user
  set_user-Each user = search edit_factory-Each

module _ ⦃f : Foreign⦄ {Q : Instance → Instance → Type 0} (q : Frame Q) ⦃o : Os⦄ where
  allocate_factory-Each : (a : BuilderFactory) → Moves (Each Q) (allocate_factory a)
  unfolding allocate_factory
  allocate_factory-Each a =
      Moves-bind p _ _ (Moves-gets p _)
        (λ b. Moves-bind p _ _ (Moves-elsewhere q _ (λ w. refl)) (λ _. Moves-pure p b))
    where
      p : IsPreorder (Each Q)
      p = Each-preorder q

  pub new_builder_factory-Each :
      (image dir : Text) (args : Labels) → Moves (Each Q) (new_builder_factory image dir args)
  unfolding new_builder_factory
  new_builder_factory-Each image dir args =
      search (moves_rules, frame_rules, allocate_factory-Each) depth 12

  make_context-Each : (dir : Text) → Moves (Each Q) (make_context dir)
  unfolding make_context
  make_context-Each dir = search (moves_rules, frame_rules)

  pub push_builder_image-Each : (b : Ref) (name : Text) → Moves (Each Q) (push_builder_image b name)
  unfolding push_builder_image
  push_builder_image-Each b name =
      search (moves_rules, frame_rules, factory-Each, edit_factory-Each, make_context-Each) depth 16

  pub generate_image_hash-Each : (b : Ref) → Moves (Each Q) (generate_image_hash b)
  unfolding generate_image_hash
  generate_image_hash-Each b = search (moves_rules, frame_rules, factory-Each)
