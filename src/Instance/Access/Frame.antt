-- ===== src/Instance/Access/Frame.antt =====
-- What an operation leaves alone, instance by instance. `Q a b` is a relation between an instance
-- before and after, and `Frame Q` says which parts of an instance it does not look at.
use knuu.Prelude.{◌≡◌, ◌==◌, ==_iff, Option, some, none, List, inl, inr, Bool-cases}
use knuu.Errors.Codes.{InstanceCode}
use knuu.Action.{modify}
use knuu.Action.Moves.{
  IsPreorder, Moves, Moves-pure, Moves-crash, Moves-gets, Moves-bind, Moves-require, Moves-modify,
}
use knuu.Host.{Foreign, Call}
use knuu.K8s.Types.{File}
use knuu.Instance.State.{State}
use knuu.Instance.World.{
  Ref, Instance, World, Build, Security, Resources, Monitoring, call, edit_instance,
}
use knuu.Instance.Access.{self, edit, require_state, set_state, labels, deref}

module _ ⦃f : Foreign⦄ where
  pub record Frame (Q : Instance → Instance → Type 0) : Type 0 where
    pub same : (a : Instance) → Q a a
    pub chain : {a b c : Instance} → Q a b → Q b c → Q a c
    pub build : (a : Instance) (x : Build) → Q a (record a { build = x })
    pub resources : (a : Instance) (x : Resources) → Q a (record a { resources = x })
    pub monitoring : (a : Instance) (x : Monitoring) → Q a (record a { monitoring = x })
    pub security : (a : Instance) (x : Security) → Q a (record a { security = x })
    pub service :
        (a : Instance) (x : Option f.Service)
        → Q a (record a { network = record (a.network) { kubernetes_service = x } })
    pub files :
        (a : Instance) (x : List File)
        → Q a (record a { storage = record (a.storage) { files = x } })
    pub replica_set :
        (a : Instance) (x : Option f.ReplicaSet) → Q a (record a { kubernetes_replica_set = x })
    pub parent : (a : Instance) (x : Option Ref) → Q a (record a { parent_instance = x })

  pub record Each (Q : Instance → Instance → Type 0) (w w' : World) : Type 0 where
    pub at : (j : Ref) → Q (w.instances j) (w'.instances j)

  module _ {Q : Instance → Instance → Type 0} (q : Frame Q) where
    pub Each-preorder : IsPreorder (Each Q)
    Each-preorder = record {
      same = λ w. record { at = λ j. q.same (w.instances j) };
      chain = λ r s. record { at = λ j. q.chain (r.at j) (s.at j) };
    }

    pub edit-at :
        (i j : Ref) (g : Instance → Instance) (w : World)
        → ((a : Instance) → Q a (g a))
        → Q (w.instances j) ((edit_instance i g w).instances j)
    edit-at i j g w h = elim (Bool-cases (i == j)) [
      | inl e ↦ rw e (rw ((==_iff i j).0 e) (h (w.instances j)))
      | inr e ↦ rw e (q.same (w.instances j))
    ]

    pub Moves-edit :
        (i : Ref) (g : Instance → Instance)
        → ((a : Instance) → Q a (g a))
        → Moves (Each Q) (edit i g)
    unfolding edit
    Moves-edit i g h =
        Moves-modify (edit_instance i g) (λ w. record { at = λ j. edit-at i j g w h })

    pub Moves-call : {A : Type 0} (c : Call A) → Moves (Each Q) (call c)
    unfolding call
    Moves-call c = record { at = λ w. record { at = λ j. q.same (w.instances j) } }

    pub Moves-self : (i : Ref) → Moves (Each Q) (self i)
    unfolding self
    Moves-self i = Moves-gets Each-preorder (λ w. w.instances i)

    pub Moves-labels : (i : Ref) → Moves (Each Q) (labels i)
    unfolding labels
    Moves-labels i = Moves-gets Each-preorder _

    pub Moves-deref : {A : Type 0} (o : Option A) → Moves (Each Q) (deref o)
    unfolding deref
    Moves-deref none = Moves-crash Each-preorder
    Moves-deref (some a) = Moves-pure Each-preorder a

    pub Moves-require_state :
        (i : Ref) (states : List State) (c : InstanceCode)
        → Moves (Each Q) (require_state i states c)
    unfolding require_state
    Moves-require_state i states c =
        Moves-bind Each-preorder (self i) _ (Moves-self i) (λ inst. Moves-require Each-preorder _ _)

    -- A change of the world that leaves the instances alone.
    pub Moves-elsewhere :
        (g : World → World)
        → ((w : World) → (g w).instances ≡ w.instances)
        → Moves (Each Q) (modify g)
    Moves-elsewhere g h =
        Moves-modify g (λ w. record { at = λ j. rw (h w) (q.same (w.instances j)) })

  module _ {Q : Instance → Instance → Type 0} (q : Frame Q) (s : State)
      (sets : (a : Instance) → Q a (record a { state = s })) where
    pub set_state-Each : (i : Ref) → Moves (Each Q) (set_state i s)
    unfolding set_state
    set_state-Each i = Moves-edit q i _ sets

pub ruleset frame_rules = (
  Each-preorder, Moves-edit, Moves-call, Moves-self, Moves-labels, Moves-deref, Moves-require_state,
)
