-- ===== src/Host.antt =====
-- What the program takes from outside this repository: the types of the Kubernetes API that it only
-- stores and passes on, and the operating system. `Outside` is the state of all that is not in the
-- program's memory: the cluster, the files, the clock. A call of the outside reads and changes it.
use knuu.Prelude.{Bool, List, Option, ℕ}
use knuu.Prelude.Text.{Text}
use knuu.Prelude.Int.{ℤ}
use knuu.Errors.{Fault}
use knuu.Action.{Action}

pub record Foreign : Type 1 where
  pub Outside : Type 0
  -- resource.Quantity, with its zero value, Add, Value and Equal, and resource.MustParse of a quantity
  -- that is written in the program.
  pub Quantity : Type 0
  pub zero_quantity : Quantity
  pub add_quantity : Quantity → Quantity → Quantity
  pub quantity_value : Quantity → ℤ
  pub equal_quantity : Quantity → Quantity → Bool
  pub must_parse : Text → Quantity
  -- *v1.Probe, *v1.Service and *appv1.ReplicaSet, where the program only stores them.
  pub Probe : Type 0
  pub Service : Type 0
  pub ReplicaSet : Type 0
  -- A value of a type that implements SidecarManager.
  pub Manager : Type 0

-- The fields of a *v1.Pod that pkg/instance reads.
pub record Pod : Type 0 where
  pub name : Text
  pub pod_ip : Text

-- rbacv1.PolicyRule.
pub record PolicyRule : Type 0 where
  pub verbs : List Text
  pub api_groups : List Text
  pub resources : List Text
  pub resource_names : List Text
  pub non_resource_urls : List Text

-- os.FileInfo: the size, the permission bits, and whether it is a directory.
pub record FileInfo : Type 0 where
  pub size : ℕ
  pub perm : ℕ
  pub is_dir : Bool

-- What filepath.Walk passes on: a path, whether a directory is there, and its error if there is one.
pub record WalkEntry : Type 0 where
  pub path : Text
  pub is_dir : Bool
  pub failure : Option Fault

-- builder.CacheOptions.
pub record CacheOptions : Type 0 where
  pub enabled : Bool
  pub dir : Text
  pub repo : Text

module _ ⦃f : Foreign⦄ where
  abbrev pub Call : Type 0 → Type 0
  Call A = Action f.Outside A

  -- Packages os, io, path/filepath, time and crypto/sha256 of Go, and the image builder.
  pub record Os : Type 0 where
    -- os.MkdirTemp("", pattern), os.MkdirAll, os.Stat
    pub mkdir_temp : Text → Call Text
    pub mkdir_all : Text → Call (Unit {0})
    pub stat : Text → Call FileInfo
    -- os.Open and Stat of the open file; os.OpenFile(dst, O_CREATE|O_WRONLY, perm); io.Copy(dst, src)
    pub open_file : Text → Call (Unit {0})
    pub stat_open : Text → Call FileInfo
    pub create_file : Text → ℕ → Call (Unit {0})
    pub copy_file : Text → Text → Call (Unit {0})
    pub chmod : Text → ℕ → Call (Unit {0})
    pub read_all : Text → Call Text
    pub write_file : Text → Text → Call (Unit {0})
    -- the contents of the files under a directory, in the order of filepath.Walk
    pub walk_contents : Text → Call (List Text)
    -- filepath.Join of two paths, and filepath.Dir
    pub path_join : Text → Text → Text
    pub path_dir : Text → Text
    -- the calls that filepath.Walk makes for a directory; filepath.Rel of a base and a path
    pub walk : Text → Call (List WalkEntry)
    pub path_rel : Text → Text → Call Text
    -- os.CreateTemp("", pattern), whose path it gives, Write, Chmod and Close of that file, os.Remove and
    -- os.RemoveAll
    pub create_temp : Text → Call Text
    pub write_temp : Text → Text → Call (Unit {0})
    pub chmod_temp : Text → ℕ → Call (Unit {0})
    pub close_temp : Text → Call (Unit {0})
    pub remove : Text → Call (Unit {0})
    pub remove_all : Text → Call (Unit {0})
    -- the hexadecimal digest of SHA-256
    pub sha256_hex : Text → Text
    -- uuid.NewRandom, as text
    pub new_uuid : Call Text
    -- select { case <-ctx.Done(): … case <-time.After(d): … }: whether the context was done
    pub select_done : Call Bool
    -- ctx.Err() of a context that is done
    pub context_error : Fault
    -- os.Getenv
    pub getenv : Text → Text
    -- the port of a listener on ":0"
    pub free_port : Call ℤ
    -- whether there is a builder.Builder, and its Build of an image name, which is the destination too,
    -- a build context, arguments and the options of a cache
    pub has_builder : Bool
    pub build_image : Text → Text → List (Text × Text) → Option CacheOptions → Call (Unit {0})

  -- resource.ParseQuantity.
  pub record Parser : Type 0 where
    pub parse_quantity : Text → Call f.Quantity
