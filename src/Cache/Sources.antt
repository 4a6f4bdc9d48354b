-- ===== src/Cache/Sources.antt =====
-- internal/cache/servercache.go, internal/cache/lbtypecache.go and internal/cache/context.go: the two
-- caches that the program has, and the subsystem that a request is counted for.
use hcloud_cloud_controller.Common.{ℤ, String, Option, none, some, List, Exec, Time, Duration}
use hcloud_cloud_controller.Cache.{Cache, Source, Mode, new_cache}
use hcloud_cloud_controller.Instances.Data.{CloudServer}

-- What hcloud-go's client offers for one kind of entry.
pub record EntryClient (W E T : Type 0) : Type 0 where
  pub get_by_id : ℤ → Exec W E (Option T)
  pub get_by_name : String → Exec W E (Option T)
  pub all : Exec W E (List T)

-- `hcloud.LoadBalancerType`, as far as it is used.
pub record LoadBalancerType : Type 0 where
  pub id : ℤ
  pub name : String

-- A cache comes with the functions that it was made from.
unfoldable pub new_server_cache :
    {W E : Type 0}
    → EntryClient W E CloudServer
    → (W → Time × W)
    → Mode
    → Duration
    → Source W E CloudServer × Cache CloudServer
unfolding new_cache
new_server_cache client now default_mode default_max_age = (
  record {
    fetch_one_by_id = λ id. client.get_by_id id;
    fetch_one_by_name = λ name. client.get_by_name name;
    fetch_all = client.all;
    get_id = λ value. value.id;
    get_name = λ value. value.name;
    now = now;
  },
  new_cache default_mode default_max_age,
)

unfoldable pub new_load_balancer_type_cache :
    {W E : Type 0}
    → EntryClient W E LoadBalancerType
    → (W → Time × W)
    → Mode
    → Duration
    → Source W E LoadBalancerType × Cache LoadBalancerType
unfolding new_cache
new_load_balancer_type_cache client now default_mode default_max_age = (
  record {
    fetch_one_by_id = λ id. client.get_by_id id;
    fetch_one_by_name = λ name. client.get_by_name name;
    fetch_all = client.all;
    get_id = λ value. value.id;
    get_name = λ value. value.name;
    now = now;
  },
  new_cache default_mode default_max_age,
)

-- The context, as far as it is used: the subsystem, none if it was not set.
abbrev pub Context : Type 0
Context = Option String

unfoldable pub set_subsystem : Context → String → Context
set_subsystem ctx subsystem = some subsystem

unfoldable pub get_subsystem : Context → String
get_subsystem none = "none"
get_subsystem (some result) = result
