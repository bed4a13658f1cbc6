-- ===== src/Plugins/Loader.antt =====
-- pwnproxy/plugins/core/loader.py: UniversalPluginLoader and PluginLoader over the bus of
-- Bus/Hooks. A task is its number; `running` is the tasks that were created and not cancelled, with
-- what each consumes. The plugins that are discovered, and what their own code does, are arguments;
-- importing, the events that the consumers handle and the storage of findings are left out.
pub mod Tasks
use Prim.Native.String.{◌++◌ as ◌<>◌}
use text.Mathlib.Text.{starts_with}
use pwnproxy.Prelude.{
  ℕ, ◌+◌, String, Bool, true, false, not, ◌&&◌, Option, none, some, List, [], ◌∷◌, ◌++◌, map,
  any_of, keep_if, ◌==◌, nat_eq, string_eq, if◌then◌else◌,
}
use pwnproxy.Dict.{Dict, get, get_or, put, remove}
use pwnproxy.Bus.Hooks.{HookBus, register_channel}

-- a plugin: its metadata, its class and which handlers it has
pub record Plugin : Type 0 where
  pub name : String
  pub class_name : String
  pub consumes : List String
  pub produces : List String
  pub disabled : Bool
  pub on_finding : Bool
  pub on_surface : Bool
  pub on_evidence : Bool
  pub on_flow : Bool

pub record Task : Type 0 where
  pub number : ℕ
  pub plugin : String
  pub consume_type : String

pub record Loader : Type 0 where
  pub hook_bus : HookBus
  pub plugins : Dict String Plugin
  pub plugin_tasks : Dict String ℕ
  pub running : List Task
  pub created : ℕ

abbrev pub new_loader : HookBus → Loader
new_loader bus = record {
  hook_bus = bus;
  plugins = [];
  plugin_tasks = [];
  running = [];
  created = 0;
}

abbrev has : String → List String → Bool
has x xs = any_of (λ y. y == x) xs

-- `_implicit_consumes`
unfoldable pub implicit_consumes : Plugin → List String
implicit_consumes p =
    (if p.on_finding && not (has "finding" p.consumes) then "finding" ∷ [] else [])
    ++ ((if p.on_surface && not (has "surface" p.consumes) then "surface" ∷ [] else [])
        ++ (if p.on_evidence && not (has "evidence" p.consumes) then "evidence" ∷ [] else []))

unfoldable pub all_consumes : Plugin → List String
all_consumes p = p.consumes ++ implicit_consumes p

-- `metadata.name or plugin.__class__.__name__`
abbrev pub plugin_name : Plugin → String
plugin_name p = if p.name == "" then p.class_name else p.name

abbrev register_each : Dict String String → List String → HookBus → HookBus
register_each mapping [] bus = bus
register_each mapping (t ∷ ts) bus =
    register_each mapping ts (register_channel (get_or mapping t t) bus)

unfoldable pub load : Plugin → Dict String String → Loader → Loader
load p mapping l = elim (get l.plugins (plugin_name p)) [
  | some _ ↦ l
  | none ↦ record l {
    hook_bus = register_each mapping p.produces l.hook_bus;
    plugins = put l.plugins (plugin_name p) p;
  }
]

-- f"{name}_{consume_type}"
abbrev pub task_key : String → String → String
task_key name consume_type = name <> ("_" <> consume_type)

-- a task is created and stored under its key
unfoldable pub start_task : String → String → Loader → Loader
start_task name consume_type l = record l {
  plugin_tasks = put l.plugin_tasks (task_key name consume_type) l.created;
  running =
      l.running ++ record { number = l.created; plugin = name; consume_type = consume_type } ∷ [];
  created = l.created + 1;
}

unfoldable pub start_tasks : String → List String → Loader → Loader
start_tasks name [] l = l
start_tasks name (c ∷ cs) l = start_tasks name cs (start_task name c l)

abbrev load_each : List Plugin → Loader → Loader
load_each [] l = l
load_each (p ∷ ps) l = load_each ps (load p [] l)

unfoldable pub start_each : List (String × Plugin) → Loader → Loader
start_each [] l = l
start_each ((name, p) ∷ ps) l = start_each ps (start_tasks name (all_consumes p) l)

-- the plugins that a start is about
abbrev to_start : Option String → Loader → List (String × Plugin)
to_start none l = l.plugins
to_start (some name) l = elim (get l.plugins name) [ none ↦ [] | some p ↦ (name, p) ∷ [] ]

-- `start`, past the discovery of these scanners
unfoldable pub start : List Plugin → Option String → Loader → Loader
start scanners name l = let found = load_each scanners l in start_each (to_start name found) found

-- the tasks whose key begins with f"{name}_" are taken out and cancelled
abbrev pub is_prefixed : String → String → Bool
is_prefixed name key = starts_with key (name <> "_")

abbrev pub is_cancelled : String → Dict String ℕ → Task → Bool
is_cancelled name tasks t = any_of (λ e. is_prefixed name e.0 && e.1 == t.number) tasks

unfoldable pub cancel_tasks : String → Loader → Loader
cancel_tasks name l = record l {
  plugin_tasks = keep_if (λ e. not (is_prefixed name e.0)) l.plugin_tasks;
  running = keep_if (λ t. not (is_cancelled name l.plugin_tasks t)) l.running;
}

unfoldable pub unload : String → Loader → Loader
unload name l = elim (get l.plugins name) [
  | none ↦ l
  | some _ ↦ let m = cancel_tasks name l in record m { plugins = remove m.plugins name }
]

abbrev unload_each : List (String × Plugin) → Loader → Loader
unload_each [] l = l
unload_each ((name, _) ∷ ps) l = unload_each ps (unload name l)

unfoldable pub shutdown : Loader → Loader
shutdown l = unload_each l.plugins l

abbrev pub set_disabled : String → Plugin → Bool → Loader → Loader
set_disabled name p b l = record l { plugins = put l.plugins name (record p { disabled = b }) }

unfoldable pub activate_plugin : String → Option Plugin → Loader → Bool × Loader
activate_plugin name none l = (false, l)
activate_plugin name (some p) l =
    if not p.disabled
    then (true, l)
    else (true, start_tasks name (all_consumes p) (set_disabled name p false l))

unfoldable pub activate : String → Loader → Bool × Loader
activate name l = activate_plugin name (get l.plugins name) l

unfoldable pub deactivate_plugin : String → Option Plugin → Loader → Bool × Loader
deactivate_plugin name none l = (false, l)
deactivate_plugin name (some p) l =
    if p.disabled then (true, l) else (true, cancel_tasks name (set_disabled name p true l))

unfoldable pub deactivate : String → Loader → Bool × Loader
deactivate name l = deactivate_plugin name (get l.plugins name) l

abbrev keys_of : List (String × Plugin) → List String
keys_of ps = map (λ e. e.0) ps

unfoldable pub list_plugins : Loader → List String
list_plugins l = keys_of l.plugins

unfoldable pub list_active : Loader → List Plugin
list_active l = map (λ e. e.1) (keep_if (λ e. not e.1.disabled) l.plugins)

-- the names under "disabled"
unfoldable pub watchdog_stats : Loader → List String
watchdog_stats l = keys_of (keep_if (λ e. e.1.disabled) l.plugins)

unfoldable pub get_all_scanners : Loader → Dict String Plugin
get_all_scanners l = keep_if (λ e. e.1.on_flow) l.plugins
